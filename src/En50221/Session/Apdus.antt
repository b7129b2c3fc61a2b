-- ===== src/En50221/Session/Apdus.antt =====
-- The application messages of a package.
use dvb_apps.Common.{
  ℕ, zero, suc, ◌+◌, ◌-◌, ◌^◌, ◌≤◌, ◌<◌, ◌≡◌, refl, sym, ap, subst, ◌∙◌, ◌≢◌, ◌⊎◌, inl, inr, List,
  [], ◌∷◌, ◌++◌, map, append_assoc, arith, ◌==◌, bool_rule, length, take, drop, All, length-append,
  length-take, length-drop, take-length_append, drop-length_append, take-add, Result, ok, fail,
  fault, ◌>>=◌, Returns, Returns-bind, Safe,
}
use mathlib.Core.List.{flatten}
use dvb_apps.En50221.Asn1.{asn_1_decode}
use dvb_apps.En50221.Transport.Frame.{length_field, length_field_lem, decode-Safe}
use dvb_apps.En50221.Session.Receive.{apdu_length, apdus}

-- A message: a tag of three bytes, a length and the body.
abbrev pub apdu_bytes : ℕ × ℕ × ℕ → List ℕ → List ℕ
apdu_bytes (p, q, r) body = p ∷ q ∷ r ∷ (length_field (length body) ++ body)

apdu_length_lem :
    (tag : ℕ × ℕ × ℕ) (body rest : List ℕ)
    → length body < 2 ^ 16
    → apdu_length (apdu_bytes tag body ++ rest) ≡ ok (length (apdu_bytes tag body))
unfolding apdu_length
apdu_length_lem (p, q, r) body rest h =
    let field = length_field (length body) in
    let l1 = length-append field body in
    let l2 = length-append (field ++ body) rest in
    let e : asn_1_decode ((field ++ body) ++ rest)
          (length ((p ∷ q ∷ r ∷ (field ++ body)) ++ rest) - 3)
        ≡ ok (length body, length field) =
      ap (λ b. asn_1_decode b (length ((p ∷ q ∷ r ∷ (field ++ body)) ++ rest) - 3))
        (append_assoc field body rest)
      ∙ length_field_lem (length body) (length ((p ∷ q ∷ r ∷ (field ++ body)) ++ rest) - 3)
          (body ++ rest) h (omega (arith, l1, l2)) in
    ground (arith, e, l1, l2)

abbrev pub Message : Type 0
Message = (ℕ × ℕ × ℕ) × List ℕ

abbrev pub message_bytes : Message → List ℕ
message_bytes (tag, body) = apdu_bytes tag body

-- What is behind the last message: nothing, or data that does not start with a message.
abbrev pub IsRest : List ℕ → Type 0
IsRest rest = (rest ≡ []) ⊎ (apdu_length rest ≡ fail)

apdus_cons :
    (fuel : ℕ) (bytes rest : List ℕ)
    → 1 ≤ length bytes
    → apdu_length (bytes ++ rest) ≡ ok (length bytes)
    → apdus (suc fuel) (bytes ++ rest) ≡ (apdus fuel rest >>= λ r. ok (bytes ∷ r))
unfolding apdus
apdus_cons fuel bytes rest l h =
    let n = length-append bytes rest in
    let t = take-length_append bytes rest in
    let d = drop-length_append bytes rest in ground (arith, h, n, t, d)

apdus_rest : (fuel : ℕ) (rest : List ℕ) → IsRest rest → apdus (suc fuel) rest ≡ ok []
unfolding apdus
apdus_rest fuel [] h = refl
apdus_rest fuel (x ∷ rest) (inl e) = ground arith
apdus_rest fuel (x ∷ rest) (inr e) = ground (arith, e)

pub apdus-message_bytes :
    (fuel : ℕ) (ms : List Message) (rest : List ℕ)
    → All (λ m. length (m.1) < 2 ^ 16) ms
    → IsRest rest
    → length (flatten (map message_bytes ms) ++ rest) < fuel
    → apdus fuel (flatten (map message_bytes ms) ++ rest) ≡ ok (map message_bytes ms)
unfolding mathlib.Core.List.flatten
apdus-message_bytes zero ms rest a r h = absurd (omega arith)
apdus-message_bytes (suc fuel) [] rest a r h = apdus_rest fuel rest r
apdus-message_bytes (suc fuel) ((tag, body) ∷ ms) rest a r h =
    let front = apdu_bytes tag body in
    let behind = flatten (map message_bytes ms) in
    let l = length-append front (behind ++ rest) in
    let assoc = append_assoc front behind rest in
    let ih = apdus-message_bytes fuel ms rest (a.1) r (ground (arith, l, ap length assoc)) in
    ap (apdus (suc fuel)) assoc
    ∙ apdus_cons fuel front (behind ++ rest) (omega arith)
        (apdu_length_lem tag body (behind ++ rest) (a.0))
    ∙ ap (λ r. r >>= λ r. ok (front ∷ r)) ih

apdu_length-Safe : (bytes : List ℕ) → Safe (λ n. (3 ≤ n) × (n ≤ length bytes)) (apdu_length bytes)
unfolding apdu_length
apdu_length-Safe bytes =
    let d = decode-Safe (drop 3 bytes) in
    ground (
      arith,
      subst (λ n. Safe (λ r. (1 ≤ r.1) × (r.1 ≤ n)) (asn_1_decode (drop 3 bytes) n))
          (length-drop 3 bytes) d,
    )

-- The messages are the front of the data, cut up.
abbrev pub IsFront : List ℕ → List (List ℕ) → Type 0
IsFront bytes as' = flatten as' ≡ take (length (flatten as')) bytes

IsFront-cons :
    (n : ℕ) (bytes : List ℕ) (as' : List (List ℕ))
    → n ≤ length bytes
    → IsFront (drop n bytes) as'
    → IsFront bytes (take n bytes ∷ as')
unfolding mathlib.Core.List.flatten
IsFront-cons n bytes as' l h =
    let t : length (take n bytes) ≡ n = ground (arith, length-take n bytes) in
    let e : length (take n bytes ++ flatten as') ≡ n + length (flatten as') =
      length-append (take n bytes) (flatten as') ∙ ap (λ k. k + length (flatten as')) t in
    ap (λ r. take n bytes ++ r) h
    ∙ sym (take-add n (length (flatten as')) bytes)
    ∙ ap (λ k. take k bytes) (sym e)

result_rule :
    {A B : Type 0} (P : B → Type 0) (m : Result A) (f : A → B) (x y : B)
    → ((a : A) → m ≡ ok a → P (f a))
    → P x
    → m ≢ fault
    → P (elim m [ ok a ↦ f a | fail ↦ x | fault ↦ y ])
result_rule P (ok a) f x y h hx n = h a refl
result_rule P fail f x y h hx n = hx
result_rule P fault f x y h hx n = absurd (n refl)

-- Whatever the data is, one more fuel than its length is enough, nothing outside it is read, and the
-- messages are its front.
pub apdus-IsFront :
    (fuel : ℕ) (bytes : List ℕ) → length bytes < fuel → Returns (IsFront bytes) (apdus fuel bytes)
unfolding apdus mathlib.Core.List.flatten
apdus-IsFront zero bytes h = absurd (omega arith)
apdus-IsFront (suc fuel) bytes h =
    let size = apdu_length-Safe bytes in
    bool_rule (Returns (IsFront bytes)) (length bytes == 0) _ _ (λ _. refl)
      λ _.
        result_rule (Returns (IsFront bytes)) (apdu_length bytes) _ _ _
          (λ n e.
            let b : (3 ≤ n) × (n ≤ length bytes) =
              subst (Safe (λ n. (3 ≤ n) × (n ≤ length bytes))) e size in
            Returns-bind (IsFront (drop n bytes)) (IsFront bytes) (apdus fuel (drop n bytes)) _
              (apdus-IsFront fuel (drop n bytes) (omega (arith, length-drop n bytes, b)))
              λ as' f. IsFront-cons n bytes as' (b.1) f)
          refl (λ e. subst (Safe (λ n. (3 ≤ n) × (n ≤ length bytes))) e size)
