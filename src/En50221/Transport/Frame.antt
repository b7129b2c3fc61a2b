-- ===== src/En50221/Transport/Frame.antt =====
-- The messages of a read: their bounds, and messages laid out and read back.
use dvb_apps.Common.{
  refl, read-get_or, read-drop, drop-next, ℕ, zero, suc, ◌+◌, ◌-◌, ◌/◌, ◌%◌, ◌^◌, ◌≤◌, ◌<◌, ◌≡◌,
  sym, ap, ap₂, subst, ◌∙◌, inl, inr, Bool, List, [], ◌∷◌, ◌++◌, append_assoc, arith, ltb, ◌==◌,
  if◌then◌else◌, Option-cases, length, get_elem?, get_or, take, drop, length-append, length-drop,
  take-length_append, drop-length_append, drop_cons, ok, ◌>>=◌, Safe, Result-cases, Safe-bind,
  Safe-elim,
}
use dvb_apps.En50221.Transport.{Timeval, Event, Slot, Done}
use dvb_apps.En50221.Transport.Moves.{from_module, Moved-length}
use dvb_apps.En50221.Transport.States.{handle_tpdu-Moved}
use dvb_apps.En50221.Transport.{Done}
use dvb_apps.En50221.Transport.Receive.{Tpdu, tpdu_behind, parse_tpdu, handle_tpdu, process_data}
use dvb_apps.En50221.Asn1.{asn_1_decode}
use dvb_apps.En50221.Asn1.Lengths.{decode-one, decode-two, decode-three}

pub decode-Safe :
    (bytes : List ℕ)
    → Safe (λ r. (1 ≤ r.1) × (r.1 ≤ length bytes)) (asn_1_decode bytes (length bytes))
unfolding asn_1_decode
decode-Safe bytes = ground (arith, read-get_or bytes 0, read-get_or bytes 1, read-get_or bytes 2)

abbrev Shorter : List ℕ → Tpdu → Type 0
Shorter bytes p = length (p.rest) + 3 ≤ length bytes

tpdu_behind-Safe :
    (bytes : List ℕ) (tag n used : ℕ)
    → 1 ≤ used
    → 1 + used ≤ length bytes
    → Safe (Shorter bytes) (tpdu_behind bytes tag n used)
unfolding tpdu_behind
tpdu_behind-Safe bytes tag n used h l = ground (
  arith,
  read-get_or bytes (1 + used),
  length-drop (2 + used) bytes,
  length-drop (n - 1) (drop (2 + used) bytes),
)

-- A header is read inside the data, and each message takes three bytes of it or more.
pub parse_tpdu-Safe : (bytes : List ℕ) → 1 ≤ length bytes → Safe (Shorter bytes) (parse_tpdu bytes)
unfolding parse_tpdu
parse_tpdu-Safe bytes h =
    let back = drop 1 bytes in
    let size : length back ≡ length bytes - 1 = length-drop 1 bytes in
    let P : ℕ × ℕ → Type 0 = λ r. (1 ≤ r.1) × (r.1 ≤ length bytes - 1) in
    subst
      (λ r. Safe (Shorter bytes) (
        r >>= λ tag.
        asn_1_decode back (length bytes - 1) >>= λ r. tpdu_behind bytes tag (r.0) (r.1)))
      (sym (read-get_or bytes 0 (omega arith)))
      (Safe-bind P (Shorter bytes) (asn_1_decode back (length bytes - 1))
        (λ r. tpdu_behind bytes (get_or bytes 0 0) (r.0) (r.1))
        (subst (λ n. Safe (λ r. (1 ≤ r.1) × (r.1 ≤ n)) (asn_1_decode back n)) size
          (decode-Safe back))
        λ r s. tpdu_behind-Safe bytes (get_or bytes 0 0) (r.0) (r.1) (s.0) (omega (arith, s.1)))

-- Whatever the module sends and whatever state the slot is in, the data is read only inside its
-- bounds, and the loop over its messages ends; no connection is lost or added.
pub process_data-Safe :
    (fuel : ℕ) (device : List Event → Bool) (now : Timeval) (bytes : List ℕ) (s : Slot)
    → length bytes < fuel
    → Safe
        (λ r. length (r.1.connections) ≡ length (s.connections))
        (process_data fuel device now bytes s)
unfolding process_data
process_data-Safe zero device now bytes s h = absurd (omega arith)
process_data-Safe (suc fuel) device now bytes s h =
    let P = λ (r : Done). length (r.1.connections) ≡ length (s.connections) in
    Safe-elim P (length bytes == 0) _ _ (λ _. refl)
      λ e.
        let safe : Safe (Shorter bytes) (parse_tpdu bytes) = parse_tpdu-Safe bytes (ground arith) in
        elim (Result-cases (parse_tpdu bytes)) [
          | inl (p, ep) ↦ elim (Option-cases (get_elem? (s.connections) (p.connection_id))) [
            | inl en ↦ ground arith
            | inr (k, ek) ↦
                let r = handle_tpdu device now p k s in
                let m =
                  Moved-length (from_module (p.tag)) (s.connections) (r.1.connections)
                    (handle_tpdu-Moved device now p k s ek) in
                ground (arith, process_data-Safe fuel device now (p.rest) (r.1))
          ]
          | inr (inl ef) ↦ ground arith
          | inr (inr ef) ↦ ground arith
        ]

-- A length field in its shortest form.
abbrev pub length_field : ℕ → List ℕ
length_field n =
    if ltb n 0x80
    then n ∷ []
    else if ltb n 0x100
    then 0x81 ∷ n ∷ []
    else 0x82 ∷ n / 2 ^ 8 ∷ n % 2 ^ 8 ∷ []

-- A whole message.
abbrev pub frame : ℕ → ℕ → List ℕ → List ℕ
frame tag c body = tag ∷ (length_field (length body + 1) ++ (c ∷ body))

pub length_field_lem :
    (n len : ℕ) (more : List ℕ)
    → n < 2 ^ 16
    → length (length_field n) ≤ len
    → asn_1_decode (length_field n ++ more) len ≡ ok (n, length (length_field n))
length_field_lem n len more h l = ground (
  arith,
  decode-one n len more,
  decode-two n len more,
  decode-three (n / 2 ^ 8) (n % 2 ^ 8) len more,
)

tpdu_behind_lem :
    (bytes : List ℕ) (tag c used : ℕ) (body rest : List ℕ)
    → drop (1 + used) bytes ≡ c ∷ (body ++ rest)
    → length bytes ≡ 1 + used + (1 + (length body + length rest))
    → tpdu_behind bytes tag (length body + 1) used
      ≡ ok (record { tag = tag; connection_id = c; body = body; rest = rest })
unfolding tpdu_behind
tpdu_behind_lem bytes tag c used body rest at len =
    let two : 1 + used + 1 ≡ 2 + used = omega arith in
    let one : length body + 1 - 1 ≡ length body = omega arith in
    let behind : drop (2 + used) bytes ≡ body ++ rest =
      ap (λ k. drop k bytes) (sym two) ∙ drop-next bytes (1 + used) c (body ++ rest) at in
    let b : take (length body + 1 - 1) (drop (2 + used) bytes) ≡ body =
      ap₂ take one behind ∙ take-length_append body rest in
    let r : drop (length body + 1 - 1) (drop (2 + used) bytes) ≡ rest =
      ap₂ drop one behind ∙ drop-length_append body rest in
    ground (arith, read-drop bytes (1 + used) c (body ++ rest) at, b, r)

-- A message at the front of the data is read back whole, and what follows is left.
pub parse_tpdu-frame :
    (tag c : ℕ) (body rest : List ℕ)
    → length body + 1 < 2 ^ 16
    → parse_tpdu (frame tag c body ++ rest)
      ≡ ok (record { tag = tag; connection_id = c; body = body; rest = rest })
unfolding parse_tpdu
parse_tpdu-frame tag c body rest h =
    let field = length_field (length body + 1) in
    let tail = c ∷ (body ++ rest) in
    let bytes = tag ∷ (field ++ tail) in
    let assoc : frame tag c body ++ rest ≡ bytes =
      ap (λ r. tag ∷ r) (append_assoc field (c ∷ body) rest) in
    let len : length bytes ≡ 1 + length field + (1 + (length body + length rest)) =
      omega (arith, length-append field tail, length-append body rest) in
    let at : drop (1 + length field) bytes ≡ tail =
      drop_cons (length field) tag (field ++ tail) ∙ drop-length_append field tail in
    let n = length body + 1 in
    let room : length field ≤ length bytes - 1 = omega arith in
    ap parse_tpdu assoc
    ∙ ap (λ r. r >>= λ r. tpdu_behind bytes tag (r.0) (r.1))
        (length_field_lem n (length bytes - 1) tail h room)
    ∙ tpdu_behind_lem bytes tag c (length field) body rest at len
