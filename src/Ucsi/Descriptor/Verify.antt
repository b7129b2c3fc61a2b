-- ===== src/Ucsi/Descriptor/Verify.antt =====
-- What `verify_descriptors` accepts, and what a walk with `next_descriptor` then visits.
use dvb_apps.Common.{
  read-get_or, ℕ, zero, suc, ◌+◌, ◌-◌, ◌≤◌, ◌<◌, ◌≡◌, refl, sym, ap, ◌∙◌, ◌≢◌, ◌↔◌, List, [], ◌∷◌,
  ◌++◌, arith, ◌==◌, if◌then◌else◌, length, get_or, take, drop, length-append, length-take,
  length-drop, take-append-drop, drop-ge, drop-length_append, ok, fail, fault, read,
}
use native.Mathlib.Decide.{dec_lt}
use dvb_apps.Ucsi.Descriptor.{Descriptor, verify_loop, verify_descriptors}

-- The bytes of a list of descriptors.
unfoldable pub encode : List Descriptor → List ℕ
encode [] = []
encode ((tag, body) ∷ ds) = tag ∷ length body ∷ (body ++ encode ds)

pub get_or-drop : (n i : ℕ) (xs : List ℕ) → get_or (drop n xs) i 0 ≡ get_or xs (n + i) 0
get_or-drop zero i xs = let e : i ≡ 0 + i = omega arith in ap (λ k. get_or xs k 0) e
get_or-drop (suc n) i [] = refl
get_or-drop (suc n) i (x ∷ xs) =
    let e : suc (n + i) ≡ suc n + i = omega arith in
    get_or-drop n i xs ∙ ap (λ k. get_or (x ∷ xs) k 0) e

pub get_or-take : (n i : ℕ) (xs : List ℕ) → i < n → get_or (take n xs) i 0 ≡ get_or xs i 0
get_or-take zero i xs h = absurd (omega arith)
get_or-take (suc n) i [] h = refl
get_or-take (suc n) zero (x ∷ xs) h = refl
get_or-take (suc n) (suc i) (x ∷ xs) h = get_or-take n i xs (omega arith)

-- The part of the memory that a buffer covers.
abbrev pub region : List ℕ → ℕ → ℕ → List ℕ
region mem buf len = take len (drop buf mem)

pub length-region :
    (mem : List ℕ) (buf len : ℕ) → buf + len ≤ length mem → length (region mem buf len) ≡ len
length-region mem buf len h = omega (arith, length-take len (drop buf mem), length-drop buf mem)

pub read-region :
    (mem : List ℕ) (buf len i : ℕ)
    → buf + len ≤ length mem
    → i < len
    → read mem (buf + i) ≡ ok (get_or (region mem buf len) i 0)
read-region mem buf len i h lt =
    ground
      (arith, read-get_or mem (buf + i), get_or-drop buf i mem, get_or-take len i (drop buf mem))

drop_two :
    (n : ℕ) (xs : List ℕ)
    → n + 2 ≤ length xs
    → drop n xs ≡ get_or xs n 0 ∷ get_or xs (n + 1) 0 ∷ drop (n + 2) xs
drop_two zero [] h = absurd (omega arith)
drop_two zero (x ∷ []) h = absurd (omega arith)
drop_two zero (x ∷ y ∷ xs) h = refl
drop_two (suc n) [] h = absurd (omega arith)
drop_two (suc n) (x ∷ xs) h =
    let e1 : suc n + 1 ≡ suc (n + 1) = omega arith in
    let e2 : suc n + 2 ≡ suc (n + 2) = omega arith in rw (e1, e2) (drop_two n xs (omega arith))

pub drop-drop : (n k : ℕ) (xs : List ℕ) → drop k (drop n xs) ≡ drop (n + k) xs
drop-drop zero k xs = let e : k ≡ 0 + k = omega arith in ap (λ j. drop j xs) e
drop-drop (suc n) k [] = drop-ge k [] (omega arith) ∙ sym (drop-ge (suc n + k) [] (omega arith))
drop-drop (suc n) k (x ∷ xs) =
    let e : suc (n + k) ≡ suc n + k = omega arith in drop-drop n k xs ∙ ap (λ j. drop j (x ∷ xs)) e

-- One round, with the two header bytes inside the buffer.
verify_step :
    (fuel : ℕ) (mem : List ℕ) (buf len pos : ℕ)
    → buf + len ≤ length mem
    → pos + 2 ≤ len
    → verify_loop (suc fuel) mem buf len pos
      ≡ verify_loop fuel mem buf len (pos + (2 + get_or (region mem buf len) (pos + 1) 0))
unfolding verify_loop
verify_step fuel mem buf len pos h le = ground (arith, read-region mem buf len (pos + 1) h)

verify_end :
    (fuel : ℕ) (mem : List ℕ) (buf len pos : ℕ)
    → len < pos + 2
    → verify_loop (suc fuel) mem buf len pos ≡ (if pos == len then ok tt else fail)
unfolding verify_loop
verify_end fuel mem buf len pos h = ground arith

-- A list that is long enough begins with the bytes that a length byte counts.
split_body :
    (n : ℕ) (xs : List ℕ) → n ≤ length xs → (xs ≡ take n xs ++ drop n xs) × (length (take n xs) ≡ n)
split_body n xs h = (sym (take-append-drop n xs), omega (arith, length-take n xs))

-- A descriptor at `pos` that ends inside the list, and then the descriptors `ds`.
encode_cons :
    (xs : List ℕ) (pos : ℕ) (ds : List Descriptor)
    → let n = get_or xs (pos + 1) 0 in
      pos + (2 + n) ≤ length xs
      → drop (pos + (2 + n)) xs ≡ encode ds
      → drop pos xs ≡ encode ((get_or xs pos 0, take n (drop (pos + 2) xs)) ∷ ds)
unfolding encode
encode_cons xs pos ds le e =
    let n = get_or xs (pos + 1) 0 in
    let rest = drop (pos + 2) xs in
    let body = split_body n rest (omega (arith, length-drop (pos + 2) xs)) in
    let tail : drop n rest ≡ encode ds =
      drop-drop (pos + 2) n xs ∙ ap (λ k. drop k xs) (omega arith) ∙ e in
    cc (drop_two pos xs (omega arith), body.0, body.1, tail)

loop_sound :
    (fuel : ℕ) (mem : List ℕ) (buf len pos : ℕ)
    → buf + len ≤ length mem
    → verify_loop fuel mem buf len pos ≡ ok tt
    → (pos ≤ len) × ((ds : List Descriptor) × (drop pos (region mem buf len) ≡ encode ds))
loop_sound zero mem buf len pos h e = absurd (unfold verify_loop in cc e)
loop_sound (suc fuel) mem buf len pos h e = elim (dec_lt len (pos + 2)) [
  | yes short ↦
      let done : pos ≡ len = ground (arith, verify_end fuel mem buf len pos short) in
      (
        omega arith,
        ([], unfold encode in drop-ge pos _ (omega (arith, length-region mem buf len h))),
      )
  | no long ↦
      let seg = region mem buf len in
      let n = get_or seg (pos + 1) 0 in
      let ih =
        loop_sound fuel mem buf len (pos + (2 + n)) h
          (sym (verify_step fuel mem buf len pos h (omega arith)) ∙ e) in
      (
        omega arith,
        (
          (get_or seg pos 0, take n (drop (pos + 2) seg)) ∷ ih.1.0,
          encode_cons seg pos ih.1.0 (omega (arith, length-region mem buf len h)) ih.1.1,
        ),
      )
]

-- The first descriptor that a list begins with.
pub encode_first :
    (xs : List ℕ) (pos t : ℕ) (body : List ℕ) (ds : List Descriptor)
    → pos ≤ length xs
    → drop pos xs ≡ encode ((t, body) ∷ ds)
    → (pos + (2 + length body) ≤ length xs)
      × (get_or xs (pos + 1) 0 ≡ length body)
      × (drop (pos + (2 + length body)) xs ≡ encode ds)
unfolding encode
encode_first xs pos t body ds le e =
    let size : length xs - pos ≡ 2 + length body + length (encode ds) =
      omega (arith, length-drop pos xs, ap (λ l. length l) e, length-append body (encode ds)) in
    let after_two : drop 2 (drop pos xs) ≡ body ++ encode ds = ap (λ l. drop 2 l) e in
    (
      omega arith,
      sym (get_or-drop pos 1 xs) ∙ ap (λ l. get_or l 1 0) e,
      sym (drop-drop pos (2 + length body) xs)
          ∙ sym (drop-drop 2 (length body) (drop pos xs))
          ∙ ap (λ l. drop (length body) l) after_two
          ∙ drop-length_append body (encode ds),
    )

loop_complete :
    (fuel : ℕ) (mem : List ℕ) (buf len pos : ℕ) (ds : List Descriptor)
    → buf + len ≤ length mem
    → pos ≤ len
    → len - pos < fuel
    → drop pos (region mem buf len) ≡ encode ds
    → verify_loop fuel mem buf len pos ≡ ok tt
loop_complete zero mem buf len pos ds h le f e = absurd (omega arith)
loop_complete (suc fuel) mem buf len pos [] h le f e =
    let size : length (drop pos (region mem buf len)) ≡ 0 = unfold encode in ap (λ l. length l) e in
    let done : pos ≡ len =
      omega (arith, size, length-drop pos (region mem buf len), length-region mem buf len h) in
    ground (arith, verify_end fuel mem buf len pos)
loop_complete (suc fuel) mem buf len pos ((t, body) ∷ ds) h le f e =
    let size = length-region mem buf len h in
    let first = encode_first (region mem buf len) pos t body ds (omega arith) e in
    let next =
      loop_complete fuel mem buf len (pos + (2 + length body)) ds h (omega arith) (omega arith)
        first.2 in
    verify_step fuel mem buf len pos h (omega arith)
    ∙ ap (λ n. verify_loop fuel mem buf len (pos + (2 + n))) first.1
    ∙ next

loop-ne-fault :
    (fuel : ℕ) (mem : List ℕ) (buf len pos : ℕ)
    → buf + len ≤ length mem
    → len - pos < fuel
    → verify_loop fuel mem buf len pos ≢ fault
loop-ne-fault zero mem buf len pos h f = absurd (omega arith)
loop-ne-fault (suc fuel) mem buf len pos h f = elim (dec_lt len (pos + 2)) [
  | yes short ↦ ground (arith, verify_end fuel mem buf len pos short)
  | no long ↦
      let n = get_or (region mem buf len) (pos + 1) 0 in
      rw (verify_step fuel mem buf len pos h (omega arith))
        (loop-ne-fault fuel mem buf len (pos + (2 + n)) h (omega arith))
]

-- On a buffer inside the memory `verify_descriptors` ends and reads nothing outside it. It accepts
-- exactly the buffers that are a list of descriptors with no byte left over.
pub verify_descriptors_iff :
    (mem : List ℕ) (buf len : ℕ)
    → buf + len ≤ length mem
    → (verify_descriptors mem buf len ≢ fault)
      × ((verify_descriptors mem buf len ≡ ok tt)
          ↔ ((ds : List Descriptor) × (take len (drop buf mem) ≡ encode ds)))
unfolding verify_descriptors
verify_descriptors_iff mem buf len h = (
  loop-ne-fault (suc len) mem buf len 0 h (omega arith),
  (
    λ e. (loop_sound (suc len) mem buf len 0 h e).1,
    λ d. loop_complete (suc len) mem buf len 0 d.0 h (omega arith) (omega arith) d.1,
  ),
)
