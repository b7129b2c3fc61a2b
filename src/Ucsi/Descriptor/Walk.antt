-- ===== src/Ucsi/Descriptor/Walk.antt =====
-- A walk over a list of descriptors visits each of them.
use dvb_apps.Common.{
  ℕ, zero, suc, ◌+◌, ◌-◌, ◌≤◌, ◌≡◌, refl, sym, ap, ◌∙◌, true, false, none, some, List, [], ◌∷◌,
  arith, leb, if◌then◌else◌, length, get_or, take, drop, length-drop, take-length_append, drop-take,
  take-take, ok, ◌>>=◌,
}
use dvb_apps.Ucsi.Descriptor.{
  Descriptor, verify_descriptors, next_descriptor, descriptor_at, walk, descriptors_for_each,
}
use dvb_apps.Ucsi.Descriptor.Verify.{
  encode, encode_first, region, length-region, read-region, get_or-drop, drop-drop,
  verify_descriptors_iff,
}

take-drop-region :
    (mem : List ℕ) (buf len pos k : ℕ)
    → pos + k ≤ len
    → take k (drop pos (region mem buf len)) ≡ take k (drop (buf + pos) mem)
take-drop-region mem buf len pos k h =
    ap (λ l. take k l) (drop-take pos len (drop buf mem))
    ∙ take-take k (len - pos) (drop pos (drop buf mem)) (omega arith)
    ∙ ap (λ l. take k l) (drop-drop buf pos mem)

descriptor_at_lem :
    (mem : List ℕ) (buf len pos t : ℕ) (body : List ℕ) (ds : List Descriptor)
    → buf + len ≤ length mem
    → pos ≤ len
    → drop pos (region mem buf len) ≡ encode ((t, body) ∷ ds)
    → descriptor_at mem (buf + pos) ≡ ok (t, body)
unfolding descriptor_at
descriptor_at_lem mem buf len pos t body ds h le e =
    let seg = region mem buf len in
    let size = length-region mem buf len h in
    let first = encode_first seg pos t body ds (omega arith) e in
    let tag : get_or seg pos 0 ≡ t =
      let z : pos ≡ pos + 0 = omega arith in
      ap (λ k. get_or seg k 0) z
      ∙ sym (get_or-drop pos 0 seg)
      ∙ unfold encode in ap (λ l. get_or l 0 0) e in
    let bytes : take (length body) (drop (buf + (pos + 2)) mem) ≡ body =
      sym (take-drop-region mem buf len (pos + 2) (length body) (omega arith))
      ∙ ap (λ l. take (length body) l) (sym (drop-drop pos 2 seg))
      ∙ unfold encode in
        ap (λ l. take (length body) (drop 2 l)) e ∙ take-length_append body (encode ds) in
    ground
      (arith, first, tag, bytes, read-region mem buf len pos h, read-region mem buf len (pos + 1) h)

next_lem :
    (mem : List ℕ) (buf len pos t : ℕ) (body : List ℕ) (ds : List Descriptor)
    → buf + len ≤ length mem
    → pos ≤ len
    → drop pos (region mem buf len) ≡ encode ((t, body) ∷ ds)
    → next_descriptor mem buf len (buf + pos)
      ≡ ok (
          if leb len (pos + (2 + length body))
          then none
          else some (buf + (pos + (2 + length body))))
unfolding next_descriptor
next_lem mem buf len pos t body ds h le e =
    let size = length-region mem buf len h in
    let first = encode_first (region mem buf len) pos t body ds (omega arith) e in
    ground (arith, first, read-region mem buf len (pos + 1) h)

-- One round of the loop, at a descriptor that is there.
walk_step :
    (fuel : ℕ) (mem : List ℕ) (buf len pos t : ℕ) (body : List ℕ) (ds : List Descriptor)
    → buf + len ≤ length mem
    → pos ≤ len
    → drop pos (region mem buf len) ≡ encode ((t, body) ∷ ds)
    → let next = pos + (2 + length body) in
      walk (suc fuel) mem buf len (buf + pos) ≡ elim (leb len next) [
        | true ↦ ok ((t, body) ∷ [])
        | false ↦ (walk fuel mem buf len (buf + next) >>= λ rest. ok ((t, body) ∷ rest))
      ]
unfolding walk
walk_step fuel mem buf len pos t body ds h le e = ground (
  arith,
  descriptor_at_lem mem buf len pos t body ds h le e,
  next_lem mem buf len pos t body ds h le e,
)

walk-encode :
    (fuel : ℕ) (mem : List ℕ) (buf len pos t : ℕ) (body : List ℕ) (ds : List Descriptor)
    → buf + len ≤ length mem
    → pos ≤ len
    → len - pos ≤ fuel
    → drop pos (region mem buf len) ≡ encode ((t, body) ∷ ds)
    → walk fuel mem buf len (buf + pos) ≡ ok ((t, body) ∷ ds)
walk-encode zero mem buf len pos t body ds h le f e =
    let size = length-region mem buf len h in
    absurd
      (omega (arith, size, (encode_first (region mem buf len) pos t body ds (omega arith) e).0))
walk-encode (suc fuel) mem buf len pos t body [] h le f e =
    let size = length-region mem buf len h in
    let first = encode_first (region mem buf len) pos t body [] (omega arith) e in
    let last : length (encode []) ≡ 0 = unfold encode in refl in
    let end : len ≡ pos + (2 + length body) = omega (
      arith,
      size,
      first.0,
      length-drop (pos + (2 + length body)) (region mem buf len),
      ap (λ l. length l) first.2,
      last,
    ) in
    ground (arith, walk_step fuel mem buf len pos t body [] h le e)
walk-encode (suc fuel) mem buf len pos t body ((u, body') ∷ ds) h le f e =
    let size = length-region mem buf len h in
    let next = pos + (2 + length body) in
    let first = encode_first (region mem buf len) pos t body ((u, body') ∷ ds) (omega arith) e in
    let later = encode_first (region mem buf len) next u body' ds (omega arith) first.2 in
    let rest = walk-encode fuel mem buf len next u body' ds h (omega arith) (omega arith) first.2 in
    ground (arith, later.0, size, rest, walk_step fuel mem buf len pos t body _ h le e)

for_each-encode :
    (mem : List ℕ) (buf len : ℕ) (ds : List Descriptor)
    → buf + len ≤ length mem
    → take len (drop buf mem) ≡ encode ds
    → descriptors_for_each mem buf len ≡ ok ds
unfolding descriptors_for_each
for_each-encode mem buf len [] h e =
    let last : length (encode []) ≡ 0 = unfold encode in refl in
    let none_left : len ≡ 0 =
      omega (arith, length-region mem buf len h, ap (λ l. length l) e, last) in
    ground arith
for_each-encode mem buf len ((t, body) ∷ ds) h e =
    let first = encode_first (region mem buf len) 0 t body ds (omega arith) e in
    let size = length-region mem buf len h in
    ground (arith, first.0, walk-encode len mem buf len 0 t body ds h (omega arith) (omega arith) e)

-- A buffer that `verify_descriptors` accepts holds a list of descriptors, and the loop over them
-- visits exactly these, in their order, each with its tag and all of its bytes; it ends, and reads
-- nothing outside the memory.
pub for_each_verified :
    (mem : List ℕ) (buf len : ℕ)
    → buf + len ≤ length mem
    → verify_descriptors mem buf len ≡ ok tt
    → (ds : List Descriptor) × (take len (drop buf mem) ≡ encode ds)
      × (descriptors_for_each mem buf len ≡ ok ds)
for_each_verified mem buf len h e =
    let found = (verify_descriptors_iff mem buf len h).1.0 e in
    (found.0, found.1, for_each-encode mem buf len found.0 h found.1)
