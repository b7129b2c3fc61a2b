-- ===== src/Ucsi/Codec/Memory.antt =====
-- What the swaps of a header leave in memory, and what they leave alone.
use dvb_apps.Common.{
  read-get_or, ℕ, zero, suc, ◌+◌, ◌*◌, ◌%◌, ◌≤◌, ◌<◌, ◌≡◌, refl, sym, ap, ◌∙◌, ◌≢◌, List, [], ◌∷◌,
  arith, length, get_or, set, drop, All, length-set, ok,
}
use dvb_apps.Ucsi.Descriptor.Verify.{get_or-drop}
use dvb_apps.Ucsi.Codec.{bswap16, field12, swap_all, swap_header}

get_or-set_self : (xs : List ℕ) (i v : ℕ) → i < length xs → get_or (set xs i v) i 0 ≡ v
get_or-set_self [] i v h = absurd (omega arith)
get_or-set_self (x ∷ xs) zero v h = refl
get_or-set_self (x ∷ xs) (suc i) v h = get_or-set_self xs i v (omega arith)

get_or-set_ne : (xs : List ℕ) (i j v : ℕ) → i ≢ j → get_or (set xs i v) j 0 ≡ get_or xs j 0
get_or-set_ne [] i j v h = refl
get_or-set_ne (x ∷ xs) zero zero v h = absurd (h refl)
get_or-set_ne (x ∷ xs) zero (suc j) v h = refl
get_or-set_ne (x ∷ xs) (suc i) zero v h = refl
get_or-set_ne (x ∷ xs) (suc i) (suc j) v h = get_or-set_ne xs i j v (λ e. h (ap suc e))

drop-set : (xs : List ℕ) (i p v : ℕ) → i < p → drop p (set xs i v) ≡ drop p xs
drop-set xs i zero v h = absurd (omega arith)
drop-set [] i (suc p) v h = refl
drop-set (x ∷ xs) zero (suc p) v h = refl
drop-set (x ∷ xs) (suc i) (suc p) v h = drop-set xs i p v (omega arith)

-- The memory after `bswap16`.
abbrev pub swapped : List ℕ → ℕ → List ℕ
swapped mem pos = set (set mem pos (get_or mem (pos + 1) 0)) (pos + 1) (get_or mem pos 0)

pub bswap16_lem :
    (mem : List ℕ) (pos : ℕ) → pos + 2 ≤ length mem → bswap16 mem pos ≡ ok (swapped mem pos)
unfolding bswap16
bswap16_lem mem pos h = ground (arith, read-get_or mem pos, read-get_or mem (pos + 1))

pub length-swapped : (mem : List ℕ) (pos : ℕ) → length (swapped mem pos) ≡ length mem
length-swapped mem pos =
    length-set (set mem pos (get_or mem (pos + 1) 0)) (pos + 1) (get_or mem pos 0)
    ∙ length-set mem pos (get_or mem (pos + 1) 0)

pub drop-swapped : (mem : List ℕ) (pos q : ℕ) → pos + 2 ≤ q → drop q (swapped mem pos) ≡ drop q mem
drop-swapped mem pos q h =
    drop-set (set mem pos (get_or mem (pos + 1) 0)) (pos + 1) q (get_or mem pos 0) (omega arith)
    ∙ drop-set mem pos q (get_or mem (pos + 1) 0) (omega arith)

-- The 16 bit word at `pos` as it stands in the stream, big end first: its low 12 bits.
abbrev pub stream12 : List ℕ → ℕ → ℕ
stream12 mem pos = (get_or mem pos 0 * 256 + get_or mem (pos + 1) 0) % 4096

pub field12_lem :
    (mem : List ℕ) (pos : ℕ)
    → pos + 2 ≤ length mem
    → field12 mem pos ≡ ok ((get_or mem pos 0 + 256 * get_or mem (pos + 1) 0) % 4096)
unfolding field12
field12_lem mem pos h = ground (arith, read-get_or mem pos, read-get_or mem (pos + 1))

pub field12-swapped :
    (mem : List ℕ) (pos : ℕ)
    → pos + 2 ≤ length mem
    → field12 (swapped mem pos) pos ≡ ok (stream12 mem pos)
field12-swapped mem pos h =
    let lo = get_or mem pos 0 in
    let hi = get_or mem (pos + 1) 0 in
    ground (
      arith,
      field12_lem (swapped mem pos) pos,
      length-swapped mem pos,
      get_or-set_self (set mem pos hi) (pos + 1) lo,
      get_or-set_ne (set mem pos hi) (pos + 1) pos lo,
      get_or-set_self mem pos hi,
      length-set mem pos hi,
    )

-- Every offset lies two bytes or more below `o`.
abbrev pub AllBelow : ℕ → List ℕ → Type 0
AllBelow o = All (λ i. i + 2 ≤ o)

-- The memory after the swaps, which are all below `pos + o`.
pub swap_all_lem :
    (mem : List ℕ) (pos o : ℕ) (os : List ℕ)
    → pos + o ≤ length mem
    → AllBelow o os
    → (m : List ℕ) × (swap_all mem pos os ≡ ok m)
      × (length m ≡ length mem)
      × ((q : ℕ) → pos + o ≤ q → drop q m ≡ drop q mem)
unfolding swap_all
swap_all_lem mem pos o [] h b = (mem, refl, refl, λ q _. refl)
swap_all_lem mem pos o (i ∷ os) h (bi, bs) =
    let size = length-swapped mem (pos + i) in
    let ih = swap_all_lem (swapped mem (pos + i)) pos o os (omega arith) bs in
    (
      ih.0,
      rw (bswap16_lem mem (pos + i) (omega arith)) ih.1,
      ih.2 ∙ size,
      λ q hq. ih.3 q hq ∙ drop-swapped mem (pos + i) q (omega arith),
    )

get_or_of_drop :
    (xs ys : List ℕ) (p : ℕ) (e : (q : ℕ) → p ≤ q → drop q xs ≡ drop q ys) (i : ℕ)
    → p ≤ i
    → get_or xs i 0 ≡ get_or ys i 0
get_or_of_drop xs ys p e i h =
    let z : i + 0 ≡ i = omega arith in
    ap (λ k. get_or xs k 0) (sym z)
    ∙ sym (get_or-drop i 0 xs)
    ∙ ap (λ l. get_or l 0 0) (e i h)
    ∙ get_or-drop i 0 ys
    ∙ ap (λ k. get_or ys k 0) z

-- A header is swapped inside its bytes; its length field reads as it stands in the stream.
pub swap_header_lem :
    (mem : List ℕ) (pos : ℕ) (os : List ℕ) (o : ℕ)
    → pos + (o + 2) ≤ length mem
    → AllBelow o os
    → (m : List ℕ) × (swap_header mem pos os o ≡ ok (m, stream12 mem (pos + o)))
      × (length m ≡ length mem)
      × ((q : ℕ) → pos + (o + 2) ≤ q → drop q m ≡ drop q mem)
unfolding swap_header
swap_header_lem mem pos os o h b =
    let before = swap_all_lem mem pos o os (omega arith) b in
    let m1 = before.0 in
    let same : (i : ℕ) → pos + o ≤ i → get_or m1 i 0 ≡ get_or mem i 0 =
      get_or_of_drop m1 mem (pos + o) before.3 in
    (
      swapped m1 (pos + o),
      ground (
        arith,
        before.1,
        before.2,
        bswap16_lem m1 (pos + o),
        field12-swapped m1 (pos + o),
        same (pos + o),
        same (pos + o + 1),
      ),
      length-swapped m1 (pos + o) ∙ before.2,
      λ q hq. drop-swapped m1 (pos + o) q (omega arith) ∙ before.3 q (omega arith),
    )
