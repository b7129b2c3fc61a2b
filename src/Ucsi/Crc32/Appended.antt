-- ===== src/Ucsi/Crc32/Appended.antt =====
-- A checksum behind the data that it was taken of.
use Prim.Native.Nat.{bit_xor, digits, differ, bit_xor-bitwise}
use dvb_apps.Common.{
  ℕ, zero, suc, ◌+◌, ◌*◌, ◌/◌, ◌%◌, ◌^◌, ◌≤◌, ◌<◌, ◌≡◌, refl, ap, ◌∙◌, List, [], ◌∷◌, ◌++◌, arith,
  length, get_or, ok,
}
use dvb_apps.Ucsi.Crc32.{crc32tbl, crc_step, crc32, crc32_init}

differ_same : (x : ℕ) → differ x x ≡ 0
differ_same zero = refl
differ_same (suc x) = differ_same x

differ_none : (x : ℕ) → differ x 0 ≡ x
differ_none zero = refl
differ_none (suc x) = refl

digits_same : (n a : ℕ) → a ≤ n → digits (λ b. b) differ n a a ≡ 0
digits_same zero zero h = refl
digits_same zero (suc a) h = absurd (omega arith)
digits_same (suc n) zero h = refl
digits_same (suc n) (suc a) h =
    omega (arith, digits_same n (suc a / 2) (omega arith), differ_same (suc a % 2))

digits_none : (n a : ℕ) → a ≤ n → digits (λ b. b) differ n a 0 ≡ a
digits_none zero zero h = refl
digits_none zero (suc a) h = absurd (omega arith)
digits_none (suc n) zero h = refl
digits_none (suc n) (suc a) h =
    omega (arith, digits_none n (suc a / 2) (omega arith), differ_none (suc a % 2))

bit_xor_same : (a : ℕ) → bit_xor a a ≡ 0
bit_xor_same a = bit_xor-bitwise a a ∙ digits_same a a (omega arith)

bit_xor_none : (a : ℕ) → bit_xor a 0 ≡ a
bit_xor_none a = bit_xor-bitwise a 0 ∙ digits_none a a (omega arith)

first_entry : get_or crc32tbl 0 0 ≡ 0
unfolding crc32tbl
first_entry = refl

-- The top byte of a checksum shifts it by a byte.
crc_step_top : (crc : ℕ) → crc < 2 ^ 32 → crc_step crc (crc / 2 ^ 24 % 2 ^ 8) ≡ crc * 2 ^ 8 % 2 ^ 32
unfolding crc_step
crc_step_top crc h =
    let e : crc / 2 ^ 24 % 2 ^ 8 ≡ crc / 2 ^ 24 = omega arith in
    let shifted = crc * 2 ^ 8 % 2 ^ 32 in
    let z : bit_xor (crc / 2 ^ 24) (crc / 2 ^ 24 % 2 ^ 8) % 2 ^ 8 ≡ 0 =
      ap (λ b. bit_xor (crc / 2 ^ 24) b % 2 ^ 8) e
      ∙ ap (λ x. x % 2 ^ 8) (bit_xor_same (crc / 2 ^ 24)) in
    ap (λ i. bit_xor shifted (get_or crc32tbl i 0) % 2 ^ 32) z
    ∙ ap (λ x. bit_xor shifted x % 2 ^ 32) first_entry
    ∙ ap (λ x. x % 2 ^ 32) (bit_xor_none shifted)
    ∙ (omega arith)

-- The four bytes of a checksum, the highest first.
abbrev pub stored : ℕ → List ℕ
stored crc = crc / 2 ^ 24 % 2 ^ 8 ∷ crc / 2 ^ 16 % 2 ^ 8 ∷ crc / 2 ^ 8 % 2 ^ 8 ∷ crc % 2 ^ 8 ∷ []

crc32-stored : (crc : ℕ) → crc < 2 ^ 32 → crc32 crc (stored crc) 4 ≡ ok 0
unfolding crc32
crc32-stored crc h =
    let c1 = crc * 2 ^ 8 % 2 ^ 32 in
    let c2 = c1 * 2 ^ 8 % 2 ^ 32 in
    let c3 = c2 * 2 ^ 8 % 2 ^ 32 in
    let step = λ (c b : ℕ) (l : c < 2 ^ 32) (e : b ≡ c / 2 ^ 24 % 2 ^ 8).
      ap (crc_step c) e ∙ crc_step_top c l in
    let s1 = step crc (crc / 2 ^ 24 % 2 ^ 8) h refl in
    let s2 =
      ap (λ c. crc_step c (crc / 2 ^ 16 % 2 ^ 8)) s1
      ∙ step c1 (crc / 2 ^ 16 % 2 ^ 8) (omega arith) (omega arith) in
    let s3 =
      ap (λ c. crc_step c (crc / 2 ^ 8 % 2 ^ 8)) s2
      ∙ step c2 (crc / 2 ^ 8 % 2 ^ 8) (omega arith) (omega arith) in
    let s4 =
      ap (λ c. crc_step c (crc % 2 ^ 8)) s3 ∙ step c3 (crc % 2 ^ 8) (omega arith) (omega arith) in
    let z : c3 * 2 ^ 8 % 2 ^ 32 ≡ 0 = omega arith in ap ok (s4 ∙ z)

below : (crc b : ℕ) → crc_step crc b < 2 ^ 32
unfolding crc_step
below crc b = omega arith

-- The checksum of all of some data.
abbrev pub crc_of : ℕ → List ℕ → ℕ
crc_of crc [] = crc
crc_of crc (b ∷ bs) = crc_of (crc_step crc b) bs

pub crc_of_below : (crc : ℕ) (bytes : List ℕ) → crc < 2 ^ 32 → crc_of crc bytes < 2 ^ 32
crc_of_below crc [] h = h
crc_of_below crc (b ∷ bs) h = crc_of_below (crc_step crc b) bs (below crc b)

pub crc32-append :
    (crc : ℕ) (bytes more : List ℕ) (n : ℕ)
    → crc32 crc (bytes ++ more) (length bytes + n) ≡ crc32 (crc_of crc bytes) more n
unfolding crc32
crc32-append crc [] more n = let e : 0 + n ≡ n = omega arith in ap (crc32 crc more) e
crc32-append crc (b ∷ bs) more n =
    let e : suc (length bs) + n ≡ suc (length bs + n) = omega arith in
    ap (crc32 crc (b ∷ (bs ++ more))) e ∙ crc32-append (crc_step crc b) bs more n

-- The checksum of some data, whatever stands behind it.
pub crc32_front :
    (bytes more : List ℕ)
    → crc32 crc32_init (bytes ++ more) (length bytes) ≡ ok (crc_of crc32_init bytes)
unfolding crc32
crc32_front bytes more =
    let e : length bytes ≡ length bytes + 0 = omega arith in
    ap (crc32 crc32_init (bytes ++ more)) e ∙ crc32-append crc32_init bytes more 0

-- The checksum of the data and of its checksum behind it is 0.
pub crc32_whole :
    (bytes : List ℕ)
    → crc32 crc32_init (bytes ++ stored (crc_of crc32_init bytes)) (length bytes + 4) ≡ ok 0
crc32_whole bytes =
    let c = crc_of crc32_init bytes in
    crc32-append crc32_init bytes (stored c) 4
    ∙ crc32-stored c (crc_of_below crc32_init bytes (omega arith))
