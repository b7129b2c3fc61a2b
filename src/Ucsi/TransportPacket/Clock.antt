-- ===== src/Ucsi/TransportPacket/Clock.antt =====
-- A clock reference and the other parts of an adaptation field, as the standard lays them out, and
-- what is read back from them.
use dvb_apps.Common.{
  read-drop, drop-behind, ℕ, ◌+◌, ◌*◌, ◌/◌, ◌%◌, ◌^◌, ◌<◌, ◌≡◌, ap, ap₂, ◌∙◌, List, [], ◌∷◌, ◌++◌,
  arith, drop, ok,
}
use dvb_apps.Ucsi.TransportPacket.{clock_at}

-- A base of 33 bits in units of 90 kHz, and an extension of 9 bits in units of 27 MHz.
pub record Clock : Type 0 where
  pub base : ℕ
  pub ext : ℕ

abbrev pub IsClock : Clock → Type 0
IsClock c = (c.base < 2 ^ 33) × (c.ext < 300)

-- The six bytes, the six reserved bits being ones.
abbrev pub clock_bytes : Clock → List ℕ
clock_bytes c =
    c.base / 2 ^ 25
    ∷ c.base / 2 ^ 17 % 2 ^ 8
    ∷ c.base / 2 ^ 9 % 2 ^ 8
    ∷ c.base / 2 % 2 ^ 8
    ∷ (c.base % 2 * 2 ^ 7 + 0x7e + c.ext / 2 ^ 8)
    ∷ c.ext % 2 ^ 8
    ∷ []

read_six :
    (mem : List ℕ) (pos a b c d e f : ℕ) (rest : List ℕ)
    → drop pos mem ≡ a ∷ b ∷ c ∷ d ∷ e ∷ f ∷ rest
    → clock_at mem pos
      ≡ ok ((a * 2 ^ 25 + b * 2 ^ 17 + c * 2 ^ 9 + d * 2 + e / 2 ^ 7) * 300 + (e % 2 * 2 ^ 8 + f))
unfolding clock_at
read_six mem pos a b c d e f rest h = ground (
  arith,
  read-drop mem pos a _ h,
  read-drop mem (pos + 1) b _ (drop-behind mem pos (a ∷ []) _ h),
  read-drop mem (pos + 2) c _ (drop-behind mem pos (a ∷ b ∷ []) _ h),
  read-drop mem (pos + 3) d _ (drop-behind mem pos (a ∷ b ∷ c ∷ []) _ h),
  read-drop mem (pos + 4) e _ (drop-behind mem pos (a ∷ b ∷ c ∷ d ∷ []) _ h),
  read-drop mem (pos + 5) f _ (drop-behind mem pos (a ∷ b ∷ c ∷ d ∷ e ∷ []) _ h),
)

abbrev upper_bits : ℕ → ℕ
upper_bits n =
    n / 2 ^ 25 * 2 ^ 25
    + n / 2 ^ 17 % 2 ^ 8 * 2 ^ 17
    + n / 2 ^ 9 % 2 ^ 8 * 2 ^ 9
    + n / 2 % 2 ^ 8 * 2

base_lem : (n : ℕ) → upper_bits n + n % 2 ≡ n
base_lem n = omega arith

-- A clock reference is read back as the number of 27 MHz ticks.
pub clock_at-clock_bytes :
    (mem : List ℕ) (pos : ℕ) (c : Clock) (rest : List ℕ)
    → IsClock c
    → drop pos mem ≡ clock_bytes c ++ rest
    → clock_at mem pos ≡ ok (c.base * 300 + c.ext)
clock_at-clock_bytes mem pos c rest v h =
    let e = c.base % 2 * 2 ^ 7 + 0x7e + c.ext / 2 ^ 8 in
    let hi : e / 2 ^ 7 ≡ c.base % 2 = omega arith in
    let lo : e % 2 * 2 ^ 8 + c.ext % 2 ^ 8 ≡ c.ext = omega arith in
    read_six mem pos _ _ _ _ _ _ rest h
    ∙ ap ok
        (ap₂ (λ p q. (p * 300) + q) (ap (λ q. upper_bits (c.base) + q) hi ∙ base_lem (c.base)) lo)
