-- ===== src/En50221/Asn1/Lengths.antt =====
-- Lengths written and read back.
use dvb_apps.Common.{
  read-get_or, ℕ, ◌+◌, ◌*◌, ◌/◌, ◌%◌, ◌^◌, ◌≤◌, ◌<◌, ◌≡◌, List, ◌∷◌, arith, ltb, if◌then◌else◌,
  length, get_or, set, length-set, Result, ok, fail, fault, Returns, Safe,
}
use dvb_apps.En50221.Asn1.{asn_1_decode, asn_1_encode, write}

-- What an encoded length looks like, and what stays behind it.
pub encode-cases :
    (n : ℕ) (a b c : ℕ) (rest : List ℕ)
    → n < 2 ^ 16
    → asn_1_encode n (a ∷ b ∷ c ∷ rest) 3 ≡ (
        if ltb n 0x80
        then ok (n ∷ b ∷ c ∷ rest, 1)
        else if ltb n 0x100
        then ok (0x81 ∷ n ∷ c ∷ rest, 2)
        else ok (0x82 ∷ n / 2 ^ 8 ∷ n % 2 ^ 8 ∷ rest, 3))
unfolding asn_1_encode write
encode-cases n a b c rest h = ground arith

pub decode-one :
    (n len : ℕ) (rest : List ℕ) → n < 0x80 → 1 ≤ len → asn_1_decode (n ∷ rest) len ≡ ok (n, 1)
unfolding asn_1_decode
decode-one n len rest h l = ground arith

pub decode-two :
    (n len : ℕ) (rest : List ℕ) → 2 ≤ len → asn_1_decode (0x81 ∷ n ∷ rest) len ≡ ok (n, 2)
unfolding asn_1_decode
decode-two n len rest l = ground arith

pub decode-three :
    (p q len : ℕ) (rest : List ℕ)
    → 3 ≤ len
    → asn_1_decode (0x82 ∷ p ∷ q ∷ rest) len ≡ ok (p * 2 ^ 8 + q, 3)
unfolding asn_1_decode
decode-three p q len rest l = ground arith

-- A length of 16 bits is always encoded into an array of three bytes or more, and what is decoded from
-- the bytes that were written, however many the reader has, is the length and their number.
pub asn_1_decode-encode :
    (n len : ℕ) (a b c : ℕ) (rest : List ℕ)
    → n < 2 ^ 16
    → Returns
        (λ r. r.1 ≤ len → asn_1_decode (r.0) len ≡ ok (n, r.1))
        (asn_1_encode n (a ∷ b ∷ c ∷ rest) 3)
asn_1_decode-encode n len a b c rest h = ground (
  arith,
  encode-cases n a b c rest h,
  decode-one n len (b ∷ c ∷ rest),
  decode-two n len (c ∷ rest),
  decode-three (n / 2 ^ 8) (n % 2 ^ 8) len rest,
)

-- The number of bytes of the shortest form.
abbrev pub width : ℕ → ℕ
width n = if ltb n 0x80 then 1 else if ltb n 0x100 then 2 else 3

write_lem : (array : List ℕ) (i v : ℕ) → i < length array → write array i v ≡ ok (set array i v)
unfolding write
write_lem array i v h = ground arith

encode-width :
    (n k : ℕ) (array : List ℕ)
    → width n ≤ k
    → k ≤ length array
    → Returns (λ w. w.1 ≡ width n) (asn_1_encode n array k)
unfolding asn_1_encode
encode-width n k array h l =
    let a1 = set array 0 0x81 in
    let a2 = set array 0 0x82 in
    let b2 = set a2 1 (n / 2 ^ 8 % 2 ^ 8) in
    ground (
      arith,
      write_lem array 0 (n % 0x80),
      write_lem array 0 0x81,
      write_lem array 0 0x82,
      write_lem a1 1 (n % 2 ^ 8),
      write_lem a2 1 (n / 2 ^ 8 % 2 ^ 8),
      write_lem b2 2 (n % 2 ^ 8),
      length-set array 0 0x81,
      length-set array 0 0x82,
      length-set a2 1 (n / 2 ^ 8 % 2 ^ 8),
    )

decode-width :
    (bytes : List ℕ) (len : ℕ)
    → len ≤ length bytes
    → get_or bytes 1 0 < 2 ^ 8
    → Safe (λ r. (r.1 ≤ len) × (width (r.0) ≤ r.1)) (asn_1_decode bytes len)
unfolding asn_1_decode
decode-width bytes len l v =
    ground (arith, read-get_or bytes 0, read-get_or bytes 1, read-get_or bytes 2)

Safe-imp {ℓ} :
    {A : Type ℓ} (P Q : A → Type 0) (r : Result A) → ((a : A) → P a → Q a) → Safe P r → Safe Q r
Safe-imp P Q (ok a) k s = k a s
Safe-imp P Q fail k s = tt
Safe-imp P Q fault k s = absurd s

-- `asn_1_decode` never reads behind `asn_1_array_len` bytes, and a length that it returns was read from
-- no more than those; the encoder, given as many bytes to write to as the decoder took, writes the
-- same length into no more of them. The second byte, where there is one, is below 256.
pub asn_1_encode-shortest :
    (bytes : List ℕ) (len : ℕ) (array : List ℕ)
    → len ≤ length bytes
    → get_or bytes 1 0 < 2 ^ 8
    → Safe
        (λ r.
          (r.1 ≤ len)
          × (r.1 ≤ length array → Returns (λ w. w.1 ≤ r.1) (asn_1_encode (r.0) array (r.1))))
        (asn_1_decode bytes len)
asn_1_encode-shortest bytes len array l v =
    Safe-imp (λ r. (r.1 ≤ len) × (width (r.0) ≤ r.1)) _ (asn_1_decode bytes len)
      (λ r s. (s.0, λ k. ground (arith, encode-width (r.0) (r.1) array (s.1) k)))
      (decode-width bytes len l v)
