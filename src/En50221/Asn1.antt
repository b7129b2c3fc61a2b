-- ===== src/En50221/Asn1.antt =====
-- lib/libdvben50221/asn_1.c: the length fields of EN50221, of one to three bytes.
--
-- The array is the list of its bytes, `asn_1_array_len` a count that the caller vouches for.
pub mod Lengths
mod Runs
use dvb_apps.Common.{
  ℕ, ◌+◌, ◌*◌, ◌/◌, ◌%◌, ◌^◌, true, false, List, leb, ltb, ◌==◌, if◌then◌else◌, length, set, Result,
  ok, fail, fault, ◌>>=◌, ◌>>◌, guard, read,
}

-- `ok` is `*length` and the number of bytes read; `fail` is -1.
unfoldable pub asn_1_decode : List ℕ → ℕ → Result (ℕ × ℕ)
asn_1_decode array array_len =
    guard (leb 1 array_len)
    >> (read array 0 >>= λ length_field.
        if ltb length_field 0x80
        then ok (length_field % 0x80, 1)
        else if length_field == 0x81
        then (guard (leb 2 array_len) >> (read array 1 >>= λ n. ok (n, 2)))
        else if length_field == 0x82
        then (guard (leb 3 array_len)
            >> (read array 1 >>= λ hi. read array 2 >>= λ lo. ok (hi * 2 ^ 8 + lo, 3)))
        else fail)

-- A write of one byte.
unfoldable pub write : List ℕ → ℕ → ℕ → Result (List ℕ)
write array i v = if ltb i (length array) then ok (set array i v) else fault

-- `ok` is the array and the number of bytes written; the length has 16 bits.
unfoldable pub asn_1_encode : ℕ → List ℕ → ℕ → Result (List ℕ × ℕ)
asn_1_encode n array array_len =
    if ltb n 0x80
    then (guard (leb 1 array_len) >> (write array 0 (n % 0x80) >>= λ a. ok (a, 1)))
    else if ltb n 0x100
    then (guard (leb 2 array_len)
        >> (write array 0 0x81 >>= λ a. write a 1 (n % 2 ^ 8) >>= λ b. ok (b, 2)))
    else (guard (leb 3 array_len)
        >> (write array 0 0x82 >>= λ a.
            write a 1 (n / 2 ^ 8 % 2 ^ 8) >>= λ b. write b 2 (n % 2 ^ 8) >>= λ c. ok (c, 3)))
