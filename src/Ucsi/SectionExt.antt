-- ===== src/Ucsi/SectionExt.antt =====
-- lib/libucsi/section.h: the checksum of a section, and extended sections decoded and encoded. The
-- memory starts at the section, whose length field is in host order, as section_codec leaves it.
pub mod RoundTrip
mod Runs
use dvb_apps.Common.{
  ℕ, zero, suc, ◌+◌, ◌-◌, ◌*◌, ◌/◌, ◌%◌, ◌^◌, ◌≤◌, ◌<◌, min, ◌≡◌, refl, sym, ap, ap₂, subst, ◌∙◌,
  ◌≢◌, ◌↔◌, ◌⊎◌, inl, inr, Bool, true, false, not, ◌&&◌, ◌||◌, Option, none, some, List, [], ◌∷◌,
  ◌++◌, map, append-nil, append_assoc, arith, ltb, leb, ◌==◌, if◌then◌else◌, bit, ltb→lt, lt→ltb,
  leb→le, ==_iff, tests, Bool-cases, Option-cases, if_rule, bool_rule, option_rule, &&_left,
  &&_right, length, get_elem?, get_or, set, take, drop, replicate, All, length-append, length-set,
  length-take, length-drop, length-map, take-append-drop, take-ge, drop-ge, take-append,
  take-length_append, drop-length_append, take-append_le, drop-append_le, drop-append_ge, drop_cons,
  take-add, drop-take, take-take, get_elem?-set, get_elem?-drop_one, get_elem?-set_other, set-set,
  set_self, read-get_or, read-drop, drop-drop, drop-behind, drop-next, Result, ok, fail, fault,
  ◌>>=◌, ◌>>◌, guard, read, Returns, Safe, Result-cases, Safe-bind, Safe-guard, Safe-elim,
}
use dvb_apps.Ucsi.Codec.{bswap16, section_length}
use dvb_apps.Ucsi.Crc32.{crc32, crc32_init}

-- 0 or -1, and the memory, whose length field is swapped for the checksum and swapped back.
unfoldable pub section_check_crc : List ℕ → Result (Bool × List ℕ)
section_check_crc mem = do
  len ← section_length mem
  m ← bswap16 mem 1
  crc ← crc32 crc32_init m len
  m' ← bswap16 m 1
  ok (crc == 0, m')

-- The top bit of the 16 bit word behind the table id.
unfoldable pub syntax_indicator : List ℕ → Result Bool
syntax_indicator mem = read mem 2 >>= λ b. ok (bit b 7)

unfoldable pub section_ext_decode : List ℕ → Bool → Result (List ℕ)
section_ext_decode mem check_crc = do
  syntax ← syntax_indicator mem
  guard syntax
  r ← if check_crc then section_check_crc mem else ok (true, mem)
  guard r.0
  bswap16 r.1 3

-- A 32 bit word stored at `pos` and swapped: the highest byte comes first.
unfoldable pub store_swapped : List ℕ → ℕ → ℕ → Result (List ℕ)
store_swapped mem pos v =
    if leb (pos + 4) (length mem)
    then ok (
        set
          (set (set (set mem pos (v / 2 ^ 24 % 2 ^ 8)) (pos + 1) (v / 2 ^ 16 % 2 ^ 8)) (pos + 2)
            (v / 2 ^ 8 % 2 ^ 8))
          (pos + 3) (v % 2 ^ 8))
    else fault

-- The checksum of the section but for its last four bytes, which take it. In a section of three bytes
-- the length of the data would be -1, which is 2 ^ 64 - 1 as a `size_t`.
unfoldable pub update : List ℕ → Result (List ℕ)
update mem = do
  len ← section_length mem
  m ← bswap16 mem 1
  crc ← if leb 4 len then crc32 crc32_init m (len - 4) else fault
  m' ← bswap16 m 1
  store_swapped m' (len - 4) crc

unfoldable pub section_ext_encode : List ℕ → Bool → Result (List ℕ)
section_ext_encode mem update_crc = do
  syntax ← syntax_indicator mem
  guard syntax
  m ← bswap16 mem 3
  if update_crc then update m else ok m
