-- ===== src/Ucsi/SectionExt/Runs.antt =====
-- Sections with their checksums.
use dvb_apps.Common.{ℕ, ◌≡◌, refl, true, List, [], ◌∷◌, arith, ok}
use dvb_apps.Ucsi.Crc32.{crc32tbl, crc_step, crc32, crc32_init}
use dvb_apps.Ucsi.Crc32.Appended.{stored}
use dvb_apps.Ucsi.SectionExt.{section_ext_decode, section_ext_encode}
use dvb_apps.Ucsi.SectionExt.RoundTrip.{checksum, section_ext_decode-encode}

-- The digits from 1 to 9, whose checksum is well known.
digits_run :
    crc32 crc32_init (0x31 ∷ 0x32 ∷ 0x33 ∷ 0x34 ∷ 0x35 ∷ 0x36 ∷ 0x37 ∷ 0x38 ∷ 0x39 ∷ []) 9
    ≡ ok 0x0376e6e7
unfolding crc32 crc_step crc32tbl
digits_run = refl

section_ext_decode-encode_example :
    (out : List ℕ) × (section_ext_encode (0x42 ∷ 7 ∷ 0xb0 ∷ 1 ∷ 2 ∷ (9 ∷ 0 ∷ 0 ∷ 0 ∷ 0 ∷ [])) true
      ≡ ok out)
    × (section_ext_decode out true
        ≡ ok (0x42 ∷ 7 ∷ 0xb0 ∷ 1 ∷ 2 ∷ 9 ∷ stored (checksum 0x42 7 0xb0 1 2 (9 ∷ []))))
section_ext_decode-encode_example =
    section_ext_decode-encode 0x42 7 0xb0 1 2 0 0 0 0 (9 ∷ []) (omega arith) (omega arith)
