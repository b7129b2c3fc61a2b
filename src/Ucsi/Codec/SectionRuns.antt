-- ===== src/Ucsi/Codec/SectionRuns.antt =====
-- A concrete section, taken.
use dvb_apps.Common.{◌≡◌, refl, [], ◌∷◌, ok}
use dvb_apps.Ucsi.Codec.{section_codec, field12, section_length, bswap16}

small_taken : section_codec (0x42 ∷ 0xb0 ∷ 0x01 ∷ 0xaa ∷ []) 4 ≡ ok (0x42 ∷ 0x01 ∷ 0xb0 ∷ 0xaa ∷ [])
unfolding section_codec field12 section_length bswap16
small_taken = refl
