-- ===== src/Ucsi/Codec/Runs.antt =====
-- Concrete sections through the codecs, and their theorems at concrete inputs.
use dvb_apps.Common.{ℕ, ◌≡◌, refl, ◌≢◌, ◌↔◌, List, [], ◌∷◌, ◌++◌, arith, All, ok, fail, fault}
use dvb_apps.Ucsi.Descriptor.{Descriptor, verify_descriptors, verify_loop, descriptors_for_each}
use dvb_apps.Ucsi.Descriptor.Verify.{encode, verify_descriptors_iff}
use dvb_apps.Ucsi.Descriptor.Walk.{for_each_verified}
use dvb_apps.Ucsi.Codec.{
  bswap16, field12, swap_all, swap_header, check_descriptors, entry_loop, fixed_loop,
  section_length, section_ext_length, mpeg_pmt_section_codec, dvb_sdt_section_codec,
  dvb_rst_section_codec,
}
use dvb_apps.Ucsi.Codec.Entries.{Fits}
use dvb_apps.Ucsi.Codec.Front.{IsFronted}
use dvb_apps.Ucsi.Codec.Tables.{mpeg_pmt_section_codec_iff}

-- A section whose length field, in host order, is `n`: eight bytes of header, a body and a CRC.
abbrev with_body : ℕ → List ℕ → List ℕ
with_body n body = 2 ∷ n ∷ 0xb0 ∷ 0 ∷ 1 ∷ 0xc1 ∷ 0 ∷ 0 ∷ (body ++ (1 ∷ 2 ∷ 3 ∷ 4 ∷ []))

-- One program descriptor, and a stream with one descriptor.
abbrev pmt_bytes : List ℕ
pmt_bytes =
    with_body 24 (0xe1 ∷ 0 ∷ 0xf0 ∷ 3 ∷ 9 ∷ 1 ∷ 7 ∷ 2 ∷ 0xe0 ∷ 0x64 ∷ 0xf0 ∷ 3 ∷ 0x52 ∷ 1 ∷ 5 ∷ [])

pmt_accepted :
    mpeg_pmt_section_codec pmt_bytes
    ≡ ok (
        with_body 24
          (0 ∷ 0xe1 ∷ 3 ∷ 0xf0 ∷ 9 ∷ 1 ∷ 7 ∷ 2 ∷ 0x64 ∷ 0xe0 ∷ 3 ∷ 0xf0 ∷ 0x52 ∷ 1 ∷ 5 ∷ []))
unfolding mpeg_pmt_section_codec section_ext_length field12 swap_header swap_all bswap16
    check_descriptors verify_descriptors verify_loop entry_loop
pmt_accepted = refl

-- The stream's descriptor is one byte too long.
pmt_refused :
    mpeg_pmt_section_codec (
      with_body 24
        (0xe1 ∷ 0 ∷ 0xf0 ∷ 3 ∷ 9 ∷ 1 ∷ 7 ∷ 2 ∷ 0xe0 ∷ 0x64 ∷ 0xf0 ∷ 3 ∷ 0x52 ∷ 2 ∷ 5 ∷ []))
    ≡ fail
unfolding mpeg_pmt_section_codec section_ext_length field12 swap_header swap_all bswap16
    check_descriptors verify_descriptors verify_loop entry_loop
pmt_refused = refl

abbrev sdt_bytes : List ℕ
sdt_bytes = with_body 20 (0 ∷ 1 ∷ 0xff ∷ 0 ∷ 1 ∷ 0xfc ∷ 0x80 ∷ 3 ∷ 0x48 ∷ 1 ∷ 1 ∷ [])

-- One status of nine bytes.
abbrev rst_bytes : List ℕ
rst_bytes = 0x71 ∷ 9 ∷ 0x70 ∷ 0 ∷ 1 ∷ 0 ∷ 2 ∷ 0 ∷ 3 ∷ 0 ∷ 4 ∷ 1 ∷ []

sdt_accepted :
    dvb_sdt_section_codec sdt_bytes
    ≡ ok (with_body 20 (1 ∷ 0 ∷ 0xff ∷ 1 ∷ 0 ∷ 0xfc ∷ 3 ∷ 0x80 ∷ 0x48 ∷ 1 ∷ 1 ∷ []))
unfolding dvb_sdt_section_codec section_ext_length field12 swap_header swap_all bswap16
    check_descriptors verify_descriptors verify_loop entry_loop
sdt_accepted = refl

-- The one status of this RST is refused.
rst_refused : dvb_rst_section_codec rst_bytes ≡ fail
unfolding dvb_rst_section_codec section_length field12 fixed_loop swap_all bswap16
rst_refused = refl

verify_descriptors_iff_example :
    (verify_descriptors pmt_bytes 12 3 ≢ fault)
    × ((verify_descriptors pmt_bytes 12 3 ≡ ok tt)
        ↔ ((ds : List Descriptor) × (9 ∷ 1 ∷ 7 ∷ [] ≡ encode ds)))
verify_descriptors_iff_example = verify_descriptors_iff pmt_bytes 12 3 (omega arith)

for_each_verified_example :
    (ds : List Descriptor) × (9 ∷ 1 ∷ 7 ∷ [] ≡ encode ds)
    × (descriptors_for_each pmt_bytes 12 3 ≡ ok ds)
unfolding verify_descriptors verify_loop
for_each_verified_example = for_each_verified pmt_bytes 12 3 (omega arith) refl

mpeg_pmt_section_codec_iff_example :
    (mpeg_pmt_section_codec pmt_bytes ≢ fault)
    × (((m : List ℕ) × (mpeg_pmt_section_codec pmt_bytes ≡ ok m))
        ↔ IsFronted 4 2 8 (All (Fits 5 3)) pmt_bytes)
mpeg_pmt_section_codec_iff_example = mpeg_pmt_section_codec_iff pmt_bytes (omega arith)
