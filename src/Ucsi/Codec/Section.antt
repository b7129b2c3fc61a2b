-- ===== src/Ucsi/Codec/Section.antt =====
-- A section that was put together is taken by `section_codec`.
use dvb_apps.Common.{
  ℕ, ◌+◌, ◌^◌, ◌≤◌, ◌<◌, ◌≡◌, ap₂, ◌∙◌, ◌≢◌, ◌↔◌, ◌&&◌, some, List, arith, leb, ◌==◌, if◌then◌else◌,
  length, get_or, ok, fail, fault,
}
use mathlib.Core.List.{flatten}
use dvb_apps.Ucsi.SectionBuf.{SectionBuf, section_buf_init}
use dvb_apps.Ucsi.SectionBuf.Reassembly.{IsSection, add_all, reassembly}
use dvb_apps.Ucsi.Codec.{section_codec}
use dvb_apps.Ucsi.Codec.Memory.{swapped, bswap16_lem, field12-swapped, stream12}

-- What it comes to.
section_codec_lem :
    (mem : List ℕ) (len : ℕ)
    → len ≤ length mem
    → section_codec mem len
      ≡ (if leb 3 len && (len == stream12 mem 1 + 3) then ok (swapped mem 1) else fail)
unfolding section_codec
section_codec_lem mem len h = ground (arith, bswap16_lem mem 1, field12-swapped mem 1)

-- `section_codec` reads nothing outside the `len` bytes that it is given, and takes them exactly if
-- they are three or more and `len` is three more than the length that the section has in the stream;
-- it swaps that length and changes nothing else.
pub section_codec_iff :
    (mem : List ℕ) (len : ℕ)
    → len ≤ length mem
    → (section_codec mem len ≢ fault)
      × ((m : List ℕ)
          → (section_codec mem len ≡ ok m)
            ↔ ((3 ≤ len) × (len ≡ stream12 mem 1 + 3) × (swapped mem 1 ≡ m)))
section_codec_iff mem len h =
    let e = section_codec_lem mem len h in
    (ground (arith, e), λ m. (ground (arith, e), ground (arith, e)))

-- A section is taken at its full length.
section_codec-IsSection :
    (max : ℕ) (section : List ℕ)
    → IsSection max section
    → get_or section 2 0 < 2 ^ 8
    → section_codec section (length section) ≡ ok (swapped section 1)
section_codec-IsSection max section s b =
    ground (arith, section_codec_lem section (length section) (omega arith))

-- A section cut into fragments anywhere and fed to a fresh struct comes out as bytes that
-- `section_codec` takes at the number of bytes used, if its third byte is below 256.
pub section_codec-reassembly :
    (max : ℕ) (s : SectionBuf) (fs : List (List ℕ))
    → section_buf_init max ≡ some s
    → IsSection max (flatten fs)
    → get_or (flatten fs) 2 0 < 2 ^ 8
    → let r = add_all s fs in section_codec (r.section.bytes) (r.used) ≡ ok (swapped (flatten fs) 1)
section_codec-reassembly max s fs e v b =
    let (_, used, out) = reassembly max s fs e v in
    ap₂ section_codec out used ∙ section_codec-IsSection max (flatten fs) v b
