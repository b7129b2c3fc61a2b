-- ===== src/Ucsi/SectionBuf/Runs.antt =====
-- Concrete runs of the section buffer, and its theorems at concrete inputs.
use dvb_apps.Common.{ℕ, ◌≡◌, refl, true, false, some, List, [], ◌∷◌, ◌++◌, arith, length, fault}
use mathlib.Core.List.{flatten}
use dvb_apps.Ucsi.SectionBuf.{
  SectionBuf, pending, complete, erange, section_buf_init, section_buf_add,
  section_buf_add_transport_payload, add_header, accumulate, check_length, skip_padding,
}
use dvb_apps.Ucsi.SectionBuf.Reassembly.{IsSection, add_all, reassembly}

-- A struct for sections of up to 16 bytes, and one that does not wait for a PDU start.
abbrev fresh : SectionBuf
fresh = record { max = 16; count = 0; len = 3; header = false; wait_pdu = true; bytes = [] }

abbrev running : SectionBuf
running = record { max = 16; count = 0; len = 3; header = false; wait_pdu = false; bytes = [] }

abbrev section : List ℕ
section = 0x42 ∷ 0xb0 ∷ 0x02 ∷ 0xaa ∷ 0xbb ∷ []

abbrev fragments : List (List ℕ)
fragments = (0x42 ∷ 0xb0 ∷ []) ∷ [] ∷ (0x02 ∷ 0xaa ∷ []) ∷ (0xbb ∷ []) ∷ []

init_runs : section_buf_init 16 ≡ some fresh
unfolding section_buf_init
init_runs = refl

section-IsSection : IsSection 16 section
section-IsSection = ground arith

-- Padding, the section, and a byte of the next one.
add_runs : (section_buf_add fresh (0xff ∷ 0xff ∷ (section ++ (9 ∷ [])))).used ≡ 7
unfolding section_buf_add add_header accumulate check_length skip_padding
add_runs = refl

too_long_runs : (section_buf_add fresh (0x42 ∷ 0xbf ∷ 0xff ∷ 0 ∷ [])).status ≡ erange
unfolding section_buf_add add_header accumulate check_length skip_padding
too_long_runs = refl

half_runs : (section_buf_add running (0x42 ∷ 0xb0 ∷ [])).status ≡ pending
unfolding section_buf_add add_header accumulate check_length skip_padding
half_runs = refl

-- Without a payload the pointer field is read from outside.
no_payload_runs : section_buf_add_transport_payload fresh [] true ≡ fault
unfolding section_buf_add_transport_payload
no_payload_runs = refl

reassembly_example :
    ((add_all fresh fragments).status ≡ complete)
    × ((add_all fresh fragments).used ≡ length (flatten fragments))
    × ((add_all fresh fragments).section.bytes ≡ flatten fragments)
unfolding flatten
reassembly_example = reassembly 16 fresh fragments init_runs section-IsSection
