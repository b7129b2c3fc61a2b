-- ===== src/En50221/App/Ca/Layout.antt =====
-- How long a CA_PMT is, and what it says.
use dvb_apps.Common.{ℕ, ◌≡◌, Bool, List, map, some}
use dvb_apps.En50221.App.Ca.Format.{
  Pmt, extract_descriptors, extract_stream, ca_layout, calculate_length,
}
use dvb_apps.En50221.App.Ca.Read.{CaPmt, read_ca_pmt}
use dvb_apps.En50221.App.Ca.Carried.{effective, under, as_bytes}

-- The number of bytes that is counted.
abbrev pub required : Pmt → Bool → ℕ
required pmt move = calculate_length ((ca_layout pmt move).0) ((ca_layout pmt move).1)

-- What the section says of its streams, as far as conditional access goes.
abbrev pub wanted : Pmt → List (ℕ × ℕ × List ℕ)
wanted pmt =
    as_bytes (effective (extract_descriptors (pmt.descriptors), map extract_stream (pmt.streams)))

-- The bytes can be read, and say of the program and its streams what the section says.
abbrev pub Carries : Pmt → ℕ → ℕ → List ℕ → Type 0
Carries pmt list_management cmd bytes =
    (p : CaPmt) × (read_ca_pmt cmd bytes ≡ some p)
    × (p.list_management ≡ list_management)
    × (p.program_number ≡ pmt.program_number)
    × (p.version_number ≡ pmt.version_number)
    × (under p ≡ wanted pmt)
