-- ===== src/Ucsi/TransportPacket/RoundTrip.antt =====
-- Whole packets with an adaptation field, and what is extracted from them.
use dvb_apps.Common.{
  read-get_or, ℕ, ◌+◌, ◌-◌, ◌≤◌, ◌≡◌, refl, inl, inr, Bool, true, false, none, some, List, [], ◌∷◌,
  ◌++◌, arith, bit, Bool-cases, length, get_or, length-append, ok,
}
use dvb_apps.Ucsi.TransportPacket.{
  TransportValues, Extraction, extract_payload, extract_adaptation, extract_extension,
  transport_packet_values_extract, has_payload, has_adaptation,
}
use dvb_apps.Ucsi.TransportPacket.Fields.{
  AdaptationField, IsField, field_flags, field_parts, parts_length, read_back, flag_extension_lem,
  extract_normal-read_back, is_some, clock_part, splice_part, private_part,
}

-- A packet: four header bytes, the length of the field, the field and the payload. `control` is the
-- byte with `adaptation_field_control`.
abbrev pub packet : ℕ → ℕ → ℕ → AdaptationField → List ℕ → List ℕ
packet b1 b2 control f payload =
    0x47
    ∷ b1
    ∷ b2
    ∷ control
    ∷ (1 + parts_length f + length (f.stuffing))
    ∷ field_flags f
    ∷ field_parts f payload

-- The state before the first part is read.
abbrev pub start : TransportValues → Extraction
start out = record { pos = 6; out = out; extracted = [] }

abbrev pub with_payload : Bool → ℕ → ℕ → TransportValues → TransportValues
with_payload true off flags out = record out {
  payload = some off;
  payload_length = 188 - off;
  flags = flags;
}
with_payload false off flags out = record out { payload = none; payload_length = 0; flags = flags }

payload_read :
    (pkt : List ℕ) (adaplength flags : ℕ) (x : Extraction)
    → 4 ≤ length pkt
    → 5 + adaplength ≤ 188
    → bit (get_or pkt 3 0) 5 ≡ true
    → extract_payload pkt adaplength flags x
      ≡ ok (with_payload (bit (get_or pkt 3 0) 4) (5 + adaplength) flags (x.out), x.extracted)
unfolding extract_payload has_payload has_adaptation
payload_read pkt adaplength flags x h a b = elim (Bool-cases (bit (get_or pkt 3 0) 4)) [
  | inl e ↦ ground (arith, read-get_or pkt 3)
  | inr e ↦ ground (arith, read-get_or pkt 3)
]

field_fits :
    (f : AdaptationField) (payload : List ℕ)
    → parts_length f + length (f.stuffing) ≤ length (field_parts f payload)
field_fits f payload =
    let c = private_part (f.private_data) ++ (f.stuffing ++ payload) in
    let b = splice_part (f.splice_countdown) ++ c in
    let a = clock_part (f.opcr) ++ b in
    omega (
      arith,
      length-append (clock_part (f.pcr)) a,
      length-append (clock_part (f.opcr)) b,
      length-append (splice_part (f.splice_countdown)) c,
      length-append (private_part (f.private_data)) (f.stuffing ++ payload),
      length-append (f.stuffing) payload,
    )

-- Where a 188 byte packet carries an adaptation field without an extension, extracting the four
-- normal values gives back each clock reference as its number of 27 MHz ticks, the splice countdown,
-- and the private data as its place and length, for those parts that are there; the other values are
-- left alone, and the payload is what stands behind the field.
pub transport_packet_values_extract-packet :
    (b1 b2 control : ℕ) (f : AdaptationField) (payload : List ℕ) (out : TransportValues)
    → IsField f
    → length (packet b1 b2 control f payload) ≡ 188
    → bit control 5 ≡ true
    → let x = read_back f (start out) in
      transport_packet_values_extract (packet b1 b2 control f payload) out 15
      ≡ ok (
        with_payload
            (bit control 4)
            (6 + parts_length f + length (f.stuffing))
            (field_flags f)
            (x.out),
        x.extracted,
      )
unfolding transport_packet_values_extract extract_adaptation extract_extension has_adaptation
transport_packet_values_extract-packet b1 b2 control f payload out v l b =
    let pkt = packet b1 b2 control f payload in
    let n = 1 + parts_length f + length (f.stuffing) in
    let r = field_fits f payload in
    ground (
      arith,
      extract_normal-read_back pkt (5 + n) (start out) f payload v refl (omega arith),
      flag_extension_lem (f.upper) (is_some (f.pcr)) (is_some (f.opcr))
          (is_some (f.splice_countdown)) (is_some (f.private_data)),
      payload_read pkt n (field_flags f) (read_back f (start out)) (omega arith) (omega arith) b,
    )
