-- ===== src/Ucsi/TransportPacket/Runs.antt =====
-- Concrete transport packets, and the theorems at them.
use dvb_apps.Common.{
  ℕ, ◌+◌, ◌-◌, ◌%◌, ◌^◌, ◌≡◌, refl, true, false, none, some, List, [], ◌∷◌, arith, length,
  replicate, ok, fail, Returns, Safe,
}
use dvb_apps.Ucsi.TransportPacket.{
  TransportValues, transport_packet_values_extract, transport_packet_continuity_check, int_to_u64,
}
use dvb_apps.Ucsi.TransportPacket.Bounds.{InPacket, transport_packet_values_extract-Safe}
use dvb_apps.Ucsi.TransportPacket.Continuity.{
  check_all, check_all-stream, transport_packet_continuity_check_loss,
}
use dvb_apps.Ucsi.TransportPacket.Fields.{AdaptationField, read_back, field_flags}
use dvb_apps.Ucsi.TransportPacket.RoundTrip.{
  packet, start, with_payload, transport_packet_values_extract-packet,
}

abbrev cleared : TransportValues
cleared = record {
  flags = 0;
  payload = none;
  payload_length = 0;
  pcr = 0;
  opcr = 0;
  splice_countdown = 0;
  private_data_length = 0;
  private_data = 0;
  ltw_offset = 0;
  piecewise_rate = 0;
  splice_type = 0;
  dts_next_au = 0;
}

abbrev field : AdaptationField
field = record {
  upper = 2;
  pcr = some (record { base = 8589934591; ext = 299 });
  opcr = none;
  splice_countdown = some 7;
  private_data = some (1 ∷ 2 ∷ 3 ∷ []);
  stuffing = 0xff ∷ 0xff ∷ [];
}

abbrev payload : List ℕ
payload = replicate 169 0xaa

pkt_length : length (packet 0x40 0x11 0x37 field payload) ≡ 188
pkt_length = refl

transport_packet_values_extract-packet_example :
    transport_packet_values_extract (packet 0x40 0x11 0x37 field payload) cleared 15
    ≡ ok (
      with_payload true 19 (field_flags field) ((read_back field (start cleared)).out),
      3 ∷ 2 ∷ 0 ∷ [],
    )
transport_packet_values_extract-packet_example =
    transport_packet_values_extract-packet 0x40 0x11 0x37 field payload cleared (ground arith)
      pkt_length refl

transport_packet_values_extract-Safe_example :
    Safe InPacket
      (transport_packet_values_extract (packet 0x40 0x11 0x37 field payload) cleared 0x70f)
transport_packet_values_extract-Safe_example =
    transport_packet_values_extract-Safe (packet 0x40 0x11 0x37 field payload) cleared 0x70f
      (omega (arith, pkt_length))

abbrev counted : ℕ → List ℕ
counted c = 0x47 ∷ 0x01 ∷ 0x00 ∷ (0x10 + c) ∷ []

check_all-stream_example :
    Returns
      (λ s. s % 16 ≡ (14 + 3 + 15) % 16)
      (check_all (counted 14 ∷ counted 15 ∷ counted 15 ∷ counted 0 ∷ []) 0)
check_all-stream_example =
    check_all-stream (counted 14 ∷ counted 15 ∷ counted 15 ∷ counted 0 ∷ []) 14
      (false ∷ true ∷ false ∷ []) (omega arith) (ground arith) (ground arith)

transport_packet_continuity_check_loss_example :
    transport_packet_continuity_check (counted 9) false 0x85 ≡ fail
transport_packet_continuity_check_loss_example =
    transport_packet_continuity_check_loss (counted 9) 0x85 3 refl (omega arith) (omega arith)
      (ground arith)

-- A time stamp of 2 ^ 31 comes out with its sign extended, and one of 2 ^ 32 as 0.
int_to_u64_runs : (int_to_u64 (2 ^ 31) ≡ 2 ^ 64 - 2 ^ 31) × (int_to_u64 (2 ^ 32) ≡ 0)
unfolding int_to_u64
int_to_u64_runs = (refl, refl)
