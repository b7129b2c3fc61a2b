-- ===== src/Ucsi/TransportPacket.antt =====
-- lib/libucsi/transport_packet.c and transport_packet.h: the header and the adaptation field of a
-- 188 byte transport packet.
--
-- A packet is the list of its bytes, and a pointer into it is an index. Bit `k` of a flags byte is
-- `bit flags k`.
pub mod Bounds
pub mod Continuity
pub mod Clock
pub mod Fields
pub mod RoundTrip
mod Runs
use dvb_apps.Common.{
  ℕ, zero, suc, ◌+◌, ◌-◌, ◌*◌, ◌/◌, ◌%◌, ◌^◌, Bool, true, false, not, ◌&&◌, ◌||◌, Option, none,
  some, List, [], ◌∷◌, ltb, leb, ◌==◌, if◌then◌else◌, bit, Result, ok, fail, fault, ◌>>=◌, ◌>>◌,
  guard, read,
}

abbrev pub transport_packet_length : ℕ
transport_packet_length = 188

abbrev pub transport_null_pid : ℕ
transport_null_pid = 0x1fff

-- The bit numbers of `enum transport_adaptation_flags`, its extension flags and `transport_value`.
abbrev pub flag_pcr : ℕ
flag_pcr = 4

abbrev pub flag_opcr : ℕ
flag_opcr = 3

abbrev pub flag_splicing_point : ℕ
flag_splicing_point = 2

abbrev pub flag_private_data : ℕ
flag_private_data = 1

abbrev pub flag_extension : ℕ
flag_extension = 0

abbrev pub extension_flag_ltw : ℕ
extension_flag_ltw = 7

abbrev pub extension_flag_piecewise_rate : ℕ
extension_flag_piecewise_rate = 6

abbrev pub extension_flag_seamless_splice : ℕ
extension_flag_seamless_splice = 5

abbrev pub value_pcr : ℕ
value_pcr = 0

abbrev pub value_opcr : ℕ
value_opcr = 1

abbrev pub value_splice_countdown : ℕ
value_splice_countdown = 2

abbrev pub value_private_data : ℕ
value_private_data = 3

abbrev pub value_ltw : ℕ
value_ltw = 8

abbrev pub value_piecewise_rate : ℕ
value_piecewise_rate = 9

abbrev pub value_seamless_splice : ℕ
value_seamless_splice = 10

-- `struct transport_values`.
pub record TransportValues : Type 0 where
  pub flags : ℕ
  pub payload : Option ℕ
  pub payload_length : ℕ
  pub pcr : ℕ
  pub opcr : ℕ
  pub splice_countdown : ℕ
  pub private_data_length : ℕ
  pub private_data : ℕ
  pub ltw_offset : ℕ
  pub piecewise_rate : ℕ
  pub splice_type : ℕ
  pub dts_next_au : ℕ

-- The locals of `transport_packet_values_extract` that the parts of it hand on: `pos`, `*out`, and
-- `extracted` as a list of bit numbers.
pub record Extraction : Type 0 where
  pub pos : ℕ
  pub out : TransportValues
  pub extracted : List ℕ

-- `pkt->adaptation_field_control & 1` and `& 2`.
unfoldable pub has_payload : List ℕ → Result Bool
has_payload pkt = read pkt 3 >>= λ b. ok (bit b 4)

unfoldable pub has_adaptation : List ℕ → Result Bool
has_adaptation pkt = read pkt 3 >>= λ b. ok (bit b 5)

unfoldable pub continuity_counter : List ℕ → Result ℕ
continuity_counter pkt = read pkt 3 >>= λ b. ok (b % 16)

unfoldable pub transport_packet_pid : List ℕ → Result ℕ
transport_packet_pid pkt = do hi ← read pkt 1; lo ← read pkt 2; ok (hi % 32 * 256 + lo)

-- `ok` is the packet and `fail` is `NULL`.
unfoldable pub transport_packet_init : List ℕ → Result (List ℕ)
transport_packet_init buf = do
  sync ← read buf 0
  guard (sync == 0x47)
  pid ← transport_packet_pid buf
  guard (ltb pid 0x2000)
  ok buf

-- The clock reference at `pos`: 33 bits in units of 300 of a 9 bit extension.
unfoldable pub clock_at : List ℕ → ℕ → Result ℕ
clock_at pkt pos = do
  a ← read pkt pos
  b ← read pkt (pos + 1)
  c ← read pkt (pos + 2)
  d ← read pkt (pos + 3)
  e ← read pkt (pos + 4)
  f ← read pkt (pos + 5)
  let base = a * 2 ^ 25 + b * 2 ^ 17 + c * 2 ^ 9 + d * 2 + e / 2 ^ 7
  let ext = e % 2 * 2 ^ 8 + f
  ok (base * 300 + ext)

-- One part of the field, where its flag is set: it must end by `adapend`; it is stored if the caller
-- wants it; `pos` moves behind it.
unfoldable pub part :
    Bool → ℕ → Bool → (Extraction → Result Extraction) → ℕ → Extraction → Result Extraction
part false size wanted store adapend x = ok x
part true size wanted store adapend x = guard (leb (x.pos + size) adapend) >>= λ _.
    elim wanted [ true ↦ store x | false ↦ ok x ] >>= λ y. ok (record y { pos = x.pos + size })

unfoldable pub store_pcr : List ℕ → Extraction → Result Extraction
store_pcr pkt x = do
  v ← clock_at pkt (x.pos)
  ok (record x { out = record (x.out) { pcr = v }; extracted = value_pcr ∷ x.extracted })

unfoldable pub store_opcr : List ℕ → Extraction → Result Extraction
store_opcr pkt x = do
  v ← clock_at pkt (x.pos)
  ok (record x { out = record (x.out) { opcr = v }; extracted = value_opcr ∷ x.extracted })

unfoldable pub store_splice_countdown : List ℕ → Extraction → Result Extraction
store_splice_countdown pkt x = do
  v ← read pkt (x.pos)
  ok (record x {
    out = record (x.out) { splice_countdown = v };
    extracted = value_splice_countdown ∷ x.extracted;
  })

-- The private data is left in the packet, and `*out` has a pointer to it.
unfoldable pub store_private_data : List ℕ → Extraction → Result Extraction
store_private_data pkt x = do
  n ← read pkt (x.pos)
  ok (record x {
    out = record (x.out) { private_data_length = n; private_data = x.pos + 1 };
    extracted = value_private_data ∷ x.extracted;
  })

unfoldable pub extract_private_data : List ℕ → ℕ → ℕ → ℕ → Extraction → Result Extraction
extract_private_data pkt extract adapflags adapend x = elim (bit adapflags flag_private_data) [
  | false ↦ ok x
  | true ↦
      (guard (leb (x.pos + 1) adapend) >>= λ _. read pkt (x.pos) >>= λ n.
      part true (1 + n) (bit extract value_private_data) (store_private_data pkt) adapend x)
]

-- The parts of the field before its extension.
unfoldable pub extract_normal : List ℕ → ℕ → ℕ → ℕ → Extraction → Result Extraction
extract_normal pkt extract adapflags adapend x = do
  x1 ← part (bit adapflags flag_pcr) 6 (bit extract value_pcr) (store_pcr pkt) adapend x
  x2 ← part (bit adapflags flag_opcr) 6 (bit extract value_opcr) (store_opcr pkt) adapend x1
  x3 ←
      part (bit adapflags flag_splicing_point) 1 (bit extract value_splice_countdown)
        (store_splice_countdown pkt) adapend x2
  extract_private_data pkt extract adapflags adapend x3

-- The offset counts only if its valid bit is set.
unfoldable pub store_ltw : List ℕ → Extraction → Result Extraction
store_ltw pkt x = do
  a ← read pkt (x.pos)
  elim (bit a 7) [
    | false ↦ ok x
    | true ↦
        (read pkt (x.pos + 1) >>= λ b. ok (record x {
          out = record (x.out) { ltw_offset = a % 128 * 2 ^ 8 + b };
          extracted = value_ltw ∷ x.extracted;
        }))
  ]

unfoldable pub store_piecewise_rate : List ℕ → Extraction → Result Extraction
store_piecewise_rate pkt x = do
  a ← read pkt (x.pos)
  b ← read pkt (x.pos + 1)
  c ← read pkt (x.pos + 2)
  ok (record x {
    out = record (x.out) { piecewise_rate = a % 64 * 2 ^ 16 + b * 2 ^ 8 + c };
    extracted = value_piecewise_rate ∷ x.extracted;
  })

-- A 32 bit `int` as a `uint64_t`, which extends its sign.
unfoldable pub int_to_u64 : ℕ → ℕ
int_to_u64 v = if ltb (v % 2 ^ 32) (2 ^ 31) then v % 2 ^ 32 else v % 2 ^ 32 + (2 ^ 64 - 2 ^ 32)

-- The time stamp is put together in a 32 bit `int`, in which its top bit is lost.
unfoldable pub store_seamless_splice : List ℕ → Extraction → Result Extraction
store_seamless_splice pkt x = do
  a ← read pkt (x.pos)
  b ← read pkt (x.pos + 1)
  c ← read pkt (x.pos + 2)
  d ← read pkt (x.pos + 3)
  e ← read pkt (x.pos + 4)
  let dts = a / 2 % 8 * 2 ^ 30 + b * 2 ^ 22 + c / 2 * 2 ^ 15 + d * 2 ^ 7 + e / 2
  ok (record x {
    out = record (x.out) { splice_type = a / 16; dts_next_au = int_to_u64 dts };
    extracted = value_seamless_splice ∷ x.extracted;
  })

-- The parts of the extension. The seamless splice is stored if the piecewise rate is wanted.
unfoldable pub extract_extension_parts : List ℕ → ℕ → ℕ → ℕ → Extraction → Result Extraction
extract_extension_parts pkt extract flags adapend x = do
  x1 ← part (bit flags extension_flag_ltw) 2 (bit extract value_ltw) (store_ltw pkt) adapend x
  x2 ←
      part (bit flags extension_flag_piecewise_rate) 3 (bit extract value_piecewise_rate)
        (store_piecewise_rate pkt) adapend x1
  part (bit flags extension_flag_seamless_splice) 5 (bit extract value_piecewise_rate)
      (store_seamless_splice pkt) adapend x2

unfoldable pub extract_extension : List ℕ → ℕ → ℕ → ℕ → Extraction → Result Extraction
extract_extension pkt extract adapflags adapend x = elim (bit adapflags flag_extension) [
  | false ↦ ok x
  | true ↦
      (guard (ltb (x.pos) adapend) >>= λ _. read pkt (x.pos) >>= λ n.
      guard (leb (x.pos + 1 + n) adapend) >>= λ _.
      elim ((extract / 2 ^ 8 % 2 ^ 8 == 0) || (n == 0)) [
        | true ↦ ok (record x { pos = x.pos + 1 })
        | false ↦
            (read pkt (x.pos + 1) >>= λ flags.
            extract_extension_parts pkt extract flags adapend (record x { pos = x.pos + 2 }))
      ])
]

-- What stands behind the label `extract_payload`: `off` is only used where there is a payload.
unfoldable pub extract_payload : List ℕ → ℕ → ℕ → Extraction → Result (TransportValues × List ℕ)
extract_payload pkt adaplength adapflags x = do
  payload ← has_payload pkt
  adaptation ← has_adaptation pkt
  let off = 4 + (if adaptation then 1 else 0) + adaplength
  let out =
      if payload
      then record (x.out) { payload = some off; payload_length = (188 + 2 ^ 16 - off) % 2 ^ 16 }
      else record (x.out) { payload = none; payload_length = 0 }
  ok (record out { flags = adapflags }, x.extracted)

-- A field of `adaplength` bytes, which is not 0, from its flags on.
unfoldable pub extract_adaptation :
    List ℕ → TransportValues → ℕ → ℕ → Result (TransportValues × List ℕ)
extract_adaptation pkt out extract adaplength = do
  guard (leb (5 + adaplength) transport_packet_length)
  flags ← read pkt 5
  let x : Extraction = record { pos = 6; out = out; extracted = [] }
  elim (extract % 2 ^ 16 == 0) [
    | true ↦ extract_payload pkt adaplength flags x
    | false ↦
        (extract_normal pkt extract flags (5 + adaplength) x >>= λ x1.
        extract_extension pkt extract flags (5 + adaplength) x1 >>= λ x2.
        extract_payload pkt adaplength flags x2)
  ]

-- `ok` is `*out` and the bit numbers of the result; `fail` is -1.
unfoldable pub transport_packet_values_extract :
    List ℕ → TransportValues → ℕ → Result (TransportValues × List ℕ)
transport_packet_values_extract pkt out extract = do
  adaptation ← has_adaptation pkt
  let x : Extraction = record { pos = 4; out = out; extracted = [] }
  elim adaptation [
    | false ↦ extract_payload pkt 0 0 x
    | true ↦
        (read pkt 4 >>= λ adaplength. elim (adaplength == 0) [
          | true ↦ extract_payload pkt 0 0 x
          | false ↦ extract_adaptation pkt out extract adaplength
        ])
  ]

-- The state: bit 7 says that it is valid, bit 6 that a duplicate was seen, and the low bits are the
-- counter. `fail` is -1, which leaves it alone.
unfoldable pub transport_packet_continuity_check : List ℕ → Bool → ℕ → Result ℕ
transport_packet_continuity_check pkt discontinuity cstate = do
  counter ← continuity_counter pkt
  pid ← transport_packet_pid pkt
  payload ← has_payload pkt
  let prev = cstate % 16
  let next = (if payload then ((prev + 1) % 16) else prev)
  let check =
      if pid == transport_null_pid
      then ok cstate
      else if not (bit cstate 7)
      then ok (counter + 0x80)
      else if discontinuity
      then ok (counter + 0x80)
      else if next == counter
      then ok (counter + 0x80)
      else if (prev == counter) && not (bit cstate 6)
      then ok (counter + 0xc0)
      else fail
  check
