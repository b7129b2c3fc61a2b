-- ===== src/Ucsi/SectionBuf.antt =====
-- lib/libucsi/section_buf.c and section_buf.h: a section put together from fragments.
--
-- `SectionBuf` is `struct section_buf`; `bytes` is the memory behind the struct, up to the last byte
-- written since `section_buf_init`. A fragment is the list of the `len` bytes that C is given.
pub mod Invariant
pub mod Header
pub mod Fragments
pub mod Stop
pub mod Reassembly
pub mod Payload
mod Runs
use dvb_apps.Common.{
  ℕ, suc, zero, ◌+◌, ◌-◌, ◌*◌, ◌%◌, ◌≡◌, Bool, true, false, ◌&&◌, not, ◌||◌, List, [], ◌∷◌, ◌++◌,
  Option, none, some, ltb, leb, ◌==◌, if◌then◌else◌, length, get_or, take, drop, Result, ok, fail,
  fault, ◌>>=◌, read, min,
}

pub record SectionBuf : Type 0 where
  pub max : ℕ
  pub count : ℕ
  pub len : ℕ
  pub header : Bool
  pub wait_pdu : Bool
  pub bytes : List ℕ

-- `*section_status`: 0, 1, -ERANGE and -EINVAL.
pub data Status : Type 0 where
  pending complete erange einval : Status

-- What a call leaves behind: its result, `*section_status` and the struct.
pub record Added : Type 0 where
  pub used : ℕ
  pub status : Status
  pub section : SectionBuf

abbrev pub section_hdr_size : ℕ
section_hdr_size = 3

abbrev pub section_pad : ℕ
section_pad = 0xff

-- `none` is -EINVAL.
unfoldable pub section_buf_init : ℕ → Option SectionBuf
section_buf_init max = if ltb max section_hdr_size then none else some fresh
  where
    fresh : SectionBuf
    fresh = record {
      max = max;
      count = 0;
      len = section_hdr_size;
      header = false;
      wait_pdu = true;
      bytes = [];
    }

-- The result of `section_buf_init` is not looked at.
unfoldable pub section_buf_reset : SectionBuf → SectionBuf
unfolding section_buf_init
section_buf_reset s = elim (section_buf_init s.max) [
  | none ↦ s
  | some t ↦ record t { wait_pdu = s.wait_pdu }
]

-- `count` never passes `len`, so that the unsigned subtraction does not wrap.
unfoldable pub section_buf_remaining : SectionBuf → ℕ
section_buf_remaining s = s.len - s.count

abbrev pub finished : SectionBuf → Bool
finished s = s.header && (s.len == s.count)

-- The padding bytes at the front, counted, and what follows them.
unfoldable pub skip_padding : List ℕ → ℕ × List ℕ
skip_padding [] = (0, [])
skip_padding (x ∷ xs) =
    let (n, rest) = skip_padding xs in if x == section_pad then (n + 1, rest) else (0, x ∷ xs)

-- `memcpy(data + off, src, …)`.
abbrev pub write_at : List ℕ → ℕ → List ℕ → List ℕ
write_at mem off src = take off mem ++ (src ++ drop (off + length src) mem)

-- `SECTION_HDR_SIZE + (((data[1] & 0x0f) << 8) | data[2])`
abbrev pub coded_length : List ℕ → ℕ
coded_length mem = section_hdr_size + (get_or mem 1 0 % 16 * 256 + get_or mem 2 0)

-- `copy` bytes of the fragment go behind those that are there.
abbrev pub copied : SectionBuf → ℕ → List ℕ → SectionBuf
copied s copy frag = record s {
  count = s.count + copy;
  bytes = write_at s.bytes s.count (take copy frag);
}

-- The last part of `section_buf_add`: the body of the section.
unfoldable pub accumulate : SectionBuf → List ℕ → ℕ → Added
accumulate s frag used =
    let copy = min (s.len - s.count) (length frag) in
    let t = copied s copy frag in
    record {
      used = used + copy;
      status = if finished t then Status.complete else Status.pending;
      section = t;
    }

-- What follows a complete header: its length is checked before the body is read.
unfoldable pub check_length : SectionBuf → List ℕ → ℕ → Added
check_length s frag used =
    let s' = record s { len = coded_length s.bytes } in
    if ltb s.max s'.len
    then record { used = length frag + used; status = Status.erange; section = s' }
    else accumulate (record s' { header = true }) frag used

-- The middle part: the header.
unfoldable pub add_header : SectionBuf → List ℕ → ℕ → Added
add_header s frag used =
    let copy = min (section_hdr_size - s.count) (length frag) in
    let t = copied s copy frag in
    if s.header
    then accumulate s frag used
    else if t.count == section_hdr_size
    then check_length t (drop copy frag) (used + copy)
    else record { used = used + copy; status = Status.pending; section = t }

unfoldable pub section_buf_add : SectionBuf → List ℕ → Added
section_buf_add s frag =
    let (skipped, rest) = skip_padding frag in
    if finished s
    then record { used = 0; status = Status.complete; section = s }
    else if s.count == 0
    then (if length rest == 0
        then record { used = skipped; status = Status.pending; section = s }
        else add_header s rest skipped)
    else add_header s frag 0

-- The last part of `section_buf_add_transport_payload`.
unfoldable pub just_accumulate : SectionBuf → List ℕ → ℕ → Added
just_accumulate s payload used =
    let r = section_buf_add s (drop used payload) in
    record {
      used = used + r.used;
      status = r.status;
      section = elim r.status [
        | erange ↦ record (r.section) { wait_pdu = true }
        | einval ↦ record (r.section) { wait_pdu = true }
        | _ ↦ r.section
      ];
    }

-- The end of the section before, up to where the pointer field says that the next one starts.
unfoldable pub add_final : SectionBuf → List ℕ → ℕ → Added
add_final s payload offset =
    let r = section_buf_add s (take offset (drop 1 payload)) in
    let bad : Added = record {
      used = 1 + r.used;
      status = Status.erange;
      section = record (r.section) { wait_pdu = true };
    } in
    if r.used == offset && section_buf_remaining r.section == 0
    then elim r.status [
      | complete ↦ record { used = 1 + r.used; status = r.status; section = r.section }
      | _ ↦ bad
    ]
    else bad

-- A payload that starts a PDU, `offset` being its first byte.
unfoldable pub add_pdu_start : SectionBuf → List ℕ → ℕ → Added
add_pdu_start s payload offset =
    if ltb (length payload) (offset + 1)
    then record {
      used = length payload;
      status = Status.einval;
      section = record s { wait_pdu = true };
    }
    else if s.count == 0
    then just_accumulate (record s { wait_pdu = false }) payload (1 + offset)
    else add_final (record s { wait_pdu = false }) payload offset

-- A fault is the read of `payload[0]` where there is no payload.
unfoldable pub section_buf_add_transport_payload : SectionBuf → List ℕ → Bool → Result Added
section_buf_add_transport_payload s payload pdu_start =
    if finished s
    then ok (record { used = 0; status = Status.complete; section = s })
    else if s.wait_pdu && not pdu_start
    then ok (record { used = length payload; status = Status.pending; section = s })
    else if pdu_start
    then (read payload 0 >>= λ offset. ok (add_pdu_start s payload offset))
    else ok (just_accumulate s payload 0)
