-- ===== src/Ucsi/SectionBuf/Invariant.antt =====
-- What `section_buf_add` and `section_buf_add_transport_payload` keep true of a section_buf.
use dvb_apps.Common.{
  ℕ, ◌+◌, ◌-◌, ◌≤◌, ◌≡◌, ◌∙◌, ap, ap₂, Bool, true, false, List, [], ◌∷◌, ◌++◌, some, arith, length,
  take, drop, length-take, length-drop, length-append, min, take-ge, drop-ge, append-nil,
}
use dvb_apps.Ucsi.SectionBuf.{
  SectionBuf, Added, copied, write_at, coded_length, section_buf_init, section_buf_add, add_header,
  check_length, accumulate, skip_padding, section_buf_reset,
}

-- `count` bytes are there and they fit the buffer; once the header is complete so will the section.
pub record IsValid (s : SectionBuf) : Type 0 where
  pub room : 3 ≤ s.max
  pub held : length s.bytes ≡ s.count
  pub before : s.header ≡ false → s.count ≤ 3
  pub header_in : s.header ≡ true → 3 ≤ s.count
  pub within : s.header ≡ true → s.count ≤ s.len
  pub fits : s.header ≡ true → s.len ≤ s.max

-- A write at the end of what is there appends.
pub write_at_end :
    (mem src : List ℕ) (off : ℕ) → length mem ≡ off → write_at mem off src ≡ mem ++ src
write_at_end mem src off h =
    ap₂ (λ a b. a ++ (src ++ b)) (take-ge off mem (omega arith))
      (drop-ge (off + length src) mem (omega arith))
    ∙ ap (λ r. mem ++ r) (append-nil src)

pub bytes-copied :
    (s : SectionBuf) (copy : ℕ) (frag : List ℕ)
    → length s.bytes ≡ s.count
    → (copied s copy frag).bytes ≡ s.bytes ++ take copy frag
bytes-copied s copy frag h = write_at_end s.bytes (take copy frag) s.count h

pub length-copied :
    (s : SectionBuf) (copy : ℕ) (frag : List ℕ)
    → length s.bytes ≡ s.count
    → copy ≤ length frag
    → length (copied s copy frag).bytes ≡ s.count + copy
length-copied s copy frag h le =
    ap (λ l. length l) (bytes-copied s copy frag h)
    ∙ omega (arith, length-append s.bytes (take copy frag), length-take copy frag)

abbrev pub Good : List ℕ → ℕ → Added → Type 0
Good frag used r = IsValid r.section × (r.used ≤ used + length frag)

accumulate-Good :
    (s : SectionBuf) (frag : List ℕ) (used : ℕ)
    → IsValid s
    → s.header ≡ true
    → Good frag used (accumulate s frag used)
unfolding accumulate
accumulate-Good s frag used v h =
    ground (arith, length-copied s (min (s.len - s.count) (length frag)) frag)

check_length-Good :
    (s : SectionBuf) (frag : List ℕ) (used : ℕ)
    → IsValid s
    → s.header ≡ false
    → s.count ≡ 3
    → Good frag used (check_length s frag used)
unfolding check_length
check_length-Good s frag used v h e =
    ground
      (arith, accumulate-Good (record s { len = coded_length s.bytes; header = true }) frag used)

add_header-Good :
    (s : SectionBuf) (frag : List ℕ) (used : ℕ)
    → IsValid s
    → Good frag used (add_header s frag used)
unfolding add_header
add_header-Good s frag used v =
    let copy = min (3 - s.count) (length frag) in
    ground (
      arith,
      accumulate-Good s frag used v,
      length-copied s copy frag,
      length-drop copy frag,
      check_length-Good (copied s copy frag) (drop copy frag) (used + copy),
    )

pub skip_padding-length :
    (frag : List ℕ) → (skip_padding frag).0 + length (skip_padding frag).1 ≡ length frag
unfolding skip_padding
skip_padding-length [] = omega arith
skip_padding-length (x ∷ xs) = ground (arith, skip_padding-length xs)

-- `section_buf_add` keeps the struct valid, in particular writes no byte outside the buffer, and
-- takes no more bytes than the fragment has.
pub section_buf_add-IsValid :
    (s : SectionBuf) (frag : List ℕ)
    → IsValid s
    → IsValid (section_buf_add s frag).section × ((section_buf_add s frag).used ≤ length frag)
unfolding section_buf_add
section_buf_add-IsValid s frag v = ground (
  arith,
  skip_padding-length frag,
  add_header-Good s frag 0 v,
  add_header-Good s (skip_padding frag).1 (skip_padding frag).0 v,
)

wait-IsValid : (s : SectionBuf) (b : Bool) → IsValid s → IsValid (record s { wait_pdu = b })
wait-IsValid s b v = ground arith

pub section_buf_init-IsValid :
    (max : ℕ) {s : SectionBuf} → section_buf_init max ≡ some s → IsValid s
unfolding section_buf_init
section_buf_init-IsValid max e = ground arith

pub section_buf_reset-IsValid : (s : SectionBuf) → IsValid s → IsValid (section_buf_reset s)
unfolding section_buf_reset
section_buf_reset-IsValid s v = ground arith
