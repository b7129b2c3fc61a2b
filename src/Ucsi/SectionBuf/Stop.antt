-- ===== src/Ucsi/SectionBuf/Stop.antt =====
-- Once a section is complete or refused, the rest of the fragment does not matter.
use dvb_apps.Common.{
  ℕ, ◌+◌, ◌-◌, ◌≤◌, min, ◌≡◌, ◌≢◌, true, List, ◌++◌, arith, length, drop, length-append,
  take-append_le, drop-append_le,
}
use dvb_apps.Ucsi.SectionBuf.{
  SectionBuf, Added, pending, erange, copied, coded_length, section_buf_add, add_header,
  check_length, accumulate, skip_padding,
}
use dvb_apps.Ucsi.SectionBuf.Invariant.{IsValid}
use dvb_apps.Ucsi.SectionBuf.Header.{add_header_at, add_header_body}
use dvb_apps.Ucsi.SectionBuf.Fragments.{
  add_finished, add_first, add_padding, add_started, skip_padding-append,
}

-- The same end; the number of bytes used differs only where the length is refused.
abbrev pub SameEnd : Added → Added → Type 0
SameEnd r w =
    (w.status ≡ r.status) × (w.section ≡ r.section) × (r.status ≢ erange → w.used ≡ r.used)

accumulate_stop :
    (s : SectionBuf) (xs ys : List ℕ) (used : ℕ)
    → s.count ≤ s.len
    → s.header ≡ true
    → (accumulate s xs used).status ≢ pending
    → SameEnd (accumulate s xs used) (accumulate s (xs ++ ys) used)
unfolding accumulate
accumulate_stop s xs ys used le h e =
    ground (arith, length-append xs ys, take-append_le (s.len - s.count) xs ys)

check_length_stop :
    (s : SectionBuf) (xs ys : List ℕ) (used : ℕ)
    → s.count ≡ 3
    → (check_length s xs used).status ≢ pending
    → SameEnd (check_length s xs used) (check_length s (xs ++ ys) used)
unfolding check_length
check_length_stop s xs ys used c e =
    ground
      (arith, accumulate_stop (record s { len = coded_length s.bytes; header = true }) xs ys used)

add_header_stop :
    (s : SectionBuf) (xs ys : List ℕ) (used : ℕ)
    → IsValid s
    → (add_header s xs used).status ≢ pending
    → SameEnd (add_header s xs used) (add_header s (xs ++ ys) used)
add_header_stop s xs ys used v e =
    let copy = 3 - s.count in
    ground (
      arith,
      length-append xs ys,
      add_header_body s xs used,
      add_header_body s (xs ++ ys) used,
      accumulate_stop s xs ys used,
      add_header_at s xs used (min (3 - s.count) (length xs)),
      add_header_at s (xs ++ ys) used copy,
      take-append_le copy xs ys,
      drop-append_le copy xs ys,
      check_length_stop (copied s copy xs) (drop copy xs) ys (used + copy),
    )

pub section_buf_add_stop :
    (s : SectionBuf) (xs ys : List ℕ)
    → IsValid s
    → (section_buf_add s xs).status ≢ pending
    → SameEnd (section_buf_add s xs) (section_buf_add s (xs ++ ys))
section_buf_add_stop s xs ys v e = ground (
  arith,
  add_finished s xs,
  add_finished s (xs ++ ys),
  add_started s xs,
  add_started s (xs ++ ys),
  add_header_stop s xs ys 0 v,
  skip_padding-append xs ys,
  add_padding s xs,
  add_first s xs,
  add_first s (xs ++ ys),
  length-append (skip_padding xs).1 ys,
  add_header_stop s (skip_padding xs).1 ys (skip_padding xs).0 v,
)
