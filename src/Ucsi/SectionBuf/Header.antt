-- ===== src/Ucsi/SectionBuf/Header.antt =====
-- The header part of `section_buf_add`: two fragments in a row do what one fragment does.
use dvb_apps.Common.{
  ℕ, ◌+◌, ◌-◌, ◌≤◌, ◌<◌, min, ◌≡◌, ◌≢◌, inl, inr, true, false, List, ◌++◌, append_assoc, arith,
  ◌==◌, if◌then◌else◌, Bool-cases, length, take, drop, length-append, length-drop, take-ge,
  take-append, take-append_le, drop-append_le, drop-append_ge,
}
use native.Mathlib.Decide.{dec_lt}
use dvb_apps.Ucsi.SectionBuf.{
  SectionBuf, Added, pending, copied, finished, coded_length, add_header, check_length, accumulate,
}
use dvb_apps.Ucsi.SectionBuf.Invariant.{IsValid, bytes-copied, length-copied}

-- `r` after one more call, which took `used` bytes before.
abbrev pub after : ℕ → Added → Added
after used r = record r { used = used + r.used }

accumulate-append :
    (s : SectionBuf) (xs ys : List ℕ) (used : ℕ)
    → IsValid s
    → s.header ≡ true
    → (accumulate s xs used).status ≡ pending
    → accumulate s (xs ++ ys) used
      ≡ accumulate (accumulate s xs used).section ys (accumulate s xs used).used
unfolding accumulate
accumulate-append s xs ys used v h e =
    let n = min (s.len - s.count) (length (xs ++ ys)) in
    let t = copied s (min (s.len - s.count) (length xs)) xs in
    let k = min (t.len - t.count) (length ys) in
    ground (
      arith,
      length-append xs ys,
      bytes-copied s n (xs ++ ys),
      bytes-copied s (min (s.len - s.count) (length xs)) xs,
      length-copied s (min (s.len - s.count) (length xs)) xs,
      bytes-copied t k ys,
      take-append n xs ys,
      take-ge (min (s.len - s.count) (length xs)) xs,
      append_assoc s.bytes xs (take k ys),
    )

accumulate-after :
    (s : SectionBuf) (xs : List ℕ) (used : ℕ)
    → accumulate s xs used ≡ after used (accumulate s xs 0)
unfolding accumulate
accumulate-after s xs used = ground arith

check_length-append :
    (s : SectionBuf) (xs ys : List ℕ) (used : ℕ)
    → IsValid s
    → s.header ≡ false
    → s.count ≡ 3
    → (check_length s xs used).status ≡ pending
    → (check_length s (xs ++ ys) used
        ≡ accumulate (check_length s xs used).section ys (check_length s xs used).used)
      × ((check_length s xs used).section.header ≡ true)
      × ((check_length s xs used).section.count ≢ 0)
      × ((check_length s xs used).section.len ≢ (check_length s xs used).section.count)
      × ((check_length s xs used).used ≡ used + length xs)
unfolding check_length accumulate
check_length-append s xs ys used v h c e =
    ground
      (arith, accumulate-append (record s { len = coded_length s.bytes; header = true }) xs ys used)

pub add_header-after :
    (s : SectionBuf) (xs : List ℕ) (used : ℕ)
    → add_header s xs used ≡ after used (add_header s xs 0)
unfolding add_header check_length accumulate
add_header-after s xs used = ground arith

-- A call that leaves the section pending has used its fragment up, and the next call goes on there.
abbrev pub GoesOn : SectionBuf → List ℕ → List ℕ → ℕ → Added → Type 0
GoesOn s xs ys used r =
    (add_header s (xs ++ ys) used ≡ add_header r.section ys r.used)
    × (finished r.section ≡ false)
    × (r.used ≡ used + length xs)
    × (0 < s.count + length xs → 0 < r.section.count)

add_header-append_body :
    (s : SectionBuf) (xs ys : List ℕ) (used : ℕ)
    → IsValid s
    → s.header ≡ true
    → (add_header s xs used).status ≡ pending
    → GoesOn s xs ys used (add_header s xs used)
unfolding add_header accumulate
add_header-append_body s xs ys used v h e = ground (arith, accumulate-append s xs ys used v h)

-- Two copies in a row are one copy of the two fragments.
copied-copied :
    (s : SectionBuf) (k : ℕ) (xs ys : List ℕ)
    → IsValid s
    → copied s (length xs + k) (xs ++ ys) ≡ copied (copied s (length xs) xs) k ys
copied-copied s k xs ys v = ground (
  arith,
  bytes-copied s (length xs + k) (xs ++ ys),
  bytes-copied s (length xs) xs,
  length-copied s (length xs) xs,
  bytes-copied (copied s (length xs) xs) k ys,
  take-append (length xs + k) xs ys,
  take-ge (length xs) xs,
  append_assoc s.bytes xs (take k ys),
)

-- `add_header` on an incomplete header, at the number of bytes that it copies.
abbrev pub header_at : SectionBuf → List ℕ → ℕ → ℕ → Added
header_at s frag used copy =
    if s.count + copy == 3
    then check_length (copied s copy frag) (drop copy frag) (used + copy)
    else record { used = used + copy; status = pending; section = copied s copy frag }

pub add_header_at :
    (s : SectionBuf) (frag : List ℕ) (used copy : ℕ)
    → s.header ≡ false
    → copy ≡ min (3 - s.count) (length frag)
    → add_header s frag used ≡ header_at s frag used copy
unfolding add_header
add_header_at s frag used copy h e = rw (e, h)

add_header-append_short :
    (s : SectionBuf) (xs ys : List ℕ) (used : ℕ)
    → IsValid s
    → s.header ≡ false
    → s.count + length xs < 3
    → GoesOn s xs ys used (add_header s xs used)
add_header-append_short s xs ys used v h lt =
    let t = copied s (length xs) xs in
    let k = min (3 - t.count) (length ys) in
    ground (
      arith,
      length-append xs ys,
      add_header_at s xs used (length xs) h,
      add_header_at s (xs ++ ys) used (length xs + k) h,
      add_header_at t ys (used + length xs) k h,
      copied-copied s k xs ys v,
      drop-append_ge (length xs + k) xs ys,
    )

pub add_header_body :
    (s : SectionBuf) (frag : List ℕ) (used : ℕ)
    → s.header ≡ true
    → add_header s frag used ≡ accumulate s frag used
unfolding add_header
add_header_body s frag used h = rw h

copied-IsValid :
    (s : SectionBuf) (copy : ℕ) (frag : List ℕ)
    → IsValid s
    → s.header ≡ false
    → copy ≤ 3 - s.count
    → copy ≤ length frag
    → IsValid (copied s copy frag)
copied-IsValid s copy frag v h p q = ground (arith, length-copied s copy frag)

add_header-append_full :
    (s : SectionBuf) (xs ys : List ℕ) (used : ℕ)
    → IsValid s
    → s.header ≡ false
    → 3 ≤ s.count + length xs
    → (add_header s xs used).status ≡ pending
    → GoesOn s xs ys used (add_header s xs used)
add_header-append_full s xs ys used v h le e =
    let copy = 3 - s.count in
    let t = copied s copy xs in
    let u = used + copy in
    let r = check_length t (drop copy xs) u in
    ground (
      arith,
      length-append xs ys,
      length-drop copy xs,
      add_header_at s xs used copy h,
      add_header_at s (xs ++ ys) used copy h,
      take-append_le copy xs ys,
      drop-append_le copy xs ys,
      copied-IsValid s copy xs v h,
      check_length-append t (drop copy xs) ys u,
      add_header_body r.section ys r.used,
    )

pub add_header-append :
    (s : SectionBuf) (xs ys : List ℕ) (used : ℕ)
    → IsValid s
    → (add_header s xs used).status ≡ pending
    → GoesOn s xs ys used (add_header s xs used)
add_header-append s xs ys used v e = elim (Bool-cases s.header) [
  | inl h ↦ add_header-append_body s xs ys used v h e
  | inr h ↦ elim (dec_lt (s.count + length xs) 3) [
    | yes lt ↦ add_header-append_short s xs ys used v h lt
    | no ge ↦ add_header-append_full s xs ys used v h (omega arith) e
  ]
]
