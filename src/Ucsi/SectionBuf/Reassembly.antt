-- ===== src/Ucsi/SectionBuf/Reassembly.antt =====
-- A section comes out of its fragments as it went in, wherever it was cut.
use dvb_apps.Common.{
  ℕ, ◌+◌, ◌≤◌, ◌≡◌, refl, ◌≢◌, true, false, some, List, [], ◌∷◌, ◌++◌, append-nil, arith, length,
  get_or, length-append, take-length_append,
}
use mathlib.Core.List.{flatten}
use dvb_apps.Ucsi.SectionBuf.{
  SectionBuf, Added, Status, pending, complete, section_pad, copied, coded_length, section_buf_init,
  section_buf_add, check_length, accumulate, skip_padding,
}
use dvb_apps.Ucsi.SectionBuf.Invariant.{
  bytes-copied, IsValid, section_buf_add-IsValid, section_buf_init-IsValid,
}
use dvb_apps.Ucsi.SectionBuf.Header.{after, add_header_at}
use dvb_apps.Ucsi.SectionBuf.Fragments.{section_buf_add-append, add_first}
use dvb_apps.Ucsi.SectionBuf.Stop.{SameEnd, section_buf_add_stop}

Status-discrete : Discrete Status
Status-discrete = hlevel

-- The bytes of one section: the length field counts them, they fit the buffer, and the table id is
-- no padding byte.
pub record IsSection (max : ℕ) (sec : List ℕ) : Type 0 where
  pub has_header : 3 ≤ length sec
  pub counted : length sec ≡ coded_length sec
  pub fits : length sec ≤ max
  pub not_padding : get_or sec 0 0 ≢ section_pad

-- The fragments one after the other, until the section is complete or refused.
unfoldable pub add_all : SectionBuf → List (List ℕ) → Added
add_all s [] = section_buf_add s []
add_all s (f ∷ fs) =
    let r = section_buf_add s f in
    let more = after r.used (add_all r.section fs) in elim r.status [ pending ↦ more | _ ↦ r ]

-- The body of a section whose length field is right, with whatever follows it.
accumulate_body :
    (s : SectionBuf) (body rest : List ℕ)
    → s.len ≡ s.count + length body
    → s.header ≡ true
    → length s.bytes ≡ s.count
    → accumulate s (body ++ rest) 3 ≡ record {
      used = 3 + length body;
      status = complete;
      section = record s { count = s.count + length body; bytes = s.bytes ++ body };
    }
unfolding accumulate
accumulate_body s body rest e h held = ground (
  arith,
  length-append body rest,
  bytes-copied s (length body) (body ++ rest),
  take-length_append body rest,
)

check_length_body :
    (s : SectionBuf) (body rest : List ℕ)
    → coded_length s.bytes ≡ 3 + length body
    → s.count ≡ 3
    → 3 + length body ≤ s.max
    → length s.bytes ≡ 3
    → let r = check_length s (body ++ rest) 3 in
      (r.status ≡ complete) × (r.used ≡ 3 + length body) × (r.section.bytes ≡ s.bytes ++ body)
unfolding check_length
check_length_body s body rest e c fits held =
    ground
      (arith, accumulate_body (record s { len = coded_length s.bytes; header = true }) body rest)

-- A struct with nothing in it yet, whether it waits for a PDU start or not.
pub record IsFresh (max : ℕ) (s : SectionBuf) : Type 0 where
  pub limit : s.max ≡ max
  pub no_bytes : s.count ≡ 0
  pub no_header : s.header ≡ false
  pub empty : s.bytes ≡ []

pub section_buf_init-IsFresh :
    (max : ℕ) {s : SectionBuf} → section_buf_init max ≡ some s → IsFresh max s
unfolding section_buf_init
section_buf_init-IsFresh max e = ground arith

skip_padding_none : (a : ℕ) (xs : List ℕ) → a ≢ section_pad → skip_padding (a ∷ xs) ≡ (0, a ∷ xs)
unfolding skip_padding
skip_padding_none a xs h = ground arith

-- A section that comes in one fragment, with other bytes behind it, is taken as it is: no byte of
-- it is lost, and none of what follows is used.
pub section_buf_add_whole :
    (max : ℕ) (s : SectionBuf) (sec rest : List ℕ)
    → IsFresh max s
    → IsSection max sec
    → let r = section_buf_add s (sec ++ rest) in
      (r.status ≡ complete) × (r.used ≡ length sec) × (r.section.bytes ≡ sec)
section_buf_add_whole max s [] rest e v = absurd (omega (arith, v.has_header))
section_buf_add_whole max s (a ∷ []) rest e v = absurd (omega (arith, v.has_header))
section_buf_add_whole max s (a ∷ b ∷ []) rest e v = absurd (omega (arith, v.has_header))
section_buf_add_whole max s (a ∷ b ∷ c ∷ body) rest e v =
    let frag = a ∷ b ∷ c ∷ (body ++ rest) in
    ground (
      arith,
      skip_padding_none a (b ∷ c ∷ (body ++ rest)),
      add_first s frag,
      add_header_at s frag 0 3,
      check_length_body (copied s 3 frag) body rest,
    )

add_all_step :
    (s : SectionBuf) (f : List ℕ) (fs : List (List ℕ))
    → (section_buf_add s f).status ≡ pending
    → add_all s (f ∷ fs)
      ≡ after (section_buf_add s f).used (add_all (section_buf_add s f).section fs)
unfolding add_all
add_all_step s f fs e = ground arith

add_all_end :
    (s : SectionBuf) (f : List ℕ) (fs : List (List ℕ))
    → (section_buf_add s f).status ≢ pending
    → add_all s (f ∷ fs) ≡ section_buf_add s f
unfolding add_all
add_all_end s f fs e = ground arith

-- Fragments fed one after the other end as their concatenation fed at once: the same status and
-- the same struct, and, unless the length is refused, the same number of bytes used.
pub add_all-flatten :
    (s : SectionBuf) (fs : List (List ℕ))
    → IsValid s
    → SameEnd (section_buf_add s (flatten fs)) (add_all s fs)
unfolding flatten
add_all-flatten s [] v =
    (unfold add_all in refl, unfold add_all in refl, λ _. unfold add_all in refl)
add_all-flatten s (f ∷ fs) v = elim (Status-discrete (section_buf_add s f).status pending) [
  | yes e ↦ ground (
    arith,
    add_all_step s f fs e,
    section_buf_add-append s f (flatten fs) v e,
    add_all-flatten (section_buf_add s f).section fs (section_buf_add-IsValid s f v).0,
  )
  | no n ↦ ground (arith, add_all_end s f fs n, section_buf_add_stop s f (flatten fs) v n)
]

-- A section cut into fragments anywhere is put together again, byte for byte.
pub reassembly :
    (max : ℕ) (s : SectionBuf) (fs : List (List ℕ))
    → section_buf_init max ≡ some s
    → IsSection max (flatten fs)
    → let r = add_all s fs in
      (r.status ≡ complete) × (r.used ≡ length (flatten fs)) × (r.section.bytes ≡ flatten fs)
reassembly max s fs e v = ground (
  arith,
  append-nil (flatten fs),
  section_buf_add_whole max s (flatten fs) [] (section_buf_init-IsFresh max e) v,
  add_all-flatten s fs (section_buf_init-IsValid max e),
)
