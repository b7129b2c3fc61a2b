-- ===== src/Ucsi/SectionBuf/Fragments.antt =====
-- How a section may be cut into fragments does not matter to `section_buf_add`.
use dvb_apps.Common.{
  ℕ, ◌+◌, ◌<◌, ◌≡◌, refl, ◌⊎◌, inl, inr, true, false, List, [], ◌∷◌, ◌++◌, arith, Bool-cases,
  length, length-append,
}
use native.Mathlib.Decide.{dec_lt}
use dvb_apps.Ucsi.SectionBuf.{
  SectionBuf, pending, complete, finished, section_buf_add, add_header, skip_padding,
}
use dvb_apps.Ucsi.SectionBuf.Header.{after, add_header-after, add_header-append}
use dvb_apps.Ucsi.SectionBuf.Invariant.{IsValid, skip_padding-length}

pub skip_padding-append :
    (xs ys : List ℕ)
    → ((length (skip_padding xs).1 ≡ 0)
        × ((skip_padding (xs ++ ys)).0 ≡ length xs + (skip_padding ys).0)
        × ((skip_padding (xs ++ ys)).1 ≡ (skip_padding ys).1))
      ⊎ ((0 < length (skip_padding xs).1)
          × ((skip_padding (xs ++ ys)).0 ≡ (skip_padding xs).0)
          × ((skip_padding (xs ++ ys)).1 ≡ (skip_padding xs).1 ++ ys))
unfolding skip_padding
skip_padding-append [] ys = inl (refl, omega arith, refl)
skip_padding-append (x ∷ xs) ys = ground (arith, skip_padding-append xs ys)

-- The calls with bytes there already, with padding alone, and with the first bytes of a section.
pub add_started :
    (s : SectionBuf) (frag : List ℕ)
    → finished s ≡ false
    → 0 < s.count
    → section_buf_add s frag ≡ add_header s frag 0
unfolding section_buf_add
add_started s frag f c = ground arith

pub add_padding :
    (s : SectionBuf) (frag : List ℕ)
    → finished s ≡ false
    → s.count ≡ 0
    → length (skip_padding frag).1 ≡ 0
    → section_buf_add s frag
      ≡ record { used = (skip_padding frag).0; status = pending; section = s }
unfolding section_buf_add
add_padding s frag f c e = ground arith

pub add_first :
    (s : SectionBuf) (frag : List ℕ)
    → finished s ≡ false
    → s.count ≡ 0
    → 0 < length (skip_padding frag).1
    → section_buf_add s frag ≡ add_header s (skip_padding frag).1 (skip_padding frag).0
unfolding section_buf_add
add_first s frag f c e = ground arith

pub add_finished :
    (s : SectionBuf) (frag : List ℕ)
    → finished s ≡ true
    → section_buf_add s frag ≡ record { used = 0; status = complete; section = s }
unfolding section_buf_add
add_finished s frag f = rw f

abbrev Continues : SectionBuf → List ℕ → List ℕ → Type 0
Continues s xs ys =
    (section_buf_add s (xs ++ ys)
      ≡ after (length xs) (section_buf_add (section_buf_add s xs).section ys))
    × ((section_buf_add s xs).used ≡ length xs)

append_started :
    (s : SectionBuf) (xs ys : List ℕ)
    → IsValid s
    → finished s ≡ false
    → 0 < s.count
    → (section_buf_add s xs).status ≡ pending
    → Continues s xs ys
append_started s xs ys v f c e =
    let r = add_header s xs 0 in
    ground (
      arith,
      add_started s xs f c,
      add_started s (xs ++ ys) f c,
      add_header-append s xs ys 0 v,
      add_started r.section ys,
      add_header-after r.section ys r.used,
    )

append_padding :
    (s : SectionBuf) (xs ys : List ℕ)
    → finished s ≡ false
    → s.count ≡ 0
    → length (skip_padding xs).1 ≡ 0
    → Continues s xs ys
append_padding s xs ys f c e = ground (
  arith,
  skip_padding-length xs,
  skip_padding-append xs ys,
  add_padding s xs f c e,
  add_padding s ys f c,
  add_padding s (xs ++ ys) f c,
  add_first s ys f c,
  add_first s (xs ++ ys) f c,
  add_header-after s (skip_padding ys).1 (skip_padding ys).0,
  add_header-after s (skip_padding ys).1 (length xs + (skip_padding ys).0),
)

append_first :
    (s : SectionBuf) (xs ys : List ℕ)
    → IsValid s
    → finished s ≡ false
    → s.count ≡ 0
    → 0 < length (skip_padding xs).1
    → (section_buf_add s xs).status ≡ pending
    → Continues s xs ys
append_first s xs ys v f c p e =
    let used = (skip_padding xs).0 in
    let rest = (skip_padding xs).1 in
    let r = add_header s rest used in
    ground (
      arith,
      skip_padding-length xs,
      length-append rest ys,
      skip_padding-append xs ys,
      add_first s xs f c p,
      add_first s (xs ++ ys) f c,
      add_header-append s rest ys used v,
      add_started r.section ys,
      add_header-after r.section ys r.used,
    )

-- Where a fragment leaves the section pending, the call has used it up, and what follows may come
-- in the same fragment or in the next one: the result, the status and the struct are the same.
pub section_buf_add-append :
    (s : SectionBuf) (xs ys : List ℕ)
    → IsValid s
    → (section_buf_add s xs).status ≡ pending
    → (section_buf_add s (xs ++ ys)
        ≡ after (length xs) (section_buf_add (section_buf_add s xs).section ys))
      × ((section_buf_add s xs).used ≡ length xs)
section_buf_add-append s xs ys v e = elim (Bool-cases (finished s)) [
  | inl f ↦ absurd (ground (arith, add_finished s xs f))
  | inr f ↦ elim (dec_lt 0 s.count) [
    | yes c ↦ append_started s xs ys v f c e
    | no c ↦ elim (dec_lt 0 (length (skip_padding xs).1)) [
      | yes p ↦ append_first s xs ys v f (omega arith) p e
      | no p ↦ append_padding s xs ys f (omega arith) (omega arith)
    ]
  ]
]
