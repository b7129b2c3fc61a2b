-- ===== src/Ucsi/PsiTable/Gather.antt =====
-- Sections gathered with `section_ext_useful`: what has come is an unbroken start of the table.
use dvb_apps.Common.{
  ℕ, zero, suc, ◌+◌, ◌≤◌, ◌<◌, ◌≡◌, refl, sym, ap, subst, ◌∙◌, ◌≢◌, ◌⊎◌, inl, inr, Bool, true,
  false, not, List, [], ◌∷◌, ◌++◌, arith, ltb, if◌then◌else◌, All,
}
use dvb_apps.Ucsi.PsiTable.{
  SectionExt, PsiTableState, psi_table_state_reset, count_section, section_ext_useful,
}

-- The sections kept so far, the last one first. A useful section starts over where it says that it is
-- of a new table.
unfoldable pub gather :
    List SectionExt → PsiTableState → List SectionExt → PsiTableState × List SectionExt
gather [] t kept = (t, kept)
gather (s ∷ ss) t kept =
    let (useful, t') = section_ext_useful s t in
    if not useful
    then gather ss t' kept
    else if t'.new_table
    then gather ss t' (s ∷ [])
    else gather ss t' (s ∷ kept)

-- `n` sections of one version, numbered from 0, the last one first.
abbrev pub Numbered : ℕ → ℕ → List SectionExt → Type 0
Numbered v zero [] = Unit
Numbered v zero (s ∷ ss) = ⊥
Numbered v (suc n) [] = ⊥
Numbered v (suc n) (s ∷ ss) = (s.version_number ≡ v) × (s.section_number ≡ n) × Numbered v n ss

abbrev pub IsSectionExt : SectionExt → Type 0
IsSectionExt s = (s.version_number < 32) × (s.section_number < 256) × (s.last_section_number < 256)

-- Nothing is kept and no table is known, or what is kept is an unbroken start, one section at least, of
-- the table whose version the state has.
abbrev pub Kept : PsiTableState → List SectionExt → Type 0
Kept t kept =
    ((t.version_number ≡ 0xff) × (kept ≡ []))
    ⊎ ((1 ≤ t.next_section_number)
        × (t.next_section_number ≤ 256)
        × (t.version_number < 32)
        × Numbered (t.version_number) (t.next_section_number) kept)

-- One section: refused with the state as it was, or the first one of a table, or the next one of it.
useful-cases :
    (s : SectionExt) (t : PsiTableState)
    → IsSectionExt s
    → (section_ext_useful s t ≡ (false, t))
      ⊎ (((s.section_number ≡ 0)
            × (section_ext_useful s t).0 ≡ true
            × (section_ext_useful s t).1.new_table ≡ true
            × (section_ext_useful s t).1.version_number ≡ s.version_number
            × (section_ext_useful s t).1.next_section_number ≡ 1)
          ⊎ ((s.version_number ≡ t.version_number)
              × (s.section_number ≡ t.next_section_number)
              × (section_ext_useful s t).0 ≡ true
              × (section_ext_useful s t).1.new_table ≡ false
              × (section_ext_useful s t).1.version_number ≡ t.version_number
              × (section_ext_useful s t).1.next_section_number ≡ t.next_section_number + 1))
unfolding section_ext_useful count_section
useful-cases s t h = ground arith

-- One step of `gather`.
keep : SectionExt → Bool × PsiTableState → List SectionExt → List SectionExt
keep s (useful, t) kept = if not useful then kept else if t.new_table then s ∷ [] else s ∷ kept

gather_cons :
    (s : SectionExt) (ss : List SectionExt) (t : PsiTableState) (kept : List SectionExt)
    → gather (s ∷ ss) t kept
      ≡ gather ss ((section_ext_useful s t).1) (keep s (section_ext_useful s t) kept)
unfolding gather keep
gather_cons s ss t kept = ground arith

keep-Kept :
    (s : SectionExt) (t : PsiTableState) (kept : List SectionExt)
    → IsSectionExt s
    → Kept t kept
    → Kept ((section_ext_useful s t).1) (keep s (section_ext_useful s t) kept)
unfolding keep
keep-Kept s t kept h k = elim (useful-cases s t h) [
  | inl e ↦ subst (λ r. Kept (r.1) (keep s r kept)) (sym e) k
  | inr (inl c) ↦ ground (arith, c)
  | inr (inr c) ↦ ground (arith, c)
]

gather-from :
    (ss : List SectionExt) (t : PsiTableState) (kept : List SectionExt)
    → All IsSectionExt ss
    → Kept t kept
    → let r = gather ss t kept in Kept (r.0) (r.1)
unfolding gather
gather-from [] t kept h k = k
gather-from (s ∷ ss) t kept h k =
    subst (λ r. Kept (r.0) (r.1)) (sym (gather_cons s ss t kept))
      (gather-from ss ((section_ext_useful s t).1) (keep s (section_ext_useful s t) kept) (h.1)
        (keep-Kept s t kept (h.0) k))

-- After a reset, whatever sections come, their fields having their widths, and in whatever order:
-- either nothing is kept and the state is still without a table, or the sections kept since the
-- last new table, one at least, all have the version in the state, and their numbers are 0, 1, … up
-- to `next_section_number`, which is not kept yet, with none missing and none twice.
pub gather-Kept :
    (ss : List SectionExt) (t : PsiTableState)
    → All IsSectionExt ss
    → let r = gather ss (psi_table_state_reset t) [] in Kept (r.0) (r.1)
unfolding psi_table_state_reset
gather-Kept ss t h = gather-from ss (record t { version_number = 0xff }) [] h (inl (refl, refl))

-- `n` sections of a table from number `i` on.
abbrev pub sections_from : ℕ → ℕ → ℕ → ℕ → List SectionExt
sections_from v last i zero = []
sections_from v last i (suc n) =
    record { version_number = v; section_number = i; last_section_number = last }
    ∷ sections_from v last (i + 1) n

-- A complete table takes no more sections of its version.
gather-complete :
    (v : ℕ) (more : List SectionExt) (t : PsiTableState) (kept : List SectionExt)
    → All (λ s. s.version_number ≡ v) more
    → t.version_number ≡ v
    → t.complete ≡ true
    → gather more t kept ≡ (t, kept)
unfolding gather section_ext_useful
gather-complete v [] t kept h e c = refl
gather-complete v (s ∷ ss) t kept h e c = ground (arith, gather-complete v ss t kept (h.1) e c)

abbrev nth_section : ℕ → ℕ → ℕ → SectionExt
nth_section v last i = record { version_number = v; section_number = i; last_section_number = last }

abbrev counted : ℕ → ℕ → ℕ → Bool → PsiTableState
counted v last i new = record {
  version_number = v;
  next_section_number = i + 1;
  complete = ltb last (i + 1);
  new_table = new;
}

-- The next section of a table that is not complete.
gather-next :
    (v last i : ℕ) (rest : List SectionExt) (t : PsiTableState) (kept : List SectionExt)
    → i ≤ last
    → last < 256
    → t.version_number ≡ v
    → t.next_section_number ≡ i
    → t.complete ≡ false
    → gather (nth_section v last i ∷ rest) t kept
      ≡ gather rest (counted v last i false) (nth_section v last i ∷ kept)
unfolding section_ext_useful count_section keep
gather-next v last i rest t kept b l ev en ec =
    let step : section_ext_useful (nth_section v last i) t ≡ (true, counted v last i false) =
      ground arith in
    gather_cons (nth_section v last i) rest t kept
    ∙ ap (λ r. gather rest (r.1) (keep (nth_section v last i) r kept)) step

Numbered-next :
    (v last i : ℕ) (kept : List SectionExt)
    → Numbered v i kept
    → Numbered v (i + 1) (nth_section v last i ∷ kept)
Numbered-next v last i kept k =
    let e : suc i ≡ i + 1 = omega arith in
    subst (λ n. Numbered v n (nth_section v last i ∷ kept)) e (refl, refl, k)

-- The end of a run that has gathered the table `v` whole.
abbrev pub Whole : ℕ → ℕ → PsiTableState × List SectionExt → Type 0
Whole v last r = (r.0.complete ≡ true) × Numbered v (last + 1) (r.1)

gather-rest :
    (v last i n : ℕ) (more : List SectionExt) (t : PsiTableState) (kept : List SectionExt)
    → last < 256
    → i + suc n ≡ last + 1
    → All (λ s. s.version_number ≡ v) more
    → (t.version_number ≡ v) × (t.next_section_number ≡ i) × (t.complete ≡ false)
    → Numbered v i kept
    → Whole v last (gather (sections_from v last i (suc n) ++ more) t kept)
gather-rest v last i zero more t kept l e h s k =
    let c : ltb last (i + 1) ≡ true = ground arith in
    let is : i + 1 ≡ last + 1 = omega arith in
    subst (Whole v last)
      (sym (
        gather-next v last i more t kept (omega arith) l (s.0) (s.1) (s.2)
        ∙ gather-complete v more (counted v last i false) (nth_section v last i ∷ kept) h refl c))
      (
        c,
        subst (λ n. Numbered v n (nth_section v last i ∷ kept)) is (Numbered-next v last i kept k),
      )
gather-rest v last i (suc n) more t kept l e h s k =
    let c : ltb last (i + 1) ≡ false = ground arith in
    subst (Whole v last)
      (sym (
        gather-next v last i (sections_from v last (i + 1) (suc n) ++ more) t kept (omega arith) l
          (s.0) (s.1) (s.2)))
      (gather-rest v last (i + 1) n more (counted v last i false) (nth_section v last i ∷ kept) l
        (omega arith) h (refl, refl, c) (Numbered-next v last i kept k))

-- Wherever the state stands, as long as it has another version: if the sections 0 to `last` of a table
-- come in order, then they are all kept and the table is complete, and it stays as it is however often
-- sections of that version come again.
pub gather-Whole :
    (v last : ℕ) (more : List SectionExt) (t : PsiTableState) (kept : List SectionExt)
    → last < 256
    → t.version_number ≢ v
    → All (λ s. s.version_number ≡ v) more
    → Whole v last (gather (sections_from v last 0 (suc last) ++ more) t kept)
unfolding section_ext_useful count_section keep
gather-Whole v zero more t kept l ne h =
    let step : section_ext_useful (nth_section v 0 0) t ≡ (true, counted v 0 0 true) =
      ground arith in
    subst (Whole v 0)
      (sym (
        gather_cons (nth_section v 0 0) more t kept
        ∙ ap (λ r. gather more (r.1) (keep (nth_section v 0 0) r kept)) step
        ∙ gather-complete v more (counted v 0 0 true) (nth_section v 0 0 ∷ []) h refl refl))
      (refl, (refl, refl, tt))
gather-Whole v (suc last) more t kept l ne h =
    let s = nth_section v (suc last) 0 in
    let rest = sections_from v (suc last) 1 (suc last) ++ more in
    let c : ltb (suc last) 1 ≡ false = ground arith in
    let step : section_ext_useful s t ≡ (true, counted v (suc last) 0 true) = ground arith in
    subst (Whole v (suc last))
      (sym (gather_cons s rest t kept ∙ ap (λ r. gather rest (r.1) (keep s r kept)) step))
      (gather-rest v (suc last) 1 last more (counted v (suc last) 0 true) (s ∷ []) l (omega arith) h
        (refl, refl, c) (refl, refl, tt))
