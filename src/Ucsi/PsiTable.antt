-- ===== src/Ucsi/PsiTable.antt =====
-- lib/libucsi/section.h: which sections of a PSI table are worth processing.
pub mod Gather
mod Runs
use dvb_apps.Common.{ℕ, ◌+◌, ◌%◌, ◌^◌, Bool, true, false, not, ◌&&◌, ltb, ◌==◌, if◌then◌else◌}

-- The fields of a decoded `struct section_ext` that count here.
pub record SectionExt : Type 0 where
  pub version_number : ℕ
  pub section_number : ℕ
  pub last_section_number : ℕ

pub record PsiTableState : Type 0 where
  pub version_number : ℕ
  pub next_section_number : ℕ
  pub complete : Bool
  pub new_table : Bool

unfoldable pub psi_table_state_reset : PsiTableState → PsiTableState
psi_table_state_reset t = record t { version_number = 0xff }

-- The end of `section_ext_useful`; `next_section_number` has 16 bits.
unfoldable pub count_section : SectionExt → PsiTableState → PsiTableState
count_section s t =
    let next = (t.next_section_number + 1) % 2 ^ 16 in
    record {
      version_number = t.version_number;
      next_section_number = next;
      complete = if ltb (s.last_section_number) next then true else t.complete;
      new_table = t.new_table;
    }

-- The result, `true` if the section is useful, and the state.
unfoldable pub section_ext_useful : SectionExt → PsiTableState → Bool × PsiTableState
section_ext_useful s t =
    let first : PsiTableState = record {
      version_number = s.version_number;
      next_section_number = 0;
      complete = false;
      new_table = true;
    } in
    if (s.version_number == t.version_number) && t.complete
    then (false, t)
    else if not (s.version_number == t.version_number)
    then (if not (s.section_number == 0) then (false, t) else (true, count_section s first))
    else if s.section_number == t.next_section_number
    then (true, count_section s (record t { new_table = false }))
    else (false, t)
