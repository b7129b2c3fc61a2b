-- ===== src/Ucsi/PsiTable/Runs.antt =====
-- Sections of tables, gathered.
use dvb_apps.Common.{ℕ, refl, false, List, [], ◌∷◌, ◌++◌, arith}
use dvb_apps.Ucsi.PsiTable.{SectionExt, PsiTableState, psi_table_state_reset}
use dvb_apps.Ucsi.PsiTable.Gather.{gather, gather-Kept, gather-Whole, Kept, Whole, sections_from}

abbrev state : PsiTableState
state = record { version_number = 7; next_section_number = 3; complete = false; new_table = false }

abbrev section : ℕ → ℕ → SectionExt
section v n = record { version_number = v; section_number = n; last_section_number = 2 }

abbrev stream : List SectionExt
stream =
    section 4 1
    ∷ section 4 0
    ∷ section 4 2
    ∷ section 4 1
    ∷ section 5 0
    ∷ section 5 1
    ∷ section 4 2
    ∷ []

gather-Kept_example : let r = gather stream (psi_table_state_reset state) [] in Kept (r.0) (r.1)
gather-Kept_example = gather-Kept stream state (ground arith)

gather-Whole_example :
    Whole 4 2 (gather (sections_from 4 2 0 3 ++ (section 4 2 ∷ section 4 0 ∷ [])) state [])
gather-Whole_example =
    gather-Whole 4 2 (section 4 2 ∷ section 4 0 ∷ []) state [] (omega arith) (ground arith)
      (refl, (refl, tt))
