-- ===== src/Common/Cursor.antt =====
-- What stands at a place of memory.
use Prim.Native.Nat.{◌<◌, ℕ, zero, suc, ◌+◌}
use mathlib.Core.Path.{refl, ◌≡◌, sym, ap, ◌∙◌}
use mathlib.Core.List.{List, [], ◌∷◌, ◌++◌}
use native.Mathlib.Omega.{arith}
use dvb_apps.Common.Lists.{get_or, drop, length, drop-ge, drop-length_append}
use dvb_apps.Common.Outcome.{ok, read}

pub read-drop :
    (mem : List ℕ) (pos b : ℕ) (rest : List ℕ) → drop pos mem ≡ b ∷ rest → read mem pos ≡ ok b
read-drop [] zero b rest h = ground arith
read-drop [] (suc pos) b rest h = ground arith
read-drop (x ∷ xs) zero b rest h = ground arith
read-drop (x ∷ xs) (suc pos) b rest h = read-drop xs pos b rest h

pub drop-drop : (mem : List ℕ) (a b : ℕ) → drop b (drop a mem) ≡ drop (a + b) mem
drop-drop mem zero b = let e : b ≡ 0 + b = omega arith in ap (λ k. drop k mem) e
drop-drop [] (suc a) b = drop-ge b [] (omega arith) ∙ sym (drop-ge (suc a + b) [] (omega arith))
drop-drop (x ∷ xs) (suc a) b =
    let e : suc (a + b) ≡ suc a + b = omega arith in drop-drop xs a b ∙ ap (λ k. drop k (x ∷ xs)) e

pub drop-behind :
    (mem : List ℕ) (pos : ℕ) (bs rest : List ℕ)
    → drop pos mem ≡ bs ++ rest
    → drop (pos + length bs) mem ≡ rest
drop-behind mem pos bs rest h =
    sym (drop-drop mem pos (length bs)) ∙ ap (drop (length bs)) h ∙ drop-length_append bs rest

pub drop-next :
    (mem : List ℕ) (pos b : ℕ) (rest : List ℕ) → drop pos mem ≡ b ∷ rest → drop (pos + 1) mem ≡ rest
drop-next mem pos b rest h = drop-behind mem pos (b ∷ []) rest h

pub read-get_or : (xs : List ℕ) (i : ℕ) → i < length xs → read xs i ≡ ok (get_or xs i 0)
read-get_or [] i h = absurd (omega arith)
read-get_or (x ∷ xs) zero h = refl
read-get_or (x ∷ xs) (suc i) h = read-get_or xs i (omega arith)
