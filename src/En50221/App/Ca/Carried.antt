-- ===== src/En50221/App/Ca/Carried.antt =====
-- The descriptors that each stream of a CA_PMT is under.
use dvb_apps.Common.{
  ℕ, ◌^◌, ◌<◌, ◌≡◌, refl, sym, ap, ap₂, ◌∙◌, Bool, ◌&&◌, List, [], ◌∷◌, ◌++◌, map, append_assoc,
  arith, if_rule, All,
}
use mathlib.Core.List.{flatten}
use dvb_apps.En50221.App.Ca.Format.{
  Stream, Pmt, extract_descriptors, extract_stream, all_same, cleared, try_move, is_none, ca_layout,
  sum_lengths, descriptors_length,
}
use dvb_apps.En50221.App.Ca.Read.{CaPmt, said, FitsStream, IsHeader}

flatten-append : (xs ys : List (List ℕ)) → flatten (xs ++ ys) ≡ flatten xs ++ flatten ys
unfolding mathlib.Core.List.flatten
flatten-append [] ys = refl
flatten-append (x ∷ xs) ys =
    ap (λ r. x ++ r) (flatten-append xs ys) ∙ sym (append_assoc x (flatten xs) (flatten ys))

-- Each stream by its type and PID, with the descriptors that hold for it: those of the program, and its
-- own.
abbrev pub effective : List (List ℕ) × List Stream → List (ℕ × ℕ × List (List ℕ))
effective (ds, ss) = map (λ (s : Stream). (s.stream_type, s.pid, ds ++ s.descriptors)) ss

-- The same of what was read, where descriptors are their bytes one behind the other.
abbrev pub under : CaPmt → List (ℕ × ℕ × List ℕ)
under p = map (λ (s : ℕ × ℕ × List ℕ). (s.0, s.1, p.info ++ s.2)) (p.streams)

abbrev pub as_bytes : List (ℕ × ℕ × List (List ℕ)) → List (ℕ × ℕ × List ℕ)
as_bytes es = map (λ (e : ℕ × ℕ × List (List ℕ)). (e.0, e.1, flatten (e.2))) es

pub said_lem :
    (ds : List (List ℕ)) (ss : List Stream)
    → map (λ (s : ℕ × ℕ × List ℕ). (s.0, s.1, flatten ds ++ s.2)) (map said ss)
      ≡ as_bytes (effective (ds, ss))
said_lem ds [] = refl
said_lem ds (s ∷ ss) =
    ap₂ (λ x xs. (s.stream_type, s.pid, x) ∷ xs) (sym (flatten-append ds (s.descriptors)))
      (said_lem ds ss)

-- Moving descriptors keeps what fits.
cleared-Fits : (ss : List Stream) → All FitsStream ss → All FitsStream (map cleared ss)
unfolding sum_lengths
cleared-Fits [] f = tt
cleared-Fits (s ∷ ss) f = ((f.0.0, omega arith), cleared-Fits ss (f.1))

abbrev pub FitsBoth : List (List ℕ) × List Stream → Type 0
FitsBoth (ds, ss) = (descriptors_length ds < 2 ^ 12) × All FitsStream ss

try_move-Fits :
    (ds : List (List ℕ)) (ss : List Stream) → FitsBoth (ds, ss) → FitsBoth (try_move ds ss)
unfolding try_move
try_move-Fits ds [] f = f
try_move-Fits ds (first ∷ others) f =
    if_rule FitsBoth (all_same first others) _ _
      (λ h. (f.1.0.1, cleared-Fits (first ∷ others) (f.1))) (λ h. f)

pub ca_layout-Fits :
    (pmt : Pmt) (move : Bool)
    → FitsBoth (extract_descriptors (pmt.descriptors), map extract_stream (pmt.streams))
    → FitsBoth (ca_layout pmt move)
unfolding ca_layout
ca_layout-Fits pmt move f =
    let ds = extract_descriptors (pmt.descriptors) in
    let ss = map extract_stream (pmt.streams) in
    if_rule FitsBoth (is_none ds && move) _ _ (λ h. try_move-Fits ds ss f) (λ h. f)

-- A section that can be written whole: its fields have their widths, and the lengths of the descriptors
-- that are written have 12 bits.
abbrev pub IsPmt : Pmt → Type 0
IsPmt pmt =
    IsHeader pmt
    × FitsBoth (extract_descriptors (pmt.descriptors), map extract_stream (pmt.streams))
