-- ===== src/Ucsi/Codec/EntryLoop.antt =====
-- The loop over the entries of a table: it ends, it reads nothing outside the memory, and it accepts
-- exactly the lists of entries.
use dvb_apps.Common.{
  ℕ, zero, suc, ◌+◌, ◌-◌, ◌≤◌, ◌<◌, ◌≡◌, refl, sym, ap, ◌∙◌, ◌≢◌, inl, inr, List, [], ◌∷◌, arith,
  ◌==◌, if◌then◌else◌, length, drop, All, ok, fail, fault, ◌>>=◌, Result-cases,
}
use native.Mathlib.Decide.{dec_lt}
use dvb_apps.Ucsi.Descriptor.Verify.{region, length-region}
use dvb_apps.Ucsi.Codec.{check_descriptors, entry_loop}
use dvb_apps.Ucsi.Codec.Memory.{AllBelow, stream12, swap_header_lem}
use dvb_apps.Ucsi.Codec.Entries.{
  Entry, Fits, encode_entries, check_descriptors-ne-fault, check_descriptors_ok, entry_found,
  entry_checked, entries_first,
}

region-zero : (mem : List ℕ) (pos : ℕ) {c : ℕ} → c ≡ 0 → region mem pos c ≡ []
region-zero mem pos e = ap (λ c. region mem pos c) e

module _ (k : ℕ) (os : List ℕ) (o : ℕ) (room : o + 2 ≤ k) (below : AllBelow o os) where
  -- A round with an entry whose struct lies before `len`: the swaps stay inside the struct.
  entry_loop_step :
      (fuel : ℕ) (mem : List ℕ) (len pos : ℕ)
      → len ≤ length mem
      → pos + k ≤ len
      → let n = stream12 mem (pos + o) in
        (m : List ℕ) × (entry_loop k os o (suc fuel) mem len pos
          ≡ (check_descriptors m len (pos + k) n >>= λ next. entry_loop k os o fuel m len next))
        × (length m ≡ length mem)
        × ((q : ℕ) → pos + k ≤ q → drop q m ≡ drop q mem)
  unfolding entry_loop
  entry_loop_step fuel mem len pos h le =
      let swaps = swap_header_lem mem pos os o (omega arith) below in
      (swaps.0, ground (arith, swaps.1), swaps.2, λ q hq. swaps.3 q (omega arith))

  entry_loop_end :
      (fuel : ℕ) (mem : List ℕ) (len pos : ℕ)
      → len < pos + k
      → entry_loop k os o (suc fuel) mem len pos ≡ (if pos == len then ok mem else fail)
  unfolding entry_loop
  entry_loop_end fuel mem len pos h = ground arith

  pub entry_loop-ne-fault :
      (fuel : ℕ) (mem : List ℕ) (len pos : ℕ)
      → len ≤ length mem
      → len - pos < fuel
      → entry_loop k os o fuel mem len pos ≢ fault
  entry_loop-ne-fault zero mem len pos h f = absurd (omega arith)
  entry_loop-ne-fault (suc fuel) mem len pos h f = elim (dec_lt len (pos + k)) [
    | yes short ↦ ground (arith, entry_loop_end fuel mem len pos short)
    | no long ↦
        let n = stream12 mem (pos + o) in
        let (m, step, size, same) = entry_loop_step fuel mem len pos h (omega arith) in
        elim (Result-cases (check_descriptors m len (pos + k) n)) [
          | inl (next, e) ↦
              let part = check_descriptors_ok m len (pos + k) n next (omega arith) e in
              ground
                (arith, step, e, entry_loop-ne-fault fuel m len next (omega arith) (omega arith))
          | inr e ↦ ground (arith, step, e, check_descriptors-ne-fault m len (pos + k) n)
        ]
  ]

  -- What an accepted run of the loop says of the memory from `pos` on.
  abbrev pub Holds : List ℕ → ℕ → ℕ → Type 0
  Holds mem len pos =
      (pos ≤ len)
      × ((es : List Entry) × All (Fits k o) es × (region mem pos (len - pos) ≡ encode_entries es))

  pub entry_loop_sound :
      (fuel : ℕ) (mem : List ℕ) (len pos : ℕ) (m' : List ℕ)
      → len ≤ length mem
      → entry_loop k os o fuel mem len pos ≡ ok m'
      → Holds mem len pos × (length m' ≡ length mem)
  entry_loop_sound zero mem len pos m' h e = absurd (unfold entry_loop in cc e)
  entry_loop_sound (suc fuel) mem len pos m' h e = elim (dec_lt len (pos + k)) [
    | yes short ↦
        let done : (pos ≡ len) × (mem ≡ m') =
          ground (arith, entry_loop_end fuel mem len pos short) in
        (
          (omega arith, ([], tt, unfold encode_entries in region-zero mem pos (omega arith))),
          ap (λ l. length l) (sym done.1),
        )
    | no long ↦
        let n = stream12 mem (pos + o) in
        let (m, step, size, same) = entry_loop_step fuel mem len pos h (omega arith) in
        elim (Result-cases (check_descriptors m len (pos + k) n)) [
          | inl (next, c) ↦
              let part = check_descriptors_ok m len (pos + k) n next (omega arith) c in
              let ih =
                entry_loop_sound fuel m len next m' (omega arith) (ground (arith, step, e, c)) in
              let found =
                entry_found mem m k o len pos next ih.0.1.0 room h size (omega arith) same c
                  ih.0.1.2 in
              ((omega arith, (found.0 ∷ ih.0.1.0, (found.1, ih.0.1.1), found.2)), ih.1 ∙ size)
          | inr c ↦ absurd (ground (arith, step, c, e))
        ]
  ]

  pub entry_loop_complete :
      (fuel : ℕ) (mem : List ℕ) (len pos : ℕ) (es : List Entry)
      → len ≤ length mem
      → pos ≤ len
      → len - pos < fuel
      → All (Fits k o) es
      → region mem pos (len - pos) ≡ encode_entries es
      → (m' : List ℕ) × (entry_loop k os o fuel mem len pos ≡ ok m')
  entry_loop_complete zero mem len pos es h le f a q = absurd (omega arith)
  entry_loop_complete (suc fuel) mem len pos [] h le f a q =
      let size : length (encode_entries []) ≡ 0 = unfold encode_entries in refl in
      let done : pos ≡ len =
        omega (arith, length-region mem pos (len - pos), ap (λ l. length l) q, size) in
      (mem, ground (arith, entry_loop_end fuel mem len pos))
  entry_loop_complete (suc fuel) mem len pos (x ∷ es) h le f (fx, fs) q =
      let n = stream12 mem (pos + o) in
      let fit = (entries_first mem k o len pos x es room h le fx q).0 in
      let (m, step, size, same) = entry_loop_step fuel mem len pos h (omega (arith, fit)) in
      let (inside, checked, tail) = entry_checked mem m k o len pos x es room h size le same fx q in
      let ih =
        entry_loop_complete fuel m len (pos + k + n) es (omega arith) inside (omega arith) fs
          tail in
      (ih.0, step ∙ rw checked ih.1)
