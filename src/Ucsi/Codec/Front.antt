-- ===== src/Ucsi/Codec/Front.antt =====
-- A section's length, and the tables that begin with a struct and its descriptors.
use dvb_apps.Common.{
  ℕ, suc, ◌+◌, ◌-◌, ◌*◌, ◌%◌, ◌≤◌, ◌≡◌, sym, ◌∙◌, ◌≢◌, ◌↔◌, inl, inr, List, ◌∷◌, arith, leb,
  if◌then◌else◌, length, get_or, All, Result, ok, fail, fault, ◌>>=◌, Result-cases,
}
use native.Mathlib.Decide.{dec_lt}
use dvb_apps.Ucsi.Descriptor.Verify.{region}
use dvb_apps.Ucsi.Codec.{swap_header, check_descriptors, entry_loop, section_ext_length}
use dvb_apps.Ucsi.Codec.Memory.{AllBelow, stream12, swap_header_lem, field12_lem}
use dvb_apps.Ucsi.Codec.Entries.{
  Entry, Fits, encode_entries, check_descriptors-ne-fault, check_descriptors_ok, entry_found,
  entry_checked,
}
use dvb_apps.Ucsi.Codec.EntryLoop.{entry_loop-ne-fault, entry_loop_sound, entry_loop_complete}

-- The memory is one section: its length field, in host order, counts the bytes behind it, and
-- there is room for a CRC.
pub record IsSectionMemory (mem : List ℕ) : Type 0 where
  pub coded : (get_or mem 1 0 + 256 * get_or mem 2 0) % 4096 + 3 ≡ length mem
  pub has_crc : 4 ≤ length mem

pub section_ext_length_lem :
    (mem : List ℕ) → IsSectionMemory mem → section_ext_length mem ≡ ok (length mem - 4)
unfolding section_ext_length
section_ext_length_lem mem v = ground (arith, field12_lem mem 1)

-- What stands behind the descriptors at the front of a table, as a routine of `len`, the memory and
-- the position: it reads nothing outside the memory, and accepts exactly the lists of entries that
-- have the property `P`.
pub record IsTail (rest : ℕ → List ℕ → ℕ → Result (List ℕ)) (P : List Entry → Type 0) : Type 0 where
  pub safe : (len : ℕ) (m : List ℕ) (pos : ℕ) → len ≤ length m → pos ≤ len → rest len m pos ≢ fault
  pub sound :
      (len : ℕ) (m : List ℕ) (pos : ℕ) (m' : List ℕ)
      → len ≤ length m
      → pos ≤ len
      → rest len m pos ≡ ok m'
      → (es : List Entry) × P es × (region m pos (len - pos) ≡ encode_entries es)
  pub complete :
      (len : ℕ) (m : List ℕ) (pos : ℕ) (es : List Entry)
      → len ≤ length m
      → pos ≤ len
      → P es
      → region m pos (len - pos) ≡ encode_entries es
      → (m' : List ℕ) × (rest len m pos ≡ ok m')

-- The loop over entries.
abbrev pub loop_tail : ℕ → List ℕ → ℕ → ℕ → List ℕ → ℕ → Result (List ℕ)
loop_tail k os o len m pos = entry_loop k os o (suc len) m len pos

pub loop-IsTail :
    (k : ℕ) (os : List ℕ) (o : ℕ)
    → o + 2 ≤ k
    → AllBelow o os
    → IsTail (loop_tail k os o) (All (Fits k o))
loop-IsTail k os o room below = record {
  safe =
      λ len m pos h le. entry_loop-ne-fault k os o room below (suc len) m len pos h (omega arith);
  sound =
      λ len m pos m' h le e. (entry_loop_sound k os o room below (suc len) m len pos m' h e).0.1;
  complete = λ len m pos es h le f q.
      entry_loop_complete k os o room below (suc len) m len pos es h le (omega arith) f q;
}

-- A struct with descriptors at the front of the table, and then the rest.
unfoldable pub front_then :
    (ℕ → List ℕ → ℕ → Result (List ℕ)) → ℕ → List ℕ → ℕ → List ℕ → ℕ → ℕ → Result (List ℕ)
front_then rest k os o mem len at = swap_header mem at os o >>= λ r.
    check_descriptors r.0 len (at + k) r.1 >>= λ pos. rest len r.0 pos

-- The table from `at` on: a struct that fits, its descriptors, and the entries behind it.
pub record IsFronted (k o at : ℕ) (P : List Entry → Type 0) (mem : List ℕ) : Type 0 where
  pub front : Entry
  pub entries : List Entry
  pub long_enough : at + k + 4 ≤ length mem
  pub front_fits : Fits k o front
  pub rest : P entries
  pub layout : region mem at (length mem - 4 - at) ≡ encode_entries (front ∷ entries)

module _ (k : ℕ) (os : List ℕ) (o : ℕ) (room : o + 2 ≤ k) (below : AllBelow o os)
    {rest : ℕ → List ℕ → ℕ → Result (List ℕ)} {P : List Entry → Type 0} (tail : IsTail rest P) where
  front_safe :
      (mem : List ℕ) (len at : ℕ)
      → len ≤ length mem
      → at + k ≤ len
      → front_then rest k os o mem len at ≢ fault
  unfolding front_then
  front_safe mem len at h le =
      let n = stream12 mem (at + o) in
      let (m, sw, size, same) = swap_header_lem mem at os o (omega arith) below in
      elim (Result-cases (check_descriptors m len (at + k) n)) [
        | inl (next, e) ↦
            let part = check_descriptors_ok m len (at + k) n next (omega arith) e in
            ground (arith, sw, e, tail.safe len m next (omega arith) (omega arith))
        | inr e ↦ ground (arith, sw, e, check_descriptors-ne-fault m len (at + k) n)
      ]

  front_sound :
      (mem : List ℕ) (len at : ℕ) (m' : List ℕ)
      → len ≤ length mem
      → at + k ≤ len
      → front_then rest k os o mem len at ≡ ok m'
      → (e : Entry) × (es : List Entry) × Fits k o e
        × P es
        × (region mem at (len - at) ≡ encode_entries (e ∷ es))
  unfolding front_then
  front_sound mem len at m' h le e =
      let n = stream12 mem (at + o) in
      let (m, sw, size, same) = swap_header_lem mem at os o (omega arith) below in
      elim (Result-cases (check_descriptors m len (at + k) n)) [
        | inl (next, c) ↦
            let part = check_descriptors_ok m len (at + k) n next (omega arith) c in
            let (es, p, r) =
              tail.sound len m next m' (omega arith) (omega arith) (ground (arith, sw, e, c)) in
            let found =
              entry_found mem m k o len at next es room h size le (λ q hq. same q (omega arith)) c
                r in
            (found.0, es, found.1, p, found.2)
        | inr c ↦ absurd (ground (arith, sw, c, e))
      ]

  front_complete :
      (mem : List ℕ) (len at : ℕ) (e : Entry) (es : List Entry)
      → len ≤ length mem
      → at + k ≤ len
      → Fits k o e
      → P es
      → region mem at (len - at) ≡ encode_entries (e ∷ es)
      → (m' : List ℕ) × (front_then rest k os o mem len at ≡ ok m')
  unfolding front_then
  front_complete mem len at e es h le f p q =
      let n = stream12 mem (at + o) in
      let (m, sw, size, same) = swap_header_lem mem at os o (omega arith) below in
      let (inside, checked, r) =
        entry_checked mem m k o len at e es room h size (omega arith)
          (λ q' hq. same q' (omega arith)) f q in
      let run = tail.complete len m (at + k + n) es (omega arith) inside p r in
      (run.0, rw (sw, checked) run.1)

  -- A codec that checks the size and then runs such a table.
  pub IsFronted-iff :
      (codec : Result (List ℕ)) (at : ℕ) (mem : List ℕ)
      → codec ≡ (
          if leb (at + k) (length mem - 4)
          then front_then rest k os o mem (length mem - 4) at
          else fail)
      → (codec ≢ fault) × (((m : List ℕ) × (codec ≡ ok m)) ↔ IsFronted k o at P mem)
  IsFronted-iff codec at mem e = elim (dec_lt (length mem - 4) (at + k)) [
    | yes short ↦ (
      ground (arith, e),
      (λ r. ground (arith, e, r.1), λ p. absurd (omega (arith, p.long_enough))),
    )
    | no long ↦
        let len = length mem - 4 in
        let run : codec ≡ front_then rest k os o mem len at = ground (arith, e) in
        (
          rw run (front_safe mem len at (omega arith) (omega arith)),
          (
            λ r.
                let found =
                  front_sound mem len at r.0 (omega arith) (omega arith) (sym run ∙ r.1) in
                record {
                  front = found.0;
                  entries = found.1;
                  long_enough = omega arith;
                  front_fits = found.2;
                  rest = found.3;
                  layout = found.4;
                },
            λ p.
                let done =
                  front_complete mem len at p.front p.entries (omega arith) (omega arith)
                    p.front_fits p.rest p.layout in
                (done.0, run ∙ done.1),
          ),
        )
  ]
