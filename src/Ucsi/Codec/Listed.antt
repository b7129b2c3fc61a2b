-- ===== src/Ucsi/Codec/Listed.antt =====
-- Which sections the codecs of SDT and EIT accept.
use dvb_apps.Common.{
  ℕ, suc, ◌+◌, ◌-◌, ◌≤◌, ◌<◌, ◌≡◌, sym, ◌∙◌, ◌≢◌, ◌↔◌, List, [], ◌∷◌, arith, leb, if◌then◌else◌,
  length, drop, All, Result, ok, fail, fault,
}
use native.Mathlib.Decide.{dec_lt}
use dvb_apps.Ucsi.Descriptor.Verify.{region}
use dvb_apps.Ucsi.Codec.{entry_loop, dvb_sdt_section_codec, dvb_eit_section_codec}
use dvb_apps.Ucsi.Codec.Memory.{AllBelow, bswap16_lem, length-swapped, drop-swapped, swapped}
use dvb_apps.Ucsi.Codec.Entries.{Entry, Fits, encode_entries, region-same}
use dvb_apps.Ucsi.Codec.EntryLoop.{entry_loop-ne-fault, entry_loop_sound, entry_loop_complete}
use dvb_apps.Ucsi.Codec.Front.{IsSectionMemory, section_ext_length_lem}

-- A table whose entries begin at `at`, each a struct of `k` bytes with a length field at `o`, and
-- its descriptors.
pub record IsListed (k o at : ℕ) (mem : List ℕ) : Type 0 where
  pub entries : List Entry
  pub long_enough : at + 4 ≤ length mem
  pub fit : All (Fits k o) entries
  pub layout : region mem at (length mem - 4 - at) ≡ encode_entries entries

-- A codec that runs the loop over a memory whose swaps before it lie in front of the entries.
IsListed-iff :
    (codec : Result (List ℕ)) (k : ℕ) (os : List ℕ) (o at : ℕ) (mem m : List ℕ)
    → codec ≡ (
        if leb at (length mem - 4)
        then entry_loop k os o (suc (length mem - 4)) m (length mem - 4) at
        else fail)
    → o + 2 ≤ k
    → AllBelow o os
    → length m ≡ length mem
    → drop at m ≡ drop at mem
    → 0 < at
    → (codec ≢ fault) × (((m' : List ℕ) × (codec ≡ ok m')) ↔ IsListed k o at mem)
IsListed-iff codec k os o at mem m e room below size same pos = elim (dec_lt (length mem - 4) at) [
  | yes short ↦
      (ground (arith, e), (λ r. ground (arith, e, r.1), λ p. absurd (omega (arith, p.long_enough))))
  | no long ↦
      let len = length mem - 4 in
      let back = region-same m mem at (len - at) same in
      let loop = entry_loop k os o (suc len) m len at in
      let run : codec ≡ loop = ground (arith, e) in
      (
        rw run
            (entry_loop-ne-fault k os o room below (suc len) m len at (omega arith) (omega arith)),
        (
          λ r.
              let found =
                entry_loop_sound k os o room below (suc len) m len at r.0 (omega arith)
                  (sym run ∙ r.1) in
              record {
                entries = found.0.1.0;
                long_enough = omega arith;
                fit = found.0.1.1;
                layout = sym back ∙ found.0.1.2;
              },
          λ p.
              let done =
                entry_loop_complete k os o room below (suc len) m len at p.entries (omega arith)
                  (omega arith) (omega arith) p.fit (back ∙ p.layout) in
              (done.0, run ∙ done.1),
        ),
      )
]

sdt_loop :
    (mem : List ℕ)
    → IsSectionMemory mem
    → dvb_sdt_section_codec mem ≡ (
        if leb 11 (length mem - 4)
        then entry_loop 5 (0 ∷ []) 3 (suc (length mem - 4)) (swapped mem 8) (length mem - 4) 11
        else fail)
unfolding dvb_sdt_section_codec
sdt_loop mem v = rw (section_ext_length_lem mem v) (ground (arith, bswap16_lem mem 8))

-- The SDT codec ends and touches no byte outside its section, and accepts exactly the sections
-- that are a list of services, each with its descriptors.
pub dvb_sdt_section_codec_iff :
    (mem : List ℕ)
    → IsSectionMemory mem
    → (dvb_sdt_section_codec mem ≢ fault)
      × (((m : List ℕ) × (dvb_sdt_section_codec mem ≡ ok m)) ↔ IsListed 5 3 11 mem)
dvb_sdt_section_codec_iff mem v =
    IsListed-iff (dvb_sdt_section_codec mem) 5 (0 ∷ []) 3 11 mem (swapped mem 8) (sdt_loop mem v)
      (omega arith) (omega arith) (length-swapped mem 8) (drop-swapped mem 8 11 (omega arith))
      (omega arith)

eit_loop :
    (mem : List ℕ)
    → IsSectionMemory mem
    → dvb_eit_section_codec mem ≡ (
        if leb 14 (length mem - 4)
        then entry_loop 12
            (0 ∷ [])
            10
            (suc (length mem - 4))
            (swapped (swapped mem 8) 10)
            (length mem - 4)
            14
        else fail)
unfolding dvb_eit_section_codec
eit_loop mem v =
    rw (section_ext_length_lem mem v)
      (ground (arith, bswap16_lem mem 8, bswap16_lem (swapped mem 8) 10, length-swapped mem 8))

-- The EIT codec, likewise, and its list of events.
pub dvb_eit_section_codec_iff :
    (mem : List ℕ)
    → IsSectionMemory mem
    → (dvb_eit_section_codec mem ≢ fault)
      × (((m : List ℕ) × (dvb_eit_section_codec mem ≡ ok m)) ↔ IsListed 12 10 14 mem)
dvb_eit_section_codec_iff mem v =
    IsListed-iff (dvb_eit_section_codec mem) 12 (0 ∷ []) 10 14 mem (swapped (swapped mem 8) 10)
      (eit_loop mem v) (omega arith) (omega arith)
      (length-swapped (swapped mem 8) 10 ∙ length-swapped mem 8)
      (drop-swapped (swapped mem 8) 10 14 (omega arith) ∙ drop-swapped mem 8 14 (omega arith))
      (omega arith)
