-- ===== src/Ucsi/Codec/Tables.antt =====
-- Which sections the codecs of PMT, NIT, BAT and TOT accept.
use dvb_apps.Common.{
  ℕ, suc, ◌+◌, ◌-◌, ◌≤◌, ◌<◌, ◌≡◌, refl, sym, ap, ap₂, ◌∙◌, ◌≢◌, ◌↔◌, List, [], ◌∷◌, ◌++◌, arith,
  leb, ◌==◌, if◌then◌else◌, length, drop, All, length-append, drop-length_append, Result, ok, fail,
  fault, ◌>>=◌, guard,
}
use native.Mathlib.Decide.{dec_lt}
use dvb_apps.Ucsi.Descriptor.Verify.{encode, region, length-region}
use dvb_apps.Ucsi.Codec.{
  bswap16, entry_loop, mpeg_pmt_section_codec, dvb_nit_section_codec, dvb_bat_section_codec,
  dvb_tot_section_codec, section_length,
}
use dvb_apps.Ucsi.Codec.Memory.{field12_lem, bswap16_lem, length-swapped, drop-swapped, swapped}
use dvb_apps.Ucsi.Codec.Entries.{Entry, Fits, encode_entries, region-same, region-add, region-drop}
use dvb_apps.Ucsi.Codec.Front.{
  IsSectionMemory, section_ext_length_lem, IsTail, loop_tail, loop-IsTail, front_then, IsFronted,
  IsFronted-iff,
}

pmt_front :
    (mem : List ℕ)
    → IsSectionMemory mem
    → mpeg_pmt_section_codec mem ≡ (
        if leb 12 (length mem - 4)
        then front_then (loop_tail 5 (1 ∷ []) 3) 4 (0 ∷ []) 2 mem (length mem - 4) 8
        else fail)
unfolding mpeg_pmt_section_codec front_then
pmt_front mem v = rw (section_ext_length_lem mem v) (ground arith)

-- The PMT codec ends and touches no byte outside its section. It accepts exactly the sections made
-- of the program's words and descriptors and of the streams, each with its own, where every length
-- field is right and every descriptor ends where its list does.
pub mpeg_pmt_section_codec_iff :
    (mem : List ℕ)
    → IsSectionMemory mem
    → (mpeg_pmt_section_codec mem ≢ fault)
      × (((m : List ℕ) × (mpeg_pmt_section_codec mem ≡ ok m))
          ↔ IsFronted 4 2 8 (All (Fits 5 3)) mem)
mpeg_pmt_section_codec_iff mem v =
    IsFronted-iff 4 (0 ∷ []) 2 (omega arith) (omega arith)
      (loop-IsTail 5 (1 ∷ []) 3 (omega arith) (omega arith)) (mpeg_pmt_section_codec mem) 8 mem
      (pmt_front mem v)

-- The word between the two lists of a NIT or a BAT, and the transport streams behind it.
abbrev transports : ℕ → List ℕ → ℕ → Result (List ℕ)
transports len m pos = guard (leb (pos + 2) len) >>= λ _.
    bswap16 m pos >>= λ m2. entry_loop 6 (0 ∷ 2 ∷ []) 4 (suc len) m2 len (pos + 2)

-- The word is written as an entry with no descriptors.
abbrev pub AreTransports : List Entry → Type 0
AreTransports [] = ⊥
AreTransports (w ∷ es) = (length w.head ≡ 2) × (w.descriptors ≡ []) × All (Fits 6 4) es

transports_run :
    (len : ℕ) (m : List ℕ) (pos : ℕ)
    → len ≤ length m
    → pos + 2 ≤ len
    → transports len m pos ≡ loop_tail 6 (0 ∷ 2 ∷ []) 4 len (swapped m pos) (pos + 2)
transports_run len m pos h le = ground (arith, bswap16_lem m pos)

transports_short : (len : ℕ) (m : List ℕ) (pos : ℕ) → len < pos + 2 → transports len m pos ≡ fail
transports_short len m pos h = ground arith

loop : IsTail (loop_tail 6 (0 ∷ 2 ∷ []) 4) (All (Fits 6 4))
loop = loop-IsTail 6 (0 ∷ 2 ∷ []) 4 (omega arith) (omega arith)

transports_safe :
    (len : ℕ) (m : List ℕ) (pos : ℕ) → len ≤ length m → pos ≤ len → transports len m pos ≢ fault
transports_safe len m pos h le = elim (dec_lt len (pos + 2)) [
  | yes short ↦ ground (arith, transports_short len m pos short)
  | no long ↦
      rw (transports_run len m pos h (omega arith)) (
        loop.safe len (swapped m pos) (pos + 2) (omega (arith, length-swapped m pos)) (omega arith))
]

-- The word and the entries behind it.
word_layout :
    (m : List ℕ) (len pos : ℕ) (es : List Entry)
    → pos + 2 ≤ len
    → region (swapped m pos) (pos + 2) (len - (pos + 2)) ≡ encode_entries es
    → region m pos (len - pos)
      ≡ encode_entries (record { head = region m pos 2; descriptors = [] } ∷ es)
unfolding encode_entries encode
word_layout m len pos es le q =
    let a : len - pos ≡ 2 + (len - (pos + 2)) = omega arith in
    ap (λ c. region m pos c) a
    ∙ region-add m pos 2 (len - (pos + 2))
    ∙ ap (λ l. region m pos 2 ++ l)
        (sym
            (region-same (swapped m pos) m (pos + 2) _ (drop-swapped m pos (pos + 2) (omega arith)))
          ∙ q)

transports_sound :
    (len : ℕ) (m : List ℕ) (pos : ℕ) (m' : List ℕ)
    → len ≤ length m
    → pos ≤ len
    → transports len m pos ≡ ok m'
    → (es : List Entry) × AreTransports es × (region m pos (len - pos) ≡ encode_entries es)
transports_sound len m pos m' h le e = elim (dec_lt len (pos + 2)) [
  | yes short ↦ absurd (ground (arith, transports_short len m pos short, e))
  | no long ↦
      let (es, fits, q) =
        loop.sound len (swapped m pos) (pos + 2) m' (omega (arith, length-swapped m pos))
          (omega arith) (sym (transports_run len m pos h (omega arith)) ∙ e) in
      (
        record { head = region m pos 2; descriptors = [] } ∷ es,
        (length-region m pos 2 (omega arith), refl, fits),
        word_layout m len pos es (omega arith) q,
      )
]

transports_complete :
    (len : ℕ) (m : List ℕ) (pos : ℕ) (es : List Entry)
    → len ≤ length m
    → pos ≤ len
    → AreTransports es
    → region m pos (len - pos) ≡ encode_entries es
    → (m' : List ℕ) × (transports len m pos ≡ ok m')
unfolding encode_entries encode
transports_complete len m pos [] h le f q = absurd f
transports_complete len m pos (w ∷ es) h le (two, bare, fits) q =
    let flat : region m pos (len - pos) ≡ w.head ++ encode_entries es =
      q ∙ ap (λ ds. w.head ++ (encode ds ++ encode_entries es)) bare in
    let room : pos + 2 ≤ len = omega (
      arith,
      two,
      ap (λ l. length l) flat,
      length-append w.head (encode_entries es),
      length-region m pos (len - pos) (omega arith),
    ) in
    let behind : region (swapped m pos) (pos + 2) (len - (pos + 2)) ≡ encode_entries es =
      region-same (swapped m pos) m (pos + 2) _ (drop-swapped m pos (pos + 2) (omega arith))
      ∙ ap (λ c. region m (pos + 2) c) (omega arith)
      ∙ region-drop m pos 2 (len - pos)
      ∙ ap₂ (λ a l. drop a l) (sym two) flat
      ∙ drop-length_append w.head (encode_entries es) in
    let run =
      loop.complete len (swapped m pos) (pos + 2) es (omega (arith, length-swapped m pos)) room fits
        behind in
    (run.0, transports_run len m pos h room ∙ run.1)

transports-IsTail : IsTail transports AreTransports
transports-IsTail = record {
  safe = transports_safe;
  sound = transports_sound;
  complete = transports_complete;
}

nit_front :
    (mem : List ℕ)
    → IsSectionMemory mem
    → dvb_nit_section_codec mem ≡ (
        if leb 10 (length mem - 4)
        then front_then transports 2 [] 0 mem (length mem - 4) 8
        else fail)
unfolding dvb_nit_section_codec front_then
nit_front mem v = rw (section_ext_length_lem mem v) (ground arith)

-- The NIT codec ends and touches no byte outside its section. It accepts exactly the sections made
-- of the network's descriptors, the word of the transport stream loop, whose value is not looked
-- at, and the transport streams, each with its descriptors.
pub dvb_nit_section_codec_iff :
    (mem : List ℕ)
    → IsSectionMemory mem
    → (dvb_nit_section_codec mem ≢ fault)
      × (((m : List ℕ) × (dvb_nit_section_codec mem ≡ ok m)) ↔ IsFronted 2 0 8 AreTransports mem)
dvb_nit_section_codec_iff mem v =
    IsFronted-iff 2 [] 0 (omega arith) tt transports-IsTail (dvb_nit_section_codec mem) 8 mem
      (nit_front mem v)

bat-nit : (mem : List ℕ) → dvb_bat_section_codec mem ≡ dvb_nit_section_codec mem
unfolding dvb_bat_section_codec dvb_nit_section_codec
bat-nit mem = refl

-- The BAT codec, likewise, and its bouquet's descriptors and transport streams.
pub dvb_bat_section_codec_iff :
    (mem : List ℕ)
    → IsSectionMemory mem
    → (dvb_bat_section_codec mem ≢ fault)
      × (((m : List ℕ) × (dvb_bat_section_codec mem ≡ ok m)) ↔ IsFronted 2 0 8 AreTransports mem)
dvb_bat_section_codec_iff mem v = rw (bat-nit mem) (dvb_nit_section_codec_iff mem v)

-- The TOT, which has no table id extension: nothing may stand behind its descriptors.
abbrev nothing : ℕ → List ℕ → ℕ → Result (List ℕ)
nothing len m pos = guard (pos == len) >>= λ _. ok m

abbrev pub IsNothing : List Entry → Type 0
IsNothing es = es ≡ []

nothing-IsTail : IsTail nothing IsNothing
unfolding encode_entries
nothing-IsTail = record {
  safe = λ len m pos h le. ground arith;
  sound = λ len m pos m' h le e.
      let done : len - pos ≡ 0 = ground arith in ([], refl, ap (λ c. region m pos c) done);
  complete = λ len m pos es h le z q.
      let size : length (region m pos (len - pos)) ≡ 0 = ap (λ l. length l) q ∙ rw z refl in
      (m, ground (arith, size, length-region m pos (len - pos)));
}

tot_front :
    (mem : List ℕ)
    → IsSectionMemory mem
    → dvb_tot_section_codec mem
      ≡ (if leb 10 (length mem - 4) then front_then nothing 2 [] 0 mem (length mem - 4) 8 else fail)
unfolding dvb_tot_section_codec section_length front_then
tot_front mem v = ground (arith, field12_lem mem 1)

-- The TOT codec ends and touches no byte outside its section, and accepts exactly the sections
-- whose one list of descriptors reaches to the CRC.
pub dvb_tot_section_codec_iff :
    (mem : List ℕ)
    → IsSectionMemory mem
    → (dvb_tot_section_codec mem ≢ fault)
      × (((m : List ℕ) × (dvb_tot_section_codec mem ≡ ok m)) ↔ IsFronted 2 0 8 IsNothing mem)
dvb_tot_section_codec_iff mem v =
    IsFronted-iff 2 [] 0 (omega arith) tt nothing-IsTail (dvb_tot_section_codec mem) 8 mem
      (tot_front mem v)
