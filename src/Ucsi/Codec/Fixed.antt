-- ===== src/Ucsi/Codec/Fixed.antt =====
-- The tables of fixed size entries, PAT and RST, and the CAT.
use dvb_apps.Common.{
  read-get_or, ℕ, zero, suc, ◌+◌, ◌-◌, ◌*◌, ◌%◌, ◌^◌, ◌≤◌, ◌<◌, ◌≡◌, refl, sym, ◌∙◌, ◌≢◌, ◌↔◌, List,
  [], ◌∷◌, arith, leb, ◌==◌, if◌then◌else◌, length, get_or, All, ok, fail, fault, ◌>>=◌, read,
}
use native.Mathlib.Decide.{dec_lt}
use dvb_apps.Ucsi.Descriptor.{Descriptor, verify_descriptors, verify_loop}
use dvb_apps.Ucsi.Descriptor.Verify.{encode, region, verify_descriptors_iff}
use dvb_apps.Ucsi.Codec.{
  fixed_loop, section_length, mpeg_pat_section_codec, dvb_rst_section_codec, mpeg_cat_section_codec,
}
use dvb_apps.Ucsi.Codec.Memory.{AllBelow, swap_all_lem, field12_lem}
use dvb_apps.Ucsi.Codec.Front.{IsSectionMemory, section_ext_length_lem}

no_round : (c k pos len : ℕ) → len ≡ c * k + pos → len < pos + k → pos ≡ len
no_round zero k pos len e h = omega arith
no_round (suc c) k pos len e h = absurd (omega arith)

one_round :
    (c k pos len : ℕ)
    → len ≡ c * k + pos
    → pos + k ≤ len
    → 0 < k
    → (d : ℕ) × (len ≡ d * k + (pos + k))
one_round zero k pos len e h p = absurd (omega arith)
one_round (suc c) k pos len e h p = (c, omega arith)

module _ (k : ℕ) (os : List ℕ) (below : AllBelow k os) where
  fixed_loop_step :
      (fuel : ℕ) (mem : List ℕ) (len pos : ℕ)
      → len ≤ length mem
      → pos + k ≤ len
      → 0 < k
      → (m : List ℕ) × (fixed_loop k os (suc fuel) mem len pos
          ≡ fixed_loop k os fuel m len (pos + k))
        × (length m ≡ length mem)
  unfolding fixed_loop
  fixed_loop_step fuel mem len pos h le p =
      let swaps = swap_all_lem mem pos k os (omega arith) below in
      (swaps.0, ground (arith, swaps.1), swaps.2)

  fixed_loop_end :
      (fuel : ℕ) (mem : List ℕ) (len pos : ℕ)
      → len < pos + k
      → fixed_loop k os (suc fuel) mem len pos ≡ (if pos == len then ok mem else fail)
  unfolding fixed_loop
  fixed_loop_end fuel mem len pos h = ground arith

  fixed_loop_iff :
      (fuel : ℕ) (mem : List ℕ) (len pos : ℕ)
      → len ≤ length mem
      → pos ≤ len
      → len - pos < fuel
      → 0 < k
      → (fixed_loop k os fuel mem len pos ≢ fault)
        × (((m : List ℕ) × (fixed_loop k os fuel mem len pos ≡ ok m))
            ↔ ((c : ℕ) × (len ≡ c * k + pos)))
  fixed_loop_iff zero mem len pos h le f p = absurd (omega arith)
  fixed_loop_iff (suc fuel) mem len pos h le f p = elim (dec_lt len (pos + k)) [
    | yes short ↦
        let e = fixed_loop_end fuel mem len pos short in
        (
          ground (arith, e),
          (
            λ r. (0, ground (arith, e, r.1)),
            λ c. let done = no_round c.0 k pos len c.1 short in (mem, ground (arith, e, done)),
          ),
        )
    | no long ↦
        let (m, e, size) = fixed_loop_step fuel mem len pos h (omega arith) p in
        let ih = fixed_loop_iff fuel m len (pos + k) (omega arith) (omega arith) (omega arith) p in
        (
          rw e ih.0,
          (
            λ r. let c = ih.1.0 (r.0, sym e ∙ r.1) in (suc c.0, omega (arith, c.1)),
            λ c.
                let run = ih.1.1 (one_round c.0 k pos len c.1 (omega arith) p) in
                (run.0, e ∙ run.1),
          ),
        )
  ]

pat_loop :
    (mem : List ℕ)
    → IsSectionMemory mem
    → mpeg_pat_section_codec mem ≡ (
        if leb 8 (length mem - 4)
        then fixed_loop 4 (0 ∷ 2 ∷ []) (suc (length mem - 4)) mem (length mem - 4) 8
        else fail)
unfolding mpeg_pat_section_codec
pat_loop mem v = rw (section_ext_length_lem mem v) (ground arith)

-- The PAT codec ends and touches no byte outside its section, and accepts exactly the sections
-- whose programs fill the space between the header and the CRC, four bytes each.
pub mpeg_pat_section_codec_iff :
    (mem : List ℕ)
    → IsSectionMemory mem
    → (mpeg_pat_section_codec mem ≢ fault)
      × (((m : List ℕ) × (mpeg_pat_section_codec mem ≡ ok m))
          ↔ ((programs : ℕ) × (length mem ≡ 8 + programs * 4 + 4)))
mpeg_pat_section_codec_iff mem v = elim (dec_lt (length mem) 12) [
  | yes short ↦ (
    ground (arith, pat_loop mem v),
    (λ r. absurd (ground (arith, pat_loop mem v, r.1)), λ c. absurd (omega (arith, c.1))),
  )
  | no long ↦
      let len = length mem - 4 in
      let run : mpeg_pat_section_codec mem ≡ fixed_loop 4 (0 ∷ 2 ∷ []) (suc len) mem len 8 =
        ground (arith, pat_loop mem v) in
      let loop =
        fixed_loop_iff 4 (0 ∷ 2 ∷ []) (omega arith) (suc len) mem len 8 (omega arith) (omega arith)
          (omega arith) (omega arith) in
      (
        rw run loop.0,
        (
          λ r. let c = loop.1.0 (r.0, sym run ∙ r.1) in (c.0, omega (arith, c.1)),
          λ c. let r = loop.1.1 (c.0, omega (arith, c.1)) in (r.0, run ∙ r.1),
        ),
      )
]

-- The RST codec ends and touches no byte outside its section. It takes ten bytes for a status,
-- because the struct is padded, though a status has nine bytes in the stream.
pub dvb_rst_section_codec_iff :
    (mem : List ℕ)
    → IsSectionMemory mem
    → (dvb_rst_section_codec mem ≢ fault)
      × (((m : List ℕ) × (dvb_rst_section_codec mem ≡ ok m))
          ↔ ((statuses : ℕ) × (length mem ≡ 3 + statuses * 10)))
dvb_rst_section_codec_iff mem v =
    let run : dvb_rst_section_codec mem
        ≡ fixed_loop 10 (0 ∷ 2 ∷ 4 ∷ 6 ∷ []) (suc (length mem)) mem (length mem) 3 =
      unfold dvb_rst_section_codec section_length in ground (arith, field12_lem mem 1) in
    let loop =
      fixed_loop_iff 10 (0 ∷ 2 ∷ 4 ∷ 6 ∷ []) (omega arith) (suc (length mem)) mem (length mem) 3
        (omega arith) (omega arith) (omega arith) (omega arith) in
    (
      rw run loop.0,
      (
        λ r. let c = loop.1.0 (r.0, sym run ∙ r.1) in (c.0, omega (arith, c.1)),
        λ c. let r = loop.1.1 (c.0, omega (arith, c.1)) in (r.0, run ∙ r.1),
      ),
    )

cat_run :
    (mem : List ℕ)
    → IsSectionMemory mem
    → mpeg_cat_section_codec mem
      ≡ (verify_descriptors mem 8 ((length mem - 4 + 2 ^ 64 - 8) % 2 ^ 64) >>= λ _. ok mem)
unfolding mpeg_cat_section_codec
cat_run mem v = rw (section_ext_length_lem mem v) refl

-- The CAT codec on a section long enough for its header and CRC: it touches no byte outside, and
-- accepts exactly the sections whose body is a list of descriptors.
pub mpeg_cat_section_codec_iff :
    (mem : List ℕ)
    → IsSectionMemory mem
    → 12 ≤ length mem
    → (mpeg_cat_section_codec mem ≢ fault)
      × (((m : List ℕ) × (mpeg_cat_section_codec mem ≡ ok m))
          ↔ ((ds : List Descriptor) × (region mem 8 (length mem - 12) ≡ encode ds)))
mpeg_cat_section_codec_iff mem v h =
    let n : (length mem - 4 + 2 ^ 64 - 8) % 2 ^ 64 ≡ length mem - 12 = omega arith in
    let run : mpeg_cat_section_codec mem
        ≡ (verify_descriptors mem 8 (length mem - 12) >>= λ _. ok mem) =
      cat_run mem v ∙ rw n refl in
    let checked = verify_descriptors_iff mem 8 (length mem - 12) (omega arith) in
    (
      ground (arith, run, checked.0),
      (λ r. checked.1.0 (ground (arith, run, r.1)), λ d. (mem, ground (arith, run, checked.1.1 d))),
    )

read_past : (xs : List ℕ) (i : ℕ) → length xs ≤ i → read xs i ≡ fault
read_past [] i h = refl
read_past (x ∷ xs) zero h = absurd (omega arith)
read_past (x ∷ xs) (suc i) h = read_past xs i (omega arith)

All-get_or : (xs : List ℕ) (i : ℕ) → All (λ b. b < 256) xs → get_or xs i 0 < 256
All-get_or [] i a = omega arith
All-get_or (x ∷ xs) zero a = a.0
All-get_or (x ∷ xs) (suc i) a = All-get_or xs i a.1

verify_past :
    (fuel : ℕ) (mem : List ℕ) (buf len pos : ℕ)
    → 0 < fuel
    → pos + 2 ≤ len
    → length mem ≤ buf + (pos + 1)
    → verify_loop fuel mem buf len pos ≡ fault
unfolding verify_loop
verify_past zero mem buf len pos f le h = absurd (omega arith)
verify_past (suc fuel) mem buf len pos f le h = ground (arith, read_past mem (buf + (pos + 1)))

-- A length far above the memory's: the second descriptor's length byte is outside at the latest.
verify_wrapped :
    (mem : List ℕ) (len : ℕ)
    → All (λ b. b < 256) mem
    → length mem < 12
    → 1000 ≤ len
    → verify_descriptors mem 8 len ≡ fault
unfolding verify_descriptors verify_loop
verify_wrapped mem len a h le = elim (dec_lt 9 (length mem)) [
  | yes p ↦ ground (
    arith,
    read-get_or mem 9 p,
    All-get_or mem 9 a,
    verify_past len mem 8 len (2 + get_or mem 9 0),
  )
  | no p ↦ ground (arith, read_past mem 9 (omega arith))
]

-- On a shorter section the length wraps round, and the codec reads past the end of the section.
pub mpeg_cat_section_codec_short :
    (mem : List ℕ)
    → IsSectionMemory mem
    → All (λ b. b < 256) mem
    → length mem < 12
    → mpeg_cat_section_codec mem ≡ fault
mpeg_cat_section_codec_short mem v a h =
    cat_run mem v
    ∙ rw (verify_wrapped mem ((length mem - 4 + 2 ^ 64 - 8) % 2 ^ 64) a h (omega arith)) refl
