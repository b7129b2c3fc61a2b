-- ===== src/Ucsi/SectionExt/RoundTrip.antt =====
-- An extended section encoded and decoded again.
use dvb_apps.Common.{
  ℕ, suc, ◌+◌, ◌-◌, ◌*◌, ◌/◌, ◌%◌, ◌^◌, ◌≡◌, ap, ◌∙◌, Bool, true, List, [], ◌∷◌, ◌++◌, arith, leb,
  ◌==◌, if◌then◌else◌, bit, length, set, length-append, Result, ok, fault, ◌>>=◌, ◌>>◌, guard,
}
use dvb_apps.Ucsi.Codec.{bswap16, section_length, field12}
use dvb_apps.Ucsi.Crc32.{crc32, crc32_init}
use dvb_apps.Ucsi.Crc32.Appended.{stored, crc_of, crc32_front, crc32_whole}
use dvb_apps.Ucsi.SectionExt.{
  section_check_crc, syntax_indicator, section_ext_decode, store_swapped, update,
  section_ext_encode,
}

set-append : (xs ys : List ℕ) (i v : ℕ) → set (xs ++ ys) (length xs + i) v ≡ xs ++ set ys i v
set-append [] ys i v = let e : 0 + i ≡ i = omega arith in ap (λ k. set ys k v) e
set-append (x ∷ xs) ys i v =
    let e : suc (length xs) + i ≡ suc (length xs + i) = omega arith in
    ap (λ k. set (x ∷ (xs ++ ys)) k v) e ∙ ap (λ r. x ∷ r) (set-append xs ys i v)

store_swapped-stored :
    (xs : List ℕ) (x y z w v : ℕ)
    → store_swapped (xs ++ (x ∷ y ∷ z ∷ w ∷ [])) (length xs) v ≡ ok (xs ++ stored v)
unfolding store_swapped
store_swapped-stored xs x y z w v =
    let p = v / 2 ^ 24 % 2 ^ 8 in
    let q = v / 2 ^ 16 % 2 ^ 8 in
    let r = v / 2 ^ 8 % 2 ^ 8 in
    let e : length xs ≡ length xs + 0 = omega arith in
    let s1 : set (xs ++ (x ∷ y ∷ z ∷ w ∷ [])) (length xs) p ≡ xs ++ (p ∷ y ∷ z ∷ w ∷ []) =
      ap (λ k. set (xs ++ (x ∷ y ∷ z ∷ w ∷ [])) k p) e ∙ set-append xs (x ∷ y ∷ z ∷ w ∷ []) 0 p in
    let s2 = ap (λ l. set l (length xs + 1) q) s1 ∙ set-append xs (p ∷ y ∷ z ∷ w ∷ []) 1 q in
    let s3 = ap (λ l. set l (length xs + 2) r) s2 ∙ set-append xs (p ∷ q ∷ z ∷ w ∷ []) 2 r in
    let s4 =
      ap (λ l. set l (length xs + 3) (v % 2 ^ 8)) s3
      ∙ set-append xs (p ∷ q ∷ r ∷ w ∷ []) 3 (v % 2 ^ 8) in
    let fits : leb (length xs + 4) (length (xs ++ (x ∷ y ∷ z ∷ w ∷ []))) ≡ true =
      ground (arith, length-append xs (x ∷ y ∷ z ∷ w ∷ [])) in
    ap
      (λ b.
        if b
        then ok (
            set
              (set (set (set (xs ++ (x ∷ y ∷ z ∷ w ∷ [])) (length xs) p) (length xs + 1) q)
                (length xs + 2) r)
              (length xs + 3) (v % 2 ^ 8))
        else fault)
      fits
    ∙ ap ok s4

-- The bytes of a section as the checksum sees it, and its checksum.
abbrev pub stream : ℕ → ℕ → ℕ → ℕ → ℕ → List ℕ → List ℕ
stream b0 b1 b2 b3 b4 body = b0 ∷ b2 ∷ b1 ∷ b4 ∷ b3 ∷ body

abbrev pub checksum : ℕ → ℕ → ℕ → ℕ → ℕ → List ℕ → ℕ
checksum b0 b1 b2 b3 b4 body = crc_of crc32_init (stream b0 b1 b2 b3 b4 body)

update-stored :
    (b0 b1 b2 b3 b4 x y z w : ℕ) (body : List ℕ)
    → (b1 + 256 * b2) % 4096 + 3 ≡ length body + 9
    → update (b0 ∷ b1 ∷ b2 ∷ b4 ∷ b3 ∷ (body ++ (x ∷ y ∷ z ∷ w ∷ [])))
      ≡ ok (b0 ∷ b1 ∷ b2 ∷ b4 ∷ b3 ∷ (body ++ stored (checksum b0 b1 b2 b3 b4 body)))
unfolding update section_length field12 bswap16
update-stored b0 b1 b2 b3 b4 x y z w body h =
    let old = x ∷ y ∷ z ∷ w ∷ [] in
    let n = (b1 + 256 * b2) % 4096 + 3 in
    let bytes = stream b0 b1 b2 b3 b4 body in
    let mem = b0 ∷ b1 ∷ b2 ∷ b4 ∷ b3 ∷ body in
    let e : n - 4 ≡ length bytes = omega arith in
    let big : leb 4 n ≡ true = ground arith in
    let f : crc32 crc32_init (bytes ++ old) (n - 4) ≡ ok (crc_of crc32_init bytes) =
      ap (crc32 crc32_init (bytes ++ old)) e ∙ crc32_front bytes old in
    let g : store_swapped (mem ++ old) (n - 4) (crc_of crc32_init bytes)
        ≡ ok (mem ++ stored (crc_of crc32_init bytes)) =
      ap (λ k. store_swapped (mem ++ old) k (crc_of crc32_init bytes)) e
      ∙ store_swapped-stored mem x y z w (crc_of crc32_init bytes) in
    ap
      (λ b. (if b then crc32 crc32_init (bytes ++ old) (n - 4) else fault) >>= λ crc.
        store_swapped (mem ++ old) (n - 4) crc)
      big
    ∙ ap (λ r. r >>= λ crc. store_swapped (mem ++ old) (n - 4) crc) f
    ∙ g

section_check_crc-stored :
    (b0 b1 b2 b3 b4 : ℕ) (body : List ℕ)
    → (b1 + 256 * b2) % 4096 + 3 ≡ length body + 9
    → let mem = b0 ∷ b1 ∷ b2 ∷ b4 ∷ b3 ∷ (body ++ stored (checksum b0 b1 b2 b3 b4 body)) in
      section_check_crc mem ≡ ok (true, mem)
unfolding section_check_crc section_length field12 bswap16
section_check_crc-stored b0 b1 b2 b3 b4 body h =
    let n = (b1 + 256 * b2) % 4096 + 3 in
    let bytes = stream b0 b1 b2 b3 b4 body in
    let c = crc_of crc32_init bytes in
    let e : n ≡ length bytes + 4 = omega arith in
    let mem = b0 ∷ b1 ∷ b2 ∷ b4 ∷ b3 ∷ (body ++ stored c) in
    ap (λ k. crc32 crc32_init (bytes ++ stored c) k >>= λ crc. ok (crc == 0, mem)) e
    ∙ ap (λ (r : Result ℕ). r >>= λ crc. ok (crc == 0, mem)) (crc32_whole bytes)

-- A section of at least nine bytes whose length field fits it and whose syntax bit is set, in host
-- order: encoding it with its checksum updated swaps its extension field and puts the checksum into
-- its last four bytes, whatever stood there; and decoding the result with the checksum checked gives
-- back the section that was encoded, with the checksum in those bytes.
pub section_ext_decode-encode :
    (b0 b1 b2 b3 b4 x y z w : ℕ) (body : List ℕ)
    → (b1 + 256 * b2) % 4096 + 3 ≡ length body + 9
    → b2 / 2 ^ 7 % 2 ≡ 1
    → (out : List ℕ) × (section_ext_encode
          (b0 ∷ b1 ∷ b2 ∷ b3 ∷ b4 ∷ (body ++ (x ∷ y ∷ z ∷ w ∷ [])))
          true
        ≡ ok out)
      × (section_ext_decode out true
          ≡ ok (b0 ∷ b1 ∷ b2 ∷ b3 ∷ b4 ∷ (body ++ stored (checksum b0 b1 b2 b3 b4 body))))
unfolding section_ext_encode section_ext_decode syntax_indicator bswap16
section_ext_decode-encode b0 b1 b2 b3 b4 x y z w body h s =
    let c = checksum b0 b1 b2 b3 b4 body in
    let out = b0 ∷ b1 ∷ b2 ∷ b4 ∷ b3 ∷ (body ++ stored c) in
    let u = update-stored b0 b1 b2 b3 b4 x y z w body h in
    let k = section_check_crc-stored b0 b1 b2 b3 b4 body h in
    let syntax : bit b2 7 ≡ true = ground arith in
    (
      out,
      ap (λ t. guard t >> update (b0 ∷ b1 ∷ b2 ∷ b4 ∷ b3 ∷ (body ++ (x ∷ y ∷ z ∷ w ∷ [])))) syntax
          ∙ u,
      ap (λ t. guard t >> (section_check_crc out >>= λ r. guard (r.0) >> bswap16 (r.1) 3)) syntax
          ∙ ap (λ (r : Result (Bool × List ℕ)). r >>= λ r. guard (r.0) >> bswap16 (r.1) 3) k,
    )
