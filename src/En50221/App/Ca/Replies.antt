-- ===== src/En50221/App/Ca/Replies.antt =====
-- The table of a reply, swapped in place.
use dvb_apps.Common.{
  ℕ, zero, suc, ◌+◌, ◌*◌, ◌^◌, ◌<◌, ◌≡◌, refl, ap, ◌∙◌, Option, List, [], ◌∷◌, ◌++◌, map,
  append_assoc, arith, length, take, length-append, length-map, take-ge, drop-length_append, Result,
  ok, fault, ◌>>=◌,
}
use dvb_apps.En50221.Transport.Frame.{length_field, length_field_lem}
use dvb_apps.En50221.Session.Apdus.{apdu_bytes}
use dvb_apps.En50221.App.Fields.{read_tag_lem}
use dvb_apps.En50221.App.Ca.{
  Ca, CaCall, ca_pmt_reply_call, called, swap_table, parse_reply, message,
}
use dvb_apps.En50221.Asn1.{asn_1_decode}
use dvb_apps.Ucsi.Codec.{bswap16}

-- The streams of a reply: two bytes of the PID, and one of what the module says of it.
abbrev pub table_bytes : List (ℕ × ℕ × ℕ) → List ℕ
table_bytes [] = []
table_bytes ((hi, lo, enable) ∷ es) = hi ∷ lo ∷ enable ∷ table_bytes es

-- The same with the bytes of the PID in the order of the host.
abbrev pub swapped : ℕ × ℕ × ℕ → ℕ × ℕ × ℕ
swapped (hi, lo, enable) = (lo, hi, enable)

bswap16_cons :
    (x : ℕ) (mem : List ℕ) (pos : ℕ)
    → bswap16 (x ∷ mem) (suc pos) ≡ (bswap16 mem pos >>= λ m. ok (x ∷ m))
unfolding bswap16
bswap16_cons x mem pos = let e : suc pos + 1 ≡ suc (pos + 1) = omega arith in ground (arith, e)

bswap16_front : (a b : ℕ) (rest : List ℕ) → bswap16 (a ∷ b ∷ rest) 0 ≡ ok (b ∷ a ∷ rest)
unfolding bswap16
bswap16_front a b rest = refl

bswap16_one : (a : ℕ) → bswap16 (a ∷ []) 0 ≡ fault
unfolding bswap16
bswap16_one a = refl

bswap16_lem :
    (front : List ℕ) (a b : ℕ) (rest : List ℕ)
    → bswap16 (front ++ (a ∷ b ∷ rest)) (length front) ≡ ok (front ++ (b ∷ a ∷ rest))
bswap16_lem [] a b rest = bswap16_front a b rest
bswap16_lem (x ∷ front) a b rest =
    bswap16_cons x (front ++ (a ∷ b ∷ rest)) (length front)
    ∙ ap (λ r. r >>= λ m. ok (x ∷ m)) (bswap16_lem front a b rest)

bswap16_end : (front : List ℕ) (a : ℕ) → bswap16 (front ++ (a ∷ [])) (length front) ≡ fault
bswap16_end [] a = bswap16_one a
bswap16_end (x ∷ front) a =
    bswap16_cons x (front ++ (a ∷ [])) (length front)
    ∙ ap (λ r. r >>= λ m. ok (x ∷ m)) (bswap16_end front a)

abbrev three : List ℕ → ℕ → ℕ → ℕ → List ℕ
three front a b c = front ++ (a ∷ b ∷ c ∷ [])

swap_table_step :
    (fuel n hi lo enable : ℕ) (front rest : List ℕ)
    → length front < n
    → swap_table (suc fuel) (length front) n (front ++ (hi ∷ lo ∷ enable ∷ rest))
      ≡ swap_table fuel (length (three front lo hi enable)) n (three front lo hi enable ++ rest)
unfolding swap_table
swap_table_step fuel n hi lo enable front rest h =
    let e = bswap16_lem front hi lo (enable ∷ rest) in
    let l : length front + 3 ≡ length (three front lo hi enable) =
      omega (arith, length-append front (lo ∷ hi ∷ enable ∷ [])) in
    let assoc = append_assoc front (lo ∷ hi ∷ enable ∷ []) rest in ground (arith, e, l, assoc)

swap_table_lem :
    (fuel n : ℕ) (es : List (ℕ × ℕ × ℕ)) (front : List ℕ)
    → length es < fuel
    → n ≡ length front + 3 * length es
    → swap_table fuel (length front) n (front ++ table_bytes es)
      ≡ ok (front ++ table_bytes (map swapped es))
unfolding swap_table
swap_table_lem zero n es front f h = absurd (omega arith)
swap_table_lem (suc fuel) n [] front f h = ground arith
swap_table_lem (suc fuel) n ((hi, lo, enable) ∷ es) front f h =
    let l = length-append front (lo ∷ hi ∷ enable ∷ []) in
    swap_table_step fuel n hi lo enable front (table_bytes es) (omega arith)
    ∙ swap_table_lem fuel n es (three front lo hi enable) (omega arith) (omega (arith, l))
    ∙ ap ok (append_assoc front (lo ∷ hi ∷ enable ∷ []) (table_bytes (map swapped es)))

swap_table_cut :
    (fuel n x : ℕ) (es : List (ℕ × ℕ × ℕ)) (front : List ℕ)
    → n ≡ length front + 3 * length es + 1
    → swap_table fuel (length front) n (front ++ (table_bytes es ++ (x ∷ []))) ≡ fault
unfolding swap_table
swap_table_cut zero n x es front h = refl
swap_table_cut (suc fuel) n x [] front h = ground (arith, bswap16_end front x)
swap_table_cut (suc fuel) n x ((hi, lo, enable) ∷ es) front h =
    let l = length-append front (lo ∷ hi ∷ enable ∷ []) in
    swap_table_step fuel n hi lo enable front (table_bytes es ++ (x ∷ [])) (omega arith)
    ∙ swap_table_cut fuel n x es (three front lo hi enable) (omega (arith, l))

length-table_bytes : (es : List (ℕ × ℕ × ℕ)) → length (table_bytes es) ≡ 3 * length es
length-table_bytes [] = refl
length-table_bytes ((hi, lo, enable) ∷ es) = omega (arith, length-table_bytes es)

-- A reply: the program number, its version, what holds for the program, and the streams.
abbrev pub reply_bytes : ℕ → ℕ → ℕ → ℕ → List ℕ → List ℕ
reply_bytes hi lo version enable table = hi ∷ lo ∷ version ∷ enable ∷ table

parse_reply_lem :
    (ca : Ca) (slot m hi lo version enable : ℕ) (table : List ℕ)
    → length table + 4 < 2 ^ 16
    → message ca slot m (apdu_bytes (0x9f, 0x80, 0x33) (reply_bytes hi lo version enable table)) ≡ (
        swap_table
          (suc (length table + 4))
          4
          (length table + 4)
          (reply_bytes lo hi version enable table)
        >>= λ t.
            ok (called (ca.ca_pmt_reply) (ca_pmt_reply_call slot m (take (length table + 4) t))))
unfolding message parse_reply
parse_reply_lem ca slot m hi lo version enable table h =
    let body = reply_bytes hi lo version enable table in
    let n : length body ≡ length table + 4 = omega arith in
    let field = length_field (length body) in
    let bytes = field ++ body in
    let l = length-append field body in
    let e : asn_1_decode bytes (length bytes) ≡ ok (length table + 4, length field) =
      length_field_lem (length body) (length bytes) body (omega arith) (omega (arith, l))
      ∙ ap (λ k. ok (k, length field)) n in
    let d = drop-length_append field body in
    let s = bswap16_front hi lo (version ∷ enable ∷ table) in
    ground (arith, e, d, s, l, read_tag_lem 0x9f 0x80 0x33 bytes)

-- A reply about a program and any number of streams, in less than 2 ^ 16 bytes: if there is a callback
-- for it, it is called with the reply, in which the program number and each PID have their bytes swapped
-- and the rest is as it was sent.
pub message-table_bytes :
    (ca : Ca) (slot m hi lo version enable : ℕ) (es : List (ℕ × ℕ × ℕ))
    → 3 * length es + 4 < 2 ^ 16
    → message ca slot m
        (apdu_bytes (0x9f, 0x80, 0x33) (reply_bytes hi lo version enable (table_bytes es)))
      ≡ ok (
          called (ca.ca_pmt_reply) (
            ca_pmt_reply_call slot m
              (reply_bytes lo hi version enable (table_bytes (map swapped es)))))
message-table_bytes ca slot m hi lo version enable es h =
    let table = table_bytes es in
    let n = length table + 4 in
    let l = length-table_bytes es in
    let back = reply_bytes lo hi version enable (table_bytes (map swapped es)) in
    let answer : List ℕ → Result (Option CaCall) =
      λ t. ok (called (ca.ca_pmt_reply) (ca_pmt_reply_call slot m t)) in
    parse_reply_lem ca slot m hi lo version enable table (omega (arith, l))
    ∙ ap (λ r. r >>= λ t. answer (take n t))
        (swap_table_lem (suc n) n es (lo ∷ hi ∷ version ∷ enable ∷ []) (omega (arith, l))
          (omega (arith, l)))
    ∙ ap answer (
        take-ge n back
          (omega (arith, l, length-table_bytes (map swapped es), length-map es swapped)))

-- The same reply with one byte more behind its streams, counted in its length: the loop swaps that
-- byte with one behind the message.
pub message_one_more :
    (ca : Ca) (slot m hi lo version enable x : ℕ) (es : List (ℕ × ℕ × ℕ))
    → 3 * length es + 5 < 2 ^ 16
    → message ca slot m (
        apdu_bytes
          (0x9f, 0x80, 0x33)
          (reply_bytes hi lo version enable (table_bytes es ++ (x ∷ []))))
      ≡ fault
message_one_more ca slot m hi lo version enable x es h =
    let table = table_bytes es ++ (x ∷ []) in
    let n = length table + 4 in
    let l = length-table_bytes es in
    let k = length-append (table_bytes es) (x ∷ []) in
    parse_reply_lem ca slot m hi lo version enable table (omega (arith, l, k))
    ∙ ap (λ r. r >>= λ t. ok (called (ca.ca_pmt_reply) (ca_pmt_reply_call slot m (take n t))))
        (swap_table_cut (suc n) n x es (lo ∷ hi ∷ version ∷ enable ∷ []) (omega (arith, l, k)))
