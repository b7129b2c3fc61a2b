-- ===== src/Ucsi/TransportPacket/Bounds.antt =====
-- Reading a packet stays inside it, and what comes out points into it.
use dvb_apps.Common.{
  read-get_or, ℕ, ◌+◌, ◌/◌, ◌%◌, ◌^◌, ◌≤◌, ◌<◌, ◌≡◌, sym, subst, ◌≢◌, Bool, true, false, ◌||◌, none,
  some, List, [], ◌∷◌, arith, ltb, leb, ◌==◌, bit, ltb→lt, leb→le, length, get_or, Result, ok,
  ◌>>=◌, read, Safe, Safe-bind, Safe-guard, Safe-elim,
}
use mathlib.Core.Bool.{false≢true}
use dvb_apps.Ucsi.TransportPacket.{
  flag_pcr, flag_opcr, flag_splicing_point, flag_private_data, flag_extension, extension_flag_ltw,
  extension_flag_piecewise_rate, extension_flag_seamless_splice, TransportValues, Extraction,
  clock_at, part, store_pcr, store_opcr, store_splice_countdown, store_private_data, store_ltw,
  store_piecewise_rate, store_seamless_splice, extract_private_data, extract_normal,
  extract_extension, extract_extension_parts, extract_payload, extract_adaptation,
  transport_packet_values_extract, has_payload, has_adaptation, value_private_data, value_pcr,
  value_opcr, value_splice_countdown, value_ltw, value_piecewise_rate,
}

-- Was the value extracted?
unfoldable pub extracts : List ℕ → ℕ → Bool
extracts [] v = false
extracts (x ∷ xs) v = (x == v) || extracts xs v

-- The private data, where there is any, ends by `adapend`.
abbrev pub PrivateIn : ℕ → TransportValues → List ℕ → Type 0
PrivateIn adapend out extracted =
    extracts extracted value_private_data ≡ true
    → out.private_data + out.private_data_length ≤ adapend

abbrev Sound : ℕ → Extraction → Type 0
Sound adapend x = (x.pos ≤ adapend) × PrivateIn adapend (x.out) (x.extracted)

part-Sound :
    (present : Bool) (size : ℕ) (wanted : Bool) (store : Extraction → Result Extraction)
    (adapend : ℕ) (x : Extraction)
    → Sound adapend x
    → (x.pos + size ≤ adapend → Safe (λ y. PrivateIn adapend (y.out) (y.extracted)) (store x))
    → Safe (Sound adapend) (part present size wanted store adapend x)
unfolding part
part-Sound false size wanted store adapend x s k = s
part-Sound true size false store adapend x s k =
    Safe-guard (Sound adapend) (leb (x.pos + size) adapend) _ λ h. (leb→le _ _ h, s.1)
part-Sound true size true store adapend x s k =
    Safe-guard (Sound adapend) (leb (x.pos + size) adapend) _ λ h.
      Safe-bind (λ y. PrivateIn adapend (y.out) (y.extracted)) (Sound adapend) (store x) _
        (k (leb→le _ _ h)) λ y p. (leb→le _ _ h, p)

module _ (pkt : List ℕ) (adapend : ℕ) (inside : adapend ≤ length pkt) where
  read-Safe : (i : ℕ) → i < adapend → read pkt i ≡ ok (get_or pkt i 0)
  read-Safe i h = read-get_or pkt i (omega arith)

  Safe-read {ℓ} :
      {B : Type ℓ} (Q : B → Type 0) (i : ℕ) (f : ℕ → Result B)
      → i < adapend
      → ((v : ℕ) → read pkt i ≡ ok v → Safe Q (f v))
      → Safe Q (read pkt i >>= f)
  Safe-read Q i f h k =
      Safe-bind (λ v. read pkt i ≡ ok v) Q (read pkt i) f
        (subst (Safe (λ v. read pkt i ≡ ok v)) (sym (read-Safe i h)) (read-Safe i h)) k

  store_pcr-Sound :
      (x : Extraction)
      → Sound adapend x
      → x.pos + 6 ≤ adapend
      → Safe (λ y. PrivateIn adapend (y.out) (y.extracted)) (store_pcr pkt x)
  unfolding store_pcr clock_at extracts
  store_pcr-Sound x s h = ground (
    arith,
    read-Safe (x.pos),
    read-Safe (x.pos + 1),
    read-Safe (x.pos + 2),
    read-Safe (x.pos + 3),
    read-Safe (x.pos + 4),
    read-Safe (x.pos + 5),
  )

  store_opcr-Sound :
      (x : Extraction)
      → Sound adapend x
      → x.pos + 6 ≤ adapend
      → Safe (λ y. PrivateIn adapend (y.out) (y.extracted)) (store_opcr pkt x)
  unfolding store_opcr clock_at extracts
  store_opcr-Sound x s h = ground (
    arith,
    read-Safe (x.pos),
    read-Safe (x.pos + 1),
    read-Safe (x.pos + 2),
    read-Safe (x.pos + 3),
    read-Safe (x.pos + 4),
    read-Safe (x.pos + 5),
  )

  store_splice_countdown-Sound :
      (x : Extraction)
      → Sound adapend x
      → x.pos + 1 ≤ adapend
      → Safe (λ y. PrivateIn adapend (y.out) (y.extracted)) (store_splice_countdown pkt x)
  unfolding store_splice_countdown extracts
  store_splice_countdown-Sound x s h = ground (arith, read-Safe (x.pos))

  store_private_data-Sound :
      (x : Extraction) (n : ℕ)
      → read pkt (x.pos) ≡ ok n
      → x.pos + (1 + n) ≤ adapend
      → Safe (λ y. PrivateIn adapend (y.out) (y.extracted)) (store_private_data pkt x)
  unfolding store_private_data extracts
  store_private_data-Sound x n e h = ground arith

  store_ltw-Sound :
      (x : Extraction)
      → Sound adapend x
      → x.pos + 2 ≤ adapend
      → Safe (λ y. PrivateIn adapend (y.out) (y.extracted)) (store_ltw pkt x)
  unfolding store_ltw extracts
  store_ltw-Sound x s h = ground (arith, read-Safe (x.pos), read-Safe (x.pos + 1))

  store_piecewise_rate-Sound :
      (x : Extraction)
      → Sound adapend x
      → x.pos + 3 ≤ adapend
      → Safe (λ y. PrivateIn adapend (y.out) (y.extracted)) (store_piecewise_rate pkt x)
  unfolding store_piecewise_rate extracts
  store_piecewise_rate-Sound x s h =
      ground (arith, read-Safe (x.pos), read-Safe (x.pos + 1), read-Safe (x.pos + 2))

  store_seamless_splice-Sound :
      (x : Extraction)
      → Sound adapend x
      → x.pos + 5 ≤ adapend
      → Safe (λ y. PrivateIn adapend (y.out) (y.extracted)) (store_seamless_splice pkt x)
  unfolding store_seamless_splice extracts
  store_seamless_splice-Sound x s h = ground (
    arith,
    read-Safe (x.pos),
    read-Safe (x.pos + 1),
    read-Safe (x.pos + 2),
    read-Safe (x.pos + 3),
    read-Safe (x.pos + 4),
  )

  extract_private_data-Sound :
      (extract flags : ℕ) (x : Extraction)
      → Sound adapend x
      → Safe (Sound adapend) (extract_private_data pkt extract flags adapend x)
  unfolding extract_private_data
  extract_private_data-Sound extract flags x s =
      Safe-elim (Sound adapend) (bit flags flag_private_data) _ _
        (λ _. Safe-guard (Sound adapend) (leb (x.pos + 1) adapend) _ λ h.
          Safe-read (Sound adapend) (x.pos) _ (omega (arith, leb→le (x.pos + 1) adapend h)) λ n r.
            part-Sound true (1 + n) (bit extract value_private_data) (store_private_data pkt)
              adapend x s (store_private_data-Sound x n r))
        (λ _. s)

  extract_normal-Sound :
      (extract flags : ℕ) (x : Extraction)
      → Sound adapend x
      → Safe (Sound adapend) (extract_normal pkt extract flags adapend x)
  unfolding extract_normal
  extract_normal-Sound extract flags x s =
      Safe-bind (Sound adapend) (Sound adapend) _ _
        (part-Sound (bit flags flag_pcr) 6 (bit extract value_pcr) (store_pcr pkt) adapend x s
          (store_pcr-Sound x s))
        λ x1 s1.
          Safe-bind (Sound adapend) (Sound adapend) _ _
            (part-Sound (bit flags flag_opcr) 6 (bit extract value_opcr) (store_opcr pkt) adapend x1
              s1 (store_opcr-Sound x1 s1))
            λ x2 s2.
              Safe-bind (Sound adapend) (Sound adapend) _ _
                (part-Sound (bit flags flag_splicing_point) 1 (bit extract value_splice_countdown)
                  (store_splice_countdown pkt) adapend x2 s2 (store_splice_countdown-Sound x2 s2))
                λ x3 s3. extract_private_data-Sound extract flags x3 s3

  extract_extension_parts-Sound :
      (extract flags : ℕ) (x : Extraction)
      → Sound adapend x
      → Safe (Sound adapend) (extract_extension_parts pkt extract flags adapend x)
  unfolding extract_extension_parts
  extract_extension_parts-Sound extract flags x s =
      Safe-bind (Sound adapend) (Sound adapend) _ _
        (part-Sound (bit flags extension_flag_ltw) 2 (bit extract value_ltw) (store_ltw pkt) adapend
          x s (store_ltw-Sound x s))
        λ x1 s1.
          Safe-bind (Sound adapend) (Sound adapend) _ _
            (part-Sound (bit flags extension_flag_piecewise_rate) 3
              (bit extract value_piecewise_rate) (store_piecewise_rate pkt) adapend x1 s1
              (store_piecewise_rate-Sound x1 s1))
            λ x2 s2.
              part-Sound (bit flags extension_flag_seamless_splice) 5
                (bit extract value_piecewise_rate) (store_seamless_splice pkt) adapend x2 s2
                (store_seamless_splice-Sound x2 s2)

  extract_extension-Sound :
      (extract flags : ℕ) (x : Extraction)
      → Sound adapend x
      → Safe (Sound adapend) (extract_extension pkt extract flags adapend x)
  unfolding extract_extension
  extract_extension-Sound extract flags x s =
      Safe-elim (Sound adapend) (bit flags flag_extension) _ _
        (λ _. Safe-guard (Sound adapend) (ltb (x.pos) adapend) _ λ h.
          Safe-read (Sound adapend) (x.pos) _ (ltb→lt _ _ h) λ n r.
            Safe-guard (Sound adapend) (leb (x.pos + 1 + n) adapend) _ λ k.
              Safe-elim (Sound adapend) ((extract / 2 ^ 8 % 2 ^ 8 == 0) || (n == 0)) _ _
                (λ _. (omega (arith, ltb→lt (x.pos) adapend h), s.1))
                λ e.
                  let room : x.pos + 2 ≤ adapend = ground arith in
                  Safe-read (Sound adapend) (x.pos + 1) _ (omega arith) λ flags' _.
                    extract_extension_parts-Sound extract flags' (record x { pos = x.pos + 2 })
                      (room, s.1))
        (λ _. s)

-- What `extract_payload` promises: the payload starts behind the header and ends with the packet.
abbrev pub PayloadIn : TransportValues → Type 0
PayloadIn out = elim (out.payload) [
  | none ↦ out.payload_length ≡ 0
  | some off ↦ (4 ≤ off) × (off + out.payload_length ≡ 188)
]

abbrev pub InPacket : TransportValues × List ℕ → Type 0
InPacket r = PayloadIn (r.0) × PrivateIn 188 (r.0) (r.1)

extract_payload-Sound :
    (pkt : List ℕ) (adaplength flags : ℕ) (x : Extraction)
    → 4 ≤ length pkt
    → 5 + adaplength ≤ 188
    → PrivateIn 188 (x.out) (x.extracted)
    → Safe InPacket (extract_payload pkt adaplength flags x)
unfolding extract_payload has_payload has_adaptation
extract_payload-Sound pkt adaplength flags x h a s = ground (arith, read-get_or pkt 3)

PrivateIn-le :
    (a b : ℕ) (out : TransportValues) (extracted : List ℕ)
    → a ≤ b
    → PrivateIn a out extracted
    → PrivateIn b out extracted
PrivateIn-le a b out extracted h p e = omega (arith, p e)

extract_adaptation-Sound :
    (pkt : List ℕ) (out : TransportValues) (extract adaplength : ℕ)
    → 188 ≤ length pkt
    → adaplength ≢ 0
    → Safe InPacket (extract_adaptation pkt out extract adaplength)
unfolding extract_adaptation extracts
extract_adaptation-Sound pkt out extract adaplength h ne =
    Safe-guard InPacket (leb (5 + adaplength) 188) _ λ l.
      let a : 5 + adaplength ≤ 188 = leb→le (5 + adaplength) 188 l in
      let inside : 5 + adaplength ≤ length pkt = omega arith in
      let room : 6 ≤ 5 + adaplength = omega arith in
      Safe-read pkt (5 + adaplength) inside InPacket 5 _ (omega arith) λ flags _.
        Safe-elim InPacket (extract % 2 ^ 16 == 0) _ _
          (λ _.
            extract_payload-Sound pkt adaplength flags _ (omega arith) a λ e. absurd (false≢true e))
          λ _.
            let start : Extraction = record { pos = 6; out = out; extracted = [] } in
            Safe-bind (Sound (5 + adaplength)) InPacket _ _
              (extract_normal-Sound pkt (5 + adaplength) inside extract flags start
                (room, λ e. absurd (false≢true e)))
              λ x1 s1.
                Safe-bind (Sound (5 + adaplength)) InPacket _ _
                  (extract_extension-Sound pkt (5 + adaplength) inside extract flags x1 s1)
                  λ x2 s2.
                    extract_payload-Sound pkt adaplength flags x2 (omega arith) a
                      (PrivateIn-le (5 + adaplength) 188 (x2.out) (x2.extracted) a (s2.1))

-- On any 188 bytes, `transport_packet_values_extract` reads inside the packet only. If it succeeds,
-- the payload is absent with a length of 0 or starts behind the four header bytes and ends exactly
-- with the packet, and private data that it extracts ends by the end of the packet.
pub transport_packet_values_extract-Safe :
    (pkt : List ℕ) (out : TransportValues) (extract : ℕ)
    → 188 ≤ length pkt
    → Safe InPacket (transport_packet_values_extract pkt out extract)
unfolding transport_packet_values_extract has_adaptation extracts
transport_packet_values_extract-Safe pkt out extract h =
    Safe-bind (λ _. Unit) InPacket (has_adaptation pkt) _ (ground (arith, read-get_or pkt 3))
      λ adaptation _.
        Safe-elim InPacket adaptation _ _
          (λ _. Safe-read pkt 188 h InPacket 4 _ (omega arith) λ adaplength _.
            Safe-elim InPacket (adaplength == 0) _ _
              (λ _.
                extract_payload-Sound pkt 0 0 _ (omega arith) (omega arith)
                  λ e. absurd (false≢true e))
              λ e. extract_adaptation-Sound pkt out extract adaplength h (ground arith))
          (λ _.
            extract_payload-Sound pkt 0 0 _ (omega arith) (omega arith) λ e. absurd (false≢true e))
