-- ===== src/Ucsi/TransportPacket/Fields.antt =====
-- An adaptation field as the standard lays it out, and its values read back from the packet.
use dvb_apps.Common.{
  read-drop, drop-behind, ℕ, ◌+◌, ◌*◌, ◌≤◌, ◌≡◌, refl, ap, ◌∙◌, ◌⊎◌, inl, inr, Bool, true, false,
  Option, none, some, List, [], ◌∷◌, ◌++◌, arith, bit, length, drop, ok,
}
use dvb_apps.Ucsi.TransportPacket.{
  Extraction, part, store_pcr, store_opcr, store_splice_countdown, store_private_data,
  extract_private_data, extract_normal, value_pcr, value_opcr, value_splice_countdown,
  value_private_data,
}
use dvb_apps.Ucsi.TransportPacket.Clock.{Clock, IsClock, clock_bytes, clock_at-clock_bytes}

-- The parts of an adaptation field before its extension; `upper` is the discontinuity, random access
-- and priority bits.
pub record AdaptationField : Type 0 where
  pub upper : ℕ
  pub pcr : Option Clock
  pub opcr : Option Clock
  pub splice_countdown : Option ℕ
  pub private_data : Option (List ℕ)
  pub stuffing : List ℕ

abbrev pub is_some {ℓ} : {A : Type ℓ} → Option A → Bool
is_some none = false
is_some (some a) = true

abbrev pub weight : Bool → ℕ → ℕ
weight true n = n
weight false n = 0

abbrev pub flags_byte : ℕ → Bool → Bool → Bool → Bool → ℕ
flags_byte upper p o s d = upper * 32 + weight p 16 + weight o 8 + weight s 4 + weight d 2

abbrev pub clock_part : Option Clock → List ℕ
clock_part none = []
clock_part (some c) = clock_bytes c

abbrev pub splice_part : Option ℕ → List ℕ
splice_part none = []
splice_part (some n) = n ∷ []

abbrev pub private_part : Option (List ℕ) → List ℕ
private_part none = []
private_part (some ds) = length ds ∷ ds

abbrev pub IsClock? : Option Clock → Type 0
IsClock? none = Unit
IsClock? (some c) = IsClock c

weight-cases : (b : Bool) (n : ℕ) → (weight b n ≡ 0) ⊎ (weight b n ≡ n)
weight-cases true n = inr refl
weight-cases false n = inl refl

flag_pcr_lem : (u : ℕ) (p o s d : Bool) → bit (flags_byte u p o s d) 4 ≡ p
flag_pcr_lem u true o s d = ground (arith, weight-cases o 8, weight-cases s 4, weight-cases d 2)
flag_pcr_lem u false o s d = ground (arith, weight-cases o 8, weight-cases s 4, weight-cases d 2)

flag_opcr_lem : (u : ℕ) (p o s d : Bool) → bit (flags_byte u p o s d) 3 ≡ o
flag_opcr_lem u p true s d = ground (arith, weight-cases p 16, weight-cases s 4, weight-cases d 2)
flag_opcr_lem u p false s d = ground (arith, weight-cases p 16, weight-cases s 4, weight-cases d 2)

flag_splice_lem : (u : ℕ) (p o s d : Bool) → bit (flags_byte u p o s d) 2 ≡ s
flag_splice_lem u p o true d = ground (arith, weight-cases p 16, weight-cases o 8, weight-cases d 2)
flag_splice_lem u p o false d =
    ground (arith, weight-cases p 16, weight-cases o 8, weight-cases d 2)

flag_private_lem : (u : ℕ) (p o s d : Bool) → bit (flags_byte u p o s d) 1 ≡ d
flag_private_lem u p o s true =
    ground (arith, weight-cases p 16, weight-cases o 8, weight-cases s 4)
flag_private_lem u p o s false =
    ground (arith, weight-cases p 16, weight-cases o 8, weight-cases s 4)

pub flag_extension_lem : (u : ℕ) (p o s d : Bool) → bit (flags_byte u p o s d) 0 ≡ false
flag_extension_lem u p o s d =
    ground (arith, weight-cases p 16, weight-cases o 8, weight-cases s 4, weight-cases d 2)

-- What each part leaves in the extraction.
abbrev pub with_pcr : Option Clock → Extraction → Extraction
with_pcr none x = x
with_pcr (some c) x = record {
  pos = x.pos + 6;
  out = record (x.out) { pcr = c.base * 300 + c.ext };
  extracted = value_pcr ∷ x.extracted;
}

abbrev pub with_opcr : Option Clock → Extraction → Extraction
with_opcr none x = x
with_opcr (some c) x = record {
  pos = x.pos + 6;
  out = record (x.out) { opcr = c.base * 300 + c.ext };
  extracted = value_opcr ∷ x.extracted;
}

abbrev pub with_splice : Option ℕ → Extraction → Extraction
with_splice none x = x
with_splice (some n) x = record {
  pos = x.pos + 1;
  out = record (x.out) { splice_countdown = n };
  extracted = value_splice_countdown ∷ x.extracted;
}

abbrev pub with_private : Option (List ℕ) → Extraction → Extraction
with_private none x = x
with_private (some ds) x = record {
  pos = x.pos + (1 + length ds);
  out = record (x.out) { private_data_length = length ds; private_data = x.pos + 1 };
  extracted = value_private_data ∷ x.extracted;
}

module _ (pkt : List ℕ) (adapend : ℕ) (x : Extraction) (rest : List ℕ) where
  pcr_read :
      (o : Option Clock)
      → IsClock? o
      → drop (x.pos) pkt ≡ clock_part o ++ rest
      → x.pos + length (clock_part o) ≤ adapend
      → part (is_some o) 6 true (store_pcr pkt) adapend x ≡ ok (with_pcr o x)
  unfolding part store_pcr
  pcr_read none v h r = refl
  pcr_read (some c) v h r = ground (arith, clock_at-clock_bytes pkt (x.pos) c rest v h)

  opcr_read :
      (o : Option Clock)
      → IsClock? o
      → drop (x.pos) pkt ≡ clock_part o ++ rest
      → x.pos + length (clock_part o) ≤ adapend
      → part (is_some o) 6 true (store_opcr pkt) adapend x ≡ ok (with_opcr o x)
  unfolding part store_opcr
  opcr_read none v h r = refl
  opcr_read (some c) v h r = ground (arith, clock_at-clock_bytes pkt (x.pos) c rest v h)

  splice_read :
      (o : Option ℕ)
      → drop (x.pos) pkt ≡ splice_part o ++ rest
      → x.pos + length (splice_part o) ≤ adapend
      → part (is_some o) 1 true (store_splice_countdown pkt) adapend x ≡ ok (with_splice o x)
  unfolding part store_splice_countdown
  splice_read none h r = refl
  splice_read (some n) h r = ground (arith, read-drop pkt (x.pos) n rest h)

  private_read :
      (flags : ℕ) (o : Option (List ℕ))
      → bit flags 1 ≡ is_some o
      → drop (x.pos) pkt ≡ private_part o ++ rest
      → x.pos + length (private_part o) ≤ adapend
      → extract_private_data pkt 15 flags adapend x ≡ ok (with_private o x)
  unfolding extract_private_data part store_private_data
  private_read flags none f h r = ground arith
  private_read flags (some ds) f h r =
      ground (arith, read-drop pkt (x.pos) (length ds) (ds ++ rest) h)

-- The field behind its length byte.
abbrev pub field_flags : AdaptationField → ℕ
field_flags f =
    flags_byte (f.upper) (is_some (f.pcr)) (is_some (f.opcr)) (is_some (f.splice_countdown))
      (is_some (f.private_data))

abbrev pub field_parts : AdaptationField → List ℕ → List ℕ
field_parts f payload =
    clock_part (f.pcr)
    ++ (clock_part (f.opcr)
        ++ (splice_part (f.splice_countdown)
            ++ (private_part (f.private_data) ++ (f.stuffing ++ payload))))

abbrev pub parts_length : AdaptationField → ℕ
parts_length f =
    length (clock_part (f.pcr))
    + length (clock_part (f.opcr))
    + length (splice_part (f.splice_countdown))
    + length (private_part (f.private_data))

-- What is known after the parts of the field are read, from the state `x`.
abbrev pub read_back : AdaptationField → Extraction → Extraction
read_back f x =
    with_private (f.private_data)
      (with_splice (f.splice_countdown) (with_opcr (f.opcr) (with_pcr (f.pcr) x)))

pos-with_pcr :
    (o : Option Clock) (x : Extraction) → (with_pcr o x).pos ≡ x.pos + length (clock_part o)
pos-with_pcr none x = omega arith
pos-with_pcr (some c) x = omega arith

pos-with_opcr :
    (o : Option Clock) (x : Extraction) → (with_opcr o x).pos ≡ x.pos + length (clock_part o)
pos-with_opcr none x = omega arith
pos-with_opcr (some c) x = omega arith

pos-with_splice :
    (o : Option ℕ) (x : Extraction) → (with_splice o x).pos ≡ x.pos + length (splice_part o)
pos-with_splice none x = omega arith
pos-with_splice (some c) x = omega arith

-- The cursor behind one part.
behind :
    (pkt : List ℕ) (p q : ℕ) (bs rest : List ℕ)
    → q ≡ p + length bs
    → drop p pkt ≡ bs ++ rest
    → drop q pkt ≡ rest
behind pkt p q bs rest e h = ap (λ k. drop k pkt) e ∙ drop-behind pkt p bs rest h

abbrev pub IsField : AdaptationField → Type 0
IsField f = IsClock? (f.pcr) × IsClock? (f.opcr)

pub extract_normal-read_back :
    (pkt : List ℕ) (adapend : ℕ) (x : Extraction) (f : AdaptationField) (payload : List ℕ)
    → IsField f
    → drop (x.pos) pkt ≡ field_parts f payload
    → x.pos + parts_length f ≤ adapend
    → extract_normal pkt 15 (field_flags f) adapend x ≡ ok (read_back f x)
unfolding extract_normal
extract_normal-read_back pkt adapend x f payload v h r =
    let x1 = with_pcr (f.pcr) x in
    let x2 = with_opcr (f.opcr) x1 in
    let x3 = with_splice (f.splice_countdown) x2 in
    let e1 = pos-with_pcr (f.pcr) x in
    let e2 = pos-with_opcr (f.opcr) x1 in
    let e3 = pos-with_splice (f.splice_countdown) x2 in
    let h1 = behind pkt (x.pos) (x1.pos) (clock_part (f.pcr)) _ e1 h in
    let h2 = behind pkt (x1.pos) (x2.pos) (clock_part (f.opcr)) _ e2 h1 in
    let h3 = behind pkt (x2.pos) (x3.pos) (splice_part (f.splice_countdown)) _ e3 h2 in
    let p = is_some (f.pcr) in
    let o = is_some (f.opcr) in
    let s = is_some (f.splice_countdown) in
    let d = is_some (f.private_data) in
    ground (
      arith,
      flag_pcr_lem (f.upper) p o s d,
      flag_opcr_lem (f.upper) p o s d,
      flag_splice_lem (f.upper) p o s d,
      pcr_read pkt adapend x _ (f.pcr) (v.0) h (omega arith),
      opcr_read pkt adapend x1 _ (f.opcr) (v.1) h1 (omega arith),
      splice_read pkt adapend x2 _ (f.splice_countdown) h2 (omega arith),
      private_read pkt adapend x3 _ (field_flags f) (f.private_data)
          (flag_private_lem (f.upper) p o s d) h3 (omega arith),
    )
