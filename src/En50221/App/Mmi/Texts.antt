-- ===== src/En50221/App/Mmi/Texts.antt =====
-- Texts laid out and read back.
use dvb_apps.Common.{
  ℕ, zero, suc, ◌+◌, ◌-◌, ◌*◌, ◌^◌, ◌≤◌, ◌<◌, ◌≡◌, refl, sym, ap, ◌∙◌, Option, none, some, List, [],
  ◌∷◌, ◌++◌, append_assoc, arith, ◌==◌, if◌then◌else◌, length, drop, All, length-append,
  take-length_append, drop-length_append, drop-drop, Result, ok, fail, ◌>>=◌,
}
use dvb_apps.En50221.App.Mmi.Text.{
  tag_text_last, tag_text_more, append_text, next_piece, last_piece, piece_header, defragment_text,
}
use mathlib.Core.List.{flatten}
use dvb_apps.En50221.Transport.Frame.{length_field, length_field_lem}
use dvb_apps.En50221.Session.Apdus.{apdu_bytes}
use dvb_apps.En50221.App.Fields.{read_tag_lem}

-- A text: the pieces that are followed by more, and the last.
abbrev pub Text : Type 0
Text = List (List ℕ) × List ℕ

abbrev pub whole : Text → List ℕ
whole (more, last) = flatten more ++ last

abbrev pub more_bytes : List (List ℕ) → List ℕ → List ℕ
more_bytes [] rest = rest
more_bytes (p ∷ ps) rest = apdu_bytes (0x9f, 0x88, 0x04) p ++ more_bytes ps rest

-- The text in front of a rest.
abbrev pub text_bytes : Text → List ℕ → List ℕ
text_bytes (more, last) rest = more_bytes more (apdu_bytes (0x9f, 0x88, 0x03) last ++ rest)

-- A piece that is followed by more is not empty.
abbrev pub IsText : Text → Type 0
IsText (more, last) =
    All (λ p. (1 ≤ length p) × (length p < 2 ^ 16)) more
    × (length last < 2 ^ 16)
    × (length (flatten more ++ last) < 2 ^ 32)

piece_header_lem :
    (a b c : ℕ) (body rest : List ℕ)
    → length body < 2 ^ 16
    → piece_header (apdu_bytes (a, b, c) body ++ rest)
      ≡ ok (a * 2 ^ 16 + b * 2 ^ 8 + c, length body, body ++ rest)
unfolding piece_header
piece_header_lem a b c body rest h =
    let field = length_field (length body) in
    let tail = body ++ rest in
    let bytes = a ∷ b ∷ c ∷ (field ++ tail) in
    let l = length-append field tail in
    let assoc : apdu_bytes (a, b, c) body ++ rest ≡ bytes =
      ap (λ r. a ∷ b ∷ c ∷ r) (append_assoc field body rest) in
    let e = length_field_lem (length body) (length bytes - 3) tail h (omega (arith, l)) in
    let d : drop (3 + length field) bytes ≡ tail =
      sym (drop-drop bytes 3 (length field)) ∙ drop-length_append field tail in
    ap piece_header assoc ∙ ground (arith, e, d, read_tag_lem a b c (field ++ tail))

next_piece_lem :
    (text : Option (List ℕ)) (body rest new : List ℕ)
    → append_text text body ≡ ok new
    → next_piece text (length body) (body ++ rest) ≡ ok (new, rest)
unfolding next_piece
next_piece_lem text body rest new e =
    ground (
      arith,
      e,
      take-length_append body rest,
      drop-length_append body rest,
      length-append body rest,
    )

last_piece_lem :
    (body rest : List ℕ) → last_piece none (length body) (body ++ rest) ≡ ok (some body, some rest)
unfolding last_piece
last_piece_lem body rest =
    ground
      (arith, take-length_append body rest, drop-length_append body rest, length-append body rest)

append_text_lem :
    (old body : List ℕ)
    → 1 ≤ length old
    → length (old ++ body) < 2 ^ 32
    → append_text (some old) body ≡ ok (old ++ body)
unfolding append_text
append_text_lem old body l h = ground (arith, length-append old body)

append_text_first : (body : List ℕ) → append_text none body ≡ ok body
unfolding append_text
append_text_first body = refl

abbrev text_step : ℕ → Option (List ℕ) → ℕ × ℕ × List ℕ → Result (Option (List ℕ) × Option (List ℕ))
text_step fuel text (tag, n, behind) =
    if tag == tag_text_last
    then last_piece text n behind
    else if tag == tag_text_more
    then (next_piece text n behind >>= λ r. defragment_text fuel (some (r.0)) (r.1))
    else fail

-- The pieces behind a first one.
behind_lem :
    (fuel : ℕ) (old : List ℕ) (more : List (List ℕ)) (last rest : List ℕ)
    → length more < fuel
    → 1 ≤ length old
    → All (λ p. (1 ≤ length p) × (length p < 2 ^ 16)) more
    → length last < 2 ^ 16
    → length (old ++ (flatten more ++ last)) < 2 ^ 32
    → defragment_text fuel (some old) (text_bytes (more, last) rest)
      ≡ ok (some (old ++ (flatten more ++ last)), some rest)
unfolding defragment_text last_piece mathlib.Core.List.flatten
behind_lem zero old more last rest f l a b h = absurd (omega arith)
behind_lem (suc fuel) old [] last rest f l a b h =
    let e = next_piece_lem (some old) last rest (old ++ last) (append_text_lem old last l h) in
    ground (arith, e, piece_header_lem 0x9f 0x88 0x03 last rest b)
behind_lem (suc fuel) old (p ∷ ps) last rest f l a b h =
    let new = old ++ p in
    let tail = text_bytes (ps, last) rest in
    let assoc : old ++ (flatten (p ∷ ps) ++ last) ≡ new ++ (flatten ps ++ last) =
      ap (λ r. old ++ r) (append_assoc p (flatten ps) last)
      ∙ sym (append_assoc old p (flatten ps ++ last)) in
    let size = ap length assoc in
    let part = length-append new (flatten ps ++ last) in
    let long = length-append old p in
    let e = next_piece_lem (some old) p tail new (append_text_lem old p l (omega arith)) in
    let front = piece_header_lem 0x9f 0x88 0x04 p tail (a.0.1) in
    let ih = behind_lem fuel new ps last rest (omega arith) (omega arith) (a.1) b (omega arith) in
    ap (λ r. r >>= text_step fuel (some old)) front
    ∙ ap (λ r. r >>= λ r. defragment_text fuel (some (r.0)) (r.1)) e
    ∙ ih
    ∙ ap (λ t. ok (some t, some rest)) (sym assoc)

pub defragment_text_lem :
    (fuel : ℕ) (t : Text) (rest : List ℕ)
    → length (t.0) < fuel
    → IsText t
    → defragment_text fuel none (text_bytes t rest) ≡ ok (some (whole t), some rest)
unfolding defragment_text mathlib.Core.List.flatten
defragment_text_lem zero t rest f h = absurd (omega arith)
defragment_text_lem (suc fuel) ([], last) rest f h =
    ground (arith, piece_header_lem 0x9f 0x88 0x03 last rest (h.1), last_piece_lem last rest)
defragment_text_lem (suc fuel) (p ∷ ps, last) rest f h =
    let tail = text_bytes (ps, last) rest in
    let assoc = append_assoc p (flatten ps) last in
    let size = ap length assoc in
    let front = piece_header_lem 0x9f 0x88 0x04 p tail (h.0.0.1) in
    ap (λ r. r >>= text_step fuel none) front
    ∙ ap (λ r. r >>= λ r. defragment_text fuel (some (r.0)) (r.1))
        (next_piece_lem none p tail p (append_text_first p))
    ∙ behind_lem fuel p ps last rest (omega arith) (h.0.0.0) (h.0.1) (h.1) (omega arith)
    ∙ ap (λ t. ok (some t, some rest)) (sym assoc)
