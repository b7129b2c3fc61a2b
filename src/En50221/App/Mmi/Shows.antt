-- ===== src/En50221/App/Mmi/Shows.antt =====
-- Menus and lists laid out and read back.
use dvb_apps.Common.{
  ℕ, suc, ◌≤◌, ◌<◌, ◌≡◌, refl, ap, ◌∙◌, ◌⊎◌, some, List, [], ◌∷◌, ◌++◌, map, arith, ◌==◌,
  if◌then◌else◌, length, All, length-append, ok, ◌>>=◌,
}
use dvb_apps.En50221.App.Mmi.{Shown}
use dvb_apps.En50221.App.Mmi.Text.{extract_texts, text_count, all_there, shown, parse_shown}
use dvb_apps.En50221.App.Mmi.Texts.{
  Text, whole, text_bytes, more_bytes, IsText, defragment_text_lem,
}
use dvb_apps.En50221.Transport.Frame.{length_field}
use dvb_apps.En50221.Session.Apdus.{apdu_bytes}

-- The texts in front of a rest.
abbrev pub texts_bytes : List Text → List ℕ → List ℕ
texts_bytes [] rest = rest
texts_bytes (t ∷ ts) rest = text_bytes t (texts_bytes ts rest)

length-more_bytes :
    (more : List (List ℕ)) (rest : List ℕ) → length more ≤ length (more_bytes more rest)
length-more_bytes [] rest = omega arith
length-more_bytes (p ∷ ps) rest =
    let field = length_field (length p) in
    let tail = more_bytes ps rest in
    omega (arith, length-more_bytes ps rest, length-append (field ++ p) tail)

extract_texts_lem :
    (ts : List Text) (rest : List ℕ)
    → All IsText ts
    → extract_texts (length ts) (some (texts_bytes ts rest))
      ≡ ok (map (λ t. some (whole t)) ts, some rest)
unfolding extract_texts
extract_texts_lem [] rest a = refl
extract_texts_lem (t ∷ ts) rest a =
    let tail = texts_bytes ts rest in
    let e =
      defragment_text_lem (suc (length (text_bytes t tail))) t tail
        (omega (arith, length-more_bytes (t.0) (apdu_bytes (0x9f, 0x88, 0x03) (t.1) ++ tail)))
        (a.0) in
    ap (λ r. r >>= λ t. extract_texts (length ts) (t.1) >>= λ r. ok (t.0 ∷ r.0, r.1)) e
    ∙ ap (λ r. r >>= λ r. ok (some (whole t) ∷ r.0, r.1)) (extract_texts_lem ts rest (a.1))

all_there_lem : (ts : List Text) → all_there (map (λ t. some (whole t)) ts) ≡ some (map whole ts)
unfolding all_there
all_there_lem [] = refl
all_there_lem (t ∷ ts) = ground (arith, all_there_lem ts)

-- What a menu or list says of its items: their number, or that they are raw.
abbrev pub IsCount : ℕ → List Text → Type 0
IsCount choice_nb items =
    ((choice_nb ≡ length items) × (choice_nb < 0xfd)) ⊎ ((choice_nb ≡ 0xff) × (items ≡ []))

-- A menu or list of a title, a subtitle, a bottom and items, with a rest behind them.
abbrev pub shown_bytes : ℕ → Text → Text → Text → List Text → List ℕ → List ℕ
shown_bytes choice_nb t s b items rest = choice_nb ∷ texts_bytes (t ∷ s ∷ b ∷ items) rest

abbrev pub shown_of : ℕ → Text → Text → Text → List Text → List ℕ → Shown
shown_of choice_nb t s b items rest = record {
  title = whole t;
  subtitle = whole s;
  bottom = whole b;
  items = map whole items;
  items_raw = if choice_nb == 0xff then rest else [];
}

count_lem :
    (choice_nb : ℕ) (t s b : Text) (items : List Text)
    → IsCount choice_nb items
    → text_count choice_nb ≡ length (t ∷ s ∷ b ∷ items)
count_lem choice_nb t s b items c = ground arith

-- The texts of a menu or list, each laid out in any number of pieces, none empty but the last, and
-- shorter than 2 ^ 32 bytes, are read back whole, up to 252 items; where the count is 255, there are
-- no items and the rest is handed on.
pub parse_shown-text_bytes :
    (choice_nb : ℕ) (t s b : Text) (items : List Text) (rest : List ℕ)
    → IsCount choice_nb items
    → All IsText (t ∷ s ∷ b ∷ items)
    → parse_shown (shown_bytes choice_nb t s b items rest)
      ≡ ok (some (shown_of choice_nb t s b items rest))
unfolding parse_shown shown
parse_shown-text_bytes choice_nb t s b items rest c a =
    let ts = t ∷ s ∷ b ∷ items in
    let n = count_lem choice_nb t s b items c in
    let e =
      ap (λ k. extract_texts k (some (texts_bytes ts rest))) n ∙ extract_texts_lem ts rest a in
    ground (arith, e, all_there_lem ts)
