-- ===== src/En50221/App/Mmi/Text.antt =====
-- en50221_app_mmi_defragment_text, and the messages that show a menu, a list or a subtitle.
use dvb_apps.Common.{
  ℕ, zero, suc, ◌+◌, ◌-◌, ◌%◌, ◌^◌, Bool, true, false, ◌||◌, Option, none, some, List, [], ◌∷◌,
  ◌++◌, leb, ◌==◌, if◌then◌else◌, length, take, drop, Result, ok, fail, fault, ◌>>=◌, ◌>>◌, guard,
  read,
}
use dvb_apps.En50221.Asn1.{asn_1_decode}
use dvb_apps.En50221.App.{read_tag, read_body, slice}
use dvb_apps.En50221.App.Mmi.{
  MmiSession, Mmi, Shown, Call, Reply, refused, nothing, calls, told, menu_call, list_call,
  subtitle_segment_call, subtitle_download_call,
}
use dvb_apps.En50221.App.Mmi.Fragments.{
  tag_menu_last, tag_list_last, tag_subtitle_segment_last, tag_subtitle_download_last, Defragmented,
  short, incomplete, complete, defragment,
}

abbrev pub tag_text_last : ℕ
tag_text_last = 0x9f8803

abbrev pub tag_text_more : ℕ
tag_text_more = 0x9f8804

-- `realloc(text, text_length + asn_data_length)` and the copy. realloc to no bytes frees the text and
-- returns NULL, and the text is freed once more.
unfoldable pub append_text : Option (List ℕ) → List ℕ → Result (List ℕ)
append_text none piece = ok piece
append_text (some old) piece =
    let n = length old + length piece in
    if (n == 0) || leb (2 ^ 32) n then fault else ok (old ++ piece)

-- The tag of a piece of text, its length, and what is behind those. The length is not checked.
unfoldable pub piece_header : List ℕ → Result (ℕ × ℕ × List ℕ)
piece_header bytes = do
  tag ← read_tag bytes
  r ← asn_1_decode (drop 3 bytes) (length bytes - 3)
  ok (tag, r.0, drop (3 + r.1) bytes)

-- A piece of a text, and the data behind it.
unfoldable pub next_piece : Option (List ℕ) → ℕ → List ℕ → Result (List ℕ × List ℕ)
next_piece text n behind = do
  piece ← slice behind 0 n
  new ← append_text text piece
  ok (new, drop n behind)

-- The last piece. Where it is the only one, it is not read: memory that is not there is `none`.
unfoldable pub last_piece :
    Option (List ℕ) → ℕ → List ℕ → Result (Option (List ℕ) × Option (List ℕ))
last_piece none n behind =
    if leb n (length behind)
    then ok (some (take n behind), some (drop n behind))
    else ok (none, none)
last_piece (some old) n behind = next_piece (some old) n behind >>= λ r. ok (some (r.0), some (r.1))

-- The text at the front of the data, and the data behind it.
unfoldable pub defragment_text :
    ℕ → Option (List ℕ) → List ℕ → Result (Option (List ℕ) × Option (List ℕ))
defragment_text zero text bytes = fault
defragment_text (suc fuel) text bytes = piece_header bytes >>= λ (tag, n, behind).
    if tag == tag_text_last
    then last_piece text n behind
    else if tag == tag_text_more
    then (next_piece text n behind >>= λ r. defragment_text fuel (some (r.0)) (r.1))
    else fail

-- The loop over the texts of a menu. Behind a text that is not all there, the length has wrapped, and
-- the next tag is read outside the memory.
unfoldable pub extract_texts :
    ℕ → Option (List ℕ) → Result (List (Option (List ℕ)) × Option (List ℕ))
extract_texts zero bytes? = ok ([], bytes?)
extract_texts (suc n) none = fault
extract_texts (suc n) (some bytes) = do
  t ← defragment_text (suc (length bytes)) none bytes
  r ← extract_texts n (t.1)
  ok (t.0 ∷ r.0, r.1)

-- `uint8_t text_count`.
abbrev pub text_count : ℕ → ℕ
text_count choice_nb = if choice_nb == 0xff then 3 else (choice_nb + 3) % 2 ^ 8

unfoldable pub all_there : List (Option (List ℕ)) → Option (List (List ℕ))
all_there [] = some []
all_there (none ∷ ts) = none
all_there (some t ∷ ts) = elim (all_there ts) [ none ↦ none | some r ↦ some (t ∷ r) ]

-- What is passed to the user: the first three texts, and the others. `none` is a pointer to memory
-- that is not there.
unfoldable pub shown : ℕ → List (List ℕ) → Option (List ℕ) → Option Shown
shown choice_nb (title ∷ subtitle ∷ bottom ∷ items) rest? =
    elim (if choice_nb == 0xff then rest? else some []) [
      | none ↦ none
      | some raw ↦ some (record {
        title = title;
        subtitle = subtitle;
        bottom = bottom;
        items = items;
        items_raw = raw;
      })
    ]
shown choice_nb _ rest? = none

-- A menu or list that is complete.
unfoldable pub parse_shown : List ℕ → Result (Option Shown)
parse_shown bytes = do
  guard (leb 1 (length bytes))
  choice_nb ← read bytes 0
  r ← extract_texts (text_count choice_nb) (some (drop 1 bytes))
  ok (elim (all_there (r.0)) [ none ↦ none | some ts ↦ shown choice_nb ts (r.1) ])

abbrev pub with_sessions : List MmiSession → Mmi → Mmi
with_sessions ss mmi = record mmi { sessions = ss }

-- The user reads what it is shown.
abbrev pub shown_to : Bool → (Shown → Call) → Option Shown → Result Reply
shown_to false call s? = ok nothing
shown_to true call none = fault
shown_to true call (some s) = ok (calls (call s))

-- The callback of a menu or list, by the tag.
unfoldable pub show_call : Mmi → ℕ → ℕ → ℕ → Option Shown → Result Reply
show_call mmi slot n tag s? =
    if tag == tag_menu_last
    then shown_to (mmi.callbacks.menu) (menu_call slot n) s?
    else if tag == tag_list_last
    then shown_to (mmi.callbacks.list) (list_call slot n) s?
    else ok nothing

unfoldable pub subtitle_call : Mmi → ℕ → ℕ → ℕ → List ℕ → Reply
subtitle_call mmi slot n tag bytes =
    if tag == tag_subtitle_segment_last
    then told (mmi.callbacks.subtitle_segment) (subtitle_segment_call slot n bytes)
    else if tag == tag_subtitle_download_last
    then told (mmi.callbacks.subtitle_download) (subtitle_download_call slot n bytes)
    else nothing

-- What is done with the result of the defragmentation.
abbrev pub handed_on :
    (List ℕ → Result Reply) → Defragmented × List MmiSession → Mmi → Result (Reply × Mmi)
handed_on use' (short, ss) mmi = ok (refused, with_sessions ss mmi)
handed_on use' (incomplete, ss) mmi = ok (nothing, with_sessions ss mmi)
handed_on use' (complete bytes, ss) mmi = elim (use' bytes) [
  | ok reply ↦ ok (reply, with_sessions ss mmi)
  | fail ↦ ok (refused, with_sessions ss mmi)
  | fault ↦ fault
]

-- The fragment in a message, taken in; a message without a length field of its own is refused.
abbrev pub fragment : (List ℕ → Result Reply) → Mmi → ℕ → ℕ → Bool → List ℕ → Result (Reply × Mmi)
fragment use' mmi n tag last bytes = elim (read_body bytes) [
  | fail ↦ ok (refused, mmi)
  | fault ↦ fault
  | ok body ↦ (defragment n tag last body (mmi.sessions) >>= λ r. handed_on use' r mmi)
]

unfoldable pub parse_list_menu : Mmi → ℕ → ℕ → ℕ → Bool → List ℕ → Result (Reply × Mmi)
parse_list_menu mmi slot n tag last bytes =
    fragment (λ b. parse_shown b >>= show_call mmi slot n tag) mmi n tag last bytes

unfoldable pub parse_subtitle : Mmi → ℕ → ℕ → ℕ → Bool → List ℕ → Result (Reply × Mmi)
parse_subtitle mmi slot n tag last bytes =
    fragment (λ b. ok (subtitle_call mmi slot n tag b)) mmi n tag last bytes
