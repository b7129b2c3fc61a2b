-- ===== src/En50221/App/Mmi/Overruns.antt =====
-- Dialogues that leave the memory they were given.
use dvb_apps.Common.{
  ℕ, zero, suc, ◌+◌, ◌-◌, ◌^◌, ◌≤◌, ◌<◌, ◌≡◌, sym, ap, ◌∙◌, Bool, true, false, none, some, List,
  ◌∷◌, ◌++◌, arith, length, drop, length-append, drop-length_append, drop-drop, ok, fail, fault,
  ◌>>=◌,
}
use dvb_apps.En50221.App.Mmi.{Mmi, refused, find}
use dvb_apps.En50221.App.Mmi.Fragments.{chain_of, short, complete, add_last, defragment}
use dvb_apps.En50221.App.Mmi.Text.{
  tag_text_more, next_piece, piece_header, defragment_text, extract_texts, text_count, all_there,
  shown, parse_shown, with_sessions, show_call, handed_on,
}
use dvb_apps.En50221.App.Mmi.Pending.{tag_for}
use dvb_apps.En50221.Transport.Frame.{length_field, length_field_lem}
use dvb_apps.En50221.Session.Apdus.{apdu_bytes}
use dvb_apps.En50221.App.Fields.{read_tag_lem}
use dvb_apps.En50221.App.Mmi.Message.{message}
use dvb_apps.En50221.App.Mmi.Dialogue.{
  shown_chain, shown_tag, show_registered, use_shown, message_lem,
}

-- A piece that says to be longer than the data behind it.
piece_header_cut :
    (k : ℕ) (p : List ℕ)
    → k < 2 ^ 16
    → piece_header (0x9f ∷ 0x88 ∷ 0x04 ∷ (length_field k ++ p)) ≡ ok (tag_text_more, k, p)
unfolding piece_header
piece_header_cut k p h =
    let field = length_field k in
    let bytes = 0x9f ∷ 0x88 ∷ 0x04 ∷ (field ++ p) in
    let l = length-append field p in
    let e = length_field_lem k (length bytes - 3) p h (omega (arith, l)) in
    let d : drop (3 + length field) bytes ≡ p =
      sym (drop-drop bytes 3 (length field)) ∙ drop-length_append field p in
    ground (arith, e, d, read_tag_lem 0x9f 0x88 0x04 (field ++ p))

next_piece_cut : (k : ℕ) (p : List ℕ) → length p < k → next_piece none k p ≡ fault
unfolding next_piece
next_piece_cut k p h = ground arith

abbrev cut_text : ℕ → List ℕ → List ℕ
cut_text k p = 0x9f ∷ 0x88 ∷ 0x04 ∷ (length_field k ++ p)

defragment_text_cut :
    (fuel k : ℕ) (p : List ℕ)
    → k < 2 ^ 16
    → length p < k
    → defragment_text (suc fuel) none (cut_text k p) ≡ fault
unfolding defragment_text
defragment_text_cut fuel k p h l = ground (arith, piece_header_cut k p h, next_piece_cut k p l)

extract_texts_cut :
    (n k : ℕ) (p : List ℕ)
    → k < 2 ^ 16
    → length p < k
    → 1 ≤ n
    → extract_texts n (some (cut_text k p)) ≡ fault
unfolding extract_texts
extract_texts_cut zero k p h l c = absurd (omega arith)
extract_texts_cut (suc n) k p h l c =
    ap (λ r. r >>= λ t. extract_texts n (t.1) >>= λ r. ok (t.0 ∷ r.0, r.1))
      (defragment_text_cut (length (cut_text k p)) k p h l)

parse_shown_cut :
    (choice_nb k : ℕ) (p : List ℕ)
    → k < 2 ^ 16
    → length p < k
    → choice_nb < 0xfd
    → parse_shown (choice_nb ∷ cut_text k p) ≡ fault
unfolding parse_shown
parse_shown_cut choice_nb k p h l c =
    let e = extract_texts_cut (text_count choice_nb) k p h l (ground arith) in ground (arith, e)

-- Where nothing waits on a session, a last fragment is parsed as it is.
message_alone :
    (is_list : Bool) (mmi : Mmi) (slot n : ℕ) (body : List ℕ)
    → length body < 2 ^ 16
    → find n (mmi.sessions) ≡ none
    → message mmi slot n (apdu_bytes (shown_tag is_list true) body)
      ≡ handed_on
          (use_shown mmi slot n (tag_for (shown_chain is_list) true))
          (complete body, mmi.sessions)
          mmi
unfolding defragment
message_alone is_list mmi slot n body h e =
    message_lem is_list true mmi slot n body h
    ∙ ap
        (λ f.
          (elim f [
            | none ↦ ok (complete body, mmi.sessions)
            | some s ↦ elim (chain_of (tag_for (shown_chain is_list) true)) [
              | none ↦ ok (short, mmi.sessions)
              | some c ↦ add_last n c body (mmi.sessions)
            ]
          ])
          >>= λ r. handed_on (use_shown mmi slot n (tag_for (shown_chain is_list) true)) r mmi)
        e

alone_fault :
    (is_list : Bool) (mmi : Mmi) (slot n : ℕ) (body : List ℕ)
    → length body < 2 ^ 16
    → find n (mmi.sessions) ≡ none
    → use_shown mmi slot n (tag_for (shown_chain is_list) true) body ≡ fault
    → message mmi slot n (apdu_bytes (shown_tag is_list true) body) ≡ fault
alone_fault is_list mmi slot n body h e f =
    message_alone is_list mmi slot n body h e
    ∙ ap
        (λ r. elim r [
          | ok reply ↦ ok (reply, with_sessions (mmi.sessions) mmi)
          | fail ↦ ok (refused, with_sessions (mmi.sessions) mmi)
          | fault ↦ fault
        ])
        f

-- A menu or list of up to 252 items, in one message on a session that has sent no fragment, whose
-- first text starts with a piece that is to be continued and says to be longer than the message: the
-- data behind the message is read, registered callback or not.
pub message-cut :
    (is_list : Bool) (mmi : Mmi) (slot n choice_nb k : ℕ) (p : List ℕ)
    → find n (mmi.sessions) ≡ none
    → choice_nb < 0xfd
    → k < 2 ^ 16
    → length p < k
    → length (choice_nb ∷ cut_text k p) < 2 ^ 16
    → message mmi slot n (apdu_bytes (shown_tag is_list true) (choice_nb ∷ cut_text k p)) ≡ fault
message-cut is_list mmi slot n choice_nb k p e c h l b =
    alone_fault is_list mmi slot n (choice_nb ∷ cut_text k p) b e (
      ap (λ r. r >>= show_call mmi slot n (tag_for (shown_chain is_list) true))
        (parse_shown_cut choice_nb k p h l c))

parse_shown_no_texts : (rest : List ℕ) → parse_shown (0xfd ∷ rest) ≡ ok none
unfolding parse_shown extract_texts all_there shown
parse_shown_no_texts rest = ground arith

-- A menu or list of 253 items on a session that has sent no fragment, with the callback registered: the
-- callback is given texts that are outside the memory they should be in.
pub message_no_texts :
    (is_list : Bool) (mmi : Mmi) (slot n : ℕ) (rest : List ℕ)
    → find n (mmi.sessions) ≡ none
    → length (0xfd ∷ rest) < 2 ^ 16
    → show_registered is_list mmi ≡ true
    → message mmi slot n (apdu_bytes (shown_tag is_list true) (0xfd ∷ rest)) ≡ fault
unfolding show_call
message_no_texts is_list mmi slot n rest e b reg =
    alone_fault is_list mmi slot n (0xfd ∷ rest) b e (
      ap (λ r. r >>= show_call mmi slot n (tag_for (shown_chain is_list) true))
        (parse_shown_no_texts rest)
      ∙ elim is_list
            as (λ l.
              show_registered l mmi ≡ true
              → show_call mmi slot n (tag_for (shown_chain l) true) none ≡ fault) [
                | true ↦ λ reg. ground (arith, reg)
                | false ↦ λ reg. ground (arith, reg)
              ]
          reg)
