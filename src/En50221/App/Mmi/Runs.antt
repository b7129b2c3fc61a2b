-- ===== src/En50221/App/Mmi/Runs.antt =====
-- Concrete dialogues.
use dvb_apps.Common.{
  ℕ, ◌^◌, ◌<◌, ◌≡◌, refl, Bool, true, false, List, [], ◌∷◌, ◌++◌, arith, length, ok, fault, Returns,
}
use dvb_apps.En50221.App.{read_tag, read_body}
use dvb_apps.En50221.App.Mmi.{
  null, block, Mmi, refused, nothing, create, Chain, menus, lists, find, change_session,
  clear_session,
}
use dvb_apps.En50221.App.Mmi.Fragments.{
  chain_of, is_last, append, with_new_session, pending, add_more, defragment,
}
use dvb_apps.En50221.App.Mmi.Text.{parse_list_menu}
use dvb_apps.En50221.Transport.Frame.{length_field}
use dvb_apps.En50221.Session.Apdus.{apdu_bytes}
use dvb_apps.En50221.App.Mmi.Dialogue.{messages, shown_tag}
use dvb_apps.En50221.App.Mmi.Overruns.{message-cut}
use dvb_apps.En50221.App.Mmi.Freed.{empty_fragment, messages-empty_fragment}
use dvb_apps.En50221.App.Mmi.Kept.{Kept, IsPlain, message-Kept}
use dvb_apps.En50221.App.Mmi.Message.{tagged, message}
use dvb_apps.En50221.App.Mmi.Interleaved.{Fragment, run, run-reassemble, own, only, reassemble}
use dvb_apps.En50221.Asn1.{asn_1_decode}

-- A menu of one item, in two fragments.
abbrev title : List ℕ
title = 0x9f ∷ 0x88 ∷ 0x03 ∷ 2 ∷ 72 ∷ 105 ∷ []

abbrev empty : List ℕ
empty = 0x9f ∷ 0x88 ∷ 0x03 ∷ 0 ∷ []

abbrev listening : Mmi
listening = record create { callbacks = record (create.callbacks) { menu = true } }

first_fragment :
    message listening 0 7 (0x9f ∷ 0x88 ∷ 0x0a ∷ 7 ∷ 1 ∷ title)
    ≡ ok (
      nothing,
      record listening {
        sessions =
            record {
              session_number = 7;
              menu_block = block (1 ∷ title);
              list_block = null;
              subtitlesegment_block = null;
              subtitledownload_block = null;
            }
            ∷ [];
      },
    )
unfolding message tagged read_tag chain_of is_last parse_list_menu read_body asn_1_decode defragment
    with_new_session find add_more pending append change_session create
first_fragment = refl

-- A fragment of a list between those of a menu.
abbrev mixed : List Fragment
mixed =
    record { session_number = 7; chain = menus; last = false; body = 1 ∷ [] }
    ∷ record { session_number = 7; chain = lists; last = false; body = 5 ∷ [] }
    ∷ record { session_number = 7; chain = menus; last = true; body = 2 ∷ [] }
    ∷ []

run-reassemble_example :
    Returns
      (λ r. (n : ℕ) (c : Chain) → only n c (r.0) ≡ reassemble [] (own n c mixed))
      (run mixed [])
run-reassemble_example = run-reassemble mixed (ground arith) (omega arith)

-- A title that says to be longer than its message.
message-cut_example :
    message listening 0 7
      (apdu_bytes (shown_tag false true) (1 ∷ 0x9f ∷ 0x88 ∷ 0x04 ∷ (length_field 5 ++ (65 ∷ []))))
    ≡ fault
unfolding create find
message-cut_example =
    message-cut false listening 0 7 1 5 (65 ∷ []) refl (omega arith) (omega arith) (omega arith)
      (omega arith)

messages-empty_fragment_example :
    Returns
      (λ r.
        (r.0 ≡ nothing ∷ refused ∷ [])
        × ((last : Bool) (body : List ℕ)
            → length body < 2 ^ 16
            → message (r.1) 0 7 (apdu_bytes (shown_tag true last) body) ≡ fault)
        × (clear_session 7 (r.1) ≡ fault))
      (messages listening 0 7 (empty_fragment true ∷ empty_fragment true ∷ []))
unfolding create pending find
messages-empty_fragment_example = messages-empty_fragment true 0 7 listening refl

-- A close with a delay.
close_lem : IsPlain (0x9f ∷ 0x88 ∷ 0x00 ∷ 2 ∷ 1 ∷ 9 ∷ [])
unfolding read_tag chain_of
close_lem tag e = ground arith

message-Kept_example :
    Returns (Kept 7 listening) (message listening 0 7 (0x9f ∷ 0x88 ∷ 0x00 ∷ 2 ∷ 1 ∷ 9 ∷ []))
unfolding create pending find
message-Kept_example =
    message-Kept listening 0 7 (0x9f ∷ 0x88 ∷ 0x00 ∷ 2 ∷ 1 ∷ 9 ∷ []) close_lem λ c. tt
