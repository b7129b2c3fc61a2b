-- ===== src/En50221/App/Mmi/Message.antt =====
-- en50221_app_mmi_message, and the messages that come in one piece.
use dvb_apps.Common.{
  ℕ, ◌-◌, ◌%◌, ◌^◌, none, some, List, leb, ◌==◌, if◌then◌else◌, bit, length, drop, Result, ok, fail,
  fault, ◌>>=◌, ◌>>◌, guard, read,
}
use dvb_apps.En50221.App.{read_tag, read_body}
use dvb_apps.En50221.App.Mmi.{
  Mmi, close_call, display_control_call, keypad_control_call, enq_call, scene_end_mark_call,
  scene_control_call, flush_download_call, Reply, refused, told, menus, lists, segments, downloads,
}
use dvb_apps.En50221.App.Mmi.Fragments.{chain_of, is_last}
use dvb_apps.En50221.App.Mmi.Text.{parse_list_menu, parse_subtitle}

abbrev pub tag_close_mmi : ℕ
tag_close_mmi = 0x9f8800

abbrev pub tag_display_control : ℕ
tag_display_control = 0x9f8801

abbrev pub tag_keypad_control : ℕ
tag_keypad_control = 0x9f8805

abbrev pub tag_enquiry : ℕ
tag_enquiry = 0x9f8807

abbrev pub tag_scene_end_mark : ℕ
tag_scene_end_mark = 0x9f8811

abbrev pub tag_scene_control : ℕ
tag_scene_control = 0x9f8813

abbrev pub tag_flush_download : ℕ
tag_flush_download = 0x9f8816

-- A command and its parameter, which only command 1 has: a close with a delay, or a mode to set.
unfoldable pub command : List ℕ → Result (ℕ × ℕ)
command bytes = do
  guard (leb 2 (length bytes))
  n ← read bytes 0
  guard (leb n (length bytes - 1))
  cmd_id ← read bytes 1
  parameter ← (if cmd_id == 1 then (guard (n == 2) >> read bytes 2) else ok 0)
  ok (cmd_id, parameter)

unfoldable pub parse_close : Mmi → ℕ → ℕ → List ℕ → Result Reply
parse_close mmi slot n bytes =
    command bytes >>= λ c. ok (told (mmi.callbacks.close) (close_call slot n (c.0) (c.1)))

unfoldable pub parse_display_control : Mmi → ℕ → ℕ → List ℕ → Result Reply
parse_display_control mmi slot n bytes = command bytes >>= λ c.
    ok (told (mmi.callbacks.display_control) (display_control_call slot n (c.0) (c.1)))

unfoldable pub parse_keypad_control : Mmi → ℕ → ℕ → List ℕ → Result Reply
parse_keypad_control mmi slot n bytes = do
  body ← read_body bytes
  guard (leb 1 (length body))
  cmd_id ← read body 0
  ok (told (mmi.callbacks.keypad_control) (keypad_control_call slot n cmd_id (drop 1 body)))

unfoldable pub parse_enq : Mmi → ℕ → ℕ → List ℕ → Result Reply
parse_enq mmi slot n bytes = do
  body ← read_body bytes
  guard (leb 2 (length body))
  flags ← read body 0
  answer_length ← read body 1
  ok (told (mmi.callbacks.enq) (enq_call slot n (bit flags 0) answer_length (drop 2 body)))

-- The flags of a message that is one byte behind a length of 1.
unfoldable pub scene_flags : List ℕ → Result ℕ
scene_flags bytes = do guard (length bytes == 2); n ← read bytes 0; guard (n == 1); read bytes 1

unfoldable pub parse_scene_end_mark : Mmi → ℕ → ℕ → List ℕ → Result Reply
parse_scene_end_mark mmi slot n bytes = do
  flags ← scene_flags bytes
  ok (
      told (mmi.callbacks.scene_end_mark)
        (scene_end_mark_call slot n (bit flags 7) (bit flags 6) (bit flags 5) (flags % 2 ^ 4)))

unfoldable pub parse_scene_control : Mmi → ℕ → ℕ → List ℕ → Result Reply
parse_scene_control mmi slot n bytes = do
  flags ← scene_flags bytes
  ok (
      told (mmi.callbacks.scene_control)
        (scene_control_call slot n (bit flags 7) (bit flags 6) (flags % 2 ^ 4)))

unfoldable pub parse_flush_download : Mmi → ℕ → ℕ → List ℕ → Result Reply
parse_flush_download mmi slot n bytes = do
  guard (length bytes == 1)
  l ← read bytes 0
  guard (l == 0)
  ok (told (mmi.callbacks.flush_download) (flush_download_call slot n))

-- The messages in one piece, by their tag; they keep no state.
unfoldable pub whole_message : Mmi → ℕ → ℕ → ℕ → List ℕ → Result Reply
whole_message mmi slot n tag bytes =
    if tag == tag_close_mmi
    then parse_close mmi slot n bytes
    else if tag == tag_display_control
    then parse_display_control mmi slot n bytes
    else if tag == tag_keypad_control
    then parse_keypad_control mmi slot n bytes
    else if tag == tag_enquiry
    then parse_enq mmi slot n bytes
    else if tag == tag_scene_end_mark
    then parse_scene_end_mark mmi slot n bytes
    else if tag == tag_scene_control
    then parse_scene_control mmi slot n bytes
    else if tag == tag_flush_download
    then parse_flush_download mmi slot n bytes
    else fail

abbrev pub unchanged : Mmi → Result Reply → Result (Reply × Mmi)
unchanged mmi (ok reply) = ok (reply, mmi)
unchanged mmi fail = ok (refused, mmi)
unchanged mmi fault = fault

-- A message by its tag; those that come in several have a tag for the last.
unfoldable pub tagged : Mmi → ℕ → ℕ → ℕ → List ℕ → Result (Reply × Mmi)
tagged mmi slot n tag bytes = elim (chain_of tag) [
  | none ↦ unchanged mmi (whole_message mmi slot n tag bytes)
  | some c ↦
      let last = is_last tag in
      elim c [
        | menus ↦ parse_list_menu mmi slot n tag last bytes
        | lists ↦ parse_list_menu mmi slot n tag last bytes
        | segments ↦ parse_subtitle mmi slot n tag last bytes
        | downloads ↦ parse_subtitle mmi slot n tag last bytes
      ]
]

unfoldable pub message : Mmi → ℕ → ℕ → List ℕ → Result (Reply × Mmi)
message mmi slot n bytes = elim (read_tag bytes) [
  | fail ↦ ok (refused, mmi)
  | fault ↦ fault
  | ok tag ↦ tagged mmi slot n tag (drop 3 bytes)
]
