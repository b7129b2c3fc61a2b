-- ===== src/En50221/App/Mmi/Bounds.antt =====
-- What is read of a message.
use dvb_apps.Common.{
  ℕ, ◌≤◌, ◌≡◌, some, List, arith, length, drop, length-take, read-get_or, Safe, Safe-bind,
}
use dvb_apps.En50221.App.{read_tag, read_body}
use dvb_apps.En50221.App.Mmi.{Mmi, Chain, menus, lists, segments, downloads}
use dvb_apps.En50221.App.Mmi.Fragments.{chain_of, is_last}
use dvb_apps.En50221.App.Mmi.Pending.{tag_for}
use dvb_apps.En50221.App.Mmi.Message.{
  command, parse_close, parse_display_control, parse_keypad_control, parse_enq, scene_flags,
  parse_scene_end_mark, parse_scene_control, parse_flush_download, whole_message,
}
use dvb_apps.En50221.Asn1.{asn_1_decode}
use dvb_apps.En50221.Transport.Frame.{decode-Safe}

pub read_tag-Safe : (bytes : List ℕ) → Safe (λ tag. 3 ≤ length bytes) (read_tag bytes)
unfolding read_tag
read_tag-Safe bytes = ground (arith, read-get_or bytes 0, read-get_or bytes 1, read-get_or bytes 2)

pub read_body-Safe : (bytes : List ℕ) → Safe (λ body. length body ≤ length bytes) (read_body bytes)
unfolding read_body
read_body-Safe bytes =
    let P : ℕ × ℕ → Type 0 = λ r. (1 ≤ r.1) × (r.1 ≤ length bytes) in
    Safe-bind P (λ body. length body ≤ length bytes) (asn_1_decode bytes (length bytes)) _
      (decode-Safe bytes) λ (n, used) d. ground (arith, length-take n (drop used bytes))

command-Safe : (bytes : List ℕ) → Safe (λ c. 2 ≤ length bytes) (command bytes)
unfolding command
command-Safe bytes = ground (arith, read-get_or bytes 0, read-get_or bytes 1, read-get_or bytes 2)

scene_flags-Safe : (bytes : List ℕ) → Safe (λ f. 2 ≤ length bytes) (scene_flags bytes)
unfolding scene_flags
scene_flags-Safe bytes = ground (arith, read-get_or bytes 0, read-get_or bytes 1)

parse_close-Safe :
    (mmi : Mmi) (slot n : ℕ) (bytes : List ℕ) → Safe (λ r. Unit) (parse_close mmi slot n bytes)
unfolding parse_close
parse_close-Safe mmi slot n bytes =
    Safe-bind (λ c. 2 ≤ length bytes) (λ r. Unit) (command bytes) _ (command-Safe bytes) λ c s. tt

parse_display_control-Safe :
    (mmi : Mmi) (slot n : ℕ) (bytes : List ℕ)
    → Safe (λ r. Unit) (parse_display_control mmi slot n bytes)
unfolding parse_display_control
parse_display_control-Safe mmi slot n bytes =
    Safe-bind (λ c. 2 ≤ length bytes) (λ r. Unit) (command bytes) _ (command-Safe bytes) λ c s. tt

parse_keypad_control-Safe :
    (mmi : Mmi) (slot n : ℕ) (bytes : List ℕ)
    → Safe (λ r. Unit) (parse_keypad_control mmi slot n bytes)
unfolding parse_keypad_control
parse_keypad_control-Safe mmi slot n bytes =
    Safe-bind (λ body. length body ≤ length bytes) (λ r. Unit) (read_body bytes) _
      (read_body-Safe bytes) λ body s. ground (arith, read-get_or body 0)

parse_enq-Safe :
    (mmi : Mmi) (slot n : ℕ) (bytes : List ℕ) → Safe (λ r. Unit) (parse_enq mmi slot n bytes)
unfolding parse_enq
parse_enq-Safe mmi slot n bytes =
    Safe-bind (λ body. length body ≤ length bytes) (λ r. Unit) (read_body bytes) _
      (read_body-Safe bytes) λ body s. ground (arith, read-get_or body 0, read-get_or body 1)

parse_scene_end_mark-Safe :
    (mmi : Mmi) (slot n : ℕ) (bytes : List ℕ)
    → Safe (λ r. Unit) (parse_scene_end_mark mmi slot n bytes)
unfolding parse_scene_end_mark
parse_scene_end_mark-Safe mmi slot n bytes =
    Safe-bind (λ c. 2 ≤ length bytes) (λ r. Unit) (scene_flags bytes) _ (scene_flags-Safe bytes)
      λ c s. tt

parse_scene_control-Safe :
    (mmi : Mmi) (slot n : ℕ) (bytes : List ℕ)
    → Safe (λ r. Unit) (parse_scene_control mmi slot n bytes)
unfolding parse_scene_control
parse_scene_control-Safe mmi slot n bytes =
    Safe-bind (λ c. 2 ≤ length bytes) (λ r. Unit) (scene_flags bytes) _ (scene_flags-Safe bytes)
      λ c s. tt

parse_flush_download-Safe :
    (mmi : Mmi) (slot n : ℕ) (bytes : List ℕ)
    → Safe (λ r. Unit) (parse_flush_download mmi slot n bytes)
unfolding parse_flush_download
parse_flush_download-Safe mmi slot n bytes = ground (arith, read-get_or bytes 0)

pub whole_message-Safe :
    (mmi : Mmi) (slot n tag : ℕ) (bytes : List ℕ)
    → Safe (λ r. Unit) (whole_message mmi slot n tag bytes)
unfolding whole_message
whole_message-Safe mmi slot n tag bytes = ground (
  arith,
  parse_close-Safe mmi slot n bytes,
  parse_display_control-Safe mmi slot n bytes,
  parse_keypad_control-Safe mmi slot n bytes,
  parse_enq-Safe mmi slot n bytes,
  parse_scene_end_mark-Safe mmi slot n bytes,
  parse_scene_control-Safe mmi slot n bytes,
  parse_flush_download-Safe mmi slot n bytes,
)

-- The tag of a fragment is that of its chain.
pub tag_for-chain_of : (tag : ℕ) (c : Chain) → chain_of tag ≡ some c → tag_for c (is_last tag) ≡ tag
unfolding chain_of is_last
tag_for-chain_of tag menus h = ground arith
tag_for-chain_of tag lists h = ground arith
tag_for-chain_of tag segments h = ground arith
tag_for-chain_of tag downloads h = ground arith
