-- ===== src/En50221/App/Mmi/Send.antt =====
-- en50221_app_mmi.c: what the host sends to the module.
use dvb_apps.Common.{
  ℕ, ◌+◌, ◌*◌, ◌/◌, ◌%◌, ◌^◌, Bool, ◌||◌, List, [], ◌∷◌, ◌++◌, ◌==◌, if◌then◌else◌, length, Result,
  ok, ◌>>=◌,
}
use dvb_apps.En50221.App.{SendFunctions, tag_bytes, slice, message_header}
use dvb_apps.En50221.App.Mmi.Message.{tag_close_mmi}

abbrev pub tag_display_reply : ℕ
tag_display_reply = 0x9f8802

abbrev pub tag_keypress : ℕ
tag_keypress = 0x9f8806

abbrev pub tag_answer : ℕ
tag_answer = 0x9f8808

abbrev pub tag_menu_answer : ℕ
tag_menu_answer = 0x9f880b

abbrev pub tag_display_message : ℕ
tag_display_message = 0x9f8810

abbrev pub tag_scene_done : ℕ
tag_scene_done = 0x9f8812

abbrev pub tag_download_reply : ℕ
tag_download_reply = 0x9f8817

-- `struct en50221_app_mmi_pixel_depth`.
pub record PixelDepth : Type 0 where
  pub display_depth : ℕ
  pub pixels_per_byte : ℕ
  pub region_overhead : ℕ

pub record Gfx : Type 0 where
  pub width : ℕ
  pub height : ℕ
  pub aspect_ratio : ℕ
  pub gfx_relation_to_video : ℕ
  pub multiple_depths : ℕ
  pub display_bytes : ℕ
  pub composition_buffer_bytes : ℕ
  pub object_cache_bytes : ℕ
  pub pixel_depths : List PixelDepth

-- `struct en50221_app_mmi_display_reply_details`: the members of its union, one of which is read.
pub record DisplayReplyDetails : Type 0 where
  pub mmi_mode : ℕ
  pub table : List ℕ
  pub gfx : Gfx

-- The ten bytes in front of the pixel depths.
unfoldable pub gfx_bytes : ℕ → Gfx → List ℕ
gfx_bytes reply_id g =
    reply_id
    ∷ g.width / 2 ^ 8 % 2 ^ 8
    ∷ g.width % 2 ^ 8
    ∷ g.height / 2 ^ 8 % 2 ^ 8
    ∷ g.height % 2 ^ 8
    ∷ (g.aspect_ratio % 2 ^ 4 * 2 ^ 4 + g.gfx_relation_to_video % 2 ^ 3 * 2 + g.multiple_depths % 2)
    ∷ g.display_bytes / 2 ^ 4 % 2 ^ 8
    ∷ (g.display_bytes % 2 ^ 4 * 2 ^ 4 + g.composition_buffer_bytes / 2 ^ 4 % 2 ^ 4)
    ∷ (g.composition_buffer_bytes % 2 ^ 4 * 2 ^ 4 + g.object_cache_bytes / 2 ^ 4 % 2 ^ 4)
    ∷ (g.object_cache_bytes % 2 ^ 4 * 2 ^ 4 + length (g.pixel_depths) % 2 ^ 4)
    ∷ []

-- The loop that renders the pixel depths: the bytes written, and how far the pointer has moved.
unfoldable pub pixdepths : List PixelDepth → List ℕ × ℕ
pixdepths [] = ([], 0)
pixdepths (d ∷ ds) =
    let r = pixdepths ds in
    (
      (d.display_depth % 2 ^ 3 * 2 ^ 5 + d.pixels_per_byte % 2 ^ 3 * 2 ^ 2)
          ∷ d.region_overhead
          ∷ r.0,
      2 + r.1,
    )

module _ {S : Type 0} (funcs : SendFunctions S) where
  -- A message of one byte behind its tag and length.
  abbrev pub send_one : ℕ → ℕ → ℕ → S → Bool × S
  send_one n tag byte s = funcs.send_data n (tag_bytes tag ++ (1 ∷ byte ∷ [])) s

  -- A Boolean is what the layer below says, `fail` a message that was not sent to it.
  unfoldable pub close : ℕ → ℕ → ℕ → S → Bool × S
  close n cmd_id delay s =
      if cmd_id == 1
      then funcs.send_data n (tag_bytes tag_close_mmi ++ (2 ∷ cmd_id ∷ delay ∷ [])) s
      else send_one n tag_close_mmi cmd_id s

  unfoldable pub keypress : ℕ → ℕ → S → Bool × S
  keypress n keycode s = send_one n tag_keypress keycode s

  unfoldable pub display_message : ℕ → ℕ → S → Bool × S
  display_message n display_message_id s = send_one n tag_display_message display_message_id s

  unfoldable pub scene_done : ℕ → Bool → Bool → ℕ → S → Bool × S
  scene_done n decoder_continue scene_reveal scene_tag s =
      send_one n tag_scene_done
        ((if decoder_continue then 0x80 else 0)
          + (if scene_reveal then 0x40 else 0)
          + scene_tag % 2 ^ 4)
        s

  unfoldable pub download_reply : ℕ → ℕ → ℕ → S → Bool × S
  download_reply n object_id download_reply_id s =
      funcs.send_data n
        (tag_bytes tag_download_reply
          ++ (3 ∷ object_id / 2 ^ 8 % 2 ^ 8 ∷ object_id % 2 ^ 8 ∷ download_reply_id ∷ []))
        s

  unfoldable pub menu_answ : ℕ → ℕ → S → Bool × S
  menu_answ n choice_ref s = send_one n tag_menu_answer choice_ref s

  -- An answer has a text, a cancellation has none.
  unfoldable pub answ : ℕ → ℕ → List ℕ → S → Result (Bool × S)
  answ n answ_id text s =
      if answ_id == 1
      then (message_header tag_answer (length text + 1) >>= λ h.
          ok (funcs.send_datav n ((h ++ (answ_id ∷ [])) ∷ text ∷ []) s))
      else ok (funcs.send_datav n ((tag_bytes tag_answer ++ (1 ∷ answ_id ∷ [])) ∷ []) s)

  -- The pointer to the pixel depths that is handed on is the one that the loop has moved.
  unfoldable pub send_gfx : ℕ → ℕ → Gfx → S → Result (Bool × S)
  send_gfx n reply_id g s = do
    let count = length (g.pixel_depths)
    h ← message_header tag_display_reply (1 + 9 + count * 2)
    let r = pixdepths (g.pixel_depths)
    depths ← slice (r.0) (r.1) (count * 2)
    ok (funcs.send_datav n ((h ++ gfx_bytes reply_id g) ∷ depths ∷ []) s)

  unfoldable pub display_reply : ℕ → ℕ → DisplayReplyDetails → S → Result (Bool × S)
  display_reply n reply_id details s =
      if reply_id == 1
      then ok (
          funcs.send_datav n
            ((tag_bytes tag_display_reply ++ (2 ∷ reply_id ∷ details.mmi_mode ∷ [])) ∷ []) s)
      else if (reply_id == 2) || (reply_id == 3)
      then (message_header tag_display_reply (length (details.table) + 1) >>= λ h.
          ok (funcs.send_datav n ((h ++ (reply_id ∷ [])) ∷ details.table ∷ []) s))
      else if (reply_id == 4) || (reply_id == 5)
      then send_gfx n reply_id (details.gfx) s
      else ok (funcs.send_datav n ((tag_bytes tag_display_reply ++ (1 ∷ reply_id ∷ [])) ∷ []) s)
