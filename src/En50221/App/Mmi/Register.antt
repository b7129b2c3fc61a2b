-- ===== src/En50221/App/Mmi/Register.antt =====
-- en50221_app_mmi.c: the callbacks of the application.
use dvb_apps.Common.{Bool}
use dvb_apps.En50221.App.Mmi.{Callbacks, Mmi}

-- A change of the callbacks; `true` is a callback, `false` is NULL.
abbrev with_callbacks : (Callbacks → Callbacks) → Mmi → Mmi
with_callbacks f mmi = record mmi { callbacks = f (mmi.callbacks) }

abbrev pub register_close_callback : Bool → Mmi → Mmi
register_close_callback b mmi = with_callbacks (λ (c : Callbacks). record c { close = b }) mmi

abbrev pub register_display_control_callback : Bool → Mmi → Mmi
register_display_control_callback b mmi =
    with_callbacks (λ (c : Callbacks). record c { display_control = b }) mmi

abbrev pub register_keypad_control_callback : Bool → Mmi → Mmi
register_keypad_control_callback b mmi =
    with_callbacks (λ (c : Callbacks). record c { keypad_control = b }) mmi

abbrev pub register_subtitle_segment_callback : Bool → Mmi → Mmi
register_subtitle_segment_callback b mmi =
    with_callbacks (λ (c : Callbacks). record c { subtitle_segment = b }) mmi

abbrev pub register_scene_end_mark_callback : Bool → Mmi → Mmi
register_scene_end_mark_callback b mmi =
    with_callbacks (λ (c : Callbacks). record c { scene_end_mark = b }) mmi

abbrev pub register_scene_control_callback : Bool → Mmi → Mmi
register_scene_control_callback b mmi =
    with_callbacks (λ (c : Callbacks). record c { scene_control = b }) mmi

abbrev pub register_subtitle_download_callback : Bool → Mmi → Mmi
register_subtitle_download_callback b mmi =
    with_callbacks (λ (c : Callbacks). record c { subtitle_download = b }) mmi

abbrev pub register_flush_download_callback : Bool → Mmi → Mmi
register_flush_download_callback b mmi =
    with_callbacks (λ (c : Callbacks). record c { flush_download = b }) mmi

abbrev pub register_enq_callback : Bool → Mmi → Mmi
register_enq_callback b mmi = with_callbacks (λ (c : Callbacks). record c { enq = b }) mmi

abbrev pub register_menu_callback : Bool → Mmi → Mmi
register_menu_callback b mmi = with_callbacks (λ (c : Callbacks). record c { menu = b }) mmi

abbrev pub register_list_callback : Bool → Mmi → Mmi
register_list_callback b mmi = with_callbacks (λ (c : Callbacks). record c { list = b }) mmi
