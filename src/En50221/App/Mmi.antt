-- ===== src/En50221/App/Mmi.antt =====
-- lib/libdvben50221/en50221_app_mmi.c: menus, lists and other dialogues of a module with the user.
pub mod Fragments
pub mod Text
pub mod Message
pub mod Pending
pub mod Interleaved
pub mod Texts
pub mod Shows
pub mod Dialogue
pub mod Overruns
pub mod Freed
pub mod Bounds
pub mod Kept
pub mod Answers
pub mod Send
pub mod Register
pub mod Delivered
mod Runs
use dvb_apps.Common.{
  ℕ, zero, suc, ◌+◌, ◌-◌, ◌*◌, ◌/◌, ◌%◌, ◌^◌, ◌≤◌, ◌<◌, min, ◌≡◌, refl, sym, ap, ap₂, subst, ◌∙◌,
  ◌≢◌, ◌↔◌, ◌⊎◌, inl, inr, Bool, true, false, not, ◌&&◌, ◌||◌, Option, none, some, List, [], ◌∷◌,
  ◌++◌, map, append-nil, append_assoc, arith, ltb, leb, ◌==◌, if◌then◌else◌, bit, ltb→lt, lt→ltb,
  leb→le, ==_iff, tests, Bool-cases, Option-cases, if_rule, bool_rule, option_rule, &&_left,
  &&_right, length, get_elem?, get_or, set, take, drop, replicate, All, length-append, length-set,
  length-take, length-drop, length-map, take-append-drop, take-ge, drop-ge, take-append,
  take-length_append, drop-length_append, take-append_le, drop-append_le, drop-append_ge, drop_cons,
  take-add, drop-take, take-take, get_elem?-set, get_elem?-drop_one, get_elem?-set_other, set-set,
  set_self, read-get_or, read-drop, drop-drop, drop-behind, drop-next, Result, ok, fail, fault,
  ◌>>=◌, ◌>>◌, guard, read, Returns, Safe, Result-cases, Safe-bind, Safe-guard, Safe-elim,
}
use dvb_apps.En50221.App.{SendFunctions, read_tag, read_body, slice}

-- A block of a chain: NULL, an allocated block, or a pointer to one that realloc has freed.
pub data Block : Type 0 where
  null : Block
  block : List ℕ → Block
  freed : Block

-- `struct en50221_app_mmi_session`.
pub record MmiSession : Type 0 where
  pub session_number : ℕ
  pub menu_block : Block
  pub list_block : Block
  pub subtitlesegment_block : Block
  pub subtitledownload_block : Block

-- The callbacks that are registered.
pub record Callbacks : Type 0 where
  pub close : Bool
  pub display_control : Bool
  pub keypad_control : Bool
  pub subtitle_segment : Bool
  pub scene_end_mark : Bool
  pub scene_control : Bool
  pub subtitle_download : Bool
  pub flush_download : Bool
  pub enq : Bool
  pub menu : Bool
  pub list : Bool

-- `struct en50221_app_mmi`.
pub record Mmi : Type 0 where
  pub sessions : List MmiSession
  pub callbacks : Callbacks

-- What a menu or list shows: its title, subtitle and bottom, its items, and raw items.
pub record Shown : Type 0 where
  pub title : List ℕ
  pub subtitle : List ℕ
  pub bottom : List ℕ
  pub items : List (List ℕ)
  pub items_raw : List ℕ

-- A call of a callback, behind the slot and the session number.
pub data Call : Type 0 where
  close_call display_control_call : ℕ → ℕ → ℕ → ℕ → Call
  keypad_control_call : ℕ → ℕ → ℕ → List ℕ → Call
  enq_call : ℕ → ℕ → Bool → ℕ → List ℕ → Call
  scene_end_mark_call : ℕ → ℕ → Bool → Bool → Bool → ℕ → Call
  scene_control_call : ℕ → ℕ → Bool → Bool → ℕ → Call
  flush_download_call : ℕ → ℕ → Call
  subtitle_segment_call subtitle_download_call : ℕ → ℕ → List ℕ → Call
  menu_call list_call : ℕ → ℕ → Shown → Call

-- What a message is answered with: -1, 0, or the value of the callback that is called.
pub data Reply : Type 0 where
  refused nothing : Reply
  calls : Call → Reply

unfoldable pub create : Mmi
create = record {
  sessions = [];
  callbacks = record {
    close = false;
    display_control = false;
    keypad_control = false;
    subtitle_segment = false;
    scene_end_mark = false;
    scene_control = false;
    subtitle_download = false;
    flush_download = false;
    enq = false;
    menu = false;
    list = false;
  };
}

-- `if (cb) return cb(…); return 0;`
abbrev pub told : Bool → Call → Reply
told registered call = if registered then calls call else nothing

-- The four chains of a session.
pub data Chain : Type 0 where
  menus lists segments downloads : Chain

abbrev pub block_of : Chain → MmiSession → Block
block_of menus s = s.menu_block
block_of lists s = s.list_block
block_of segments s = s.subtitlesegment_block
block_of downloads s = s.subtitledownload_block

abbrev pub with_block : Chain → Block → MmiSession → MmiSession
with_block menus b s = record s { menu_block = b }
with_block lists b s = record s { list_block = b }
with_block segments b s = record s { subtitlesegment_block = b }
with_block downloads b s = record s { subtitledownload_block = b }

-- The first session with a number.
unfoldable pub find : ℕ → List MmiSession → Option MmiSession
find n [] = none
find n (s ∷ ss) = if s.session_number == n then some s else find n ss

-- A change of the first session with a number.
unfoldable pub change_session : ℕ → (MmiSession → MmiSession) → List MmiSession → List MmiSession
change_session n f [] = []
change_session n f (s ∷ ss) =
    let rest = change_session n f ss in if s.session_number == n then f s ∷ ss else s ∷ rest

-- free of a chain that is not NULL.
abbrev pub free : Block → Result (Unit {0})
free null = ok tt
free (block bytes) = ok tt
free freed = fault

-- The loop of `en50221_app_mmi_clear_session`.
unfoldable pub clear : ℕ → List MmiSession → Result (List MmiSession)
clear n [] = ok []
clear n (s ∷ ss) =
    let rest = clear n ss in
    if s.session_number == n
    then (free (s.menu_block)
        >> (free (s.list_block)
            >> (free (s.subtitlesegment_block) >> (free (s.subtitledownload_block) >> ok ss))))
    else (rest >>= λ ss. ok (s ∷ ss))

unfoldable pub clear_session : ℕ → Mmi → Result Mmi
clear_session n mmi = clear n (mmi.sessions) >>= λ ss. ok (record mmi { sessions = ss })
