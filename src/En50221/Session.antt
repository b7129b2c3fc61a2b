-- ===== src/En50221/Session.antt =====
-- lib/libdvben50221/en50221_session.c: sessions between the resources of a host and its modules.
--
-- The layer below is a `TransportLink`; the upper layers are `Upper`, which answers the callbacks whose
-- result counts, while the others are logged as events. The locks are not modelled: each function runs
-- by itself, and a callback does not call back.
pub mod Calls
pub mod Handlers
pub mod Receive
pub mod Keeps
pub mod Isolation
pub mod Apdus
pub mod Delivery
pub mod Close
pub mod Below
pub mod Opened
mod Runs
use dvb_apps.Common.{
  ℕ, zero, suc, ◌+◌, ◌-◌, ◌*◌, ◌/◌, ◌%◌, ◌^◌, ◌≤◌, ◌<◌, min, ◌≡◌, refl, sym, ap, ap₂, subst, ◌∙◌,
  ◌≢◌, ◌↔◌, ◌⊎◌, inl, inr, Bool, true, false, not, ◌&&◌, ◌||◌, Option, none, some, List, [], ◌∷◌,
  ◌++◌, map, append-nil, append_assoc, arith, ltb, leb, ◌==◌, if◌then◌else◌, bit, ltb→lt, lt→ltb,
  leb→le, ==_iff, tests, Bool-cases, Option-cases, if_rule, bool_rule, option_rule, &&_left,
  &&_right, length, get_elem?, get_or, set, take, drop, replicate, All, length-append, length-set,
  length-take, length-drop, length-map, take-append-drop, take-ge, drop-ge, take-append,
  take-length_append, drop-length_append, take-append_le, drop-append_le, drop-append_ge, drop_cons,
  take-add, drop-take, take-take, get_elem?-set, set-set, set_self, read-get_or, read-drop,
  drop-drop, drop-behind, drop-next, Result, ok, fail, fault, ◌>>=◌, ◌>>◌, guard, read, Returns,
  Safe, Result-cases, Safe-bind, Safe-guard, Safe-elim,
}
use dvb_apps.En50221.Transport.{ErrorCode, outofsessions, badsessionnumber, iovlimit}
use dvb_apps.En50221.Link.{TransportLink}

-- `S_STATE_…`.
pub data SessionState : Type 0 where
  idle active in_creation in_deletion : SessionState

-- `struct en50221_session`; a resource's callback is known by a number.
pub record Session : Type 0 where
  pub state : SessionState
  pub resource_id : ℕ
  pub slot_id : ℕ
  pub connection_id : ℕ
  pub callback : Option ℕ

-- The callbacks by their reason, with slot, session or connection, and resource; and an APDU for the
-- callback of a resource.
pub data SessionEvent : Type 0 where
  cam_connecting cam_connected cam_connect_fail : ℕ → ℕ → ℕ → SessionEvent
  connected connect_fail close : ℕ → ℕ → ℕ → SessionEvent
  tc_connect tc_cam_connect : ℕ → ℕ → SessionEvent
  apdu : ℕ → ℕ → ℕ → ℕ → List ℕ → SessionEvent

-- What the lookup of a resource may return: 0, -1, -2 and -3.
pub data LookupStatus : Type 0 where
  found no_resource low_version unavailable : LookupStatus

-- What the lookup of a resource says: its status, and its callback and number.
pub record Lookup : Type 0 where
  pub status : LookupStatus
  pub callback : Option ℕ
  pub connected_resource_id : ℕ

-- The upper layers, which may not be registered. `busy` is what the session callback returns of a
-- module that connects. `unset` is what stands in `connected_resource_id` where nothing sets it.
pub record Upper : Type 0 where
  pub lookup : Option (ℕ → ℕ → Lookup)
  pub session : Bool
  pub busy : ℕ → ℕ → ℕ → Bool
  pub unset : ℕ

pub record SessionLayer (T : Type 0) : Type 0 where
  pub sessions : List Session
  pub tl : T
  pub error : Option ErrorCode
  pub events : List SessionEvent

-- `S_STATUS_…`.
abbrev pub status_open : ℕ
status_open = 0x00

abbrev pub status_close_no_res : ℕ
status_close_no_res = 0xf0

abbrev pub status_close_res_unavailable : ℕ
status_close_res_unavailable = 0xf1

abbrev pub status_close_res_low_version : ℕ
status_close_res_low_version = 0xf2

abbrev pub status_close_res_busy : ℕ
status_close_res_busy = 0xf3

-- The status of an answer to a request, by that of the lookup.
unfoldable pub status_code : LookupStatus → ℕ
status_code found = status_open
status_code no_resource = status_close_no_res
status_code low_version = status_close_res_low_version
status_code unavailable = status_close_res_unavailable

-- `ST_…`.
abbrev pub st_session_number : ℕ
st_session_number = 0x90

abbrev pub st_open_session_req : ℕ
st_open_session_req = 0x91

abbrev pub st_open_session_res : ℕ
st_open_session_res = 0x92

abbrev pub st_create_session : ℕ
st_create_session = 0x93

abbrev pub st_create_session_res : ℕ
st_create_session_res = 0x94

abbrev pub st_close_session_req : ℕ
st_close_session_req = 0x95

abbrev pub st_close_session_res : ℕ
st_close_session_res = 0x96

-- A number in two or in four bytes, the first one highest.
abbrev pub two_bytes : ℕ → List ℕ
two_bytes n = n / 2 ^ 8 % 2 ^ 8 ∷ n % 2 ^ 8 ∷ []

abbrev pub four_bytes : ℕ → List ℕ
four_bytes n = n / 2 ^ 24 % 2 ^ 8 ∷ n / 2 ^ 16 % 2 ^ 8 ∷ n / 2 ^ 8 % 2 ^ 8 ∷ n % 2 ^ 8 ∷ []

module _ {T : Type 0} where
  abbrev pub with_session : ℕ → Session → SessionLayer T → SessionLayer T
  with_session n s sl = record sl { sessions = set (sl.sessions) n s }

  abbrev pub with_state : ℕ → SessionState → SessionLayer T → SessionLayer T
  with_state n a sl = elim (get_elem? (sl.sessions) n) [
    | none ↦ sl
    | some s ↦ with_session n (record s { state = a }) sl
  ]

  abbrev pub tell : SessionEvent → SessionLayer T → SessionLayer T
  tell e sl = record sl { events = sl.events ++ (e ∷ []) }

  -- The session callback, if there is one.
  abbrev pub inform : Upper → SessionEvent → SessionLayer T → SessionLayer T
  inform u e sl = if u.session then tell e sl else sl

  -- 0 or -1, and the layer.
  abbrev pub refused : ErrorCode → SessionLayer T → Bool × SessionLayer T
  refused e sl = (false, record sl { error = some e })

  -- `en50221_tl_send_data` of the layer below.
  abbrev pub send_below : TransportLink T → ℕ → ℕ → List ℕ → SessionLayer T → Bool × SessionLayer T
  send_below link i c bytes sl =
      let r = link.send_data (sl.tl) i c bytes in (r.0, record sl { tl = r.1 })

-- The first idle session of a list that starts with number `i`.
unfoldable pub first_idle_session : List Session → ℕ → Option (ℕ × Session)
first_idle_session [] i = none
first_idle_session (s ∷ ss) i =
    let rest = first_idle_session ss (i + 1) in elim s.state [ idle ↦ some (i, s) | _ ↦ rest ]

-- `en50221_sl_alloc_new_session`: session 0 is not given out.
unfoldable pub alloc_new_session :
    {T : Type 0} → ℕ → ℕ → ℕ → Option ℕ → SessionLayer T → Option ℕ × SessionLayer T
alloc_new_session resource slot c callback sl = elim (first_idle_session (drop 1 (sl.sessions)) 1) [
  | none ↦ (none, record sl { error = some outofsessions })
  | some r ↦ (
    some (r.0),
    with_session (r.0)
        (record {
          state = in_creation;
          resource_id = resource;
          slot_id = slot;
          connection_id = c;
          callback = callback;
        })
        sl,
  )
]

-- `en50221_sl_create`, in the memory that it is given: a number of sessions with any content.
unfoldable pub sl_create : {T : Type 0} → T → List Session → SessionLayer T
sl_create tl memory = record {
  sessions = map (λ (s : Session). record s { state = idle; callback = none }) memory;
  tl = tl;
  error = none;
  events = [];
}
