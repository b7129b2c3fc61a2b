-- ===== src/En50221/Session/Receive.antt =====
-- en50221_session.c: the callback that the transport layer calls, and the packages of a session.
use dvb_apps.Common.{
  ℕ, zero, suc, ◌+◌, ◌-◌, ◌*◌, ◌^◌, Bool, true, false, ◌&&◌, none, some, List, [], ◌∷◌, ◌++◌, map,
  leb, ◌==◌, if◌then◌else◌, length, get_elem?, take, drop, Result, ok, fail, fault, ◌>>=◌, ◌>>◌,
  guard,
}
use dvb_apps.En50221.Asn1.{asn_1_decode}
use dvb_apps.En50221.Link.{TransportLink}
use dvb_apps.En50221.Session.{
  idle, active, Session, close, tc_connect, tc_cam_connect, apdu, Upper, SessionLayer,
  st_session_number, st_open_session_req, st_create_session_res, st_close_session_req,
  st_close_session_res, with_session, inform,
}
use dvb_apps.En50221.Session.Handlers.{
  is_from, handle_open_session_request, handle_close_session_request,
  handle_create_session_response, handle_close_session_response,
}

-- The length of the APDU at the front: its tag has three bytes. `fail` is a package of invalid size.
unfoldable pub apdu_length : List ℕ → Result ℕ
apdu_length bytes = do
  guard (leb 3 (length bytes))
  r ← asn_1_decode (drop 3 bytes) (length bytes - 3)
  let n = 3 + r.1 + r.0
  guard (leb n (length bytes))
  ok n

-- The loop over the APDUs of a package, which go up one by one until one is invalid. A fuel above the
-- length of the data is enough; a fault is a read outside it, or fuel that ran out.
unfoldable pub apdus : ℕ → List ℕ → Result (List (List ℕ))
apdus zero bytes = fault
apdus (suc fuel) bytes = elim (length bytes == 0) [
  | true ↦ ok []
  | false ↦ elim (apdu_length bytes) [
    | fault ↦ fault
    | fail ↦ ok []
    | ok n ↦ (apdus fuel (drop n bytes) >>= λ rest. ok (take n bytes ∷ rest))
  ]
]

abbrev pub not_idle : Session → Bool
not_idle s = elim s.state [ idle ↦ false | _ ↦ true ]

module _ {T : Type 0} where
  abbrev pub deliver : ℕ → ℕ → Session → List (List ℕ) → SessionLayer T → SessionLayer T
  deliver slot n s as' sl = elim s.callback [
    | none ↦ sl
    | some cb ↦ record sl { events = sl.events ++ map (apdu cb slot n (s.resource_id)) as' }
  ]

  unfoldable pub handle_session_package : List ℕ → ℕ → ℕ → SessionLayer T → Result (SessionLayer T)
  handle_session_package [] slot c sl = ok sl
  handle_session_package (l ∷ []) slot c sl = ok sl
  handle_session_package (l ∷ hi ∷ []) slot c sl = ok sl
  handle_session_package (l ∷ hi ∷ lo ∷ bytes) slot c sl =
      let n = hi * 2 ^ 8 + lo in
      if l == 2
      then (elim (get_elem? (sl.sessions) n) [
        | none ↦ ok sl
        | some s ↦
            if is_from slot c s
            then (elim s.state [
              | active ↦ (apdus (suc (length bytes)) bytes >>= λ as'. ok (deliver slot n s as' sl))
              | _ ↦ ok sl
            ])
            else ok sl
      ])
      else ok sl

  -- One round of the loops over the sessions: session `i` is closed if it is one of those and not idle.
  abbrev pub close_one : Upper → (Session → Bool) → ℕ → SessionLayer T → SessionLayer T
  close_one u of_it i sl = elim (get_elem? (sl.sessions) i) [
    | none ↦ sl
    | some s ↦
        if not_idle s && of_it s
        then inform u (close (s.slot_id) i (s.resource_id))
            (with_session i (record s { state = idle }) sl)
        else sl
  ]

  -- `n` rounds, from number `i` on.
  unfoldable pub close_sessions : ℕ → Upper → (Session → Bool) → ℕ → SessionLayer T → SessionLayer T
  close_sessions zero u of_it i sl = sl
  close_sessions (suc n) u of_it i sl = close_sessions n u of_it (i + 1) (close_one u of_it i sl)

  -- A connection that closes closes the sessions with its number, on any slot.
  unfoldable pub connection_closed : Upper → ℕ → ℕ → SessionLayer T → SessionLayer T
  connection_closed u slot c sl =
      close_sessions (length (sl.sessions)) u (λ s. s.connection_id == c) 0 sl

  unfoldable pub slot_closed : Upper → ℕ → SessionLayer T → SessionLayer T
  slot_closed u slot sl = close_sessions (length (sl.sessions)) u (λ s. s.slot_id == slot) 0 sl

  -- The data of a connection, by its tag.
  unfoldable pub receive_data :
      TransportLink T → Upper → List ℕ → ℕ → ℕ → SessionLayer T → Result (SessionLayer T)
  receive_data link u [] slot c sl = ok sl
  receive_data link u (tag ∷ bytes) slot c sl =
      if tag == st_open_session_req
      then ok (handle_open_session_request link u bytes slot c sl)
      else if tag == st_close_session_req
      then ok (handle_close_session_request link u bytes slot c sl)
      else if tag == st_session_number
      then handle_session_package bytes slot c sl
      else if tag == st_create_session_res
      then ok (handle_create_session_response link u bytes slot c sl)
      else if tag == st_close_session_res
      then ok (handle_close_session_response bytes slot c sl)
      else ok sl

-- What the transport layer reports, by its reason.
pub data Report : Type 0 where
  data_received : List ℕ → Report
  connection_opened cam_connection_opened connection_closing slot_closing : Report

-- `en50221_sl_transport_callback`.
unfoldable pub transport_callback :
    {T : Type 0}
    → TransportLink T
    → Upper
    → Report
    → ℕ
    → ℕ
    → SessionLayer T
    → Result (SessionLayer T)
transport_callback link u (data_received bytes) slot c sl = receive_data link u bytes slot c sl
transport_callback link u connection_opened slot c sl = ok (inform u (tc_connect slot c) sl)
transport_callback link u cam_connection_opened slot c sl = ok (inform u (tc_cam_connect slot c) sl)
transport_callback link u connection_closing slot c sl = ok (connection_closed u slot c sl)
transport_callback link u slot_closing slot c sl = ok (slot_closed u slot sl)
