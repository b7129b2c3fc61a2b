-- ===== src/En50221/Session/Handlers.antt =====
-- en50221_session.c: what is done with each kind of message of a module. A message comes without its
-- tag, as the list of its bytes, from connection `c` of slot `slot`.
use dvb_apps.Common.{
  ℕ, ◌+◌, ◌*◌, ◌^◌, Bool, ◌&&◌, Option, none, some, List, [], ◌∷◌, ◌++◌, ◌==◌, if◌then◌else◌,
  get_elem?,
}
use dvb_apps.En50221.Link.{TransportLink}
use dvb_apps.En50221.Session.{
  idle, active, in_creation, in_deletion, Session, cam_connecting, cam_connected, connected,
  connect_fail, close, no_resource, status_code, Lookup, Upper, SessionLayer, status_open,
  status_close_no_res, status_close_res_unavailable, status_close_res_busy, st_open_session_res,
  st_close_session_res, two_bytes, four_bytes, with_session, with_state, tell, inform, send_below,
  alloc_new_session,
}

-- The session belongs to the connection that a message came from.
abbrev pub is_from : ℕ → ℕ → Session → Bool
is_from slot c s = (slot == s.slot_id) && (c == s.connection_id)

-- The answer to a request; a session number of -1 is 0xffff in it.
abbrev pub open_response : ℕ → ℕ → Option ℕ → List ℕ
open_response status resource n? =
    st_open_session_res
    ∷ 7
    ∷ status
    ∷ (four_bytes resource ++ (elim n? [ none ↦ 0xff ∷ 0xff ∷ [] | some n ↦ two_bytes n ]))

-- 0 where the session may be closed at the module's request.
abbrev pub close_code : Option Session → ℕ → ℕ → ℕ
close_code none slot c = 0xf0
close_code (some s) slot c =
    if is_from slot c s then (elim s.state [ active ↦ 0 | in_deletion ↦ 0 | _ ↦ 0xf0 ]) else 0xf0

abbrev pub close_response : ℕ → ℕ → List ℕ
close_response code n = st_close_session_res ∷ 3 ∷ code ∷ two_bytes n

module _ {T : Type 0} (link : TransportLink T) (u : Upper) where
  -- The status and the session of a request, once its resource is looked up.
  unfoldable pub open_session : Lookup → ℕ → ℕ → SessionLayer T → ℕ × (Option ℕ × SessionLayer T)
  open_session answer slot c sl =
      if status_code (answer.status) == status_open
      then (let (n?, sl1) =
            alloc_new_session (answer.connected_resource_id) slot c (answer.callback) sl in
          elim n? [
            | none ↦ (status_close_no_res, (none, sl1))
            | some n ↦
                if u.session
                then (
                  if u.busy slot n (answer.connected_resource_id)
                      then status_close_res_busy
                      else status_open,
                  (some n, tell (cam_connecting slot n (answer.connected_resource_id)) sl1),
                )
                else (status_close_res_unavailable, (some n, sl1))
          ])
      else (status_code (answer.status), (none, sl))

  -- What becomes of the session after the answer. The callback for a failure is never reached.
  unfoldable pub settle : ℕ → ℕ → Option ℕ → ℕ → SessionLayer T → SessionLayer T
  settle status slot none resource sl = sl
  settle status slot (some n) resource sl =
      if status == status_open
      then inform u (cam_connected slot n resource) (with_state n active sl)
      else with_state n idle sl

  unfoldable pub handle_open_session_request : List ℕ → ℕ → ℕ → SessionLayer T → SessionLayer T
  handle_open_session_request (l ∷ p ∷ q ∷ r ∷ s ∷ rest) slot c sl =
      let requested = p * 2 ^ 24 + q * 2 ^ 16 + r * 2 ^ 8 + s in
      let answer : Lookup = elim u.lookup [
        | some lookup ↦ lookup slot requested
        | none ↦ record { status = no_resource; callback = none; connected_resource_id = u.unset }
      ] in
      let (status, (n?, sl1)) = open_session answer slot c sl in
      let resource = answer.connected_resource_id in
      let sent = send_below link slot c (open_response status resource n?) sl1 in
      if l == 4
      then settle (if sent.0 then status else status_close_no_res) slot n? resource (sent.1)
      else sl
  handle_open_session_request _ slot c sl = sl

  unfoldable pub handle_close_session_request : List ℕ → ℕ → ℕ → SessionLayer T → SessionLayer T
  handle_close_session_request (l ∷ hi ∷ lo ∷ rest) slot c sl =
      let n = hi * 2 ^ 8 + lo in
      let s? = get_elem? (sl.sessions) n in
      let code = close_code s? slot c in
      let closed = if code == 0 then with_state n idle sl else sl in
      let sent = send_below link slot c (close_response code n) closed in
      let resource : ℕ = elim s? [ none ↦ 0 | some s ↦ s.resource_id ] in
      if l == 2
      then (if code == 0 then inform u (close slot n resource) (sent.1) else sent.1)
      else sl
  handle_close_session_request _ slot c sl = sl

  -- The number of the session is read from the sixth and seventh byte.
  unfoldable pub handle_create_session_response : List ℕ → ℕ → ℕ → SessionLayer T → SessionLayer T
  handle_create_session_response (l ∷ status ∷ b2 ∷ b3 ∷ b4 ∷ hi ∷ lo ∷ b7 ∷ rest) slot c sl =
      let n = hi * 2 ^ 8 + lo in
      if l == 7
      then (elim (get_elem? (sl.sessions) n) [
        | none ↦ sl
        | some s ↦
            if is_from slot c s
            then (elim s.state [
              | in_creation ↦
                  if status == status_open
                  then inform u (connected slot n (s.resource_id))
                      (with_session n (record s { state = active }) sl)
                  else inform u (connect_fail slot n (s.resource_id))
                      (with_session n (record s { state = idle }) sl)
              | _ ↦ sl
            ])
            else sl
      ])
      else sl
  handle_create_session_response _ slot c sl = sl

-- The length must be 4, and the number of the session is read from the third and fourth byte.
unfoldable pub handle_close_session_response :
    {T : Type 0} → List ℕ → ℕ → ℕ → SessionLayer T → SessionLayer T
handle_close_session_response (l ∷ status ∷ hi ∷ lo ∷ b4 ∷ rest) slot c sl =
    let n = hi * 2 ^ 8 + lo in
    if l == 4
    then (elim (get_elem? (sl.sessions) n) [
      | none ↦ sl
      | some s ↦
          if is_from slot c s
          then (elim s.state [
            | in_deletion ↦ with_session n (record s { state = idle }) sl
            | _ ↦ sl
          ])
          else sl
    ])
    else sl
handle_close_session_response _ slot c sl = sl
