-- ===== src/En50221/Session/Close.antt =====
-- Sessions that close.
use dvb_apps.Common.{
  ℕ, zero, suc, ◌+◌, ◌*◌, ◌/◌, ◌%◌, ◌^◌, ◌≤◌, ◌<◌, ◌≡◌, refl, sym, subst, ◌∙◌, ◌≢◌, inl, inr, Bool,
  true, ◌&&◌, some, List, [], ◌∷◌, ◌++◌, arith, ltb, ◌==◌, if◌then◌else◌, Bool-cases, if_rule,
  option_rule, length, get_elem?, get_elem?-set, get_elem?-set_other, ok, Returns,
}
use dvb_apps.En50221.Link.{TransportLink}
use dvb_apps.En50221.Session.{
  idle, active, in_deletion, Session, Upper, SessionLayer, status_open, st_create_session_res,
  two_bytes, four_bytes,
}
use dvb_apps.En50221.Session.Calls.{destroy_session}
use dvb_apps.En50221.Session.Handlers.{
  is_from, close_response, handle_create_session_response, handle_close_session_response,
}
use dvb_apps.En50221.Session.Receive.{
  not_idle, close_one, close_sessions, connection_closed, slot_closed, receive_data, data_received,
  connection_closing, slot_closing, transport_callback,
}
use dvb_apps.En50221.Session.Keeps.{state_rule}

-- A session as it is left where its connection closes.
abbrev closed : (Session → Bool) → Session → Session
closed of_it s = if of_it s then record s { state = idle } else s

close_one_here :
    {T : Type 0} (u : Upper) (of_it : Session → Bool) (j : ℕ) (s : Session) (sl : SessionLayer T)
    → get_elem? (sl.sessions) j ≡ some s
    → get_elem? ((close_one u of_it j sl).sessions) j ≡ some (closed of_it s)
close_one_here u of_it j s sl g =
    ground (arith, g, get_elem?-set (sl.sessions) j s (record s { state = idle }) g)

module _ {T : Type 0} (u : Upper) (of_it : Session → Bool) (j : ℕ) where
  close_one_other :
      (i : ℕ) (sl : SessionLayer T)
      → i ≢ j
      → get_elem? ((close_one u of_it i sl).sessions) j ≡ get_elem? (sl.sessions) j
  close_one_other i sl h =
      let P = λ (sl' : SessionLayer T). get_elem? (sl'.sessions) j ≡ get_elem? (sl.sessions) j in
      option_rule P (get_elem? (sl.sessions) i) _ _ (λ _. refl)
        λ s _.
          let changed = get_elem?-set_other (sl.sessions) i j (record s { state = idle }) h in
          if_rule P (not_idle s && of_it s) _ _
            (λ _. if_rule P (u.session) _ _ (λ _. changed) (λ _. changed)) (λ _. refl)

  behind_lem :
      (n i : ℕ) (sl : SessionLayer T)
      → j < i
      → get_elem? ((close_sessions n u of_it i sl).sessions) j ≡ get_elem? (sl.sessions) j
  unfolding close_sessions
  behind_lem zero i sl h = refl
  behind_lem (suc n) i sl h =
      behind_lem n (i + 1) (close_one u of_it i sl) (omega arith)
      ∙ close_one_other i sl (λ e. absurd (omega (arith, e)))

  close_sessions_lem :
      (n i : ℕ) (s : Session) (sl : SessionLayer T)
      → i ≤ j
      → j < i + n
      → get_elem? (sl.sessions) j ≡ some s
      → get_elem? ((close_sessions n u of_it i sl).sessions) j ≡ some (closed of_it s)
  unfolding close_sessions
  close_sessions_lem zero i s sl h l g = absurd (omega arith)
  close_sessions_lem (suc n) i s sl h l g = elim (Bool-cases (ltb i j)) [
    | inl e ↦
        close_sessions_lem n (i + 1) s (close_one u of_it i sl) (ground arith) (omega arith)
          (close_one_other i sl (λ z. ground arith) ∙ g)
    | inr e ↦
        let z : i ≡ j = ground arith in
        behind_lem n (i + 1) (close_one u of_it i sl) (omega (arith, z))
        ∙ subst (λ k. get_elem? ((close_one u of_it k sl).sessions) j ≡ some (closed of_it s))
            (sym z) (close_one_here u of_it j s sl g)
  ]

get_elem?-length :
    (xs : List Session) (j : ℕ) (s : Session) → get_elem? xs j ≡ some s → j < length xs
get_elem?-length [] j s h = ground arith
get_elem?-length (x ∷ xs) zero s h = omega arith
get_elem?-length (x ∷ xs) (suc j) s h = let l = get_elem?-length xs j s h in omega (arith, l)

-- A connection of one slot closes: each session with the number of the connection is idle after it,
-- on whatever slot it is, and every other session stays as it is.
pub transport_callback-connection_closing :
    {T : Type 0} (link : TransportLink T) (u : Upper) (slot c j : ℕ) (s : Session)
    (sl : SessionLayer T)
    → get_elem? (sl.sessions) j ≡ some s
    → Returns
        (λ sl'.
          get_elem? (sl'.sessions) j
          ≡ some (if s.connection_id == c then record s { state = idle } else s))
        (transport_callback link u connection_closing slot c sl)
unfolding transport_callback connection_closed
transport_callback-connection_closing link u slot c j s sl g =
    close_sessions_lem u (λ s. s.connection_id == c) j (length (sl.sessions)) 0 s sl (omega arith)
      (omega (arith, get_elem?-length (sl.sessions) j s g)) g

-- A slot closes: each of its sessions is idle after it, and every other session stays as it is.
pub transport_callback-slot_closing :
    {T : Type 0} (link : TransportLink T) (u : Upper) (slot c j : ℕ) (s : Session)
    (sl : SessionLayer T)
    → get_elem? (sl.sessions) j ≡ some s
    → Returns
        (λ sl'.
          get_elem? (sl'.sessions) j
          ≡ some (if s.slot_id == slot then record s { state = idle } else s))
        (transport_callback link u slot_closing slot c sl)
unfolding transport_callback slot_closed
transport_callback-slot_closing link u slot c j s sl g =
    close_sessions_lem u (λ s. s.slot_id == slot) j (length (sl.sessions)) 0 s sl (omega arith)
      (omega (arith, get_elem?-length (sl.sessions) j s g)) g

-- An active session that is destroyed, where the transport layer takes the message, is in deletion;
-- and it stays so when the close response comes in the form in which this layer itself writes it, as
-- the whole layer stays the same, whatever stands behind it and wherever it comes from.
pub destroy_session-close_response :
    {T : Type 0} (link : TransportLink T) (u : Upper) (n code m slot c : ℕ) (rest : List ℕ)
    (s : Session) (sl : SessionLayer T)
    → get_elem? (sl.sessions) n ≡ some s
    → s.state ≡ active
    → (destroy_session link n sl).0 ≡ true
    → (get_elem? ((destroy_session link n sl).1.sessions) n
        ≡ some (record s { state = in_deletion }))
      × (transport_callback link u
            (data_received (close_response code m ++ rest))
            slot
            c
            ((destroy_session link n sl).1)
          ≡ ok ((destroy_session link n sl).1))
unfolding transport_callback receive_data handle_close_session_response destroy_session
destroy_session-close_response link u n code m slot c [] s sl g a d = (
  ground (arith, g, a, get_elem?-set (sl.sessions) n s (record s { state = in_deletion }) g),
  refl,
)
destroy_session-close_response link u n code m slot c (x ∷ rest) s sl g a d = (
  ground (arith, g, a, get_elem?-set (sl.sessions) n s (record s { state = in_deletion }) g),
  refl,
)

-- A module answers that a session was created, in the form in which this layer itself answers such a
-- request: status, resource and number of the session. That session stays as it was, unless the last
-- byte of the resource and the first of the number happen to spell its number.
pub transport_callback-create_response :
    {T : Type 0} (link : TransportLink T) (u : Upper) (n status resource slot c : ℕ) (s : Session)
    (sl : SessionLayer T)
    → get_elem? (sl.sessions) n ≡ some s
    → resource % 2 ^ 8 * 2 ^ 8 + n / 2 ^ 8 % 2 ^ 8 ≢ n
    → Returns
        (λ sl'. get_elem? (sl'.sessions) n ≡ some s)
        (transport_callback link u
          (data_received
            (st_create_session_res ∷ 7 ∷ status ∷ (four_bytes resource ++ two_bytes n)))
          slot
          c
          sl)
unfolding transport_callback receive_data handle_create_session_response
transport_callback-create_response {T} link u n status resource slot c s sl g h =
    let m = resource % 2 ^ 8 * 2 ^ 8 + n / 2 ^ 8 % 2 ^ 8 in
    let P : SessionLayer T → Type 0 = λ sl'. get_elem? (sl'.sessions) n ≡ some s in
    let kept = λ (t : Session). get_elem?-set_other (sl.sessions) m n t h ∙ g in
    option_rule P (get_elem? (sl.sessions) m) _ _ (λ _. g)
      λ t _.
        if_rule P (is_from slot c t) _ _
          (λ _.
            state_rule P (t.state) _ _ _ _ g g
              (if_rule P (status == status_open) _ _
                (λ _. if_rule P (u.session) _ _ (λ _. kept _) (λ _. kept _))
                (λ _. if_rule P (u.session) _ _ (λ _. kept _) (λ _. kept _)))
              g)
          (λ _. g)
