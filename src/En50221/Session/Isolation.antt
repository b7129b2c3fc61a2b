-- ===== src/En50221/Session/Isolation.antt =====
-- A module reaches only the sessions of its own slot and connection.
use dvb_apps.Common.{
  ℕ, suc, ◌+◌, ◌*◌, ◌^◌, ◌≡◌, ◌≢◌, ◌⊎◌, true, false, some, List, [], ◌∷◌, arith, ◌==◌,
  if◌then◌else◌, if_rule, option_rule, length, get_elem?, Result, Returns, Returns-bind,
}
use dvb_apps.En50221.Link.{TransportLink}
use dvb_apps.En50221.Session.{
  idle, Session, Upper, SessionLayer, status_open, st_session_number, st_open_session_req,
  st_create_session_res, st_close_session_req, st_close_session_res, with_state,
}
use dvb_apps.En50221.Session.Handlers.{
  is_from, close_code, handle_close_session_request, handle_create_session_response,
  handle_close_session_response,
}
use dvb_apps.En50221.Session.Receive.{
  apdus, handle_session_package, not_idle, receive_data, data_received, transport_callback,
}
use dvb_apps.En50221.Session.Apdus.{IsFront, apdus-IsFront}
use dvb_apps.En50221.Session.Keeps.{
  Here, with_session-Here, apart, close_code_apart, state_rule, inform-Here, with_state-Here,
  request-Here,
}

module _ {T : Type 0} (link : TransportLink T) (u : Upper) (j : ℕ) (s : Session) where
  close_request-Here :
      (bytes : List ℕ) (slot c : ℕ) (sl : SessionLayer T)
      → is_from slot c s ≡ false
      → Here j s sl
      → Here j s (handle_close_session_request link u bytes slot c sl)
  unfolding handle_close_session_request
  close_request-Here [] slot c sl f g = g
  close_request-Here (l ∷ []) slot c sl f g = g
  close_request-Here (l ∷ hi ∷ []) slot c sl f g = g
  close_request-Here (l ∷ hi ∷ lo ∷ rest) slot c sl f g =
      let n = hi * 2 ^ 8 + lo in
      let code = close_code (get_elem? (sl.sessions) n) slot c in
      let closed : Here j s (if code == 0 then with_state n idle sl else sl) =
        if_rule (Here j s) (code == 0) _ _
          (λ z.
            with_state-Here link u j s n idle sl (close_code_apart j s (sl.sessions) n slot c f g z)
              g)
          (λ _. g) in
      if_rule (Here j s) (l == 2) _ _
        (λ _.
          if_rule (Here j s) (code == 0) _ _ (λ _. inform-Here link u j s _ _ closed) (λ _. closed))
        (λ _. g)

  create_response-Here :
      (bytes : List ℕ) (slot c : ℕ) (sl : SessionLayer T)
      → is_from slot c s ≡ false
      → Here j s sl
      → Here j s (handle_create_session_response link u bytes slot c sl)
  unfolding handle_create_session_response
  create_response-Here [] slot c sl f g = g
  create_response-Here (_ ∷ []) slot c sl f g = g
  create_response-Here (_ ∷ _ ∷ []) slot c sl f g = g
  create_response-Here (_ ∷ _ ∷ _ ∷ []) slot c sl f g = g
  create_response-Here (_ ∷ _ ∷ _ ∷ _ ∷ []) slot c sl f g = g
  create_response-Here (_ ∷ _ ∷ _ ∷ _ ∷ _ ∷ []) slot c sl f g = g
  create_response-Here (_ ∷ _ ∷ _ ∷ _ ∷ _ ∷ _ ∷ []) slot c sl f g = g
  create_response-Here (_ ∷ _ ∷ _ ∷ _ ∷ _ ∷ _ ∷ _ ∷ []) slot c sl f g = g
  create_response-Here (l ∷ status ∷ b2 ∷ b3 ∷ b4 ∷ hi ∷ lo ∷ b7 ∷ rest) slot c sl f g =
      let n = hi * 2 ^ 8 + lo in
      if_rule (Here j s) (l == 7) _ _
        (λ _.
          option_rule (Here j s) (get_elem? (sl.sessions) n) _ _ (λ _. g)
            λ t e.
              if_rule (Here j s) (is_from slot c t) _ _
                (λ h.
                  let other = apart (sl.sessions) n j t s (is_from slot c) e g h f in
                  state_rule (Here j s) (t.state) _ _ _ _ g g
                    (if_rule (Here j s) (status == status_open) _ _
                      (λ _. inform-Here link u j s _ _ (with_session-Here sl n j _ s other g))
                      (λ _. inform-Here link u j s _ _ (with_session-Here sl n j _ s other g)))
                    g)
                (λ _. g))
        (λ _. g)

  close_response-Here :
      (bytes : List ℕ) (slot c : ℕ) (sl : SessionLayer T)
      → is_from slot c s ≡ false
      → Here j s sl
      → Here j s (handle_close_session_response bytes slot c sl)
  unfolding handle_close_session_response
  close_response-Here [] slot c sl f g = g
  close_response-Here (_ ∷ []) slot c sl f g = g
  close_response-Here (_ ∷ _ ∷ []) slot c sl f g = g
  close_response-Here (_ ∷ _ ∷ _ ∷ []) slot c sl f g = g
  close_response-Here (_ ∷ _ ∷ _ ∷ _ ∷ []) slot c sl f g = g
  close_response-Here (l ∷ status ∷ hi ∷ lo ∷ b4 ∷ rest) slot c sl f g =
      let n = hi * 2 ^ 8 + lo in
      if_rule (Here j s) (l == 4) _ _
        (λ _.
          option_rule (Here j s) (get_elem? (sl.sessions) n) _ _ (λ _. g)
            λ t e.
              if_rule (Here j s) (is_from slot c t) _ _
                (λ h. state_rule (Here j s) (t.state) _ _ _ _ g g g (
                  with_session-Here sl n j _ s
                    (apart (sl.sessions) n j t s (is_from slot c) e g h f) g))
                (λ _. g))
        (λ _. g)

  package-Here :
      (bytes : List ℕ) (slot c : ℕ) (sl : SessionLayer T)
      → Here j s sl
      → Returns (Here j s) (handle_session_package bytes slot c sl)
  unfolding handle_session_package
  package-Here [] slot c sl g = g
  package-Here (_ ∷ []) slot c sl g = g
  package-Here (_ ∷ _ ∷ []) slot c sl g = g
  package-Here (l ∷ hi ∷ lo ∷ bytes) slot c sl g =
      let n = hi * 2 ^ 8 + lo in
      let P : Result (SessionLayer T) → Type 0 = λ r. Returns (Here j s) r in
      if_rule P (l == 2) _ _
        (λ _.
          option_rule P (get_elem? (sl.sessions) n) _ _ (λ _. g)
            λ t e.
              if_rule P (is_from slot c t) _ _
                (λ h.
                  state_rule P (t.state) _ _ _ _ g
                    (Returns-bind (IsFront bytes) (Here j s) (apdus (suc (length bytes)) bytes) _
                      (apdus-IsFront (suc (length bytes)) bytes (omega arith))
                      λ as' _. option_rule (Here j s) (t.callback) _ _ (λ _. g) (λ _ _. g))
                    g g)
                (λ _. g))
        (λ _. g)

  receive_data-Here :
      (bytes : List ℕ) (slot c : ℕ) (sl : SessionLayer T)
      → Here j s sl
      → not_idle s ≡ true
      → is_from slot c s ≡ false
      → Returns (Here j s) (receive_data link u bytes slot c sl)
  unfolding receive_data
  receive_data-Here [] slot c sl g live f = g
  receive_data-Here (tag ∷ bytes) slot c sl g live f =
      let P : Result (SessionLayer T) → Type 0 = λ r. Returns (Here j s) r in
      if_rule P (tag == st_open_session_req) _ _
        (λ _. request-Here link u j s bytes slot c sl live g)
        λ _.
          if_rule P (tag == st_close_session_req) _ _ (λ _. close_request-Here bytes slot c sl f g)
            λ _.
              if_rule P (tag == st_session_number) _ _ (λ _. package-Here bytes slot c sl g)
                λ _.
                  if_rule P (tag == st_create_session_res) _ _
                    (λ _. create_response-Here bytes slot c sl f g)
                    λ _.
                      if_rule P (tag == st_close_session_res) _ _
                        (λ _. close_response-Here bytes slot c sl f g) (λ _. g)

not_idle_of : (s : Session) → s.state ≢ idle → not_idle s ≡ true
not_idle_of s h = ground arith

is_from_other :
    (slot c : ℕ) (s : Session)
    → (s.slot_id ≢ slot) ⊎ (s.connection_id ≢ c)
    → is_from slot c s ≡ false
is_from_other slot c s h = ground arith

-- Whatever data comes from connection `c` of a slot, the layer handles it to its end without a read
-- outside it, and a session that is not idle and belongs to another connection or another slot stays
-- as it is.
pub transport_callback-Here :
    {T : Type 0} (link : TransportLink T) (u : Upper) (j : ℕ) (s : Session) (bytes : List ℕ)
    (slot c : ℕ) (sl : SessionLayer T)
    → get_elem? (sl.sessions) j ≡ some s
    → s.state ≢ idle
    → (s.slot_id ≢ slot) ⊎ (s.connection_id ≢ c)
    → Returns
        (λ sl'. get_elem? (sl'.sessions) j ≡ some s)
        (transport_callback link u (data_received bytes) slot c sl)
unfolding transport_callback
transport_callback-Here link u j s bytes slot c sl g live f =
    receive_data-Here link u j s bytes slot c sl g (not_idle_of s live) (is_from_other slot c s f)
