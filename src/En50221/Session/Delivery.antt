-- ===== src/En50221/Session/Delivery.antt =====
-- A package on its way up.
use dvb_apps.Common.{
  ℕ, suc, ◌+◌, ◌*◌, ◌/◌, ◌%◌, ◌^◌, ◌<◌, ◌≡◌, ap, some, List, ◌∷◌, ◌++◌, map, arith, length,
  get_elem?, All, ok,
}
use mathlib.Core.List.{flatten}
use dvb_apps.En50221.Link.{TransportLink}
use dvb_apps.En50221.Session.{
  active, Session, apdu, Upper, SessionLayer, st_session_number, two_bytes,
}
use dvb_apps.En50221.Session.Receive.{
  handle_session_package, receive_data, data_received, transport_callback,
}
use dvb_apps.En50221.Session.Apdus.{Message, message_bytes, IsRest, apdus-message_bytes}

-- A package of an active session, from the connection that the session belongs to: its messages, each
-- with a body of less than 2 ^ 16 bytes, go to the session's callback, one by one and in their order.
-- Data behind them that does not start with a message is dropped.
pub transport_callback-message_bytes :
    {T : Type 0} (link : TransportLink T) (u : Upper) (n cb : ℕ) (ms : List Message) (rest : List ℕ)
    (s : Session) (sl : SessionLayer T)
    → n < 2 ^ 16
    → get_elem? (sl.sessions) n ≡ some s
    → s.state ≡ active
    → s.callback ≡ some cb
    → All (λ m. length (m.1) < 2 ^ 16) ms
    → IsRest rest
    → transport_callback link u
        (data_received
          (st_session_number ∷ 2 ∷ (two_bytes n ++ (flatten (map message_bytes ms) ++ rest))))
        (s.slot_id)
        (s.connection_id)
        sl
      ≡ ok (record sl {
        events = sl.events ++ map (apdu cb (s.slot_id) n (s.resource_id)) (map message_bytes ms);
      })
unfolding transport_callback receive_data handle_session_package
transport_callback-message_bytes link u n cb ms rest s sl h g a k m r =
    let bytes = flatten (map message_bytes ms) ++ rest in
    let e : n / 2 ^ 8 % 2 ^ 8 * 2 ^ 8 + n % 2 ^ 8 ≡ n = omega arith in
    let d = apdus-message_bytes (suc (length bytes)) ms rest m r (omega arith) in
    ground (arith, e, g, a, k, d, ap (get_elem? (sl.sessions)) e)
