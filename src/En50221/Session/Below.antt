-- ===== src/En50221/Session/Below.antt =====
-- What the calls of the host hand to the transport layer.
use dvb_apps.Common.{
  ℕ, ◌+◌, ◌^◌, ◌<◌, ◌≡◌, sym, ap, ◌∙◌, ◌≢◌, ◌⊎◌, inr, true, some, List, [], ◌∷◌, ◌++◌, arith,
  length, get_elem?, ok,
}
use dvb_apps.En50221.Transport.{t_data_last}
use dvb_apps.En50221.Transport.Receive.{parse_tpdu}
use dvb_apps.En50221.Transport.Frame.{frame, parse_tpdu-frame}
use dvb_apps.En50221.Link.{TransportLink}
use dvb_apps.En50221.Session.{
  active, Session, SessionLayer, st_session_number, two_bytes, send_below,
}
use dvb_apps.En50221.Session.Calls.{send_data, taken_over}

module _ {T : Type 0} (link : TransportLink T) (n : ℕ) (s : Session) (sl : SessionLayer T) where
  -- Up to 65530 bytes sent on an active session, if the transport layer takes them: one message more
  -- waits for the connection of the session, behind those that waited; whoever parses it, with
  -- anything behind it, finds data for that connection, which is the header of the session and the
  -- bytes. No queue of another slot or connection changes.
  pub send_data-parse_tpdu :
      (bytes rest : List ℕ)
      → length bytes + 5 < 2 ^ 16
      → get_elem? (sl.sessions) n ≡ some s
      → s.state ≡ active
      → (send_data link n bytes sl).0 ≡ true
      → (msg : List ℕ) × (link.queue
            ((send_data link n bytes sl).1.tl)
            (s.slot_id)
            (s.connection_id)
          ≡ link.queue (sl.tl) (s.slot_id) (s.connection_id) ++ (msg ∷ []))
        × (parse_tpdu (msg ++ rest)
            ≡ ok (record {
              tag = t_data_last;
              connection_id = s.connection_id;
              body = st_session_number ∷ 2 ∷ (two_bytes n ++ bytes);
              rest = rest;
            }))
        × ((i c : ℕ)
            → (s.slot_id ≢ i) ⊎ (s.connection_id ≢ c)
            → link.queue ((send_data link n bytes sl).1.tl) i c ≡ link.queue (sl.tl) i c)
  unfolding send_data
  send_data-parse_tpdu bytes rest h g a t =
      let body = st_session_number ∷ 2 ∷ (two_bytes n ++ bytes) in
      let sent = send_below link (s.slot_id) (s.connection_id) body sl in
      let e : send_data link n bytes sl ≡ taken_over link sent = ground (arith, g, a) in
      let o : (taken_over link sent).0 ≡ true = sym (ap (λ r. r.0) e) ∙ t in
      let l : sent.0 ≡ true = ground (arith, o) in
      let q : (send_data link n bytes sl).1.tl ≡ sent.1.tl = ground (arith, e, l) in
      (
        frame t_data_last (s.connection_id) body,
        ap (λ tl. link.queue tl (s.slot_id) (s.connection_id)) q
            ∙ link.send_data-queue (sl.tl) (s.slot_id) (s.connection_id) body (omega arith) l,
        parse_tpdu-frame t_data_last (s.connection_id) body rest (omega arith),
        λ i c d.
            ap (λ tl. link.queue tl i c) q
            ∙ link.send_data-other (sl.tl) (s.slot_id) (s.connection_id) body i c (inr d),
      )
