-- ===== src/En50221/App/OverSession.antt =====
-- en50221_stdcam_llci.c: the resources on top of the session layer.
use dvb_apps.Common.{
  ℕ, suc, ◌+◌, ◌^◌, ◌≤◌, ◌<◌, ◌≡◌, refl, sym, ap, subst, ◌∙◌, inl, Bool, true, some, List, [], ◌∷◌,
  ◌++◌, map, append-nil, arith, length, get_elem?, length-append, ok,
}
use dvb_apps.En50221.App.{SendFunctions}
use mathlib.Core.List.{flatten}
use dvb_apps.En50221.Transport.Frame.{length_field}
use dvb_apps.En50221.Transport.{t_data_last}
use dvb_apps.En50221.Transport.Receive.{parse_tpdu}
use dvb_apps.En50221.Link.{TransportLink}
use dvb_apps.En50221.Session.{active, Session, SessionLayer, st_session_number, two_bytes}
use dvb_apps.En50221.Session.Calls.{send_data, send_datav}
use dvb_apps.En50221.Session.Below.{send_data-parse_tpdu}
use dvb_apps.En50221.Session.Receive.{apdus}
use dvb_apps.En50221.Session.Apdus.{Message, message_bytes, apdus-message_bytes}

-- `sendfuncs`.
abbrev pub session_functions : {T : Type 0} → TransportLink T → SendFunctions (SessionLayer T)
session_functions link = record { send_data = send_data link; send_datav = send_datav link }

-- What has happened if the layer below took a message of a resource: it waits for the connection of the
-- session, as one message more; read back there, it is data of the session, and that is the message.
abbrev pub Queued :
    {T : Type 0}
    → TransportLink T
    → ℕ
    → Session
    → SessionLayer T
    → Message
    → Bool × SessionLayer T
    → Type 0
Queued link n s sl m r =
    (rest : List ℕ)
    → r.0 ≡ true
    → (msg : List ℕ) × (link.queue (r.1.tl) (s.slot_id) (s.connection_id)
        ≡ link.queue (sl.tl) (s.slot_id) (s.connection_id) ++ (msg ∷ []))
      × (parse_tpdu (msg ++ rest)
          ≡ ok (record {
            tag = t_data_last;
            connection_id = s.connection_id;
            body = st_session_number ∷ 2 ∷ (two_bytes n ++ message_bytes m);
            rest = rest;
          }))
      × (apdus (suc (length (message_bytes m))) (message_bytes m) ≡ ok (message_bytes m ∷ []))

apdus_one :
    (m : Message)
    → length (m.1) < 2 ^ 16
    → apdus (suc (length (message_bytes m))) (message_bytes m) ≡ ok (message_bytes m ∷ [])
unfolding mathlib.Core.List.flatten
apdus_one m h =
    let bytes = message_bytes m in
    let e : flatten (map message_bytes (m ∷ [])) ++ [] ≡ bytes =
      append-nil (bytes ++ []) ∙ append-nil bytes in
    ap (apdus (suc (length bytes))) (sym e)
    ∙ apdus-message_bytes (suc (length bytes)) (m ∷ []) [] (h, tt) (inl refl)
        (omega (arith, ap length e))

pub send_data-Queued :
    {T : Type 0} (link : TransportLink T) (n : ℕ) (s : Session) (sl : SessionLayer T) (m : Message)
    → length (m.1) + 12 < 2 ^ 16
    → get_elem? (sl.sessions) n ≡ some s
    → s.state ≡ active
    → Queued link n s sl m (send_data link n (message_bytes m) sl)
send_data-Queued link n s sl m h g a rest t =
    let size = length-append (length_field (length (m.1))) (m.1) in
    let r = send_data-parse_tpdu link n s sl (message_bytes m) rest (ground (arith, size)) g a t in
    (r.0, r.1, r.2, apdus_one m (omega arith))

pub send_datav-Queued :
    {T : Type 0} (link : TransportLink T) (n : ℕ) (s : Session) (sl : SessionLayer T) (m : Message)
    (vector : List (List ℕ))
    → length (m.1) + 12 < 2 ^ 16
    → get_elem? (sl.sessions) n ≡ some s
    → s.state ≡ active
    → length vector ≤ 9
    → flatten vector ≡ message_bytes m
    → Queued link n s sl m (send_datav link n vector sl)
unfolding send_datav
send_datav-Queued link n s sl m vector h g a l e =
    let v : send_datav link n vector sl ≡ send_data link n (flatten vector) sl =
      ground (arith, g, a, l) in
    subst (Queued link n s sl m) (sym (v ∙ ap (λ b. send_data link n b sl) e))
      (send_data-Queued link n s sl m h g a)
