-- ===== src/En50221/Session/Calls.antt =====
-- en50221_session.c: the calls of the host on its sessions.
use dvb_apps.Common.{
  ℕ, zero, suc, ◌+◌, ◌%◌, ◌^◌, Bool, true, false, ◌&&◌, Option, none, some, List, ◌∷◌, ◌++◌, ltb,
  ◌==◌, if◌then◌else◌, length, get_elem?,
}
use mathlib.Core.List.{flatten}
use dvb_apps.En50221.Transport.{badsessionnumber, iovlimit}
use dvb_apps.En50221.Link.{TransportLink}
use dvb_apps.En50221.Session.{
  SessionState, idle, active, in_creation, in_deletion, Session, SessionLayer, st_session_number,
  st_create_session, st_close_session_req, two_bytes, four_bytes, with_session, refused, send_below,
  alloc_new_session,
}

abbrev pub may_close : SessionState → Bool
may_close active = true
may_close in_deletion = true
may_close _ = false

-- Whether a session is one of those that a broadcast is for; no slot means all.
abbrev pub is_addressed : Option ℕ → ℕ → Session → Bool
is_addressed slot? resource s = elim s.state [
  | active ↦ (elim slot? [ none ↦ true | some i ↦ i == s.slot_id ]) && (s.resource_id == resource)
  | _ ↦ false
]

abbrev pub is_there : Option Session → (Session → Bool) → Bool
is_there none p = false
is_there (some s) p = p s

module _ {T : Type 0} (link : TransportLink T) where
  -- Where the layer below refuses, its error is taken over.
  abbrev pub taken_over : Bool × SessionLayer T → Bool × SessionLayer T
  taken_over (true, sl) = (true, sl)
  taken_over (false, sl) = (false, record sl { error = link.get_error (sl.tl) })

  -- A session whose message could not be sent is idle again, if it still has the state `a`.
  abbrev pub undone : ℕ → (SessionState → Bool) → SessionLayer T → SessionLayer T
  undone n was sl = elim (get_elem? (sl.sessions) n) [
    | none ↦ sl
    | some s ↦ if was (s.state) then with_session n (record s { state = idle }) sl else sl
  ]

  -- The number of the session, or -1.
  unfoldable pub create_session : ℕ → ℕ → ℕ → Option ℕ → SessionLayer T → Option ℕ × SessionLayer T
  create_session slot c resource callback sl =
      let (n?, sl1) = alloc_new_session resource slot c callback sl in
      elim n? [
        | none ↦ (none, sl1)
        | some n ↦
            let hdr = st_create_session ∷ 6 ∷ (four_bytes resource ++ two_bytes n) in
            let r = send_below link slot c hdr sl1 in
            if r.0 then (some n, r.1) else (
              none,
              (taken_over
                  (false, undone n (λ a. elim a [ in_creation ↦ true | _ ↦ false ]) (r.1))).1,
            )
      ]

  unfoldable pub destroy_session : ℕ → SessionLayer T → Bool × SessionLayer T
  destroy_session n sl = elim (get_elem? (sl.sessions) n) [
    | none ↦ refused badsessionnumber sl
    | some s ↦ elim (may_close (s.state)) [
      | false ↦ refused badsessionnumber sl
      | true ↦
          let sl1 = with_session n (record s { state = in_deletion }) sl in
          let hdr = st_close_session_req ∷ 2 ∷ two_bytes n in
          let r = send_below link (s.slot_id) (s.connection_id) hdr sl1 in
          if r.0
          then (true, r.1)
          else taken_over (false, undone n (λ a. elim a [ in_deletion ↦ true | _ ↦ false ]) (r.1))
    ]
  ]

  -- `en50221_sl_send_data`: `en50221_tl_send_datav` makes one message of the header and the data.
  unfoldable pub send_data : ℕ → List ℕ → SessionLayer T → Bool × SessionLayer T
  send_data n bytes sl = elim (get_elem? (sl.sessions) n) [
    | none ↦ refused badsessionnumber sl
    | some s ↦ elim s.state [
      | active ↦ taken_over (
          send_below link (s.slot_id) (s.connection_id)
            (st_session_number ∷ 2 ∷ (two_bytes n ++ bytes)) sl)
      | _ ↦ refused badsessionnumber sl
    ]
  ]

  -- `en50221_sl_send_datav` takes up to 9 parts.
  unfoldable pub send_datav : ℕ → List (List ℕ) → SessionLayer T → Bool × SessionLayer T
  send_datav n vector sl = elim (get_elem? (sl.sessions) n) [
    | none ↦ refused badsessionnumber sl
    | some s ↦ elim s.state [
      | active ↦
          if ltb 9 (length vector) then refused iovlimit sl else send_data n (flatten vector) sl
      | _ ↦ refused badsessionnumber sl
    ]
  ]

  -- `n` sessions, from number `i` on.
  unfoldable pub broadcast_from : ℕ → ℕ → Option ℕ → ℕ → List ℕ → SessionLayer T → SessionLayer T
  broadcast_from zero i slot? resource bytes sl = sl
  broadcast_from (suc n) i slot? resource bytes sl =
      let here = is_there (get_elem? (sl.sessions) i) (is_addressed slot? resource) in
      broadcast_from n (i + 1) slot? resource bytes
        (if here then (send_data (i % 2 ^ 16) bytes sl).1 else sl)

  unfoldable pub broadcast_data : Option ℕ → ℕ → List ℕ → SessionLayer T → SessionLayer T
  broadcast_data slot? resource bytes sl =
      broadcast_from (length (sl.sessions)) 0 slot? resource bytes sl
