-- ===== src/En50221/Transport/Polling.antt =====
-- en50221_transport.c: what `en50221_tl_poll` does with the connections of a slot.
use dvb_apps.Common.{
  ℕ, zero, suc, ◌+◌, ◌*◌, ◌/◌, Bool, true, false, not, ◌&&◌, none, some, List, [], ◌∷◌, ltb, ◌==◌,
  if◌then◌else◌, get_elem?,
}
use dvb_apps.En50221.Transport.{
  ConnectionState, idle, active, active_deletequeued, in_creation, in_deletion, Timeval, Connection,
  timeout, Event, Slot, Done, misused, failed, with_connection, link_write, change, t_delete_t_c,
  t_data_last,
}

-- `time_after`, the clock being `now`.
unfoldable pub time_after : Timeval → Timeval → ℕ → Bool
time_after now old delta_ms =
    ltb (old.tv_sec * 1000 + old.tv_usec / 1000 + delta_ms) (now.tv_sec * 1000 + now.tv_usec / 1000)

-- `response_timeout` and `poll_delay` of a slot, in ms.
pub record Delays : Type 0 where
  pub response_timeout : ℕ
  pub poll_delay : ℕ

abbrev pub may_send : ConnectionState → Bool
may_send in_creation = true
may_send active = true
may_send active_deletequeued = true
may_send _ = false

-- The first byte of a message is the tag for deletion.
abbrev pub is_delete : List ℕ → Bool
is_delete [] = false
is_delete (tag ∷ _) = tag == t_delete_t_c

-- The connection once its message is sent.
unfoldable pub sent : Timeval → List ℕ → Connection → Connection
sent now msg k =
    let k' = record k { tx_time = now } in
    if is_delete msg
    then record k' { state = in_deletion; chain_buffer = none; chain_freed = false }
    else k'

-- The head of the queue, if the connection awaits no answer; it is lost where the device refuses it.
unfoldable pub send_queued : (List Event → Bool) → Timeval → ℕ → Connection → Slot → Done
send_queued device now c k s = elim k.send_queue [
  | [] ↦ (true, s)
  | msg ∷ msgs ↦
      let popped = with_connection c (record k { send_queue = msgs }) s in
      let r = link_write device c msg popped in
      if may_send (k.state) && (k.tx_time.tv_sec == 0)
      then (if r.0
          then (if is_delete msg && k.chain_freed
              then misused c (r.1)
              else (true, change c (sent now msg) (r.1)))
          else r)
      else (true, s)
]

-- `en50221_tl_poll_tc`.
unfoldable pub poll_tc : (List Event → Bool) → Timeval → ℕ → Slot → Done
poll_tc device now c s =
    link_write device c (t_data_last ∷ 1 ∷ c ∷ []) (change c (λ k. record k { tx_time = now }) s)

abbrev pub is_active : ConnectionState → Bool
is_active active = true
is_active _ = false

-- The poll, if it is due.
unfoldable pub poll_due : (List Event → Bool) → Timeval → Delays → ℕ → Connection → Slot → Done
poll_due device now d c k s =
    if is_active (k.state)
      && ((k.tx_time.tv_sec == 0) && time_after now (k.last_poll_time) (d.poll_delay))
    then poll_tc device now c (with_connection c (record k { last_poll_time = now }) s)
    else (true, s)

-- What an answer that does not come means for each state.
unfoldable pub timed_out : ℕ → Connection → Slot → Done
timed_out c k s = elim k.state [
  | in_creation ↦ (true, with_connection c (record k { state = idle }) s)
  | in_deletion ↦ (true, with_connection c (record k { state = idle }) s)
  | active ↦ failed timeout s
  | active_deletequeued ↦ failed timeout s
  | idle ↦ (true, s)
]

unfoldable pub check_timeout : Timeval → Delays → ℕ → Connection → Slot → Done
check_timeout now d c k s =
    if not (k.tx_time.tv_sec == 0) && time_after now (k.tx_time) (d.response_timeout)
    then timed_out c k s
    else (true, s)

-- A step on connection `c` as it is now.
abbrev pub at_connection : ℕ → (Connection → Slot → Done) → Slot → Done
at_connection c f s = elim (get_elem? (s.connections) c) [ none ↦ (true, s) | some k ↦ f k s ]

-- One step after the other, up to an error.
infixl 5 ◌and_then◌
abbrev pub ◌and_then◌ : Done → (Slot → Done) → Done
(true, s) and_then f = f s
(false, s) and_then f = (false, s)

abbrev pub is_idle : ConnectionState → Bool
is_idle idle = true
is_idle _ = false

-- One round for connection `c`.
unfoldable pub poll_connection : (List Event → Bool) → Timeval → Delays → ℕ → Slot → Done
poll_connection device now d c s =
    at_connection c
      (λ k s.
        if is_idle (k.state)
        then (true, s)
        else send_queued device now c k s
          and_then (at_connection c (poll_due device now d c))
          and_then (at_connection c (check_timeout now d c)))
      s

-- `n` connections, from number `c` on.
unfoldable pub poll_connections : ℕ → (List Event → Bool) → Timeval → Delays → ℕ → Slot → Done
poll_connections zero device now d c s = (true, s)
poll_connections (suc n) device now d c s =
    poll_connection device now d c s and_then poll_connections n device now d (c + 1)
