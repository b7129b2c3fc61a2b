-- ===== src/En50221/Transport/CallRuns.antt =====
-- Concrete messages, calls and polls of the transport layer.
use dvb_apps.Common.{
  ℕ, zero, suc, ◌≡◌, refl, Bool, true, false, none, some, List, [], ◌∷◌, ◌++◌, arith,
}
use dvb_apps.En50221.Asn1.{asn_1_encode, write}
use dvb_apps.En50221.Transport.{
  ConnectionState, idle, active, in_creation, in_deletion, Timeval, Connection, Event, Slot,
  first_idle, alloc_new_tc, t_c_t_c_reply, t_data_last,
}
use dvb_apps.En50221.Transport.Handlers.{handle_create_tc_reply, handle_delete_tc_reply}
use dvb_apps.En50221.Transport.Receive.{Tpdu, handle_tpdu}
use dvb_apps.En50221.Transport.Frame.{frame}
use dvb_apps.En50221.Transport.Sending.{slot_send_data, slot_new_tc, data_message}
use dvb_apps.En50221.Transport.Layer.{Layer, tl_send_data, on_slot}
use dvb_apps.En50221.Transport.Poll.{World, incoming}
use dvb_apps.En50221.Transport.Moves.{Moved, from_module}
use dvb_apps.En50221.Transport.States.{handle_tpdu-Moved}
use dvb_apps.En50221.Transport.Calls.{message, run_call, run_calls, Confirmed, run_calls-Confirmed}
use dvb_apps.En50221.Transport.Reuse.{rounds, reuse-Stuck}
use dvb_apps.En50221.Link.OfLayer.{waiting, tl_send_data-frame}

abbrev time : Timeval
time = record { tv_sec = 9; tv_usec = 500000 }

abbrev unused : Connection
unused = record {
  state = idle;
  tx_time = time;
  last_poll_time = time;
  chain_buffer = none;
  chain_freed = false;
  send_queue = [];
}

abbrev connection : ConnectionState → Connection
connection a = record {
  state = a;
  tx_time = time;
  last_poll_time = time;
  chain_buffer = none;
  chain_freed = false;
  send_queue = [];
}

abbrev slot : ConnectionState → Slot
slot a = record { connections = unused ∷ connection a ∷ []; error = none; events = [] }

-- A device that takes every message.
abbrev device : List Event → Bool
device events = true

abbrev reply : Tpdu
reply = record { tag = t_c_t_c_reply; connection_id = 1; body = []; rest = [] }

handle_tpdu-Moved_example :
    Moved
      (from_module t_c_t_c_reply)
      (unused ∷ connection in_creation ∷ [])
      ((handle_tpdu device time reply (connection in_creation) (slot in_creation)).1.connections)
handle_tpdu-Moved_example =
    handle_tpdu-Moved device time reply (connection in_creation) (slot in_creation) refl

run_calls-Confirmed_example : Confirmed device 1 ((time, message reply) ∷ []) (slot in_creation)
unfolding run_calls run_call handle_tpdu handle_create_tc_reply
run_calls-Confirmed_example =
    run_calls-Confirmed device 1 ((time, message reply) ∷ []) (slot in_creation)
      (λ e. ground (arith, e)) refl

reused_lem :
    slot_new_tc true ((handle_delete_tc_reply 1 (connection in_deletion) (slot in_deletion)).1) ≡ (
      some 1,
      (slot_new_tc true
          ((handle_delete_tc_reply 1 (connection in_deletion) (slot in_deletion)).1)).1,
    )
unfolding slot_new_tc handle_delete_tc_reply alloc_new_tc first_idle
reused_lem = refl

reuse-Stuck_example :
    (rounds device
      (record { response_timeout = 1000; poll_delay = 100 })
      1
      (time ∷ time ∷ [])
      ((slot_new_tc true
        ((handle_delete_tc_reply 1 (connection in_deletion) (slot in_deletion)).1)).1)).events
    ≡ ((slot_new_tc true
        ((handle_delete_tc_reply 1 (connection in_deletion) (slot in_deletion)).1)).1
      ).events
reuse-Stuck_example =
    reuse-Stuck device (record { response_timeout = 1000; poll_delay = 100 }) 1 (time ∷ time ∷ [])
      (connection in_deletion) true (slot in_deletion)
      ((slot_new_tc true
        ((handle_delete_tc_reply 1 (connection in_deletion) (slot in_deletion)).1)).1)
      refl refl (λ e. absurd (omega (arith, e))) reused_lem

-- Data of `n` bytes.
unfoldable zeros : ℕ → List ℕ
zeros zero = []
zeros (suc n) = 0 ∷ zeros n

-- One slot, whose connections 0 and 1 are active.
abbrev layer : Layer
layer = record {
  max_slots = 1;
  max_connections_per_slot = 2;
  slots =
      record {
        ca_hndl = some 3;
        slot = 0;
        connections = connection active ∷ connection active ∷ [];
        delays = record { response_timeout = 1000; poll_delay = 100 };
      }
      ∷ [];
  slot_pollfds = some 3 ∷ [];
  slots_changed = false;
  error = none;
  error_slot = none;
  events = [];
}

-- Module 0 asks for connection 1 to be read, and then sends an empty part on it.
abbrev reading_world : World
reading_world = record {
  device = λ _. true;
  now = time;
  poll_fails = false;
  reading = λ _. incoming 0 (0x80 ∷ 2 ∷ 1 ∷ 0x80 ∷ 0xa1 ∷ 1 ∷ 1 ∷ []);
}

sending_lem : (tl_send_data true 0 1 (7 ∷ []) layer).0 ≡ true
unfolding tl_send_data on_slot slot_send_data data_message asn_1_encode write
sending_lem = refl

tl_send_data-frame_example :
    waiting ((tl_send_data true 0 1 (7 ∷ []) layer).1) 0 1
    ≡ [] ++ (frame t_data_last 1 (7 ∷ []) ∷ [])
tl_send_data-frame_example = tl_send_data-frame layer 0 1 (7 ∷ []) (omega arith) sending_lem
