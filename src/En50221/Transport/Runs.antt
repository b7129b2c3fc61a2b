-- ===== src/En50221/Transport/Runs.antt =====
-- Concrete reads from a module.
use dvb_apps.Common.{ℕ, ◌≡◌, refl, Bool, true, false, none, some, List, [], ◌∷◌, ◌++◌, arith, ok}
use dvb_apps.En50221.Asn1.{asn_1_decode}
use dvb_apps.En50221.Transport.{
  idle, active, Timeval, Connection, outofmemory, Event, Slot, failed, misused, answered,
}
use dvb_apps.En50221.Transport.Handlers.{handle_data_more, with_room, realloc}
use dvb_apps.En50221.Transport.Receive.{tpdu_behind, parse_tpdu, handle_tpdu, process_data}
use dvb_apps.En50221.Transport.Chain.{
  chain, with_received, emptied, process_data-chain, process_data-chain_lost,
}

abbrev never : Timeval
never = record { tv_sec = 0; tv_usec = 0 }

abbrev now : Timeval
now = record { tv_sec = 9; tv_usec = 500000 }

abbrev unused : Connection
unused = record {
  state = idle;
  tx_time = never;
  last_poll_time = never;
  chain_buffer = none;
  chain_freed = false;
  send_queue = [];
}

abbrev open_connection : Connection
open_connection = record {
  state = active;
  tx_time = now;
  last_poll_time = never;
  chain_buffer = none;
  chain_freed = false;
  send_queue = [];
}

abbrev collecting : Connection
collecting = record {
  state = active;
  tx_time = now;
  last_poll_time = never;
  chain_buffer = some (5 ∷ []);
  chain_freed = false;
  send_queue = [];
}

abbrev freed_chain : Connection
freed_chain = record (answered open_connection) { chain_buffer = some []; chain_freed = true }

abbrev slot : Connection → Slot
slot k = record { connections = unused ∷ k ∷ []; error = none; events = [] }

-- A device that takes every message.
abbrev device : List Event → Bool
device events = true

process_data-chain_example :
    process_data 4 device now
      (chain 1 ((1 ∷ 2 ∷ []) ∷ (3 ∷ []) ∷ []) (4 ∷ []))
      (slot open_connection)
    ≡ ok (true, with_received 1 open_connection (1 ∷ 2 ∷ 3 ∷ 4 ∷ []) (slot open_connection))
unfolding mathlib.Core.List.flatten
process_data-chain_example =
    process_data-chain device now 4 1 ((1 ∷ 2 ∷ []) ∷ (3 ∷ []) ∷ []) (4 ∷ []) open_connection
      (slot open_connection) (λ _ _ _. refl) (omega arith) (ground arith) (ground arith)
      (omega arith) (refl, refl) refl refl

process_data-chain_lost_example :
    process_data 2 device now (chain 1 [] []) (slot collecting)
    ≡ ok (emptied 1 collecting (slot collecting))
process_data-chain_lost_example =
    process_data-chain_lost device now 2 1 collecting (slot collecting) (λ _ _ _. refl)
      (omega arith) (omega arith) (refl, refl) refl

-- Two empty parts: the second `realloc` frees what the first one gave, and a third uses it.
abbrev empty_part : List ℕ
empty_part = 0xa1 ∷ 1 ∷ 1 ∷ []

freed_test :
    process_data 7 device now (empty_part ++ empty_part) (slot open_connection)
    ≡ ok (failed outofmemory (slot freed_chain))
unfolding process_data parse_tpdu asn_1_decode tpdu_behind handle_tpdu handle_data_more with_room
    realloc
freed_test = refl

used_test :
    process_data 4 device now empty_part (slot freed_chain) ≡ ok (misused 1 (slot freed_chain))
unfolding process_data parse_tpdu asn_1_decode tpdu_behind handle_tpdu handle_data_more with_room
    realloc
used_test = refl
