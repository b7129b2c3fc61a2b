-- ===== src/En50221/Transport.antt =====
-- lib/libdvben50221/en50221_transport.c: the connections between a host and its modules.
--
-- `Slot` is what the code sees of one struct en50221_slot: its connections, together with `tl->error`
-- and a log of what was written to the device and of the callbacks; `Layer` puts the slots together. `chain_buffer` is the `buffer_length` bytes that it has. A callback is
-- registered, and what it does in turn is not modelled. The clock stands still during a call.
--
-- `realloc` is the one of the GNU library: a block that is given a size of 0 is freed and NULL is
-- returned. The code takes that for an error and keeps the pointer, which `chain_freed` says; where it
-- uses the pointer again, C defines nothing from there on, and the model logs `freed_used` and stops
-- with -1. Whether there is memory for more than that is up to the same function as the writes.
pub mod Handlers
pub mod Receive
pub mod Sending
pub mod Polling
pub mod Layer
pub mod Poll
pub mod Moves
pub mod Alloc
pub mod Handled
pub mod States
pub mod PollStates
pub mod Calls
pub mod Reuse
pub mod Sent
pub mod Shape
pub mod Frame
pub mod Chain
mod Runs
mod CallRuns
use dvb_apps.Common.{
  ℕ, zero, suc, ◌+◌, ◌-◌, ◌*◌, ◌%◌, ◌^◌, Bool, true, false, ◌&&◌, ◌||◌, Option, none, some, List,
  [], ◌∷◌, ◌++◌, ltb, leb, ◌==◌, if◌then◌else◌, bit, length, get_elem?, set, take, drop, Result, ok,
  fail, fault, ◌>>=◌, ◌>>◌, guard, read,
}
use dvb_apps.En50221.Asn1.{asn_1_decode, asn_1_encode}

-- `T_STATE_…`.
pub data ConnectionState : Type 0 where
  idle active active_deletequeued in_creation in_deletion : ConnectionState

-- `struct timeval`.
pub record Timeval : Type 0 where
  pub tv_sec : ℕ
  pub tv_usec : ℕ

-- The seconds of `tx_time` are 0 where no answer is awaited; `chain_freed` where `chain_buffer` points to
-- memory that has been freed.
pub record Connection : Type 0 where
  pub state : ConnectionState
  pub tx_time : Timeval
  pub last_poll_time : Timeval
  pub chain_buffer : Option (List ℕ)
  pub chain_freed : Bool
  pub send_queue : List (List ℕ)

-- `EN50221ERR_…`.
pub data ErrorCode : Type 0 where
  caread cawrite timeout badslotid badconnectionid badstate badcamdata outofmemory asnencode :
      ErrorCode
  outofconnections outofslots outofsessions badsessionnumber iovlimit : ErrorCode

-- A message written for a connection, and the callbacks by their reason; `memory` is a `realloc` to a
-- number of bytes, which is asked for and not logged, and `freed_used` a use of freed memory.
pub data Event : Type 0 where
  written : ℕ → List ℕ → Event
  connection_open : ℕ → Event
  cam_connection_open : ℕ → Event
  received : ℕ → List ℕ → Event
  connection_close : ℕ → Event
  slot_close : Event
  memory : ℕ → ℕ → Event
  freed_used : ℕ → Event

pub record Slot : Type 0 where
  pub connections : List Connection
  pub error : Option ErrorCode
  pub events : List Event

-- The tags of the messages.
abbrev pub t_sb : ℕ
t_sb = 0x80

abbrev pub t_rcv : ℕ
t_rcv = 0x81

abbrev pub t_create_t_c : ℕ
t_create_t_c = 0x82

abbrev pub t_c_t_c_reply : ℕ
t_c_t_c_reply = 0x83

abbrev pub t_delete_t_c : ℕ
t_delete_t_c = 0x84

abbrev pub t_d_t_c_reply : ℕ
t_d_t_c_reply = 0x85

abbrev pub t_request_t_c : ℕ
t_request_t_c = 0x86

abbrev pub t_new_t_c : ℕ
t_new_t_c = 0x87

abbrev pub t_t_c_error : ℕ
t_t_c_error = 0x77

abbrev pub t_data_last : ℕ
t_data_last = 0xa0

abbrev pub t_data_more : ℕ
t_data_more = 0xa1

-- 0 or -1, and the slot.
abbrev pub Done : Type 0
Done = Bool × Slot

abbrev pub failed : ErrorCode → Slot → Done
failed e s = (false, record s { error = some e })

-- A change of one connection.
abbrev pub with_connection : ℕ → Connection → Slot → Slot
with_connection c k s = record s { connections = set (s.connections) c k }

abbrev pub log : Event → Slot → Slot
log e s = record s { events = s.events ++ (e ∷ []) }

-- `dvbca_link_write` of a message: whether it succeeds is up to the device.
unfoldable pub link_write : (List Event → Bool) → ℕ → List ℕ → Slot → Done
link_write device c msg s =
    if device (s.events) then (true, log (Event.written c msg) s) else failed cawrite s

-- A use of freed memory.
abbrev pub misused : ℕ → Slot → Done
misused c s = (false, log (Event.freed_used c) s)

-- The first idle connection of a list that starts with number `i`.
unfoldable pub first_idle : List Connection → ℕ → Option (ℕ × Connection)
first_idle [] i = none
first_idle (k ∷ ks) i =
    let rest = first_idle ks (i + 1) in elim k.state [ idle ↦ some (i, k) | _ ↦ rest ]

-- Connection 0 is not given out.
unfoldable pub alloc_new_tc : Slot → Option (ℕ × Slot)
alloc_new_tc s = elim (first_idle (drop 1 (s.connections)) 1) [
  | none ↦ none
  | some r ↦ some (
    r.0,
    with_connection (r.0)
        (record (r.1) { state = in_creation; chain_buffer = none; chain_freed = false }) s,
  )
]

-- `tx_time.tv_sec = 0`
abbrev pub answered : Connection → Connection
answered k = record k { tx_time = record (k.tx_time) { tv_sec = 0 } }

-- A change of connection `c`, if there is one.
unfoldable pub change : ℕ → (Connection → Connection) → Slot → Slot
change c f s = elim (get_elem? (s.connections) c) [ none ↦ s | some k ↦ with_connection c (f k) s ]
