-- ===== src/En50221/Transport/Layer.antt =====
-- en50221_transport.c: the slots of the transport layer.
use dvb_apps.Common.{
  ℕ, ◌+◌, Bool, true, false, not, ◌&&◌, if◌then◌else◌, Option, none, some, List, [], ◌∷◌, ◌++◌, map,
  get_elem?, set, replicate,
}
use dvb_apps.En50221.Transport.{
  ConnectionState, idle, active, Timeval, Connection, ErrorCode, badslotid, badconnectionid,
  outofslots, Event, slot_close, Slot, answered,
}
use dvb_apps.En50221.Transport.Sending.{slot_send_data, slot_send_datav, slot_new_tc, slot_del_tc}
use dvb_apps.En50221.Transport.Polling.{Delays}

-- `struct en50221_slot`; a `ca_hndl` of -1 is none.
pub record CamSlot : Type 0 where
  pub ca_hndl : Option ℕ
  pub slot : ℕ
  pub connections : List Connection
  pub delays : Delays

-- `struct en50221_transport_layer`, and the events of each slot. `slot_pollfds` has the handles only;
-- an `error_slot` of -1 is none.
pub record Layer : Type 0 where
  pub max_slots : ℕ
  pub max_connections_per_slot : ℕ
  pub slots : List CamSlot
  pub slot_pollfds : List (Option ℕ)
  pub slots_changed : Bool
  pub error : Option ErrorCode
  pub error_slot : Option ℕ
  pub events : List (ℕ × Event)

abbrev no_time : Timeval
no_time = record { tv_sec = 0; tv_usec = 0 }

-- A connection as `en50221_tl_create` sets it up.
abbrev pub new_connection : Connection
new_connection = record {
  state = idle;
  tx_time = no_time;
  last_poll_time = no_time;
  chain_buffer = none;
  chain_freed = false;
  send_queue = [];
}

abbrev pub new_slot : ℕ → CamSlot
new_slot connections = record {
  ca_hndl = none;
  slot = 0;
  connections = replicate connections new_connection;
  delays = record { response_timeout = 0; poll_delay = 0 };
}

unfoldable pub tl_create : ℕ → ℕ → Layer
tl_create max_slots max_connections = record {
  max_slots = max_slots;
  max_connections_per_slot = max_connections;
  slots = replicate max_slots (new_slot max_connections);
  slot_pollfds = replicate max_slots none;
  slots_changed = true;
  error = none;
  error_slot = some 0;
  events = [];
}

-- The first slot with no handle, of a list that starts with number `i`.
unfoldable pub first_unused : List CamSlot → ℕ → Option ℕ
first_unused [] i = none
first_unused (p ∷ ps) i =
    let rest = first_unused ps (i + 1) in elim p.ca_hndl [ none ↦ some i | some _ ↦ rest ]

abbrev pub with_slot : ℕ → CamSlot → Layer → Layer
with_slot i p tl = record tl { slots = set (tl.slots) i p }

-- The number of the slot, or -1.
unfoldable pub tl_register_slot : ℕ → ℕ → Delays → Layer → Option ℕ × Layer
tl_register_slot ca_hndl slot delays tl = elim (first_unused (tl.slots) 0) [
  | none ↦ (none, record tl { error = some outofslots })
  | some i ↦ elim (get_elem? (tl.slots) i) [
    | none ↦ (none, tl)
    | some p ↦ (
      some i,
      record (with_slot i (record p { ca_hndl = some ca_hndl; slot = slot; delays = delays }) tl) {
        slots_changed = true;
      },
    )
  ]
]

-- A connection as `en50221_tl_destroy_slot` leaves it.
abbrev pub destroyed : Connection → Connection
destroyed k = record (answered k) {
  state = idle;
  last_poll_time = no_time;
  chain_buffer = none;
  chain_freed = false;
  send_queue = [];
}

-- The connections of slot `i`, from number `c` on, whose `chain_buffer` is freed a second time.
unfoldable pub freed_again : ℕ → ℕ → List Connection → List (ℕ × Event)
freed_again i c [] = []
freed_again i c (k ∷ ks) =
    let rest = freed_again i (c + 1) ks in
    if k.chain_freed then (i, Event.freed_used c) ∷ rest else rest

unfoldable pub tl_destroy_slot : ℕ → Layer → Layer
tl_destroy_slot i tl = elim (get_elem? (tl.slots) i) [
  | none ↦ tl
  | some p ↦
      record (with_slot i (record p { ca_hndl = none; connections = map destroyed (p.connections) })
        tl) {
          slots_changed = true;
          events = tl.events ++ (freed_again i 0 (p.connections) ++ ((i, slot_close) ∷ []));
        }
]

-- A slot as the code for one slot sees it, and the layer after it has run.
abbrev pub seen : CamSlot → Layer → Slot
seen p tl = record { connections = p.connections; error = tl.error; events = [] }

abbrev pub put_back : ℕ → CamSlot → Slot → Layer → Layer
put_back i p s tl = record (with_slot i (record p { connections = s.connections }) tl) {
  error = s.error;
  events = tl.events ++ map (λ e. (i, e)) (s.events);
}

-- The device as one slot sees it.
abbrev pub device_of : (List (ℕ × Event) → Bool) → ℕ → Layer → List Event → Bool
device_of device i tl events = device (tl.events ++ map (λ e. (i, e)) events)

abbrev pub with_error_slot : Bool → ℕ → Layer → Layer
with_error_slot true i tl = record tl { error_slot = some i }
with_error_slot false i tl = tl

-- A call for slot `i`, which must be in use.
unfoldable pub on_slot : ℕ → (CamSlot → Layer → Bool × Layer) → Layer → Bool × Layer
on_slot i f tl = elim (get_elem? (tl.slots) i) [
  | none ↦ (false, record tl { error = some badslotid })
  | some p ↦ elim p.ca_hndl [
    | none ↦ (false, record tl { error = some badslotid })
    | some _ ↦ f p tl
  ]
]

-- Sending leaves `error_slot` alone where the connection is there and is not active.
abbrev pub names_slot : ℕ → List Connection → Bool
names_slot c ks = elim (get_elem? ks c) [
  | none ↦ true
  | some k ↦ elim k.state [ active ↦ true | _ ↦ false ]
]

unfoldable pub tl_send_data : Bool → ℕ → ℕ → List ℕ → Layer → Bool × Layer
tl_send_data room i c bytes tl =
    on_slot i
      (λ p tl.
        let r = slot_send_data room c bytes (seen p tl) in
        (
          r.0,
          with_error_slot (not (r.0) && names_slot c (p.connections)) i (put_back i p (r.1) tl),
        ))
      tl

unfoldable pub tl_send_datav : Bool → ℕ → ℕ → List (List ℕ) → Layer → Bool × Layer
tl_send_datav room i c vector tl =
    on_slot i
      (λ p tl.
        let r = slot_send_datav room c vector (seen p tl) in
        (
          r.0,
          with_error_slot (not (r.0) && names_slot c (p.connections)) i (put_back i p (r.1) tl),
        ))
      tl

-- The number of the connection is in the first part, where it is not -1.
unfoldable pub tl_new_tc : Bool → ℕ → Layer → Option ℕ × Layer
tl_new_tc room i tl = elim (get_elem? (tl.slots) i) [
  | none ↦ (none, record tl { error = some badslotid })
  | some p ↦ elim p.ca_hndl [
    | none ↦ (none, record tl { error = some badslotid })
    | some _ ↦
        let r = slot_new_tc room (seen p tl) in
        let tl' = put_back i p (r.1) tl in
        elim r.0 [ none ↦ (none, record tl' { error_slot = some i }) | some c ↦ (some c, tl') ]
  ]
]

unfoldable pub tl_del_tc : Bool → ℕ → ℕ → Layer → Bool × Layer
tl_del_tc room i c tl =
    on_slot i
      (λ p tl.
        let r = slot_del_tc room c (seen p tl) in
        (r.0, with_error_slot (not (r.0)) i (put_back i p (r.1) tl)))
      tl

-- The state is none where the call returns -1.
unfoldable pub tl_get_connection_state : ℕ → ℕ → Layer → Option ConnectionState × Layer
tl_get_connection_state i c tl = elim (get_elem? (tl.slots) i) [
  | none ↦ (none, record tl { error = some badslotid })
  | some p ↦ elim p.ca_hndl [
    | none ↦ (none, record tl { error = some badslotid })
    | some _ ↦ elim (get_elem? (p.connections) c) [
      | none ↦ (none, record tl { error_slot = some i; error = some badconnectionid })
      | some k ↦ (some (k.state), tl)
    ]
  ]
]
