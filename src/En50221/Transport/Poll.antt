-- ===== src/En50221/Transport/Poll.antt =====
-- en50221_transport.c: `en50221_tl_poll`, over all slots.
use dvb_apps.Common.{
  ℕ, zero, suc, ◌+◌, Bool, true, false, not, ◌&&◌, Option, none, some, List, [], ◌∷◌, map, ◌==◌,
  if◌then◌else◌, length, get_elem?, Result, ok, ◌>>=◌,
}
use dvb_apps.En50221.Transport.{Timeval, caread, badslotid, Event, Slot}
use dvb_apps.En50221.Transport.Receive.{process_data}
use dvb_apps.En50221.Transport.Polling.{poll_connections}
use dvb_apps.En50221.Transport.Layer.{CamSlot, Layer, seen, put_back, device_of, with_error_slot}

-- What `poll` and `dvbca_link_read` report of a slot: nothing, an error, a read that fails, or the
-- number of the module that sent, and its bytes.
pub data Reading : Type 0 where
  quiet : Reading
  poll_error : Reading
  read_failed : Reading
  incoming : ℕ → List ℕ → Reading

-- The world during a call: whether the next write succeeds, the time, whether `poll` fails, and what
-- is there for each slot.
pub record World : Type 0 where
  pub device : List (ℕ × Event) → Bool
  pub now : Timeval
  pub poll_fails : Bool
  pub reading : ℕ → Reading

-- The slot of another module behind the same handle.
unfoldable pub find_slot : ℕ → ℕ → List CamSlot → ℕ → Option ℕ
find_slot hndl slot [] i = none
find_slot hndl slot (p ∷ ps) i =
    let rest = find_slot hndl slot ps (i + 1) in
    let same : Bool = elim p.ca_hndl [ none ↦ false | some h ↦ h == hndl ] in
    if same && (p.slot == slot) then some i else rest

-- Work on a slot, `error_slot` being set where it fails.
abbrev pub run_slot : ℕ → CamSlot → Bool × Slot → Layer → Bool × Layer
run_slot i p r tl = (r.0, with_error_slot (not (r.0)) i (put_back i p (r.1) tl))

unfoldable pub process_slot : World → ℕ → List ℕ → Layer → Result (Bool × Layer)
process_slot w i bytes tl = elim (get_elem? (tl.slots) i) [
  | none ↦ ok (true, tl)
  | some p ↦
      process_data (suc (length bytes)) (device_of (w.device) i tl) (w.now) bytes (seen p tl)
      >>= λ r. ok (run_slot i p r tl)
]

-- The reading of slot `i`, which has the handle `hndl`.
unfoldable pub take_reading : World → ℕ → ℕ → ℕ → Reading → Layer → Result (Bool × Layer)
take_reading w i hndl slot quiet tl = ok (true, tl)
take_reading w i hndl slot poll_error tl =
    ok (false, record tl { error_slot = some i; error = some caread })
take_reading w i hndl slot read_failed tl =
    ok (false, record tl { error_slot = some i; error = some caread })
take_reading w i hndl slot (incoming from []) tl = ok (true, tl)
take_reading w i hndl slot (incoming from (b ∷ bs)) tl =
    if slot == from then process_slot w i (b ∷ bs) tl else elim (find_slot hndl from (tl.slots) 0) [
      | none ↦ ok (false, record tl { error = some badslotid })
      | some j ↦ process_slot w j (b ∷ bs) tl
    ]

-- The connections of slot `i`.
unfoldable pub poll_slot_connections : World → ℕ → Layer → Bool × Layer
poll_slot_connections w i tl = elim (get_elem? (tl.slots) i) [
  | none ↦ (true, tl)
  | some p ↦
      run_slot i p
        (poll_connections (tl.max_connections_per_slot) (device_of (w.device) i tl) (w.now)
          (p.delays) 0 (seen p tl))
        tl
]

unfoldable pub poll_slot : World → ℕ → Layer → Result (Bool × Layer)
poll_slot w i tl = elim (get_elem? (tl.slots) i) [
  | none ↦ ok (true, tl)
  | some p ↦ elim p.ca_hndl [
    | none ↦ ok (true, tl)
    | some hndl ↦ take_reading w i hndl (p.slot) (w.reading i) tl >>= λ r.
        ok (if r.0 then poll_slot_connections w i (r.1) else r)
  ]
]

-- `n` slots, from number `i` on, up to an error.
unfoldable pub poll_slots : ℕ → World → ℕ → Layer → Result (Bool × Layer)
poll_slots zero w i tl = ok (true, tl)
poll_slots (suc n) w i tl =
    poll_slot w i tl >>= λ r. elim r.0 [ true ↦ poll_slots n w (i + 1) (r.1) | false ↦ ok r ]

-- The handles that `poll` looks at, made up again where the slots have changed.
abbrev pub refreshed : Layer → Layer
refreshed tl =
    if tl.slots_changed
    then record tl { slot_pollfds = map (λ p. p.ca_hndl) (tl.slots); slots_changed = false }
    else tl

unfoldable pub tl_poll : World → Layer → Result (Bool × Layer)
tl_poll w tl =
    let tl' = refreshed tl in
    if w.poll_fails
    then ok (false, record tl' { error_slot = none; error = some caread })
    else poll_slots (tl'.max_slots) w 0 tl'
