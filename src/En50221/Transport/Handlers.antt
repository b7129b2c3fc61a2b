-- ===== src/En50221/Transport/Handlers.antt =====
-- en50221_transport.c: what is done with each kind of message of a module.
use dvb_apps.Common.{
  ℕ, ◌+◌, ◌^◌, Bool, true, false, not, ◌&&◌, Option, none, some, List, [], ◌∷◌, ◌++◌, ltb, ◌==◌,
  if◌then◌else◌, bit, length,
}
use dvb_apps.En50221.Transport.{
  idle, active, in_creation, in_deletion, Timeval, Connection, badcamdata, outofmemory, Event, Slot,
  Done, failed, misused, with_connection, log, link_write, alloc_new_tc, answered, change, t_rcv,
  t_create_t_c, t_d_t_c_reply, t_new_t_c, t_t_c_error,
}

unfoldable pub handle_create_tc_reply : ℕ → Connection → Slot → Done
handle_create_tc_reply c k s = elim k.state [
  | in_creation ↦ (
    true,
    log (Event.connection_open c) (with_connection c (record (answered k) { state = active }) s),
  )
  | _ ↦ failed badcamdata s
]

-- A connection that is cleared down; its queue and `tx_time` stay.
abbrev pub cleared_down : Connection → Connection
cleared_down k = record k { state = idle; chain_buffer = none; chain_freed = false }

abbrev pub delete_and_reply : (List Event → Bool) → ℕ → Connection → Slot → Done
delete_and_reply device c k s =
    let r =
      link_write device c (t_d_t_c_reply ∷ 1 ∷ c ∷ []) (with_connection c (cleared_down k) s) in
    if k.chain_freed
    then misused c s
    else if r.0
    then (true, log (Event.connection_close c) (r.1))
    else r

unfoldable pub handle_delete_tc : (List Event → Bool) → ℕ → Connection → Slot → Done
handle_delete_tc device c k s = elim k.state [
  | active ↦ delete_and_reply device c k s
  | in_deletion ↦ delete_and_reply device c k s
  | _ ↦ failed badcamdata s
]

unfoldable pub handle_delete_tc_reply : ℕ → Connection → Slot → Done
handle_delete_tc_reply c k s = elim k.state [
  | in_deletion ↦ (true, with_connection c (record k { state = idle }) s)
  | _ ↦ failed badcamdata s
]

-- The bytes collected.
abbrev pub so_far : Option (List ℕ) → List ℕ
so_far none = []
so_far (some buf) = buf

abbrev pub is_null : Option (List ℕ) → Bool
is_null none = true
is_null (some buf) = false

-- What comes of the `realloc` of `chain_buffer` to `n` bytes. `new_data_length` is an int: a negative one
-- asks for more than there is.
pub data Realloc : Type 0 where
  resized freed no_memory was_freed : Realloc

unfoldable pub realloc : (List Event → Bool) → ℕ → Connection → ℕ → Slot → Realloc
realloc device c k n s =
    if k.chain_freed
    then was_freed
    else if not (is_null (k.chain_buffer)) && (n == 0)
    then freed
    else if ltb n (2 ^ 31) && device (s.events ++ (Event.memory c n ∷ []))
    then resized
    else no_memory

-- `done` follows where there is memory for what is collected with `body` behind it.
unfoldable pub with_room : (List Event → Bool) → ℕ → Connection → List ℕ → Slot → Done → Done
with_room device c k body s done =
    elim (realloc device c k (length (so_far (k.chain_buffer)) + length body) s) [
      | resized ↦ done
      | freed ↦
          failed outofmemory (with_connection c (record (answered k) { chain_freed = true }) s)
      | no_memory ↦ failed outofmemory (with_connection c (answered k) s)
      | was_freed ↦ misused c s
    ]

unfoldable pub handle_data_more : (List Event → Bool) → ℕ → Connection → List ℕ → Slot → Done
handle_data_more device c k body s = elim k.state [
  | active ↦
      let whole = so_far (k.chain_buffer) ++ body in
      with_room device c k body s
        (true, with_connection c (record (answered k) { chain_buffer = some whole }) s)
  | _ ↦ failed badcamdata s
]

-- The data goes up only if this last part of it is not empty, whatever came before.
abbrev pub hand_up : ℕ → List ℕ → List ℕ → Slot → Slot
hand_up c body whole s = if length body == 0 then s else log (Event.received c whole) s

unfoldable pub handle_data_last : (List Event → Bool) → ℕ → Connection → List ℕ → Slot → Done
handle_data_last device c k body s = elim k.state [
  | active ↦
      let s' = with_connection c (record (answered k) { chain_buffer = none }) s in
      elim k.chain_buffer [
        | none ↦ (true, hand_up c body body s')
        | some buf ↦ with_room device c k body s (true, hand_up c body (buf ++ body) s')
      ]
  | _ ↦ failed badcamdata s
]

unfoldable pub handle_sb : (List Event → Bool) → Timeval → ℕ → Connection → List ℕ → Slot → Done
handle_sb device now c k [] s = failed badcamdata s
handle_sb device now c k (b ∷ b' ∷ bs) s = failed badcamdata s
handle_sb device now c k (b ∷ []) s = elim k.state [
  | active ↦
      let r = link_write device c (t_rcv ∷ 1 ∷ c ∷ []) s in
      if bit b 7
      then (if r.0 then (true, with_connection c (record k { tx_time = now }) (r.1)) else r)
      else (true, with_connection c (answered k) s)
  | _ ↦ failed badcamdata s
]

-- The connection opened for the module; on an error the new one is idle again.
abbrev pub create_tc : (List Event → Bool) → Timeval → ℕ → ℕ → Slot → Done
create_tc device now c new s =
    let r = link_write device c (t_new_t_c ∷ 2 ∷ c ∷ new ∷ []) s in
    let s1 = change c answered (r.1) in
    let r' = link_write device new (t_create_t_c ∷ 1 ∷ new ∷ []) s1 in
    if r.0
    then (if r'.0
        then (
          true,
          log (Event.cam_connection_open new) (change new (λ k. record k { tx_time = now }) (r'.1)),
        )
        else (false, change new (λ k. record k { state = idle }) (r'.1)))
    else (false, change new (λ k. record k { state = idle }) (r.1))

unfoldable pub handle_request_tc : (List Event → Bool) → Timeval → ℕ → Slot → Done
handle_request_tc device now c s = elim (alloc_new_tc s) [
  | none ↦
      let r = link_write device c (t_t_c_error ∷ 2 ∷ c ∷ 1 ∷ []) s in
      if r.0 then (true, change c answered (r.1)) else r
  | some a ↦ create_tc device now c (a.0) (a.1)
]
