-- ===== src/En50221/Transport/Sending.antt =====
-- en50221_transport.c: messages made up and queued for a connection of a slot.
use dvb_apps.Common.{
  ℕ, ◌+◌, ◌%◌, ◌^◌, Bool, true, false, Option, none, some, List, [], ◌∷◌, ◌++◌, if◌then◌else◌,
  length, get_elem?, take, ok,
}
use mathlib.Core.List.{flatten}
use dvb_apps.En50221.Asn1.{asn_1_encode}
use dvb_apps.En50221.Transport.{
  ConnectionState, active, active_deletequeued, in_deletion, badconnectionid, badstate, outofmemory,
  asnencode, outofconnections, Slot, Done, failed, alloc_new_tc, change, t_create_t_c, t_delete_t_c,
  t_data_last,
}

-- `malloc` of a message, which may fail.
abbrev pub allocated : Bool → Slot → (Slot → Done) → Done
allocated room s k = if room then k s else failed outofmemory s

unfoldable pub queue_message : ℕ → List ℕ → Slot → Slot
queue_message c msg s = change c (λ k. record k { send_queue = k.send_queue ++ (msg ∷ []) }) s

-- A message of data: `data_size + 1` is cut to the 16 bits that `asn_1_encode` takes, and `none` is
-- its error.
unfoldable pub data_message : ℕ → List ℕ → Option (List ℕ)
data_message c bytes = elim (asn_1_encode ((length bytes + 1) % 2 ^ 16) (0 ∷ 0 ∷ 0 ∷ []) 3) [
  | ok r ↦ some (t_data_last ∷ (take (r.1) (r.0) ++ (c ∷ bytes)))
  | _ ↦ none
]

-- `en50221_tl_send_data` for a slot in use. Data for a connection that is not active is refused.
unfoldable pub slot_send_data : Bool → ℕ → List ℕ → Slot → Done
slot_send_data room c bytes s = elim (get_elem? (s.connections) c) [
  | none ↦ failed badconnectionid s
  | some k ↦ elim k.state [
    | active ↦ allocated room s (λ s. elim (data_message c bytes) [
      | none ↦ failed asnencode s
      | some msg ↦ (true, queue_message c msg s)
    ])
    | _ ↦ failed badconnectionid s
  ]
]

-- `en50221_tl_send_datav` gathers the vector into one message of the same form.
unfoldable pub slot_send_datav : Bool → ℕ → List (List ℕ) → Slot → Done
slot_send_datav room c vector s = slot_send_data room c (flatten vector) s

-- `en50221_tl_new_tc`: the number of the new connection, or none. The connection stays taken where
-- there is no room for its message.
unfoldable pub slot_new_tc : Bool → Slot → Option ℕ × Slot
slot_new_tc room s = elim (alloc_new_tc s) [
  | none ↦ (none, record s { error = some outofconnections })
  | some (c, s') ↦
      if room
      then (some c, queue_message c (t_create_t_c ∷ 1 ∷ c ∷ []) s')
      else (none, record s' { error = some outofmemory })
]

abbrev pub may_delete : ConnectionState → Bool
may_delete active = true
may_delete in_deletion = true
may_delete _ = false

-- `en50221_tl_del_tc`.
unfoldable pub slot_del_tc : Bool → ℕ → Slot → Done
slot_del_tc room c s = elim (get_elem? (s.connections) c) [
  | none ↦ failed badconnectionid s
  | some k ↦ elim (may_delete (k.state)) [
    | false ↦ failed badstate s
    | true ↦ allocated room s (λ s. (
      true,
      change c (λ k. record k { state = active_deletequeued })
          (queue_message c (t_delete_t_c ∷ 1 ∷ c ∷ []) s),
    ))
  ]
]
