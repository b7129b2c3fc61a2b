-- ===== src/En50221/Transport/Reuse.antt =====
-- A connection that the host has deleted, and that is given out again.
use dvb_apps.Common.{
  ℕ, ◌≡◌, refl, sym, ap, subst, ◌∙◌, ◌≢◌, ◌⊎◌, inl, inr, Bool, true, some, List, [], ◌∷◌, ◌++◌,
  arith, Option-cases, option_rule, get_elem?, set, get_elem?-set,
}
use dvb_apps.En50221.Transport.{
  idle, in_creation, in_deletion, Timeval, Connection, Event, Slot, with_connection, alloc_new_tc,
  change, t_create_t_c,
}
use dvb_apps.En50221.Transport.Handlers.{handle_delete_tc_reply}
use dvb_apps.En50221.Transport.Sending.{queue_message, slot_new_tc}
use dvb_apps.En50221.Transport.Polling.{
  Delays, send_queued, poll_due, timed_out, check_timeout, poll_connection,
}
use dvb_apps.En50221.Transport.Alloc.{alloc_new_tc-found, taken}

-- A connection that waits for an answer though nothing was sent for it: it is being created, or was
-- given up.
abbrev Waits : Connection → Type 0
Waits k = ((k.state ≡ in_creation) ⊎ (k.state ≡ idle)) × (k.tx_time.tv_sec ≢ 0)

abbrev Stuck : ℕ → Slot → Type 0
Stuck c s = (k : Connection) × (get_elem? (s.connections) c ≡ some k) × Waits k

poll_connection-Stuck :
    (device : List Event → Bool) (now : Timeval) (d : Delays) (c : ℕ) (k : Connection) (s : Slot)
    → get_elem? (s.connections) c ≡ some k
    → Waits k
    → (poll_connection device now d c s ≡ (true, s))
      ⊎ (poll_connection device now d c s ≡ (true, with_connection c (record k { state = idle }) s))
unfolding poll_connection send_queued poll_due check_timeout timed_out
poll_connection-Stuck device now d c k s g w = ground arith

-- Rounds of the poll for connection `c`, at the times given.
unfoldable pub rounds : (List Event → Bool) → Delays → ℕ → List Timeval → Slot → Slot
rounds device d c [] s = s
rounds device d c (now ∷ times) s = rounds device d c times ((poll_connection device now d c s).1)

rounds-Stuck :
    (device : List Event → Bool) (d : Delays) (c : ℕ) (times : List Timeval) (s : Slot)
    → Stuck c s
    → (rounds device d c times s).events ≡ s.events
unfolding rounds
rounds-Stuck device d c [] s w = refl
rounds-Stuck device d c (now ∷ times) s (k, g, w) =
    elim (poll_connection-Stuck device now d c k s g w) [
      | inl e ↦
          ap (λ r. (rounds device d c times (r.1)).events) e
          ∙ rounds-Stuck device d c times s (k, g, w)
      | inr e ↦
          let k' : Connection = record k { state = idle } in
          ap (λ r. (rounds device d c times (r.1)).events) e
          ∙ rounds-Stuck device d c times (with_connection c k' s)
              (k', get_elem?-set (s.connections) c k k' g, (inr refl, w.1))
    ]

-- A connection that is asked for while its `tx_time` still stands is stuck.
queued-Stuck :
    (j : ℕ) (msg : List ℕ) (k : Connection) (s : Slot)
    → get_elem? (s.connections) j ≡ some k
    → k.tx_time.tv_sec ≢ 0
    → Stuck j (queue_message j msg (with_connection j (taken k) s))
unfolding queue_message change
queued-Stuck j msg k s g t =
    let k1 = taken k in
    let k2 : Connection = record k1 { send_queue = k.send_queue ++ (msg ∷ []) } in
    let g1 = get_elem?-set (s.connections) j k k1 g in
    let g2 = get_elem?-set (set (s.connections) j k1) j k1 k2 g1 in
    (
      k2,
      option_rule (λ (x : Slot). get_elem? (x.connections) j ≡ some k2)
          (get_elem? (set (s.connections) j k1) j) _ _ (λ n. ground arith) (λ k3 e. ground arith),
      (inl refl, t),
    )

slot_new_tc-Stuck :
    (room : Bool) (c : ℕ) (s s' : Slot) (k : Connection)
    → get_elem? (s.connections) c ≡ some k
    → k.tx_time.tv_sec ≢ 0
    → slot_new_tc room s ≡ (some c, s')
    → Stuck c s'
unfolding slot_new_tc
slot_new_tc-Stuck room c s s' k g t h = elim (Option-cases (alloc_new_tc s)) [
  | inl n ↦ ground arith
  | inr ((j, u), a) ↦
      let (k', _, g', _, es) = alloc_new_tc-found s j u a in
      let msg = t_create_t_c ∷ 1 ∷ j ∷ [] in
      let ej : j ≡ c = ground arith in
      let e : queue_message j msg u ≡ s' = ground arith in
      let ek : k ≡ k' =
        let both : some k ≡ some k' = sym g ∙ ap (get_elem? (s.connections)) (sym ej) ∙ g' in
        ground arith in
      let w = queued-Stuck j msg k' s g' (subst (λ x. x.tx_time.tv_sec ≢ 0) ek t) in
      subst (λ x. Stuck c x) (ap (queue_message j msg) (sym es) ∙ e)
        (subst (λ n. Stuck n (queue_message j msg (with_connection j (taken k') s))) ej w)
]

-- A connection in deletion whose T_DELETE_T_C is still marked as unanswered is freed by the module's
-- T_D_T_C_REPLY with the mark left on. If that connection is then given out again, no round of the poll
-- writes anything for it, at any times: its T_CREATE_T_C is never sent.
pub reuse-Stuck :
    (device : List Event → Bool) (d : Delays) (c : ℕ) (times : List Timeval) (k : Connection)
    (room : Bool) (s s' : Slot)
    → get_elem? (s.connections) c ≡ some k
    → k.state ≡ in_deletion
    → k.tx_time.tv_sec ≢ 0
    → slot_new_tc room ((handle_delete_tc_reply c k s).1) ≡ (some c, s')
    → (rounds device d c times s').events ≡ s'.events
unfolding handle_delete_tc_reply
reuse-Stuck device d c times k room s s' g e t h =
    let k' : Connection = record k { state = idle } in
    let s1 = with_connection c k' s in
    let freed : (handle_delete_tc_reply c k s).1 ≡ s1 = ground arith in
    rounds-Stuck device d c times s' (
      slot_new_tc-Stuck room c s1 s' k' (get_elem?-set (s.connections) c k k' g) t
        (subst (λ x. slot_new_tc room x ≡ (some c, s')) freed h))
