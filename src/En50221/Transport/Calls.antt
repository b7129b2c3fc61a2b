-- ===== src/En50221/Transport/Calls.antt =====
-- Any sequence of calls on a slot, and how its connections become active.
use dvb_apps.Common.{
  ℕ, ◌≡◌, refl, sym, subst, ◌≢◌, inl, inr, Bool, true, Option, none, some, List, [], ◌∷◌, ◌++◌,
  arith, Option-cases, if_rule, bool_rule, option_rule, get_elem?,
}
use mathlib.Core.Bool.{false≢true}
use dvb_apps.En50221.Transport.{
  ConnectionState, idle, active, active_deletequeued, in_creation, in_deletion, Timeval, Connection,
  Event, Slot, alloc_new_tc, change, t_create_t_c, t_c_t_c_reply, t_delete_t_c,
}
use dvb_apps.En50221.Transport.Moves.{
  Cause, from_module, polled, asked_new, asked_delete, Edge, asked, delete_queued,
  delete_queued_late, Moved, Moved-refl, Moved-set, change-connections, Moved-change,
  Moved-get_elem, Moved-get, Edge-active,
}
use dvb_apps.En50221.Transport.Receive.{Tpdu, handle_tpdu}
use dvb_apps.En50221.Transport.Sending.{
  queue_message, data_message, slot_send_data, slot_new_tc, slot_del_tc, may_delete,
}
use dvb_apps.En50221.Transport.Polling.{Delays, poll_connection}
use dvb_apps.En50221.Transport.Alloc.{alloc_new_tc-found, taken}
use dvb_apps.En50221.Transport.Handled.{Keeps, by_state, edge}
use dvb_apps.En50221.Transport.States.{handle_tpdu-Moved}
use dvb_apps.En50221.Transport.PollStates.{poll_connection-Moved}

-- A message of the module, a round of the poll for one connection, and the calls of the host.
pub data Call : Type 0 where
  message : Tpdu → Call
  round : Delays → ℕ → Call
  new_tc : Bool → Call
  del_tc : Bool → ℕ → Call
  send : Bool → ℕ → List ℕ → Call

abbrev pub cause_of : Call → Cause
cause_of (message p) = from_module (p.tag)
cause_of (round d c) = polled
cause_of (new_tc room) = asked_new
cause_of (del_tc room c) = asked_delete
cause_of (send room c bytes) = asked_new

-- What a call makes of a slot; a message for no connection is not handled.
unfoldable pub run_call : (List Event → Bool) → Timeval → Call → Slot → Slot
run_call device now (message p) s = elim (get_elem? (s.connections) (p.connection_id)) [
  | none ↦ s
  | some k ↦ (handle_tpdu device now p k s).1
]
run_call device now (round d c) s = (poll_connection device now d c s).1
run_call device now (new_tc room) s = (slot_new_tc room s).1
run_call device now (del_tc room c) s = (slot_del_tc room c s).1
run_call device now (send room c bytes) s = (slot_send_data room c bytes s).1

change-Moved_same :
    (l : Cause) (c : ℕ) (f : Connection → Connection) (ks : List Connection) (s : Slot)
    → Moved l ks (s.connections)
    → ((k : Connection) → (f k).state ≡ k.state)
    → Moved l ks ((change c f s).connections)
change-Moved_same l c f ks s m h =
    subst (Moved l ks) (sym (change-connections c f s)) (Moved-change l ks (s.connections) c f m h)

pub slot_send_data-Moved :
    (l : Cause) (room : Bool) (c : ℕ) (bytes : List ℕ) (s : Slot)
    → Keeps l (s.connections) (slot_send_data room c bytes s)
unfolding slot_send_data queue_message
slot_send_data-Moved l room c bytes s =
    let P = Keeps l (s.connections) in
    let same = Moved-refl l (s.connections) in
    let add =
      λ (msg : List ℕ) (k : Connection). record k { send_queue = k.send_queue ++ (msg ∷ []) } in
    option_rule P (get_elem? (s.connections) c) _ _ (λ _. same)
      λ k e.
        by_state P (k.state) _ _ _ _ _ (λ _. same)
          (λ _.
            if_rule P room _ _
              (λ _.
                option_rule P (data_message c bytes) _ _ (λ _. same)
                  λ msg _. change-Moved_same l c (add msg) (s.connections) s same (λ y. refl))
              (λ _. same))
          (λ _. same) (λ _. same) (λ _. same)

pub slot_new_tc-Moved :
    (room : Bool) (s : Slot) → Moved asked_new (s.connections) ((slot_new_tc room s).1.connections)
unfolding slot_new_tc queue_message
slot_new_tc-Moved room s =
    let l = asked_new in
    let P = λ (r : Option ℕ × Slot). Moved l (s.connections) (r.1.connections) in
    option_rule P (alloc_new_tc s) _ _ (λ _. Moved-refl l (s.connections))
      λ (c, s') a.
        let (k, _, g, e, es) = alloc_new_tc-found s c s' a in
        let add = λ (k : Connection). record k {
          send_queue = k.send_queue ++ ((t_create_t_c ∷ 1 ∷ c ∷ []) ∷ []);
        } in
        let m : Moved l (s.connections) (s'.connections) =
          subst (λ x. Moved l (s.connections) (x.connections)) (sym es)
            (Moved-set l (s.connections) c k (taken k) g (edge l k idle in_creation e asked)) in
        if_rule P room _ _ (λ _. change-Moved_same l c add (s.connections) s' m (λ y. refl))
          (λ _. m)

may_delete-Edge :
    (a : ConnectionState) → may_delete a ≡ true → Edge asked_delete a active_deletequeued
may_delete-Edge idle h = absurd (false≢true h)
may_delete-Edge active h = delete_queued
may_delete-Edge active_deletequeued h = absurd (false≢true h)
may_delete-Edge in_creation h = absurd (false≢true h)
may_delete-Edge in_deletion h = delete_queued_late

pub slot_del_tc-Moved :
    (room : Bool) (c : ℕ) (s : Slot) → Keeps asked_delete (s.connections) (slot_del_tc room c s)
unfolding slot_del_tc queue_message
slot_del_tc-Moved room c s =
    let l = asked_delete in
    let P = Keeps l (s.connections) in
    let same = Moved-refl l (s.connections) in
    let add = λ (k : Connection). record k {
      send_queue = k.send_queue ++ ((t_delete_t_c ∷ 1 ∷ c ∷ []) ∷ []);
    } in
    let mark = λ (k : Connection). record k { state = active_deletequeued } in
    option_rule P (get_elem? (s.connections) c) _ _ (λ _. same)
      λ k e.
        bool_rule P (may_delete (k.state)) _ _
          (λ d.
            if_rule P room _ _
              (λ _.
                let m = change-Moved_same l c add (s.connections) s same (λ y. refl) in
                subst (Moved l (s.connections)) (sym (change-connections c mark (change c add s))) (
                  Moved-get_elem l (s.connections) ((change c add s).connections) c mark k m e
                    (λ x. inr (may_delete-Edge (k.state) d))))
              (λ _. same))
          (λ _. same)

-- Every call moves the states by the edges of its cause alone.
pub run_call-Moved :
    (device : List Event → Bool) (now : Timeval) (call : Call) (s : Slot)
    → Moved (cause_of call) (s.connections) ((run_call device now call s).connections)
unfolding run_call
run_call-Moved device now (message p) s =
    let l = from_module (p.tag) in
    option_rule (λ (r : Slot). Moved l (s.connections) (r.connections))
      (get_elem? (s.connections) (p.connection_id)) _ _ (λ _. Moved-refl l (s.connections))
      λ k e. handle_tpdu-Moved device now p k s e
run_call-Moved device now (round d c) s = poll_connection-Moved device now d c s
run_call-Moved device now (new_tc room) s = slot_new_tc-Moved room s
run_call-Moved device now (del_tc room c) s = slot_del_tc-Moved room c s
run_call-Moved device now (send room c bytes) s = slot_send_data-Moved asked_new room c bytes s

-- Calls one after the other, each at its time.
unfoldable pub run_calls : (List Event → Bool) → List (Timeval × Call) → Slot → Slot
run_calls device [] s = s
run_calls device ((now, call) ∷ calls) s = run_calls device calls (run_call device now call s)

abbrev pub state_of : ℕ → Slot → Option ConnectionState
state_of c s = elim (get_elem? (s.connections) c) [ none ↦ none | some k ↦ some (k.state) ]

-- In the run, the module confirmed connection `c` while it was being created.
pub data Confirmed (device : List Event → Bool) (c : ℕ)
    : List (Timeval × Call) → Slot → Type 0 where
  now_confirmed :
      (now : Timeval) (call : Call) (calls : List (Timeval × Call)) (s : Slot)
      → cause_of call ≡ from_module t_c_t_c_reply
      → state_of c s ≡ some in_creation
      → Confirmed device c ((now, call) ∷ calls) s
  later_confirmed :
      (now : Timeval) (call : Call) (calls : List (Timeval × Call)) (s : Slot)
      → Confirmed device c calls (run_call device now call s)
      → Confirmed device c ((now, call) ∷ calls) s

option_discrete : Discrete (Option ConnectionState)
option_discrete = hlevel

run_call-active :
    (device : List Event → Bool) (now : Timeval) (call : Call) (c : ℕ) (s : Slot)
    → state_of c s ≢ some active
    → state_of c (run_call device now call s) ≡ some active
    → (cause_of call ≡ from_module t_c_t_c_reply) × (state_of c s ≡ some in_creation)
run_call-active device now call c s n h =
    elim (Option-cases (get_elem? ((run_call device now call s).connections) c)) [
      | inl e ↦ ground arith
      | inr (k', e) ↦
          let a : k'.state ≡ active = ground arith in
          let (k, g, m) =
            Moved-get (cause_of call) (s.connections) ((run_call device now call s).connections) c
              k' (run_call-Moved device now call s) e in
          elim m [
            | inl eq ↦ ground arith
            | inr edge ↦ let (l, b) = Edge-active edge a in (l, ground arith)
          ]
    ]

-- In any run of calls, at any times and whatever the device does, a connection that is not active at
-- the start and is active at the end was confirmed by a T_C_T_C_REPLY of the module while it was being
-- created.
pub run_calls-Confirmed :
    (device : List Event → Bool) (c : ℕ) (calls : List (Timeval × Call)) (s : Slot)
    → state_of c s ≢ some active
    → state_of c (run_calls device calls s) ≡ some active
    → Confirmed device c calls s
unfolding run_calls
run_calls-Confirmed device c [] s n h = absurd (n h)
run_calls-Confirmed device c ((now, call) ∷ calls) s n h =
    elim (option_discrete (state_of c (run_call device now call s)) (some active)) [
      | yes a ↦
          let (l, b) = run_call-active device now call c s n a in now_confirmed now call calls s l b
      | no m ↦
          later_confirmed now call calls s
            (run_calls-Confirmed device c calls (run_call device now call s) m h)
    ]
