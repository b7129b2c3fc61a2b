-- ===== src/En50221/Transport/PollStates.antt =====
-- A round of `en50221_tl_poll` on one connection: which states it may lead to.
use dvb_apps.Common.{
  ℕ, ◌≡◌, refl, sym, ap, subst, ◌∙◌, ◌⊎◌, inl, inr, Bool, true, false, not, ◌&&◌, some, List, [],
  ◌∷◌, arith, ◌==◌, if◌then◌else◌, if_rule, option_rule, &&_left, &&_right, get_elem?, set,
  get_elem?-set, set-set, set_self,
}
use mathlib.Core.Bool.{false≢true}
use dvb_apps.En50221.Transport.{
  ConnectionState, idle, in_creation, in_deletion, Timeval, Connection, timeout, Event, Slot, Done,
  misused, with_connection, link_write, change, t_data_last,
}
use dvb_apps.En50221.Transport.Moves.{
  polled, Edge, delete_sent, given_up, given_up_late, Step, Moved, Moved-refl, Moved-set,
}
use dvb_apps.En50221.Transport.Handled.{by_state, Keeps, link_write-connections}
use dvb_apps.En50221.Transport.Polling.{
  time_after, Delays, may_send, is_delete, sent, send_queued, poll_tc, poll_due, timed_out,
  check_timeout, at_connection, ◌and_then◌, is_idle, poll_connection,
}

-- Two steps, the second of which runs only where the first succeeds.
and_then-rule :
    (P Q : Done → Type 0) (r : Done) (f : Slot → Done)
    → P r
    → ((s : Slot) → P (true, s) → Q (f s))
    → ((s : Slot) → P (false, s) → Q (false, s))
    → Q (r and_then f)
and_then-rule P Q (true, s) f p g h = g s p
and_then-rule P Q (false, s) f p g h = h s p

-- What goes by the queue of a connection.
list_rule {ℓ} :
    {A : Type ℓ} (P : Done → Type 0) (q : List A) (x : Done) (f : A → List A → Done)
    → P x
    → ((a : A) (as' : List A) → P (f a as'))
    → P (elim q [ [] ↦ x | a ∷ as' ↦ f a as' ])
list_rule P [] x f p h = p
list_rule P (a ∷ l) x f p h = h a l

-- No time has passed.
time_after-now : (now : Timeval) (d : ℕ) → time_after now now d ≡ false
unfolding time_after
time_after-now now d = ground arith

module _ (device : List Event → Bool) (now : Timeval) (d : Delays) (c : ℕ) (ks : List Connection)
    (k : Connection) (found : get_elem? ks c ≡ some k) where
  -- Only connection `c` differs from `ks`: it is `k'`.
  abbrev Only : Connection → Slot → Type 0
  Only k' s = s.connections ≡ set ks c k'

  -- The connection has its state, or has just sent the message that deletes it.
  abbrev Fresh : Connection → Type 0
  Fresh k' =
      (k'.state ≡ k.state)
      ⊎ ((may_send (k.state) ≡ true) × (k'.state ≡ in_deletion) × (k'.tx_time ≡ now))

  abbrev Going : Done → Type 0
  Going r = (k' : Connection) × Only k' (r.1) × Fresh k'

  at-Only :
      (k' : Connection) (s : Slot) (f : Connection → Slot → Done)
      → Only k' s
      → at_connection c f s ≡ f k' s
  at-Only k' s f o =
      let g : get_elem? (s.connections) c ≡ some k' =
        ap (λ x. get_elem? x c) o ∙ get_elem?-set ks c k k' found in
      rw (g, at_connection) refl

  change-Only :
      (k' : Connection) (s : Slot) (f : Connection → Connection)
      → Only k' s
      → Only (f k') (change c f s)
  unfolding change
  change-Only k' s f o =
      let g : get_elem? (s.connections) c ≡ some k' =
        ap (λ x. get_elem? x c) o ∙ get_elem?-set ks c k k' found in
      rw (g, change) (ap (λ x. set x c (f k')) o ∙ set-set ks c k' (f k'))

  write-Only :
      (k' : Connection) (s : Slot) (msg : List ℕ)
      → Only k' s
      → Only k' ((link_write device c msg s).1)
  write-Only k' s msg o = link_write-connections device c msg s ∙ o

  with-Only : (k' k'' : Connection) (s : Slot) → Only k' s → Only k'' (with_connection c k'' s)
  with-Only k' k'' s o = ap (λ x. set x c k'') o ∙ set-set ks c k' k''

  sent-Fresh :
      (msg : List ℕ) (k' : Connection)
      → k'.state ≡ k.state
      → may_send (k.state) ≡ true
      → Fresh (sent now msg k')
  unfolding sent
  sent-Fresh msg k' e m = if_rule Fresh (is_delete msg) _ _ (λ _. inr (m, refl, refl)) (λ _. inl e)

  queue-Going :
      (s : Slot) (msg : List ℕ) (msgs : List (List ℕ))
      → Only k s
      → Going (
          let popped = with_connection c (record k { send_queue = msgs }) s in
          let r = link_write device c msg popped in
          if may_send (k.state) && (k.tx_time.tv_sec == 0)
          then (if r.0
              then (if is_delete msg && k.chain_freed
                  then misused c (r.1)
                  else (true, change c (sent now msg) (r.1)))
              else r)
          else (true, s))
  queue-Going s msg msgs o =
      let k' : Connection = record k { send_queue = msgs } in
      let popped = with_connection c k' s in
      let o1 = with-Only k k' s o in
      let o2 = write-Only k' popped msg o1 in
      let r = link_write device c msg popped in
      if_rule Going (may_send (k.state) && (k.tx_time.tv_sec == 0))
        (if r.0
          then (if is_delete msg && k.chain_freed
              then misused c (r.1)
              else (true, change c (sent now msg) (r.1)))
          else r)
        (true, s)
        (λ b.
          let m = &&_left (may_send (k.state)) (k.tx_time.tv_sec == 0) b in
          if_rule Going (r.0) _ r
            (λ _.
              if_rule Going (is_delete msg && k.chain_freed) (misused c (r.1))
                (true, change c (sent now msg) (r.1)) (λ _. (k', o2, inl refl))
                (λ _. (
                  sent now msg k',
                  change-Only k' (r.1) (sent now msg) o2,
                  sent-Fresh msg k' refl m,
                )))
            (λ _. (k', o2, inl refl)))
        (λ _. (k, o, inl refl))

  send_queued-Going : (s : Slot) → Only k s → Going (send_queued device now c k s)
  unfolding send_queued
  send_queued-Going s o =
      list_rule Going (k.send_queue) _ _ (k, o, inl refl) (λ msg msgs. queue-Going s msg msgs o)

  poll_due-Going :
      (k' : Connection) (s : Slot) → Only k' s → Fresh k' → Going (poll_due device now d c k' s)
  unfolding poll_due poll_tc
  poll_due-Going k' s o f =
      let due = record k' { last_poll_time = now } in
      let s1 = with_connection c due s in
      let waiting = λ (x : Connection). record x { tx_time = now } in
      let o1 = change-Only due s1 waiting (with-Only k' due s o) in
      let msg = t_data_last ∷ 1 ∷ c ∷ [] in
      if_rule Going _ (link_write device c msg (change c waiting s1)) (true, s)
        (λ _. (
          waiting due,
          write-Only (waiting due) (change c waiting s1) msg o1,
          elim f [ inl e ↦ inl e | inr (m, e, t) ↦ inr (m, e, refl) ],
        ))
        (λ _. (k', o, f))

  -- The last step leaves a state of one edge.
  abbrev Ends : Done → Type 0
  Ends r = Keeps polled ks r

  unchanged_or_ended :
      (b : Bool) (k' : Connection) (s : Slot)
      → Only k' s
      → Step polled (k.state) (k'.state)
      → Ends (b, s)
  unchanged_or_ended b k' s o m =
      subst (Moved polled ks) (sym o) (Moved-set polled ks c k k' found m)

  Fresh-Step : (k' : Connection) → Fresh k' → Step polled (k.state) (k'.state)
  Fresh-Step k' (inl e) = inl (sym e)
  Fresh-Step k' (inr (m, e, t)) = inr (subst (Edge polled (k.state)) (sym e) (delete_sent m))

  timed_out-Ends :
      (k' : Connection) (s : Slot) → Only k' s → k'.state ≡ k.state → Ends (timed_out c k' s)
  unfolding timed_out
  timed_out-Ends k' s o e =
      let stay =
        λ (b : Bool) (s' : Slot) (o' : Only k' s'). unchanged_or_ended b k' s' o' (inl (sym e)) in
      let freed = record k' { state = idle } in
      let gone = λ (a : ConnectionState) (h : k'.state ≡ a) (m : Edge polled a idle).
        unchanged_or_ended true freed (with_connection c freed s) (with-Only k' freed s o)
          (inr (subst (λ x. Edge polled x idle) (sym h ∙ e) m)) in
      by_state Ends (k'.state) _ _ _ _ _ (λ _. stay true s o)
        (λ _. stay false (record s { error = some timeout }) o)
        (λ _. stay false (record s { error = some timeout }) o) (λ h. gone in_creation h given_up)
        (λ h. gone in_deletion h given_up_late)

  check_timeout-Ends :
      (k' : Connection) (s : Slot) → Only k' s → Fresh k' → Ends (check_timeout now d c k' s)
  unfolding check_timeout
  check_timeout-Ends k' s o f =
      let late = time_after now (k'.tx_time) (d.response_timeout) in
      if_rule Ends (not (k'.tx_time.tv_sec == 0) && late) (timed_out c k' s) (true, s)
        (λ b. elim f [
          | inl e ↦ timed_out-Ends k' s o e
          | inr (m, e, t) ↦
              let l : late ≡ true = &&_right (not (k'.tx_time.tv_sec == 0)) late b in
              let l' = subst (λ x. time_after now x (d.response_timeout) ≡ true) t l in
              absurd (false≢true (sym (time_after-now now (d.response_timeout)) ∙ l'))
        ])
        (λ _. unchanged_or_ended true k' s o (Fresh-Step k' f))

  -- The three steps.
  poll_steps-Ends :
      (s : Slot)
      → Only k s
      → Ends (
          send_queued device now c k s
          and_then (at_connection c (poll_due device now d c))
          and_then (at_connection c (check_timeout now d c)))
  poll_steps-Ends s o =
      let P = Going in
      and_then-rule P Ends
        (send_queued device now c k s and_then (at_connection c (poll_due device now d c)))
        (at_connection c (check_timeout now d c))
        (and_then-rule P P (send_queued device now c k s)
          (at_connection c (poll_due device now d c)) (send_queued-Going s o)
          (λ s1 (k1, o1, f1).
            subst P (sym (at-Only k1 s1 (poll_due device now d c) o1)) (poll_due-Going k1 s1 o1 f1))
          (λ s1 g. g))
        (λ s2 (k2, o2, f2).
          subst Ends (sym (at-Only k2 s2 (check_timeout now d c) o2))
            (check_timeout-Ends k2 s2 o2 f2))
        (λ s2 (k2, o2, f2). unchanged_or_ended false k2 s2 o2 (Fresh-Step k2 f2))

-- One round of `en50221_tl_poll` on a connection changes no state but its own, and that only to be
-- deleted, once the message for it is sent, or to idle, where an answer to a creation or a deletion
-- did not come in time. It never makes a connection active, and it leaves one with a deletion just sent
-- waiting for the answer.
pub poll_connection-Moved :
    (device : List Event → Bool) (now : Timeval) (d : Delays) (c : ℕ) (s : Slot)
    → Moved polled (s.connections) ((poll_connection device now d c s).1.connections)
unfolding poll_connection
poll_connection-Moved device now d c s =
    let same = Moved-refl polled (s.connections) in
    option_rule (Keeps polled (s.connections)) (get_elem? (s.connections) c) (true, s) _ (λ _. same)
      λ k e.
        if_rule (Keeps polled (s.connections)) (is_idle (k.state)) (true, s) _ (λ _. same)
          λ _.
            poll_steps-Ends device now d c (s.connections) k e s
              (sym (set_self (s.connections) c k e))
