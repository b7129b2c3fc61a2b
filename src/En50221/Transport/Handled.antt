-- ===== src/En50221/Transport/Handled.antt =====
-- What the handlers of the messages do to the states of the connections.
use dvb_apps.Common.{
  ℕ, ◌+◌, ◌≡◌, refl, sym, subst, inl, inr, Bool, true, false, none, some, List, [], ◌∷◌, ◌++◌,
  arith, ◌==◌, if◌then◌else◌, bit, Bool-cases, Option-cases, length, get_elem?, set,
}
use dvb_apps.En50221.Transport.{
  ConnectionState, idle, active, active_deletequeued, in_creation, in_deletion, Timeval, Connection,
  Event, Slot, Done, with_connection, link_write, answered, t_rcv, t_c_t_c_reply, t_delete_t_c,
  t_d_t_c_reply,
}
use dvb_apps.En50221.Transport.Moves.{
  Cause, from_module, Edge, confirmed, taken_down, taken_down_late, finished, Step, Moved,
  Moved-refl, Moved-set,
}
use dvb_apps.En50221.Transport.Handlers.{
  handle_create_tc_reply, handle_delete_tc, handle_delete_tc_reply, handle_data_more,
  handle_data_last, handle_sb, delete_and_reply, cleared_down, hand_up, so_far, Realloc, resized,
  freed, no_memory, was_freed, realloc, with_room,
}

-- A call leaves connections that have moved along the edges of its cause.
abbrev pub Keeps : Cause → List Connection → Done → Type 0
Keeps l ks r = Moved l ks (r.1.connections)

-- A call that goes by the state of a connection.
pub by_state :
    (P : Done → Type 0) (a : ConnectionState) (i ac ad ic di : Done)
    → (a ≡ idle → P i)
    → (a ≡ active → P ac)
    → (a ≡ active_deletequeued → P ad)
    → (a ≡ in_creation → P ic)
    → (a ≡ in_deletion → P di)
    → P (elim a [
      | idle ↦ i
      | active ↦ ac
      | active_deletequeued ↦ ad
      | in_creation ↦ ic
      | in_deletion ↦ di
    ])
by_state P idle i ac ad ic di hi ha hd hc hx = hi refl
by_state P active i ac ad ic di hi ha hd hc hx = ha refl
by_state P active_deletequeued i ac ad ic di hi ha hd hc hx = hd refl
by_state P in_creation i ac ad ic di hi ha hd hc hx = hc refl
by_state P in_deletion i ac ad ic di hi ha hd hc hx = hx refl

pub by_bool : (P : Done → Type 0) (b : Bool) (x y : Done) → P x → P y → P (if b then x else y)
by_bool P true x y hx hy = hx
by_bool P false x y hx hy = hy

-- One edge, from the state that a connection has.
pub edge :
    (l : Cause) (k : Connection) (a b : ConnectionState)
    → k.state ≡ a
    → Edge l a b
    → Step l (k.state) b
edge l k a b e m = inr (subst (λ x. Edge l x b) (sym e) m)

pub link_write-connections :
    (device : List Event → Bool) (c : ℕ) (msg : List ℕ) (s : Slot)
    → (link_write device c msg s).1.connections ≡ s.connections
unfolding link_write
link_write-connections device c msg s = ground arith

pub link_write-Keeps :
    (l : Cause) (device : List Event → Bool) (c : ℕ) (msg : List ℕ) (s : Slot)
    (ks : List Connection)
    → Moved l ks (s.connections)
    → Keeps l ks (link_write device c msg s)
link_write-Keeps l device c msg s ks m =
    subst (Moved l ks) (sym (link_write-connections device c msg s)) m

module _ (c : ℕ) (k : Connection) (s : Slot) (e : get_elem? (s.connections) c ≡ some k) where
  same : (l : Cause) → Moved l (s.connections) (s.connections)
  same l = Moved-refl l (s.connections)

  moves :
      (l : Cause) (k' : Connection)
      → Step l (k.state) (k'.state)
      → Moved l (s.connections) (set (s.connections) c k')
  moves l k' m = Moved-set l (s.connections) c k k' e m

  pub handle_create_tc_reply-Keeps :
      let l = from_module t_c_t_c_reply in Keeps l (s.connections) (handle_create_tc_reply c k s)
  unfolding handle_create_tc_reply
  handle_create_tc_reply-Keeps =
      let l = from_module t_c_t_c_reply in
      by_state (Keeps l (s.connections)) (k.state) _ _ _ _ _ (λ _. same l) (λ _. same l)
        (λ _. same l) (λ a. moves l _ (edge l k in_creation active a confirmed)) (λ _. same l)

  pub delete_and_reply-Keeps :
      (l : Cause) (device : List Event → Bool)
      → Step l (k.state) idle
      → Keeps l (s.connections) (delete_and_reply device c k s)
  delete_and_reply-Keeps l device m =
      let s' = with_connection c (cleared_down k) s in
      let w =
        link_write-Keeps l device c (t_d_t_c_reply ∷ 1 ∷ c ∷ []) s' (s.connections)
          (moves l (cleared_down k) m) in
      by_bool (Keeps l (s.connections)) (k.chain_freed) _ _ (same l) (
        by_bool (Keeps l (s.connections)) ((link_write device c (t_d_t_c_reply ∷ 1 ∷ c ∷ []) s').0)
          _ _ w w)

  pub handle_delete_tc-Keeps :
      (device : List Event → Bool)
      → let l = from_module t_delete_t_c in Keeps l (s.connections) (handle_delete_tc device c k s)
  unfolding handle_delete_tc
  handle_delete_tc-Keeps device =
      let l = from_module t_delete_t_c in
      by_state (Keeps l (s.connections)) (k.state) _ _ _ _ _ (λ _. same l)
        (λ a. delete_and_reply-Keeps l device (edge l k active idle a taken_down)) (λ _. same l)
        (λ _. same l)
        (λ a. delete_and_reply-Keeps l device (edge l k in_deletion idle a taken_down_late))

  pub handle_delete_tc_reply-Keeps :
      let l = from_module t_d_t_c_reply in Keeps l (s.connections) (handle_delete_tc_reply c k s)
  unfolding handle_delete_tc_reply
  handle_delete_tc_reply-Keeps =
      let l = from_module t_d_t_c_reply in
      by_state (Keeps l (s.connections)) (k.state) _ _ _ _ _ (λ _. same l) (λ _. same l)
        (λ _. same l) (λ _. same l) (λ a. moves l _ (edge l k in_deletion idle a finished))

  realloc-cases :
      (P : Done → Type 0) (r : Realloc) (a b d e : Done)
      → P a
      → P b
      → P d
      → P e
      → P (elim r [ resized ↦ a | freed ↦ b | no_memory ↦ d | was_freed ↦ e ])
  realloc-cases P resized a b d e ha hb hd he = ha
  realloc-cases P freed a b d e ha hb hd he = hb
  realloc-cases P no_memory a b d e ha hb hd he = hd
  realloc-cases P was_freed a b d e ha hb hd he = he

  with_room-Keeps :
      (l : Cause) (device : List Event → Bool) (body : List ℕ) (done : Done)
      → Keeps l (s.connections) done
      → Keeps l (s.connections) (with_room device c k body s done)
  unfolding with_room
  with_room-Keeps l device body done h =
      realloc-cases (Keeps l (s.connections))
        (realloc device c k (length (so_far (k.chain_buffer)) + length body) s) _ _ _ _ h
        (moves l (record (answered k) { chain_freed = true }) (inl refl))
        (moves l (answered k) (inl refl)) (same l)

  pub handle_data_more-Keeps :
      (l : Cause) (device : List Event → Bool) (body : List ℕ)
      → Keeps l (s.connections) (handle_data_more device c k body s)
  unfolding handle_data_more
  handle_data_more-Keeps l device body =
      by_state (Keeps l (s.connections)) (k.state) _ _ _ _ _ (λ _. same l)
        (λ _. with_room-Keeps l device body _ (moves l _ (inl refl))) (λ _. same l) (λ _. same l)
        (λ _. same l)

  hand_up-Moved :
      (l : Cause) (ks : List Connection) (body whole : List ℕ) (s' : Slot)
      → Moved l ks (s'.connections)
      → Moved l ks ((hand_up c body whole s').connections)
  hand_up-Moved l ks body whole s' m = elim (Bool-cases (length body == 0)) [
    | inl z ↦ rw z m
    | inr z ↦ rw z m
  ]

  pub handle_data_last-Keeps :
      (l : Cause) (device : List Event → Bool) (body : List ℕ)
      → Keeps l (s.connections) (handle_data_last device c k body s)
  unfolding handle_data_last
  handle_data_last-Keeps l device body =
      let s' = with_connection c (record (answered k) { chain_buffer = none }) s in
      let up =
        λ (whole : List ℕ). hand_up-Moved l (s.connections) body whole s' (moves l _ (inl refl)) in
      by_state (Keeps l (s.connections)) (k.state) _ _ _ _ _ (λ _. same l)
        (λ _. elim (Option-cases (k.chain_buffer)) [
          | inl z ↦ rw z (up body)
          | inr (b, z) ↦ rw z (with_room-Keeps l device body _ (up (b ++ body)))
        ])
        (λ _. same l) (λ _. same l) (λ _. same l)

  pub handle_sb-Keeps :
      (l : Cause) (device : List Event → Bool) (now : Timeval) (body : List ℕ)
      → Keeps l (s.connections) (handle_sb device now c k body s)
  unfolding handle_sb
  handle_sb-Keeps l device now [] = same l
  handle_sb-Keeps l device now (b ∷ b' ∷ bs) = same l
  handle_sb-Keeps l device now (b ∷ []) =
      let msg = t_rcv ∷ 1 ∷ c ∷ [] in
      let r = link_write device c msg s in
      let P = Keeps l (s.connections) in
      let k' : Connection = record k { tx_time = now } in
      let w : P r = link_write-Keeps l device c msg s (s.connections) (same l) in
      let w' : P (true, with_connection c k' (r.1)) =
        subst (λ ks. Moved l (s.connections) (set ks c k'))
          (sym (link_write-connections device c msg s)) (moves l k' (inl refl)) in
      let rcv : P (if r.0 then (true, with_connection c k' (r.1)) else r) =
        by_bool P (r.0) (true, with_connection c k' (r.1)) r w' w in
      by_state P (k.state) _ _ _ _ _ (λ _. same l)
        (λ _.
          by_bool P (bit b 7) _ (true, with_connection c (answered k) s) rcv
            (moves l (answered k) (inl refl)))
        (λ _. same l) (λ _. same l) (λ _. same l)
