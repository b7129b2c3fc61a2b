-- ===== src/En50221/Transport/States.antt =====
-- The states of the connections, and the messages of a module.
use dvb_apps.Common.{
  ℕ, ◌≡◌, refl, sym, subst, inl, inr, Bool, true, false, some, List, [], ◌∷◌, ◌==◌, if◌then◌else◌,
  ==_iff, Bool-cases, Option-cases, get_elem?,
}
use dvb_apps.En50221.Transport.{
  idle, in_creation, Timeval, Connection, Event, cam_connection_open, Slot, Done, log, link_write,
  alloc_new_tc, answered, change, t_sb, t_create_t_c, t_c_t_c_reply, t_delete_t_c, t_d_t_c_reply,
  t_request_t_c, t_new_t_c, t_t_c_error, t_data_last, t_data_more,
}
use dvb_apps.En50221.Transport.Moves.{
  Cause, from_module, requested, Moved, Moved-refl, Moved-set, change-connections, Moved-change,
  Moved-reset,
}
use dvb_apps.En50221.Transport.Alloc.{alloc_new_tc-found, taken}
use dvb_apps.En50221.Transport.Receive.{Tpdu, handle_tpdu}
use dvb_apps.En50221.Transport.Handlers.{handle_request_tc, create_tc}
use dvb_apps.En50221.Transport.Handled.{
  Keeps, edge, by_bool, link_write-Keeps, handle_create_tc_reply-Keeps, handle_delete_tc-Keeps,
  handle_delete_tc_reply-Keeps, handle_data_more-Keeps, handle_data_last-Keeps, handle_sb-Keeps,
}

-- A test of the tag: where it holds, the tag is known.
by_tag :
    (P : ℕ → Done → Type 0) (tag wanted : ℕ) (x y : Done)
    → P wanted x
    → P tag y
    → P tag (if tag == wanted then x else y)
by_tag P tag wanted x y hx hy = elim (Bool-cases (tag == wanted)) [
  | inl e ↦ rw e (subst (λ n. P n x) (sym ((==_iff tag wanted).0 e)) hx)
  | inr e ↦ rw e hy
]

-- Any number of changes that keep the states.
change-Moved :
    (l : Cause) (ks : List Connection) (c : ℕ) (f : Connection → Connection) (s : Slot)
    → Moved l ks (s.connections)
    → ((k : Connection) → (f k).state ≡ k.state)
    → Moved l ks ((change c f s).connections)
change-Moved l ks c f s m h =
    subst (Moved l ks) (sym (change-connections c f s)) (Moved-change l ks (s.connections) c f m h)

create_tc-Keeps :
    (device : List Event → Bool) (now : Timeval) (c : ℕ) (s : Slot) (new : ℕ) (s' : Slot)
    → alloc_new_tc s ≡ some (new, s')
    → Keeps (from_module t_request_t_c) (s.connections) (create_tc device now c new s')
create_tc-Keeps device now c s new s' a =
    let l = from_module t_request_t_c in
    let ks = s.connections in
    let (k, _, g, e, es) = alloc_new_tc-found s new s' a in
    let m : Moved l ks (s'.connections) =
      subst (λ x. Moved l ks (x.connections)) (sym es)
        (Moved-set l ks new k (taken k) g (edge l k idle in_creation e requested)) in
    let msg = t_new_t_c ∷ 2 ∷ c ∷ new ∷ [] in
    let msg' = t_create_t_c ∷ 1 ∷ new ∷ [] in
    let r = link_write device c msg s' in
    let m1 = link_write-Keeps l device c msg s' ks m in
    let s1 = change c answered (r.1) in
    let m2 = change-Moved l ks c answered (r.1) m1 (λ k. refl) in
    let r' = link_write device new msg' s1 in
    let m3 = link_write-Keeps l device new msg' s1 ks m2 in
    let freed = λ (x : Connection). record x { state = idle } in
    let waiting = λ (x : Connection). record x { tx_time = now } in
    let back = λ (x : Slot) (mx : Moved l ks (x.connections)).
      subst (Moved l ks) (sym (change-connections new freed x))
        (Moved-reset l ks (x.connections) new freed k mx g e (λ y. refl)) in
    by_bool (Keeps l ks) (r.0) _ (false, change new freed (r.1))
      (by_bool (Keeps l ks) (r'.0) (true, log (cam_connection_open new) (change new waiting (r'.1)))
        (false, change new freed (r'.1)) (change-Moved l ks new waiting (r'.1) m3 (λ y. refl))
        (back (r'.1) m3))
      (back (r.1) m1)

handle_request_tc-Keeps :
    (device : List Event → Bool) (now : Timeval) (c : ℕ) (s : Slot)
    → let l = from_module t_request_t_c in
      Keeps l (s.connections) (handle_request_tc device now c s)
unfolding handle_request_tc
handle_request_tc-Keeps device now c s = elim (Option-cases (alloc_new_tc s)) [
  | inl n ↦
      rw (n, handle_request_tc)
        (let l = from_module t_request_t_c in
          let msg = t_t_c_error ∷ 2 ∷ c ∷ 1 ∷ [] in
          let r = link_write device c msg s in
          let w =
            link_write-Keeps l device c msg s (s.connections) (Moved-refl l (s.connections)) in
          by_bool (Keeps l (s.connections)) (r.0) (true, change c answered (r.1)) r
            (change-Moved l (s.connections) c answered (r.1) w (λ k. refl)) w)
  | inr ((new, s'), a) ↦ rw (a, handle_request_tc) (create_tc-Keeps device now c s new s' a)
]

-- Each message of a module changes the states by the edges of its tag alone: only a T_C_T_C_REPLY makes
-- a connection active, and only one that is being created; only a T_DELETE_T_C or T_D_T_C_REPLY frees
-- one; a T_REQUEST_T_C takes an idle one; and no other message changes any.
pub handle_tpdu-Moved :
    (device : List Event → Bool) (now : Timeval) (p : Tpdu) (k : Connection) (s : Slot)
    → get_elem? (s.connections) (p.connection_id) ≡ some k
    → Moved (from_module (p.tag)) (s.connections) ((handle_tpdu device now p k s).1.connections)
unfolding handle_tpdu
handle_tpdu-Moved device now p k s e =
    let c = p.connection_id in
    let P = λ (tag : ℕ) (r : Done). Keeps (from_module tag) (s.connections) r in
    by_tag P (p.tag) t_c_t_c_reply _ _ (handle_create_tc_reply-Keeps c k s e) (
      by_tag P (p.tag) t_delete_t_c _ _ (handle_delete_tc-Keeps c k s e device) (
        by_tag P (p.tag) t_d_t_c_reply _ _ (handle_delete_tc_reply-Keeps c k s e) (
          by_tag P (p.tag) t_request_t_c _ _ (handle_request_tc-Keeps device now c s) (
            by_tag P (p.tag) t_data_more _ _
              (handle_data_more-Keeps c k s e (from_module t_data_more) device (p.body))
              (by_tag P (p.tag) t_data_last _ _
                (handle_data_last-Keeps c k s e (from_module t_data_last) device (p.body))
                (by_tag P (p.tag) t_sb _ _
                  (handle_sb-Keeps c k s e (from_module t_sb) device now (p.body))
                  (Moved-refl (from_module (p.tag)) (s.connections))))))))
