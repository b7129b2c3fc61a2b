-- ===== src/En50221/Transport/Alloc.antt =====
-- The connection that is given out next.
use dvb_apps.Common.{
  ℕ, suc, ◌+◌, ◌-◌, ◌≤◌, ◌≡◌, refl, sym, ap, subst, ◌∙◌, ◌⊎◌, inl, inr, false, none, some, List, [],
  ◌∷◌, arith, Option-cases, get_elem?, get_elem?-drop_one, drop,
}
use dvb_apps.En50221.Transport.{
  ConnectionState, idle, active, active_deletequeued, in_creation, in_deletion, Connection, Slot,
  with_connection, first_idle, alloc_new_tc,
}

first_idle_cons :
    (ks : List Connection) (i : ℕ) (x : Connection)
    → ((x.state ≡ idle) × (first_idle (x ∷ ks) i ≡ some (i, x)))
      ⊎ (first_idle (x ∷ ks) i ≡ first_idle ks (i + 1))
unfolding first_idle
first_idle_cons ks i x = go (x.state) refl
  where
    go :
        (a : ConnectionState)
        → a ≡ x.state
        → ((x.state ≡ idle) × (first_idle (x ∷ ks) i ≡ some (i, x)))
          ⊎ (first_idle (x ∷ ks) i ≡ first_idle ks (i + 1))
    go idle e = inl (sym e, ground arith)
    go active e = inr (rw (sym e, first_idle) refl)
    go active_deletequeued e = inr (rw (sym e, first_idle) refl)
    go in_creation e = inr (rw (sym e, first_idle) refl)
    go in_deletion e = inr (rw (sym e, first_idle) refl)

first_idle-found :
    (ks : List Connection) (i j : ℕ) (k : Connection)
    → first_idle ks i ≡ some (j, k)
    → (i ≤ j) × (get_elem? ks (j - i) ≡ some k) × (k.state ≡ idle)
unfolding first_idle
first_idle-found [] i j k h = ground arith
first_idle-found (x ∷ ks) i j k h = elim (first_idle_cons ks i x) [
  | inl (e, f) ↦
      let z : j - i ≡ 0 = ground arith in
      let y : x ≡ k = ground arith in
      (ground arith, ap (get_elem? (x ∷ ks)) z ∙ ap some y, subst (λ y. y.state ≡ idle) y e)
  | inr f ↦
      let r = first_idle-found ks (i + 1) j k (sym f ∙ h) in
      let z : j - i ≡ suc (j - (i + 1)) = omega (arith, r.0) in
      (omega (arith, r.0), ap (get_elem? (x ∷ ks)) z ∙ r.1, r.2)
]

abbrev pub taken : Connection → Connection
taken k = record k { state = in_creation; chain_buffer = none; chain_freed = false }

-- The new connection is an idle one, and not number 0.
pub alloc_new_tc-found :
    (s : Slot) (c : ℕ) (s' : Slot)
    → alloc_new_tc s ≡ some (c, s')
    → (k : Connection) × (1 ≤ c)
      × (get_elem? (s.connections) c ≡ some k)
      × (k.state ≡ idle)
      × (s' ≡ with_connection c (taken k) s)
unfolding alloc_new_tc
alloc_new_tc-found s c s' h = elim (Option-cases (first_idle (drop 1 (s.connections)) 1)) [
  | inl n ↦ ground arith
  | inr ((j, k), e) ↦
      let r = first_idle-found (drop 1 (s.connections)) 1 j k e in
      let ej : j ≡ c = ground arith in
      let es : s' ≡ with_connection c (taken k) s = ground arith in
      let g : get_elem? (s.connections) c ≡ some k =
        ap (get_elem? (s.connections)) (sym ej)
        ∙ sym (get_elem?-drop_one (s.connections) j (r.0))
        ∙ r.1 in
      (k, subst (λ n. 1 ≤ n) ej (r.0), g, r.2, es)
]
