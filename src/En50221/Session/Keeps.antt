-- ===== src/En50221/Session/Keeps.antt =====
-- Steps of the session layer that leave one session as it is.
use dvb_apps.Common.{
  ℕ, suc, ◌+◌, ◌-◌, ◌*◌, ◌^◌, ◌≤◌, ◌≡◌, sym, ap, subst, ◌∙◌, ◌≢◌, inl, inr, Bool, true, false, not,
  Option, none, some, List, [], ◌∷◌, arith, ◌==◌, if◌then◌else◌, Bool-cases, Option-cases, if_rule,
  option_rule, get_elem?, drop, get_elem?-drop_one, get_elem?-set_other,
}
use dvb_apps.En50221.Link.{TransportLink}
use dvb_apps.En50221.Session.{
  SessionState, idle, active, in_creation, in_deletion, Session, SessionEvent, cam_connected,
  no_resource, status_code, Lookup, Upper, SessionLayer, status_open, with_session, with_state,
  inform, first_idle_session, alloc_new_session,
}
use dvb_apps.En50221.Session.Handlers.{
  is_from, open_session, settle, handle_open_session_request, close_code,
}
use dvb_apps.En50221.Session.Receive.{not_idle}

-- Session number `j` is `s`.
abbrev pub Here : {T : Type 0} → ℕ → Session → SessionLayer T → Type 0
Here j s sl = get_elem? (sl.sessions) j ≡ some s

-- Two sessions that a test tells apart have different numbers.
pub apart :
    (xs : List Session) (n j : ℕ) (t s : Session) (test : Session → Bool)
    → get_elem? xs n ≡ some t
    → get_elem? xs j ≡ some s
    → test t ≡ true
    → test s ≡ false
    → n ≢ j
apart xs n j t s test g h a b e =
    let same : some t ≡ some s = sym g ∙ ap (get_elem? xs) e ∙ h in
    let ts : t ≡ s = ground arith in
    let both : true ≡ false = sym a ∙ ap test ts ∙ b in ground arith

pub first_idle_session-found :
    (xs : List Session) (i n : ℕ) (t : Session)
    → first_idle_session xs i ≡ some (n, t)
    → (i ≤ n) × (get_elem? xs (n - i) ≡ some t) × (not_idle t ≡ false)
unfolding first_idle_session
first_idle_session-found [] i n t h = ground arith
first_idle_session-found (x ∷ xs) i n t h = elim (Bool-cases (not_idle x)) [
  | inl e ↦
      let f : first_idle_session xs (i + 1) ≡ some (n, t) = ground arith in
      let r = first_idle_session-found xs (i + 1) n t f in
      let z : n - i ≡ suc (n - (i + 1)) = omega (arith, r.0) in
      (omega (arith, r.0), ap (get_elem? (x ∷ xs)) z ∙ r.1, r.2)
  | inr e ↦
      let f : ◌≡◌ {A = Option (ℕ × Session)} (some (i, x)) (some (n, t)) = ground arith in
      let z : n - i ≡ 0 = ground arith in
      let y : x ≡ t = ground arith in
      (ground arith, ap (get_elem? (x ∷ xs)) z ∙ ap some y, ap not_idle (sym y) ∙ e)
]

pub with_session-Here :
    {T : Type 0} (sl : SessionLayer T) (n j : ℕ) (t s : Session)
    → n ≢ j
    → Here j s sl
    → Here j s (with_session n t sl)
with_session-Here sl n j t s h g = get_elem?-set_other (sl.sessions) n j t h ∙ g

-- A number that is given out is not `j`.
abbrev IsOther : ℕ → Option ℕ → Type 0
IsOther j none = Unit
IsOther j (some n) = n ≢ j

alloc_new_session-Here :
    {T : Type 0} (j : ℕ) (s : Session) (sl : SessionLayer T) (resource slot c : ℕ)
    (callback : Option ℕ)
    → not_idle s ≡ true
    → Here j s sl
    → Here j s ((alloc_new_session resource slot c callback sl).1)
      × IsOther j ((alloc_new_session resource slot c callback sl).0)
unfolding alloc_new_session
alloc_new_session-Here {T} j s sl resource slot c callback live g =
    option_rule (λ (r : Option ℕ × SessionLayer T). Here j s (r.1) × IsOther j (r.0))
      (first_idle_session (drop 1 (sl.sessions)) 1) _ _ (λ _. (g, tt))
      λ r e.
        let f = first_idle_session-found (drop 1 (sl.sessions)) 1 (r.0) (r.1) e in
        let at = sym (get_elem?-drop_one (sl.sessions) (r.0) (f.0)) ∙ f.1 in
        let other =
          apart (sl.sessions) (r.0) j (r.1) s (λ x. not (not_idle x)) at g (ap not (f.2))
            (ap not live) in
        (with_session-Here sl (r.0) j _ s other g, other)

pub close_code_apart :
    (j : ℕ) (s : Session) (xs : List Session) (n slot c : ℕ)
    → is_from slot c s ≡ false
    → get_elem? xs j ≡ some s
    → (close_code (get_elem? xs n) slot c == 0) ≡ true
    → n ≢ j
close_code_apart j s xs n slot c f g z = elim (Option-cases (get_elem? xs n)) [
  | inl e ↦ ground (arith, e)
  | inr (t, e) ↦
      let z' : (close_code (some t) slot c == 0) ≡ true =
        ap (λ o. close_code o slot c == 0) (sym e) ∙ z in
      elim (Bool-cases (is_from slot c t)) [
        | inl h ↦ apart xs n j t s (is_from slot c) e g h f
        | inr h ↦
            let w : close_code (some t) slot c ≡ 0xf0 =
              ap
                (λ b.
                  if b then (elim t.state [ active ↦ 0 | in_deletion ↦ 0 | _ ↦ 0xf0 ]) else 0xf0)
                h in
            let bad : ◌≡◌ {A = Bool} true false = sym z' ∙ ap (λ k. k == 0) w in ground arith
      ]
]

pub state_rule {ℓ κ} :
    {A : Type ℓ} (P : A → Type κ) (a : SessionState) (w x y z : A)
    → P w
    → P x
    → P y
    → P z
    → P (elim a [ idle ↦ w | active ↦ x | in_creation ↦ y | in_deletion ↦ z ])
state_rule P idle w x y z p q r t = p
state_rule P active w x y z p q r t = q
state_rule P in_creation w x y z p q r t = r
state_rule P in_deletion w x y z p q r t = t

module _ {T : Type 0} (link : TransportLink T) (u : Upper) (j : ℕ) (s : Session) where
  pub inform-Here :
      (e : SessionEvent) (sl : SessionLayer T) → Here j s sl → Here j s (inform u e sl)
  inform-Here e sl g = if_rule (Here j s) (u.session) _ _ (λ _. g) (λ _. g)

  pub with_state-Here :
      (n : ℕ) (a : SessionState) (sl : SessionLayer T)
      → n ≢ j
      → Here j s sl
      → Here j s (with_state n a sl)
  with_state-Here n a sl h g =
      option_rule (Here j s) (get_elem? (sl.sessions) n) _ _ (λ _. g)
        λ t _. with_session-Here sl n j (record t { state = a }) s h g

  settle-Here :
      (status slot : ℕ) (n? : Option ℕ) (resource : ℕ) (sl : SessionLayer T)
      → IsOther j n?
      → Here j s sl
      → Here j s (settle link u status slot n? resource sl)
  unfolding settle
  settle-Here status slot none resource sl h g = g
  settle-Here status slot (some n) resource sl h g =
      if_rule (Here j s) (status == status_open) _ _
        (λ _.
          inform-Here (cam_connected slot n resource) (with_state n active sl)
            (with_state-Here n active sl h g))
        (λ _. with_state-Here n idle sl h g)

  open_session-Here :
      (answer : Lookup) (slot c : ℕ) (sl : SessionLayer T)
      → not_idle s ≡ true
      → Here j s sl
      → IsOther j ((open_session link u answer slot c sl).1.0)
        × Here j s ((open_session link u answer slot c sl).1.1)
  unfolding open_session
  open_session-Here answer slot c sl live g =
      let P = λ (r : ℕ × (Option ℕ × SessionLayer T)). IsOther j (r.1.0) × Here j s (r.1.1) in
      let a =
        alloc_new_session-Here j s sl (answer.connected_resource_id) slot c (answer.callback) live
          g in
      if_rule P (status_code (answer.status) == status_open) _ _
        (λ _.
          option_rule P
            ((alloc_new_session (answer.connected_resource_id) slot c (answer.callback) sl).0) _ _
            (λ _. (tt, a.0))
            λ n e.
              let other : n ≢ j = subst (IsOther j) e (a.1) in
              if_rule P (u.session) _ _ (λ _. (other, a.0)) (λ _. (other, a.0)))
        (λ _. (tt, g))

  pub request-Here :
      (bytes : List ℕ) (slot c : ℕ) (sl : SessionLayer T)
      → not_idle s ≡ true
      → Here j s sl
      → Here j s (handle_open_session_request link u bytes slot c sl)
  unfolding handle_open_session_request
  request-Here [] slot c sl live g = g
  request-Here (l ∷ []) slot c sl live g = g
  request-Here (l ∷ p ∷ []) slot c sl live g = g
  request-Here (l ∷ p ∷ q ∷ []) slot c sl live g = g
  request-Here (l ∷ p ∷ q ∷ r ∷ []) slot c sl live g = g
  request-Here (l ∷ p ∷ q ∷ r ∷ x ∷ rest) slot c sl live g =
      let requested = p * 2 ^ 24 + q * 2 ^ 16 + r * 2 ^ 8 + x in
      let answer : Lookup = elim u.lookup [
        | some lookup ↦ lookup slot requested
        | none ↦ record { status = no_resource; callback = none; connected_resource_id = u.unset }
      ] in
      let o = open_session-Here answer slot c sl live g in
      if_rule (Here j s) (l == 4) _ _
        (λ _.
          settle-Here _ slot ((open_session link u answer slot c sl).1.0)
            (answer.connected_resource_id) _ (o.0) (o.1))
        (λ _. g)
