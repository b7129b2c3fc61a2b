-- ===== src/En50221/Transport/Moves.antt =====
-- The states of a connection, and what may change them.
use dvb_apps.Common.{
  ℕ, zero, suc, ◌≡◌, refl, sym, ap, subst, ◌∙◌, ◌⊎◌, inl, inr, true, none, some, List, [], ◌∷◌,
  arith, Option-cases, length, get_elem?, set,
}
use dvb_apps.En50221.Transport.{
  ConnectionState, idle, active, active_deletequeued, in_creation, in_deletion, Connection, Slot,
  change, t_c_t_c_reply, t_delete_t_c, t_d_t_c_reply, t_request_t_c,
}
use dvb_apps.En50221.Transport.Polling.{may_send}

-- What makes a connection change its state: a message of the module by its tag, a round of
-- `en50221_tl_poll`, or a call that asks for a connection or for its end.
pub data Cause : Type 0 where
  from_module : ℕ → Cause
  polled asked_new asked_delete : Cause

-- The changes that each of them makes.
pub data Edge : Cause → ConnectionState → ConnectionState → Type 0 where
  confirmed : Edge (from_module t_c_t_c_reply) in_creation active
  taken_down : Edge (from_module t_delete_t_c) active idle
  taken_down_late : Edge (from_module t_delete_t_c) in_deletion idle
  finished : Edge (from_module t_d_t_c_reply) in_deletion idle
  requested : Edge (from_module t_request_t_c) idle in_creation
  asked : Edge asked_new idle in_creation
  delete_queued : Edge asked_delete active active_deletequeued
  delete_queued_late : Edge asked_delete in_deletion active_deletequeued
  delete_sent : {a : ConnectionState} → may_send a ≡ true → Edge polled a in_deletion
  given_up : Edge polled in_creation idle
  given_up_late : Edge polled in_deletion idle

-- A state stays or takes one edge.
abbrev pub Step : Cause → ConnectionState → ConnectionState → Type 0
Step l a b = (a ≡ b) ⊎ Edge l a b

-- Every connection has stayed or taken one edge, and none is lost or added.
abbrev pub Moved : Cause → List Connection → List Connection → Type 0
Moved l [] [] = Unit
Moved l [] (k ∷ ks) = ⊥
Moved l (k ∷ ks) [] = ⊥
Moved l (k ∷ ks) (k' ∷ ks') = Step l (k.state) (k'.state) × Moved l ks ks'

pub Moved-refl : (l : Cause) (ks : List Connection) → Moved l ks ks
Moved-refl l [] = tt
Moved-refl l (k ∷ ks) = (inl refl, Moved-refl l ks)

pub Moved-length : (l : Cause) (ks ls : List Connection) → Moved l ks ls → length ls ≡ length ks
Moved-length l [] [] p = refl
Moved-length l [] (k' ∷ ls) p = absurd p
Moved-length l (k ∷ ks) [] p = absurd p
Moved-length l (k ∷ ks) (k' ∷ ls) p = ap suc (Moved-length l ks ls (p.1))

pub Moved-set :
    (l : Cause) (ks : List Connection) (c : ℕ) (k k' : Connection)
    → get_elem? ks c ≡ some k
    → Step l (k.state) (k'.state)
    → Moved l ks (set ks c k')
Moved-set l [] c k k' h m = tt
Moved-set l (x ∷ ks) zero k k' h m =
    let e : k ≡ x = ground arith in (subst (λ y. Step l (y.state) (k'.state)) e m, Moved-refl l ks)
Moved-set l (x ∷ ks) (suc c) k k' h m = (inl refl, Moved-set l ks c k k' h m)

abbrev pub change_at : List Connection → ℕ → (Connection → Connection) → List Connection
change_at [] c f = []
change_at (k ∷ ks) zero f = f k ∷ ks
change_at (k ∷ ks) (suc c) f = k ∷ change_at ks c f

set-change_at :
    (ks : List Connection) (c : ℕ) (f : Connection → Connection) (k : Connection)
    → get_elem? ks c ≡ some k
    → set ks c (f k) ≡ change_at ks c f
set-change_at [] c f k h = refl
set-change_at (x ∷ ks) zero f k h = let e : k ≡ x = ground arith in ap (λ y. f y ∷ ks) e
set-change_at (x ∷ ks) (suc c) f k h = ap (λ r. x ∷ r) (set-change_at ks c f k h)

untouched_lem :
    (ks : List Connection) (c : ℕ) (f : Connection → Connection)
    → get_elem? ks c ≡ none
    → ks ≡ change_at ks c f
untouched_lem [] c f h = refl
untouched_lem (x ∷ ks) zero f h = ground arith
untouched_lem (x ∷ ks) (suc c) f h = ap (λ r. x ∷ r) (untouched_lem ks c f h)

pub change-connections :
    (c : ℕ) (f : Connection → Connection) (s : Slot)
    → (change c f s).connections ≡ change_at (s.connections) c f
unfolding change
change-connections c f s = elim (Option-cases (get_elem? (s.connections) c)) [
  | inl e ↦ rw (e, change) (untouched_lem (s.connections) c f e)
  | inr (k, e) ↦ rw (e, change) (set-change_at (s.connections) c f k e)
]

-- A further change that keeps the states.
pub Moved-change :
    (l : Cause) (ks ls : List Connection) (c : ℕ) (f : Connection → Connection)
    → Moved l ks ls
    → ((k : Connection) → (f k).state ≡ k.state)
    → Moved l ks (change_at ls c f)
Moved-change l [] [] c f m h = tt
Moved-change l [] (x ∷ ls) c f m h = absurd m
Moved-change l (k ∷ ks) [] c f m h = absurd m
Moved-change l (k ∷ ks) (x ∷ ls) zero f m h =
    (subst (λ b. Step l (k.state) b) (sym (h x)) (m.0), m.1)
Moved-change l (k ∷ ks) (x ∷ ls) (suc c) f m h = (m.0, Moved-change l ks ls c f (m.1) h)

-- A change that makes a connection idle which was so to begin with.
pub Moved-reset :
    (l : Cause) (ks ls : List Connection) (c : ℕ) (f : Connection → Connection) (k : Connection)
    → Moved l ks ls
    → get_elem? ks c ≡ some k
    → k.state ≡ idle
    → ((x : Connection) → (f x).state ≡ idle)
    → Moved l ks (change_at ls c f)
Moved-reset l [] [] c f k m g e h = tt
Moved-reset l [] (x ∷ ls) c f k m g e h = absurd m
Moved-reset l (y ∷ ks) [] c f k m g e h = absurd m
Moved-reset l (y ∷ ks) (x ∷ ls) zero f k m g e h =
    let w : k ≡ y = ground arith in (inl (subst (λ z. z.state ≡ idle) w e ∙ sym (h x)), m.1)
Moved-reset l (y ∷ ks) (x ∷ ls) (suc c) f k m g e h = (m.0, Moved-reset l ks ls c f k (m.1) g e h)

-- A change that takes an edge from where a connection was to begin with.
pub Moved-get_elem :
    (l : Cause) (ks ls : List Connection) (c : ℕ) (f : Connection → Connection) (k : Connection)
    → Moved l ks ls
    → get_elem? ks c ≡ some k
    → ((x : Connection) → Step l (k.state) ((f x).state))
    → Moved l ks (change_at ls c f)
Moved-get_elem l [] [] c f k m g h = tt
Moved-get_elem l [] (x ∷ ls) c f k m g h = absurd m
Moved-get_elem l (y ∷ ks) [] c f k m g h = absurd m
Moved-get_elem l (y ∷ ks) (x ∷ ls) zero f k m g h =
    let w : k ≡ y = ground arith in (subst (λ z. Step l (z.state) ((f x).state)) w (h x), m.1)
Moved-get_elem l (y ∷ ks) (x ∷ ls) (suc c) f k m g h = (m.0, Moved-get_elem l ks ls c f k (m.1) g h)

pub Moved-get :
    (l : Cause) (ks ls : List Connection) (c : ℕ) (k' : Connection)
    → Moved l ks ls
    → get_elem? ls c ≡ some k'
    → (k : Connection) × (get_elem? ks c ≡ some k) × Step l (k.state) (k'.state)
Moved-get l [] [] c k' m g = ground arith
Moved-get l [] (x ∷ ls) c k' m g = absurd m
Moved-get l (y ∷ ks) [] c k' m g = absurd m
Moved-get l (y ∷ ks) (x ∷ ls) zero k' m g =
    let e : x ≡ k' = ground arith in (y, refl, subst (λ z. Step l (y.state) (z.state)) e (m.0))
Moved-get l (y ∷ ks) (x ∷ ls) (suc c) k' m g = Moved-get l ks ls c k' (m.1) g

-- One edge alone leads to an active connection.
pub Edge-active :
    {l : Cause} {a b : ConnectionState}
    → Edge l a b
    → b ≡ active
    → (l ≡ from_module t_c_t_c_reply) × (a ≡ in_creation)
Edge-active confirmed e = (refl, refl)
Edge-active taken_down e = ground arith
Edge-active taken_down_late e = ground arith
Edge-active finished e = ground arith
Edge-active requested e = ground arith
Edge-active asked e = ground arith
Edge-active delete_queued e = ground arith
Edge-active delete_queued_late e = ground arith
Edge-active (delete_sent m) e = ground arith
Edge-active given_up e = ground arith
Edge-active given_up_late e = ground arith
