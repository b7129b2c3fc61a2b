-- ===== src/En50221/App/Mmi/Freed.antt =====
-- Empty fragments.
use dvb_apps.Common.{
  ℕ, ◌^◌, ◌<◌, ◌≡◌, refl, sym, ap, ap₂, subst, ◌∙◌, ◌⊎◌, inl, inr, Bool, true, false, List, [], ◌∷◌,
  arith, length, Result, ok, fail, fault, ◌>>=◌, Returns, Returns-bind,
}
use dvb_apps.En50221.App.Mmi.{
  Block, null, block, freed, MmiSession, Mmi, Reply, refused, nothing, Chain, find, free, clear,
  clear_session,
}
use dvb_apps.En50221.App.Mmi.Fragments.{
  append, Defragmented, short, incomplete, with_new_session, pending, put, add_more, add_last,
  defragment,
}
use dvb_apps.En50221.App.Mmi.Text.{with_sessions, handed_on}
use dvb_apps.En50221.App.Mmi.Pending.{
  find-with_new_session, pending-with_new_session, pending-put, tag_for, chain_of-tag_for, key_self,
}
use dvb_apps.En50221.Session.Apdus.{apdu_bytes}
use dvb_apps.En50221.App.Mmi.Message.{message}
use dvb_apps.En50221.App.Mmi.Dialogue.{messages, shown_chain, shown_tag, use_shown, message_lem}

abbrev grown : Result (List ℕ) → Result (Defragmented × Block)
grown (ok new) = ok (incomplete, block new)
grown fail = ok (short, freed)
grown fault = fault

abbrev At : ℕ → Chain → Defragmented → Block → Defragmented × List MmiSession → Type 0
At n c st after r = (r.0 ≡ st) × (pending n c (r.1) ≡ after)

-- A fragment to come, by what its chain holds.
defragment-At :
    (n : ℕ) (c : Chain) (body : List ℕ) (ss : List MmiSession) (st : Defragmented) (after : Block)
    → grown (append (pending n c ss) body) ≡ ok (st, after)
    → Returns (At n c st after) (defragment n (tag_for c false) false body ss)
unfolding defragment add_more
defragment-At n c body ss st after h =
    let ss1 = with_new_session n ss in
    let (s, e) = find-with_new_session n ss in
    let g : grown (append (pending n c ss1) body) ≡ ok (st, after) =
      ap (λ b. grown (append b body)) (pending-with_new_session n n c ss) ∙ h in
    let put_lem = pending-put n n c c after s ss1 e in
    let e2 : defragment n (tag_for c false) false body ss ≡ ok (st, put n c after ss1) =
      ground (arith, chain_of-tag_for c false, g) in
    subst (Returns (At n c st after)) (sym e2) (refl, ground (arith, put_lem, key_self n c))

-- The same where the chain is freed: nothing can be added.
defragment_freed :
    (n : ℕ) (c : Chain) (last : Bool) (body : List ℕ) (ss : List MmiSession)
    → pending n c ss ≡ freed
    → defragment n (tag_for c last) last body ss ≡ fault
unfolding defragment add_more add_last append pending
defragment_freed n c false body ss h =
    ground (arith, chain_of-tag_for c false, pending-with_new_session n n c ss, h)
defragment_freed n c true body ss h = ground (arith, chain_of-tag_for c true, h)

-- An empty fragment of a menu or list to come.
abbrev pub empty_fragment : Bool → List ℕ
empty_fragment is_list = apdu_bytes (shown_tag is_list false) []

abbrev Answers : ℕ → Bool → Reply → Block → Reply × Mmi → Type 0
Answers n is_list reply after r =
    (r.0 ≡ reply) × (pending n (shown_chain is_list) (r.1.sessions) ≡ after)

empty_fragment_lem :
    (is_list : Bool) (mmi : Mmi) (slot n : ℕ) (st : Defragmented) (reply : Reply) (after : Block)
    → grown (append (pending n (shown_chain is_list) (mmi.sessions)) []) ≡ ok (st, after)
    → ((ss : List MmiSession)
        → handed_on (use_shown mmi slot n (tag_for (shown_chain is_list) false)) (st, ss) mmi
          ≡ ok (reply, with_sessions ss mmi))
    → Returns (Answers n is_list reply after) (message mmi slot n (empty_fragment is_list))
empty_fragment_lem is_list mmi slot n st reply after g f =
    let c = shown_chain is_list in
    let tag = tag_for c false in
    subst (Returns (Answers n is_list reply after))
      (sym (message_lem is_list false mmi slot n [] (omega arith)))
      (Returns-bind (At n c st after) (Answers n is_list reply after)
        (defragment n tag false [] (mmi.sessions)) _
        (defragment-At n c [] (mmi.sessions) st after g)
        λ (st1, ss) a.
          subst (Returns (Answers n is_list reply after))
            (sym (ap (λ st. handed_on (use_shown mmi slot n tag) (st, ss) mmi) (a.0) ∙ f ss))
            (refl, a.1))

free_cases : (b : Block) → (free b ≡ ok tt) ⊎ (free b ≡ fault)
free_cases null = inl refl
free_cases (block bytes) = inl refl
free_cases freed = inr refl

clear_freed :
    (n : ℕ) (is_list : Bool) (ss : List MmiSession)
    → pending n (shown_chain is_list) ss ≡ freed
    → clear n ss ≡ fault
unfolding clear pending find
clear_freed n is_list [] h = ground arith
clear_freed n true (s ∷ ss) h =
    ground (arith, clear_freed n true ss, free_cases (s.menu_block), free_cases (s.list_block))
clear_freed n false (s ∷ ss) h = ground (arith, clear_freed n false ss, free_cases (s.menu_block))

-- Two empty fragments to come of a menu or list, where nothing of it was waiting on the session: the
-- second is refused, and its chain is left with a block that realloc has freed. The next fragment
-- of that kind on the session and the end of the session use the block again, whatever that fragment is.
pub messages-empty_fragment :
    (is_list : Bool) (slot n : ℕ) (mmi : Mmi)
    → pending n (shown_chain is_list) (mmi.sessions) ≡ null
    → Returns
        (λ r.
          (r.0 ≡ nothing ∷ refused ∷ [])
          × ((last : Bool) (body : List ℕ)
              → length body < 2 ^ 16
              → message (r.1) slot n (apdu_bytes (shown_tag is_list last) body) ≡ fault)
          × (clear_session n (r.1) ≡ fault))
        (messages mmi slot n (empty_fragment is_list ∷ empty_fragment is_list ∷ []))
unfolding messages append clear_session
messages-empty_fragment is_list slot n mmi p =
    let c = shown_chain is_list in
    let Q : List Reply × Mmi → Type 0 = λ r.
      (r.0 ≡ nothing ∷ refused ∷ [])
      × ((last : Bool) (body : List ℕ)
          → length body < 2 ^ 16
          → message (r.1) slot n (apdu_bytes (shown_tag is_list last) body) ≡ fault)
      × (clear_session n (r.1) ≡ fault) in
    let P : List Reply × Mmi → Type 0 =
      λ r. (r.0 ≡ refused ∷ []) × (pending n c (r.1.sessions) ≡ freed) in
    Returns-bind (Answers n is_list nothing (block [])) Q
      (message mmi slot n (empty_fragment is_list)) _
      (empty_fragment_lem is_list mmi slot n incomplete nothing (block [])
        (ap (λ b. grown (append b [])) p) λ ss. refl)
      λ (r1, mmi1) a.
        Returns-bind P Q _ _
          (Returns-bind (Answers n is_list refused freed) P
            (message mmi1 slot n (empty_fragment is_list)) _
            (empty_fragment_lem is_list mmi1 slot n short refused freed
              (ap (λ b. grown (append b [])) (a.1)) λ ss. refl)
            λ r b. (ap (λ x. x ∷ []) (b.0), b.1))
          λ (r2, mmi2) b. (
            ap₂ (λ x xs. x ∷ xs) (a.0) (b.0),
            λ last body h.
                message_lem is_list last mmi2 slot n body h
                ∙ ap (λ r. r >>= λ r. handed_on (use_shown mmi2 slot n (tag_for c last)) r mmi2)
                    (defragment_freed n c last body (mmi2.sessions) (b.1)),
            ap (λ r. r >>= λ ss. ok (with_sessions ss mmi2))
                (clear_freed n is_list (mmi2.sessions) (b.1)),
          )
