-- ===== src/En50221/App/Mmi/Kept.antt =====
-- What a message leaves alone.
use dvb_apps.Common.{
  ℕ, ◌≤◌, ◌≡◌, refl, sym, ap, subst, ◌∙◌, ◌≢◌, ◌⊎◌, inl, inr, Bool, true, false, Option, none, some,
  List, [], ◌∷◌, ◌++◌, arith, ◌==◌, Bool-cases, option_rule, length, drop, length-drop, Result, ok,
  fail, fault, Returns, Returns-bind, Safe,
}
use dvb_apps.En50221.App.{read_tag, read_body}
use dvb_apps.En50221.App.Mmi.{
  MmiSession, Mmi, Reply, refused, Chain, menus, lists, segments, downloads,
}
use dvb_apps.En50221.App.Mmi.Fragments.{
  tag_menu_last, tag_list_last, chain_of, is_last, Defragmented, pending, defragment,
}
use dvb_apps.En50221.App.Mmi.Text.{
  with_sessions, subtitle_call, handed_on, fragment, parse_list_menu, parse_subtitle,
}
use dvb_apps.En50221.App.Mmi.Pending.{is_key, held, IsRoom, Taken, defragment-Taken}
use dvb_apps.En50221.App.Mmi.Message.{whole_message, unchanged, tagged, message}
use dvb_apps.En50221.App.Mmi.Interleaved.{less-IsRoom}
use dvb_apps.En50221.App.Mmi.Bounds.{
  read_tag-Safe, read_body-Safe, whole_message-Safe, tag_for-chain_of,
}

-- The callbacks, and the chains of the other sessions.
abbrev pub Kept : ℕ → Mmi → Reply × Mmi → Type 0
Kept n mmi r =
    (r.1.callbacks ≡ mmi.callbacks)
    × ((m : ℕ) (d : Chain) → m ≢ n → pending m d (r.1.sessions) ≡ pending m d (mmi.sessions))

not_key : (m n : ℕ) (d c : Chain) → m ≢ n → is_key m d n c ≡ false
not_key m n d c h = elim (Bool-cases (m == n)) [
  | inl e ↦ absurd (h (ground arith))
  | inr e ↦ ground (arith, e)
]

not_empty : (body : List ℕ) → body ≢ [] → 1 ≤ length body
not_empty [] h = absurd (h refl)
not_empty (b ∷ bs) h = omega arith

-- A result taken apart, -1 included.
answer_rule :
    {A B : Type 0} (S : A → Type 0) (P : B → Type 0) (r : Result A) (k : A → Result B) (x : B)
    → Safe S r
    → ((a : A) → r ≡ ok a → S a → Returns P (k a))
    → P x
    → Returns P (elim r [ ok a ↦ k a | fail ↦ ok x | fault ↦ fault ])
answer_rule S P (ok a) k x s h p = h a refl s
answer_rule S P fail k x s h p = p
answer_rule S P fault k x s h p = absurd s

handed_on-Kept :
    (use' : List ℕ → Result Reply) (mmi : Mmi) (n : ℕ) (c : Chain) (last : Bool) (body : List ℕ)
    (r : Defragmented × List MmiSession)
    → (last ≡ true → (b : List ℕ) → Safe (λ r. Unit) (use' b))
    → Taken n c last body (mmi.sessions) r
    → Returns (Kept n mmi) (handed_on use' r mmi)
handed_on-Kept use' mmi n c false body (st, ss) u t =
    subst (λ st. Returns (Kept n mmi) (handed_on use' (st, ss) mmi)) (sym (t.0))
      (refl, λ m d h. t.1 m d ∙ ground (arith, not_key m n d c h))
handed_on-Kept use' mmi n c true body (st, ss) u t =
    let new = held (pending n c (mmi.sessions)) ++ body in
    let frame : Kept n mmi (refused, with_sessions ss mmi) =
      (refl, λ m d h. t.1 m d ∙ ground (arith, not_key m n d c h)) in
    subst (λ st. Returns (Kept n mmi) (handed_on use' (st, ss) mmi)) (sym (t.0))
      (answer_rule (λ r. Unit) (Kept n mmi) (use' new) (λ reply. ok (reply, with_sessions ss mmi)) _
        (u refl new) (λ reply e s. frame) frame)

fragment-Kept :
    (use' : List ℕ → Result Reply) (mmi : Mmi) (n tag : ℕ) (c : Chain) (bytes : List ℕ)
    → chain_of tag ≡ some c
    → (is_last tag ≡ true → (b : List ℕ) → Safe (λ r. Unit) (use' b))
    → IsRoom (length bytes) (pending n c (mmi.sessions))
    → read_body bytes ≢ ok []
    → Returns (Kept n mmi) (fragment use' mmi n tag (is_last tag) bytes)
fragment-Kept use' mmi n tag c bytes e u room h =
    answer_rule (λ body. length body ≤ length bytes) (Kept n mmi) (read_body bytes) _ (refused, mmi)
      (read_body-Safe bytes)
      (λ body b l.
        let last = is_last tag in
        let t = tag_for-chain_of tag c e in
        let some' = not_empty body (λ e. h (b ∙ ap ok e)) in
        let taken : Returns (Taken n c last body (mmi.sessions))
            (defragment n tag last body (mmi.sessions)) =
          subst
            (λ tag.
              Returns (Taken n c last body (mmi.sessions))
                (defragment n tag last body (mmi.sessions)))
            t
            (defragment-Taken n c last body (mmi.sessions) some'
              (less-IsRoom (length body) (length bytes) (pending n c (mmi.sessions)) l room)) in
        Returns-bind (Taken n c last body (mmi.sessions)) (Kept n mmi)
          (defragment n tag last body (mmi.sessions)) _ taken
          λ r k. handed_on-Kept use' mmi n c last body r u k)
      (refl, λ m d h. refl)

-- A message that is not the last of a menu or list, and is not an empty fragment.
abbrev pub IsPlain : List ℕ → Type 0
IsPlain bytes =
    (tag : ℕ)
    → read_tag bytes ≡ ok tag
    → (tag ≢ tag_menu_last)
      × (tag ≢ tag_list_last)
      × ((chain_of tag ≡ none) ⊎ (read_body (drop 3 bytes) ≢ ok []))

by_chain :
    {A : Type 0} (P : A → Type 0) (c : Chain) (x y z w : A)
    → (c ≡ menus → P x)
    → (c ≡ lists → P y)
    → P z × P w
    → P (elim c [ menus ↦ x | lists ↦ y | segments ↦ z | downloads ↦ w ])
by_chain P menus x y z w a b q = a refl
by_chain P lists x y z w a b q = b refl
by_chain P segments x y z w a b q = q.0
by_chain P downloads x y z w a b q = q.1

is_last_shown :
    (tag : ℕ) (c : Chain)
    → tag ≢ tag_menu_last
    → tag ≢ tag_list_last
    → (c ≡ menus) ⊎ (c ≡ lists)
    → chain_of tag ≡ some c
    → is_last tag ≡ false
unfolding is_last chain_of
is_last_shown tag menus a b h e = ground arith
is_last_shown tag lists a b h e = ground arith
is_last_shown tag segments a b h e = ground arith
is_last_shown tag downloads a b h e = ground arith

unchanged-Kept :
    (n : ℕ) (mmi : Mmi) (r : Result Reply)
    → Safe (λ r. Unit) r
    → Returns (Kept n mmi) (unchanged mmi r)
unchanged-Kept n mmi (ok reply) s = (refl, λ m d h. refl)
unchanged-Kept n mmi fail s = (refl, λ m d h. refl)
unchanged-Kept n mmi fault s = absurd s

list_menu-Kept :
    (mmi : Mmi) (slot n tag : ℕ) (c : Chain) (bytes : List ℕ)
    → (c ≡ menus) ⊎ (c ≡ lists)
    → chain_of tag ≡ some c
    → tag ≢ tag_menu_last
    → tag ≢ tag_list_last
    → IsRoom (length bytes) (pending n c (mmi.sessions))
    → read_body bytes ≢ ok []
    → Returns (Kept n mmi) (parse_list_menu mmi slot n tag (is_last tag) bytes)
unfolding parse_list_menu
list_menu-Kept mmi slot n tag c bytes s e a b room h =
    fragment-Kept _ mmi n tag c bytes e
      (λ t. absurd (let bad = sym t ∙ is_last_shown tag c a b s e in (ground arith))) room h

subtitle-Kept :
    (mmi : Mmi) (slot n tag : ℕ) (c : Chain) (bytes : List ℕ)
    → chain_of tag ≡ some c
    → IsRoom (length bytes) (pending n c (mmi.sessions))
    → read_body bytes ≢ ok []
    → Returns (Kept n mmi) (parse_subtitle mmi slot n tag (is_last tag) bytes)
unfolding parse_subtitle
subtitle-Kept mmi slot n tag c bytes e room h =
    fragment-Kept (λ b. ok (subtitle_call mmi slot n tag b)) mmi n tag c bytes e (λ t b. tt) room h

fragment_body : {P : Type 0} (o : Option Chain) (c : Chain) → o ≡ some c → (o ≡ none) ⊎ P → P
fragment_body o c e (inl h) = absurd (let bad = sym h ∙ e in (ground arith))
fragment_body o c e (inr p) = p

tagged-Kept :
    (mmi : Mmi) (slot n tag : ℕ) (bytes : List ℕ)
    → tag ≢ tag_menu_last
    → tag ≢ tag_list_last
    → (chain_of tag ≡ none) ⊎ (read_body bytes ≢ ok [])
    → ((c : Chain) → IsRoom (length bytes) (pending n c (mmi.sessions)))
    → Returns (Kept n mmi) (tagged mmi slot n tag bytes)
unfolding tagged
tagged-Kept mmi slot n tag bytes a b h room =
    option_rule (Returns (Kept n mmi)) (chain_of tag) _ _
      (λ e.
        unchanged-Kept n mmi (whole_message mmi slot n tag bytes)
          (whole_message-Safe mmi slot n tag bytes))
      λ c e.
        let full = fragment_body (chain_of tag) c e h in
        by_chain (Returns (Kept n mmi)) c _ _ _ _
          (λ s. list_menu-Kept mmi slot n tag c bytes (inl s) e a b (room c) full)
          (λ s. list_menu-Kept mmi slot n tag c bytes (inr s) e a b (room c) full)
          (let k = subtitle-Kept mmi slot n tag c bytes e (room c) full in (k, k))

-- A message of any bytes that is not the last of a menu or list, and is not an empty fragment, where
-- the chains of its session are allocated or empty and have room for it: it is answered, nothing
-- outside it is read, and the callbacks and the chains of the other sessions stay as they are.
pub message-Kept :
    (mmi : Mmi) (slot n : ℕ) (bytes : List ℕ)
    → IsPlain bytes
    → ((c : Chain) → IsRoom (length bytes) (pending n c (mmi.sessions)))
    → Returns (Kept n mmi) (message mmi slot n bytes)
unfolding message
message-Kept mmi slot n bytes p room =
    answer_rule (λ tag. 3 ≤ length bytes) (Kept n mmi) (read_tag bytes) _ (refused, mmi)
      (read_tag-Safe bytes)
      (λ tag e l.
        let (a, b, h) = p tag e in
        tagged-Kept mmi slot n tag (drop 3 bytes) a b h λ c.
          less-IsRoom (length (drop 3 bytes)) (length bytes) (pending n c (mmi.sessions))
            (omega (arith, length-drop 3 bytes)) (room c))
      (refl, λ m d h. refl)
