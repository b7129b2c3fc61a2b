-- ===== src/En50221/App/Mmi/Pending.antt =====
-- What a chain holds after a fragment.
use dvb_apps.Common.{
  ℕ, ◌+◌, ◌^◌, ◌≤◌, ◌<◌, ◌≡◌, refl, sym, ap, subst, ◌∙◌, inl, inr, Bool, true, false, ◌&&◌, none,
  some, List, [], ◌∷◌, ◌++◌, arith, ◌==◌, if◌then◌else◌, Option-cases, if_rule, &&_left, length, ok,
  Returns,
}
use dvb_apps.En50221.App.Mmi.{
  Block, null, block, freed, MmiSession, Chain, menus, lists, segments, downloads, block_of,
  with_block, find, change_session,
}
use dvb_apps.En50221.App.Mmi.Fragments.{
  tag_menu_last, tag_menu_more, tag_list_last, tag_list_more, tag_subtitle_segment_last,
  tag_subtitle_segment_more, tag_subtitle_download_last, tag_subtitle_download_more, chain_of,
  is_last, append, Defragmented, incomplete, complete, new_session, with_new_session, pending, put,
  add_more, add_last, defragment,
}

abbrev pub same_chain : Chain → Chain → Bool
same_chain menus menus = true
same_chain lists lists = true
same_chain segments segments = true
same_chain downloads downloads = true
same_chain _ _ = false

abbrev pub is_key : ℕ → Chain → ℕ → Chain → Bool
is_key m d n c = (m == n) && same_chain d c

number_lem :
    (c : Chain) (b : Block) (s : MmiSession) → (with_block c b s).session_number ≡ s.session_number
number_lem menus b s = refl
number_lem lists b s = refl
number_lem segments b s = refl
number_lem downloads b s = refl

block_of-with_block :
    (d c : Chain) (b : Block) (s : MmiSession)
    → block_of d (with_block c b s) ≡ (if same_chain d c then b else block_of d s)
block_of-with_block menus menus b s = refl
block_of-with_block menus lists b s = refl
block_of-with_block menus segments b s = refl
block_of-with_block menus downloads b s = refl
block_of-with_block lists menus b s = refl
block_of-with_block lists lists b s = refl
block_of-with_block lists segments b s = refl
block_of-with_block lists downloads b s = refl
block_of-with_block segments menus b s = refl
block_of-with_block segments lists b s = refl
block_of-with_block segments segments b s = refl
block_of-with_block segments downloads b s = refl
block_of-with_block downloads menus b s = refl
block_of-with_block downloads lists b s = refl
block_of-with_block downloads segments b s = refl
block_of-with_block downloads downloads b s = refl

find-change_session :
    (m n : ℕ) (c : Chain) (b : Block) (ss : List MmiSession)
    → find m (change_session n (with_block c b) ss) ≡ (
        if m == n
        then elim (find m ss) [ none ↦ none | some s ↦ some (with_block c b s) ]
        else find m ss)
unfolding find change_session
find-change_session m n c b [] = ground arith
find-change_session m n c b (s ∷ ss) =
    ground (arith, find-change_session m n c b ss, number_lem c b s)

pub pending-put :
    (m n : ℕ) (d c : Chain) (b : Block) (s : MmiSession) (ss : List MmiSession)
    → find n ss ≡ some s
    → pending m d (put n c b ss) ≡ (if is_key m d n c then b else pending m d ss)
unfolding pending
pending-put m n d c b s ss h =
    let e : (m == n) ≡ true → find m ss ≡ some s = λ t. ap (λ k. find k ss) (ground arith) ∙ h in
    ground (arith, find-change_session m n c b ss, block_of-with_block d c b s, e)

pub find-with_new_session :
    (n : ℕ) (ss : List MmiSession) → (s : MmiSession) × (find n (with_new_session n ss) ≡ some s)
unfolding with_new_session find
find-with_new_session n ss = elim (Option-cases (find n ss)) [
  | inl e ↦ (new_session n, ground (arith, e))
  | inr (s, e) ↦ (s, ground (arith, e))
]

find_cons :
    (m n : ℕ) (ss : List MmiSession)
    → find m (new_session n ∷ ss) ≡ (if n == m then some (new_session n) else find m ss)
unfolding find
find_cons m n ss = refl

pub pending-with_new_session :
    (m n : ℕ) (d : Chain) (ss : List MmiSession)
    → pending m d (with_new_session n ss) ≡ pending m d ss
unfolding pending with_new_session
pending-with_new_session m n d ss =
    let e : (n == m) ≡ true → find n ss ≡ find m ss = λ t. ap (λ k. find k ss) (ground arith) in
    let new : find m (new_session n ∷ ss) ≡ (if n == m then some (new_session n) else find m ss) =
      find_cons m n ss in
    elim d [
      | menus ↦ ground (arith, e, new)
      | lists ↦ ground (arith, e, new)
      | segments ↦ ground (arith, e, new)
      | downloads ↦ ground (arith, e, new)
    ]

-- What is held of data that is not complete.
abbrev pub held : Block → List ℕ
held null = []
held (block bytes) = bytes
held freed = []

-- A block that realloc has not freed, and that has room for as many bytes.
abbrev pub IsRoom : ℕ → Block → Type 0
IsRoom k null = Unit
IsRoom k (block bytes) = length bytes + k < 2 ^ 32
IsRoom k freed = ⊥

pub append_lem :
    (b : Block) (body : List ℕ)
    → 1 ≤ length body
    → IsRoom (length body) b
    → append b body ≡ ok (held b ++ body)
unfolding append
append_lem null body l r = refl
append_lem (block bytes) body l r = ground arith
append_lem freed body l r = absurd r

-- The tag of a fragment.
abbrev pub tag_for : Chain → Bool → ℕ
tag_for menus last = if last then tag_menu_last else tag_menu_more
tag_for lists last = if last then tag_list_last else tag_list_more
tag_for segments last = if last then tag_subtitle_segment_last else tag_subtitle_segment_more
tag_for downloads last = if last then tag_subtitle_download_last else tag_subtitle_download_more

pub chain_of-tag_for : (c : Chain) (last : Bool) → chain_of (tag_for c last) ≡ some c
unfolding chain_of
chain_of-tag_for menus true = refl
chain_of-tag_for menus false = refl
chain_of-tag_for lists true = refl
chain_of-tag_for lists false = refl
chain_of-tag_for segments true = refl
chain_of-tag_for segments false = refl
chain_of-tag_for downloads true = refl
chain_of-tag_for downloads false = refl

pub is_last-tag_for : (c : Chain) (last : Bool) → is_last (tag_for c last) ≡ last
unfolding is_last
is_last-tag_for menus true = refl
is_last-tag_for menus false = refl
is_last-tag_for lists true = refl
is_last-tag_for lists false = refl
is_last-tag_for segments true = refl
is_last-tag_for segments false = refl
is_last-tag_for downloads true = refl
is_last-tag_for downloads false = refl

pub key_self : (n : ℕ) (c : Chain) → is_key n c n c ≡ true
key_self n menus = ground arith
key_self n lists = ground arith
key_self n segments = ground arith
key_self n downloads = ground arith

pending_absent :
    (m n : ℕ) (d c : Chain) (ss : List MmiSession)
    → is_key m d n c ≡ true
    → find n ss ≡ none
    → pending m d ss ≡ null
unfolding pending
pending_absent m n d c ss k h =
    let e : find m ss ≡ none =
      ap (λ k. find k ss) (ground (arith, &&_left (m == n) (same_chain d c) k)) ∙ h in
    ground (arith, e)

-- What a fragment does: what it completes, and what each chain holds behind it.
abbrev pub Taken :
    ℕ → Chain → Bool → List ℕ → List MmiSession → Defragmented × List MmiSession → Type 0
Taken n c last body ss r =
    let new = held (pending n c ss) ++ body in
    (r.0 ≡ (if last then complete new else incomplete))
    × ((m : ℕ) (d : Chain)
        → pending m d (r.1)
          ≡ (if is_key m d n c then if last then null else block new else pending m d ss))

pub defragment-Taken :
    (n : ℕ) (c : Chain) (last : Bool) (body : List ℕ) (ss : List MmiSession)
    → 1 ≤ length body
    → IsRoom (length body) (pending n c ss)
    → Returns (Taken n c last body ss) (defragment n (tag_for c last) last body ss)
unfolding defragment add_more add_last
defragment-Taken n c false body ss l r =
    let new = held (pending n c ss) ++ body in
    let ss1 = with_new_session n ss in
    let (s, e) = find-with_new_session n ss in
    let a : append (pending n c ss1) body ≡ ok new =
      ap (λ b. append b body) (pending-with_new_session n n c ss)
      ∙ append_lem (pending n c ss) body l r in
    let whole : defragment n (tag_for c false) false body ss
        ≡ ok (incomplete, put n c (block new) ss1) =
      ground (arith, chain_of-tag_for c false, a) in
    subst (Returns (Taken n c false body ss)) (sym whole) (
      refl,
      λ m d.
          pending-put m n d c (block new) s ss1 e
          ∙ ap (λ p. if is_key m d n c then block new else p) (pending-with_new_session m n d ss),
    )
defragment-Taken n c true body ss l r = elim (Option-cases (find n ss)) [
  | inl e ↦
      let nothing_held : (m : ℕ) (d : Chain) → is_key m d n c ≡ true → pending m d ss ≡ null =
        λ m d k. pending_absent m n d c ss k e in
      let whole : defragment n (tag_for c true) true body ss ≡ ok (complete body, ss) =
        ground (arith, e) in
      subst (Returns (Taken n c true body ss)) (sym whole) (
        ap (λ b. complete (held b ++ body)) (sym (pending_absent n n c c ss (key_self n c) e)),
        λ m d.
            if_rule (λ p. pending m d ss ≡ p) (is_key m d n c) null (pending m d ss)
              (nothing_held m d) (λ _. refl),
      )
  | inr (s, e) ↦
      let new = held (pending n c ss) ++ body in
      let a = append_lem (pending n c ss) body l r in
      let whole : defragment n (tag_for c true) true body ss ≡ ok (complete new, put n c null ss) =
        ground (arith, chain_of-tag_for c true, a, e) in
      subst (Returns (Taken n c true body ss)) (sym whole)
        (refl, λ m d. pending-put m n d c null s ss e)
]
