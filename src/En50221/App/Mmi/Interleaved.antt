-- ===== src/En50221/App/Mmi/Interleaved.antt =====
-- Fragments of several sessions and chains, in any order.
use dvb_apps.Common.{
  ℕ, ◌+◌, ◌^◌, ◌≤◌, ◌<◌, ◌≡◌, refl, sym, ap, subst, ◌∙◌, Bool, true, false, List, [], ◌∷◌, ◌++◌,
  arith, ◌==◌, if◌then◌else◌, if_rule, &&_left, &&_right, length, All, length-append, Result, ok,
  ◌>>=◌, Returns, Returns-bind,
}
use dvb_apps.En50221.App.Mmi.{
  Block, null, block, freed, MmiSession, Chain, menus, lists, segments, downloads, find,
}
use dvb_apps.En50221.App.Mmi.Fragments.{Defragmented, complete, pending, defragment}
use dvb_apps.En50221.App.Mmi.Pending.{
  same_chain, is_key, held, IsRoom, tag_for, Taken, defragment-Taken,
}

pub record Fragment : Type 0 where
  pub session_number : ℕ
  pub chain : Chain
  pub last : Bool
  pub body : List ℕ

abbrev pub Output : Type 0
Output = ℕ × Chain × List ℕ

abbrev pub output : Fragment → Defragmented → List Output
output f (complete bytes) = (f.session_number, f.chain, bytes) ∷ []
output f _ = []

-- The fragments one by one, and what they complete.
unfoldable pub run : List Fragment → List MmiSession → Result (List Output × List MmiSession)
run [] ss = ok ([], ss)
run (f ∷ fs) ss =
    defragment (f.session_number) (tag_for (f.chain) (f.last)) (f.last) (f.body) ss >>= λ r.
    run fs (r.1) >>= λ rest. ok (output f (r.0) ++ rest.0, rest.1)

-- What is completed of one chain of one session.
unfoldable pub only : ℕ → Chain → List Output → List (List ℕ)
only n c [] = []
only n c ((m, d, bytes) ∷ os) =
    let rest = only n c os in if is_key n c m d then bytes ∷ rest else rest

-- The fragments of one chain of one session.
unfoldable pub own : ℕ → Chain → List Fragment → List (Bool × List ℕ)
own n c [] = []
own n c (f ∷ fs) =
    let rest = own n c fs in
    if is_key n c (f.session_number) (f.chain) then (f.last, f.body) ∷ rest else rest

-- What they are together, each up to a last one.
unfoldable pub reassemble : List ℕ → List (Bool × List ℕ) → List (List ℕ)
reassemble front [] = []
reassemble front ((false, body) ∷ fs) = reassemble (front ++ body) fs
reassemble front ((true, body) ∷ fs) = (front ++ body) ∷ reassemble [] fs

abbrev pub total : List Fragment → ℕ
total [] = 0
total (f ∷ fs) = length (f.body) + total fs

same_chain_lem : (d c : Chain) → same_chain d c ≡ true → d ≡ c
same_chain_lem menus menus h = refl
same_chain_lem lists lists h = refl
same_chain_lem segments segments h = refl
same_chain_lem downloads downloads h = refl
same_chain_lem menus lists h = ground arith
same_chain_lem menus segments h = ground arith
same_chain_lem menus downloads h = ground arith
same_chain_lem lists menus h = ground arith
same_chain_lem lists segments h = ground arith
same_chain_lem lists downloads h = ground arith
same_chain_lem segments menus h = ground arith
same_chain_lem segments lists h = ground arith
same_chain_lem segments downloads h = ground arith
same_chain_lem downloads menus h = ground arith
same_chain_lem downloads lists h = ground arith
same_chain_lem downloads segments h = ground arith

pending_key :
    (m n : ℕ) (d c : Chain) (ss : List MmiSession)
    → is_key m d n c ≡ true
    → pending m d ss ≡ pending n c ss
pending_key m n d c ss k =
    let e : m ≡ n = ground (arith, &&_left (m == n) (same_chain d c) k) in
    let f = same_chain_lem d c (&&_right (m == n) (same_chain d c) k) in
    ap (λ m. pending m d ss) e ∙ ap (λ d. pending n d ss) f

pub less-IsRoom : (j k : ℕ) (b : Block) → j ≤ k → IsRoom k b → IsRoom j b
less-IsRoom j k null l r = tt
less-IsRoom j k (block bytes) l r = omega arith
less-IsRoom j k freed l r = absurd r

pub more-IsRoom :
    (k : ℕ) (b : Block) (body : List ℕ)
    → IsRoom (length body + k) b
    → length body + k < 2 ^ 32
    → IsRoom k (block (held b ++ body))
more-IsRoom k null body r h = omega arith
more-IsRoom k (block bytes) body r h = omega (arith, length-append bytes body)
more-IsRoom k freed body r h = absurd r

-- The room that is left behind a fragment.
behind-IsRoom :
    (k n : ℕ) (c : Chain) (last : Bool) (body : List ℕ) (ss : List MmiSession)
    (r : Defragmented × List MmiSession)
    → Taken n c last body ss r
    → length body + k < 2 ^ 32
    → ((m : ℕ) (d : Chain) → IsRoom (length body + k) (pending m d ss))
    → (m : ℕ) (d : Chain) → IsRoom k (pending m d (r.1))
behind-IsRoom k n c last body ss r t h room m d = subst (IsRoom k) (sym (t.1 m d)) (
    if_rule (IsRoom k) (is_key m d n c) _ (pending m d ss)
      (λ _.
        if_rule (IsRoom k) last null (block (held (pending n c ss) ++ body)) (λ _. tt)
          (λ _. more-IsRoom k (pending n c ss) body (room n c) h))
      (λ _. less-IsRoom k (length body + k) (pending m d ss) (omega arith) (room m d)))

only_step :
    (m : ℕ) (d : Chain) (f : Fragment) (ss : List MmiSession) (r : Defragmented × List MmiSession)
    (os : List Output) (fs : List Fragment)
    → Taken (f.session_number) (f.chain) (f.last) (f.body) ss r
    → only m d os ≡ reassemble (held (pending m d (r.1))) (own m d fs)
    → only m d (output f (r.0) ++ os) ≡ reassemble (held (pending m d ss)) (own m d (f ∷ fs))
unfolding only own reassemble
only_step m d f ss r os fs t ih =
    ground (arith, t.0, t.1 m d, ih, pending_key m (f.session_number) d (f.chain) ss)

abbrev Reassembled : List Fragment → List MmiSession → List Output × List MmiSession → Type 0
Reassembled fs ss r =
    (n : ℕ) (c : Chain) → only n c (r.0) ≡ reassemble (held (pending n c ss)) (own n c fs)

start_lem : (ss : List MmiSession) → Reassembled [] ss ([], ss)
unfolding only own reassemble
start_lem ss n c = refl

run-Reassembled :
    (fs : List Fragment) (ss : List MmiSession)
    → All (λ f. 1 ≤ length (f.body)) fs
    → total fs < 2 ^ 32
    → ((m : ℕ) (d : Chain) → IsRoom (total fs) (pending m d ss))
    → Returns (Reassembled fs ss) (run fs ss)
unfolding run
run-Reassembled [] ss a h room = start_lem ss
run-Reassembled (f ∷ fs) ss a h room =
    let n = f.session_number in
    let t = defragment-Taken n (f.chain) (f.last) (f.body) ss (a.0) (
      less-IsRoom (length (f.body)) (length (f.body) + total fs) (pending n (f.chain) ss)
        (omega arith) (room n (f.chain))) in
    Returns-bind (Taken n (f.chain) (f.last) (f.body) ss) (Reassembled (f ∷ fs) ss)
      (defragment n (tag_for (f.chain) (f.last)) (f.last) (f.body) ss) _ t
      λ r taken.
        Returns-bind (Reassembled fs (r.1)) (Reassembled (f ∷ fs) ss) (run fs (r.1)) _
          (run-Reassembled fs (r.1) (a.1) (omega arith)
            (behind-IsRoom (total fs) n (f.chain) (f.last) (f.body) ss r taken h room))
          λ rest ih m d. only_step m d f ss r (rest.0) fs taken (ih m d)

-- Any fragments of menus, lists and subtitles, none of them empty and less than 2 ^ 32 bytes together,
-- of any number of sessions and in any order: all of them are taken in, and what is completed of one
-- kind on one session is what its own fragments are together, each run of them up to a last one,
-- whatever the other sessions and kinds send in between.
pub run-reassemble :
    (fs : List Fragment)
    → All (λ f. 1 ≤ length (f.body)) fs
    → total fs < 2 ^ 32
    → Returns (λ r. (n : ℕ) (c : Chain) → only n c (r.0) ≡ reassemble [] (own n c fs)) (run fs [])
unfolding pending find
run-reassemble fs a h = run-Reassembled fs [] a h λ m d. tt
