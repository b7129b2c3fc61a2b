-- ===== src/En50221/App/Mmi/Dialogue.antt =====
-- Menus and lists that come in several messages.
use dvb_apps.Common.{
  ℕ, ◌+◌, ◌^◌, ◌≤◌, ◌<◌, ◌≡◌, refl, sym, ap, ap₂, subst, ◌∙◌, Bool, true, false, some, List, [],
  ◌∷◌, ◌++◌, map, append_assoc, arith, if◌then◌else◌, length, All, length-append, Result, ok, ◌>>=◌,
  Returns, Returns-bind,
}
use dvb_apps.En50221.App.Mmi.{
  null, block, Mmi, Shown, Call, menu_call, list_call, Reply, nothing, calls, Chain, menus, lists,
}
use dvb_apps.En50221.App.Mmi.Fragments.{chain_of, is_last, pending, defragment}
use dvb_apps.En50221.App.Mmi.Text.{parse_shown, show_call, handed_on, parse_list_menu}
use dvb_apps.En50221.App.Mmi.Pending.{held, IsRoom, tag_for, key_self, Taken, defragment-Taken}
use dvb_apps.En50221.App.Mmi.Texts.{Text, IsText}
use dvb_apps.En50221.App.Mmi.Shows.{IsCount, shown_bytes, shown_of, parse_shown-text_bytes}
use dvb_apps.En50221.Transport.Frame.{length_field}
use dvb_apps.En50221.Session.Apdus.{apdu_bytes}
use dvb_apps.En50221.App.Fields.{read_body_whole, read_tag_lem}
use dvb_apps.En50221.App.Mmi.Message.{tagged, message}
use mathlib.Core.List.{flatten}
use dvb_apps.En50221.App.Mmi.Interleaved.{less-IsRoom, more-IsRoom}

-- The messages of one session, one by one, and what each is answered with.
unfoldable pub messages : Mmi → ℕ → ℕ → List (List ℕ) → Result (List Reply × Mmi)
messages mmi slot n [] = ok ([], mmi)
messages mmi slot n (m ∷ ms) =
    message mmi slot n m >>= λ r. messages (r.1) slot n ms >>= λ rest. ok (r.0 ∷ rest.0, rest.1)

-- Menus and lists.
abbrev pub shown_chain : Bool → Chain
shown_chain is_list = if is_list then lists else menus

abbrev pub shown_tag : Bool → Bool → ℕ × ℕ × ℕ
shown_tag is_list last =
    (0x9f, 0x88, if is_list then if last then 0x0c else 0x0d else if last then 0x09 else 0x0a)

abbrev pub show_registered : Bool → Mmi → Bool
show_registered is_list mmi = if is_list then mmi.callbacks.list else mmi.callbacks.menu

abbrev pub shown_call : Bool → ℕ → ℕ → Shown → Call
shown_call is_list slot n s = if is_list then list_call slot n s else menu_call slot n s

abbrev pub use_shown : Mmi → ℕ → ℕ → ℕ → List ℕ → Result Reply
use_shown mmi slot n tag b = parse_shown b >>= show_call mmi slot n tag

pub message_lem :
    (is_list last : Bool) (mmi : Mmi) (slot n : ℕ) (body : List ℕ)
    → length body < 2 ^ 16
    → let tag = tag_for (shown_chain is_list) last in
      message mmi slot n (apdu_bytes (shown_tag is_list last) body) ≡ (
        defragment n tag last body (mmi.sessions) >>= λ r.
        handed_on (use_shown mmi slot n tag) r mmi)
unfolding message tagged parse_list_menu chain_of is_last
message_lem true true mmi slot n body h = ground (
  arith,
  read_body_whole body h,
  read_tag_lem 0x9f 0x88 0x0c (length_field (length body) ++ body),
)
message_lem true false mmi slot n body h = ground (
  arith,
  read_body_whole body h,
  read_tag_lem 0x9f 0x88 0x0d (length_field (length body) ++ body),
)
message_lem false true mmi slot n body h = ground (
  arith,
  read_body_whole body h,
  read_tag_lem 0x9f 0x88 0x09 (length_field (length body) ++ body),
)
message_lem false false mmi slot n body h = ground (
  arith,
  read_body_whole body h,
  read_tag_lem 0x9f 0x88 0x0a (length_field (length body) ++ body),
)

-- A fragment that is not the last.
abbrev More : ℕ → Bool → List ℕ → Mmi → Reply × Mmi → Type 0
More n is_list body mmi r =
    let c = shown_chain is_list in
    (r.0 ≡ nothing)
    × (r.1.callbacks ≡ mmi.callbacks)
    × (pending n c (r.1.sessions) ≡ block (held (pending n c (mmi.sessions)) ++ body))

message-More :
    (is_list : Bool) (mmi : Mmi) (slot n : ℕ) (body : List ℕ)
    → 1 ≤ length body
    → length body < 2 ^ 16
    → IsRoom (length body) (pending n (shown_chain is_list) (mmi.sessions))
    → Returns
        (More n is_list body mmi)
        (message mmi slot n (apdu_bytes (shown_tag is_list false) body))
message-More is_list mmi slot n body l h room =
    let c = shown_chain is_list in
    subst (Returns (More n is_list body mmi)) (sym (message_lem is_list false mmi slot n body h)) (
      Returns-bind (Taken n c false body (mmi.sessions)) (More n is_list body mmi)
        (defragment n (tag_for c false) false body (mmi.sessions)) _
        (defragment-Taken n c false body (mmi.sessions) l room)
        λ (st, ss) t.
          subst
            (λ st.
              Returns (More n is_list body mmi)
                (handed_on (use_shown mmi slot n (tag_for c false)) (st, ss) mmi))
            (sym (t.0))
            (
              refl,
              refl,
              t.1 n c
                  ∙ ap
                      (λ k.
                        if k
                        then block (held (pending n c (mmi.sessions)) ++ body)
                        else pending n c (mmi.sessions))
                      (key_self n c),
            ))

show_call_lem :
    (is_list : Bool) (mmi : Mmi) (slot n : ℕ) (s : Shown)
    → show_registered is_list mmi ≡ true
    → show_call mmi slot n (tag_for (shown_chain is_list) true) (some s)
      ≡ ok (calls (shown_call is_list slot n s))
unfolding show_call
show_call_lem true mmi slot n s reg = ground (arith, reg)
show_call_lem false mmi slot n s reg = ground (arith, reg)

message_last :
    (is_list : Bool) (mmi : Mmi) (slot n : ℕ) (body : List ℕ) (s : Shown)
    → 1 ≤ length body
    → length body < 2 ^ 16
    → IsRoom (length body) (pending n (shown_chain is_list) (mmi.sessions))
    → show_registered is_list mmi ≡ true
    → parse_shown (held (pending n (shown_chain is_list) (mmi.sessions)) ++ body) ≡ ok (some s)
    → Returns
        (λ r. r.0 ≡ calls (shown_call is_list slot n s))
        (message mmi slot n (apdu_bytes (shown_tag is_list true) body))
message_last is_list mmi slot n body s l h room reg p =
    let c = shown_chain is_list in
    subst (Returns (λ r. r.0 ≡ calls (shown_call is_list slot n s)))
      (sym (message_lem is_list true mmi slot n body h))
      (Returns-bind (Taken n c true body (mmi.sessions))
        (λ r. r.0 ≡ calls (shown_call is_list slot n s))
        (defragment n (tag_for c true) true body (mmi.sessions)) _
        (defragment-Taken n c true body (mmi.sessions) l room)
        λ (st, ss) t.
          let e =
            ap (λ r. r >>= show_call mmi slot n (tag_for c true)) p
            ∙ show_call_lem is_list mmi slot n s reg in
          subst
            (λ st.
              Returns (λ r. r.0 ≡ calls (shown_call is_list slot n s))
                (handed_on (use_shown mmi slot n (tag_for c true)) (st, ss) mmi))
            (sym (t.0)) (ground (arith, e)))

-- The messages of a menu or list.
abbrev pub dialogue : Bool → List (List ℕ) → List ℕ → List (List ℕ)
dialogue is_list parts final =
    map (apdu_bytes (shown_tag is_list false)) parts
    ++ (apdu_bytes (shown_tag is_list true) final ∷ [])

abbrev Answered : Bool → ℕ → ℕ → Shown → List (List ℕ) → List Reply × Mmi → Type 0
Answered is_list slot n s parts r =
    r.0 ≡ map (λ _. nothing) parts ++ (calls (shown_call is_list slot n s) ∷ [])

messages-Answered :
    (is_list : Bool) (slot n : ℕ) (s : Shown) (parts : List (List ℕ)) (final : List ℕ) (mmi : Mmi)
    → All (λ p. (1 ≤ length p) × (length p < 2 ^ 16)) (final ∷ parts)
    → IsRoom (length (flatten parts ++ final)) (pending n (shown_chain is_list) (mmi.sessions))
    → length (flatten parts ++ final) < 2 ^ 32
    → show_registered is_list mmi ≡ true
    → parse_shown
        (held (pending n (shown_chain is_list) (mmi.sessions)) ++ (flatten parts ++ final))
      ≡ ok (some s)
    → Returns (Answered is_list slot n s parts) (messages mmi slot n (dialogue is_list parts final))
unfolding messages mathlib.Core.List.flatten
messages-Answered is_list slot n s [] final mmi a room h reg p =
    Returns-bind (λ r. r.0 ≡ calls (shown_call is_list slot n s)) (Answered is_list slot n s [])
      (message mmi slot n (apdu_bytes (shown_tag is_list true) final)) _
      (message_last is_list mmi slot n final s (a.0.0) (a.0.1) room reg p) λ r e. ap (λ x. x ∷ []) e
messages-Answered is_list slot n s (q ∷ qs) final mmi a room h reg p =
    let c = shown_chain is_list in
    let old = pending n c (mmi.sessions) in
    let assoc = append_assoc q (flatten qs) final in
    let size : length (flatten (q ∷ qs) ++ final) ≡ length q + length (flatten qs ++ final) =
      ap length assoc ∙ length-append q (flatten qs ++ final) in
    let behind : IsRoom (length q + length (flatten qs ++ final)) old =
      subst (λ k. IsRoom k old) size room in
    let all : held old ++ (flatten (q ∷ qs) ++ final) ≡ (held old ++ q) ++ (flatten qs ++ final) =
      ap (λ r. held old ++ r) assoc ∙ sym (append_assoc (held old) q (flatten qs ++ final)) in
    Returns-bind (More n is_list q mmi) (Answered is_list slot n s (q ∷ qs))
      (message mmi slot n (apdu_bytes (shown_tag is_list false) q)) _
      (message-More is_list mmi slot n q (a.1.0.0) (a.1.0.1)
        (less-IsRoom (length q) (length q + length (flatten qs ++ final)) old (omega arith) behind))
      λ (r, mmi1) m.
        Returns-bind (Answered is_list slot n s qs) (Answered is_list slot n s (q ∷ qs))
          (messages mmi1 slot n (dialogue is_list qs final)) _
          (messages-Answered is_list slot n s qs final mmi1 (a.0, a.1.1)
            (subst (IsRoom (length (flatten qs ++ final))) (sym (m.2))
              (more-IsRoom (length (flatten qs ++ final)) old q behind (omega (arith, size))))
            (omega (arith, size)) (ap (λ cs. if is_list then cs.list else cs.menu) (m.1) ∙ reg)
            (ap (λ b. parse_shown (held b ++ (flatten qs ++ final))) (m.2)
              ∙ ap parse_shown (sym all)
              ∙ p))
          λ rest e. ap₂ (λ x xs. x ∷ xs) (m.0) e

-- A menu or list with a title, a subtitle, a bottom and up to 252 items, or with raw items, whose texts
-- are laid out in any number of pieces, cut anywhere into parts that are not empty and go into a
-- message each. If nothing of that kind is waiting on the session and the callback is registered, each
-- message is taken, those in front of the last call nothing, and the last calls the callback of its
-- kind, once, with the slot, the session and the texts.
pub messages-shown_bytes :
    (is_list : Bool) (slot n choice_nb : ℕ) (t s b : Text) (items : List Text) (rest : List ℕ)
    (parts : List (List ℕ)) (final : List ℕ) (mmi : Mmi)
    → IsCount choice_nb items
    → All IsText (t ∷ s ∷ b ∷ items)
    → flatten parts ++ final ≡ shown_bytes choice_nb t s b items rest
    → All (λ p. (1 ≤ length p) × (length p < 2 ^ 16)) (final ∷ parts)
    → length (flatten parts ++ final) < 2 ^ 32
    → pending n (shown_chain is_list) (mmi.sessions) ≡ null
    → show_registered is_list mmi ≡ true
    → Returns
        (λ r.
          r.0
          ≡ map (λ _. nothing) parts
            ++ (calls (shown_call is_list slot n (shown_of choice_nb t s b items rest)) ∷ []))
        (messages mmi slot n (dialogue is_list parts final))
messages-shown_bytes is_list slot n choice_nb t s b items rest parts final mmi c a e l h p reg =
    messages-Answered is_list slot n (shown_of choice_nb t s b items rest) parts final mmi l
      (subst (IsRoom (length (flatten parts ++ final))) (sym p) tt) h reg
      (ap (λ old. parse_shown (held old ++ (flatten parts ++ final))) p
        ∙ ap parse_shown e
        ∙ parse_shown-text_bytes choice_nb t s b items rest c a)
