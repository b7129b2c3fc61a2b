-- ===== src/En50221/App/Lowspeed/Chained.antt =====
-- Data to send that comes in several messages.
use dvb_apps.Common.{
  ℕ, ◌+◌, ◌-◌, ◌%◌, ◌^◌, ◌≤◌, ◌<◌, ◌≡◌, refl, sym, ap, ap₂, subst, ◌∙◌, inl, inr, Bool, true, false,
  none, some, List, [], ◌∷◌, ◌++◌, map, append_assoc, arith, ◌==◌, if◌then◌else◌, Option-cases,
  length, take, All, length-append, take-ge, Result, ok, fail, fault, ◌>>=◌, Returns, Returns-bind,
}
use dvb_apps.En50221.Transport.Frame.{length_field}
use dvb_apps.En50221.Session.Apdus.{apdu_bytes}
use dvb_apps.En50221.App.Fields.{read_tag_lem, read_body_whole}
use mathlib.Core.List.{flatten}
use dvb_apps.En50221.App.Mmi.{Block, null, block}
use dvb_apps.En50221.App.Mmi.Fragments.{append}
use dvb_apps.En50221.App.Mmi.Pending.{held, IsRoom, append_lem}
use dvb_apps.En50221.App.Mmi.Interleaved.{more-IsRoom, less-IsRoom}
use dvb_apps.En50221.App.Lowspeed.{
  LowspeedSession, Lowspeed, LowspeedReply, refused, nothing, sent, find, put, send_reply, replied,
  with_sessions, with_new_session, chain_at, take_in, parse_send, message,
}

find-put :
    (n : ℕ) (b c : Block) (ss : List LowspeedSession)
    → find n ss ≡ some b
    → find n (put n c ss) ≡ some c
unfolding find put
find-put n b c [] h = ground arith
find-put n b c (s ∷ ss) h = ground (arith, find-put n b c ss)

find-with_new_session :
    (n : ℕ) (ss : List LowspeedSession) → find n (with_new_session n ss) ≡ some (chain_at n ss)
unfolding find with_new_session
find-with_new_session n ss = ground arith

-- The messages of one session, one by one, and what each is answered with.
unfoldable pub messages : Lowspeed → ℕ → ℕ → List (List ℕ) → Result (List LowspeedReply × Lowspeed)
messages lowspeed slot n [] = ok ([], lowspeed)
messages lowspeed slot n (m ∷ ms) = message lowspeed slot n m >>= λ r.
    messages (r.1) slot n ms >>= λ rest. ok (r.0 ∷ rest.0, rest.1)

message_lem :
    (last : Bool) (lowspeed : Lowspeed) (slot n : ℕ) (body : List ℕ)
    → length body < 2 ^ 16
    → message lowspeed slot n (apdu_bytes (0x9f, 0x8c, if last then 3 else 4) body)
      ≡ take_in lowspeed slot n last body
unfolding message parse_send
message_lem true lowspeed slot n body h =
    ground
      (arith, read_body_whole body h, read_tag_lem 0x9f 0x8c 3 (length_field (length body) ++ body))
message_lem false lowspeed slot n body h =
    ground
      (arith, read_body_whole body h, read_tag_lem 0x9f 0x8c 4 (length_field (length body) ++ body))

-- A fragment that is not the last.
abbrev More : ℕ → List ℕ → Lowspeed → LowspeedReply × Lowspeed → Type 0
More n body lowspeed r =
    (r.0 ≡ nothing)
    × (r.1.send_callback ≡ lowspeed.send_callback)
    × (find n (r.1.sessions) ≡ some (block (held (chain_at n (lowspeed.sessions)) ++ body)))

take_in-More :
    (lowspeed : Lowspeed) (slot n : ℕ) (body : List ℕ)
    → 1 ≤ length body
    → IsRoom (length body) (chain_at n (lowspeed.sessions))
    → Returns (More n body lowspeed) (take_in lowspeed slot n false body)
unfolding take_in
take_in-More lowspeed slot n body l room =
    let ss1 = with_new_session n (lowspeed.sessions) in
    let e = find-with_new_session n (lowspeed.sessions) in
    let old = chain_at n (lowspeed.sessions) in
    let new = held old ++ body in
    let a : append (chain_at n ss1) body ≡ ok new =
      ap (λ b?. append (elim b? [ some b ↦ b | none ↦ null ]) body) e
      ∙ append_lem old body l room in
    let whole : take_in lowspeed slot n false body
        ≡ ok (nothing, with_sessions (put n (block new) ss1) lowspeed) =
      ground (arith, a) in
    subst (Returns (More n body lowspeed)) (sym whole)
      (refl, refl, find-put n old (block new) ss1 e)

-- What the data of a session is answered with: its first byte is the phase, and the length is kept in
-- 16 bits.
abbrev pub answer : ℕ → ℕ → ℕ → List ℕ → LowspeedReply
answer slot n phase bytes =
    let l = length (phase ∷ bytes) % 2 ^ 16 in
    if l == 0 then refused else sent slot n phase (take (l - 1) bytes)

send_reply_lem :
    (lowspeed : Lowspeed) (slot n phase : ℕ) (bytes : List ℕ)
    → lowspeed.send_callback ≡ true
    → Returns
        (λ r. r.0 ≡ answer slot n phase bytes)
        (replied lowspeed (send_reply lowspeed slot n (phase ∷ bytes)))
unfolding send_reply
send_reply_lem lowspeed slot n phase bytes h = ground (arith, h)

take_in_last :
    (lowspeed : Lowspeed) (slot n phase : ℕ) (body bytes : List ℕ)
    → 1 ≤ length body
    → IsRoom (length body) (chain_at n (lowspeed.sessions))
    → lowspeed.send_callback ≡ true
    → held (chain_at n (lowspeed.sessions)) ++ body ≡ phase ∷ bytes
    → Returns (λ r. r.0 ≡ answer slot n phase bytes) (take_in lowspeed slot n true body)
unfolding take_in
take_in_last lowspeed slot n phase body bytes l room h e =
    elim (Option-cases (find n (lowspeed.sessions))) [
      | inl none' ↦
          let Q : LowspeedReply × Lowspeed → Type 0 = λ r. r.0 ≡ answer slot n phase bytes in
          let alone : body ≡ phase ∷ bytes = ground (arith, none', e) in
          let whole : take_in lowspeed slot n true body
              ≡ replied lowspeed (send_reply lowspeed slot n (phase ∷ bytes)) =
            ground (arith, none', alone) in
          subst (Returns Q) (sym whole) (send_reply_lem lowspeed slot n phase bytes h)
      | inr (b, some') ↦
          let Q : LowspeedReply × Lowspeed → Type 0 = λ r. r.0 ≡ answer slot n phase bytes in
          let after = with_sessions (put n null (lowspeed.sessions)) lowspeed in
          let at : chain_at n (lowspeed.sessions) ≡ b = ground (arith, some') in
          let a : append b body ≡ ok (phase ∷ bytes) =
            append_lem b body l (subst (IsRoom (length body)) at room)
            ∙ ap (λ b. ok (held b ++ body)) (sym at)
            ∙ ap ok e in
          let whole : take_in lowspeed slot n true body
              ≡ replied after (send_reply after slot n (phase ∷ bytes)) =
            ground (arith, some', a) in
          subst (Returns Q) (sym whole) (send_reply_lem after slot n phase bytes h)
    ]

abbrev Answered : LowspeedReply → List (List ℕ) → List LowspeedReply × Lowspeed → Type 0
Answered reply parts r = r.0 ≡ map (λ _. nothing) parts ++ (reply ∷ [])

-- The messages of data in parts.
abbrev pub chained : List (List ℕ) → List ℕ → List (List ℕ)
chained parts final =
    map (apdu_bytes (0x9f, 0x8c, 4)) parts ++ (apdu_bytes (0x9f, 0x8c, 3) final ∷ [])

messages-Answered :
    (slot n phase : ℕ) (bytes : List ℕ) (parts : List (List ℕ)) (final : List ℕ)
    (lowspeed : Lowspeed)
    → All (λ p. (1 ≤ length p) × (length p < 2 ^ 16)) (final ∷ parts)
    → IsRoom (length (flatten parts ++ final)) (chain_at n (lowspeed.sessions))
    → length (flatten parts ++ final) < 2 ^ 32
    → lowspeed.send_callback ≡ true
    → held (chain_at n (lowspeed.sessions)) ++ (flatten parts ++ final) ≡ phase ∷ bytes
    → Returns
        (Answered (answer slot n phase bytes) parts)
        (messages lowspeed slot n (chained parts final))
unfolding messages mathlib.Core.List.flatten
messages-Answered slot n phase bytes [] final lowspeed a room h reg e =
    let Q : LowspeedReply × Lowspeed → Type 0 = λ r. r.0 ≡ answer slot n phase bytes in
    Returns-bind Q (Answered (answer slot n phase bytes) [])
      (message lowspeed slot n (apdu_bytes (0x9f, 0x8c, 3) final)) _
      (subst (Returns Q) (sym (message_lem true lowspeed slot n final (a.0.1)))
        (take_in_last lowspeed slot n phase final bytes (a.0.0) room reg e))
      λ r e. ap (λ x. x ∷ []) e
messages-Answered slot n phase bytes (q ∷ qs) final lowspeed a room h reg e =
    let old = chain_at n (lowspeed.sessions) in
    let more = flatten qs ++ final in
    let reply = answer slot n phase bytes in
    let assoc = append_assoc q (flatten qs) final in
    let size : length (flatten (q ∷ qs) ++ final) ≡ length q + length more =
      ap length assoc ∙ length-append q more in
    let behind : IsRoom (length q + length more) old = subst (λ k. IsRoom k old) size room in
    let all : held old ++ (flatten (q ∷ qs) ++ final) ≡ (held old ++ q) ++ more =
      ap (λ r. held old ++ r) assoc ∙ sym (append_assoc (held old) q more) in
    Returns-bind (More n q lowspeed) (Answered reply (q ∷ qs))
      (message lowspeed slot n (apdu_bytes (0x9f, 0x8c, 4) q)) _
      (subst (Returns (More n q lowspeed)) (sym (message_lem false lowspeed slot n q (a.1.0.1))) (
        take_in-More lowspeed slot n q (a.1.0.0)
          (less-IsRoom (length q) (length q + length more) old (omega arith) behind)))
      λ (r, after) m.
        let at : chain_at n (after.sessions) ≡ block (held old ++ q) =
          ap (λ b?. elim b? [ some b ↦ b | none ↦ null ]) (m.2) in
        Returns-bind (Answered reply qs) (Answered reply (q ∷ qs))
          (messages after slot n (chained qs final)) _
          (messages-Answered slot n phase bytes qs final after (a.0, a.1.1)
            (subst (IsRoom (length more)) (sym at)
              (more-IsRoom (length more) old q behind (omega (arith, size))))
            (omega (arith, size)) (m.1 ∙ reg) (ap (λ b. held b ++ more) at ∙ sym all ∙ e))
          λ rest e. ap₂ (λ x xs. x ∷ xs) (m.0) e

answer_lem :
    (slot n phase : ℕ) (bytes : List ℕ)
    → length (phase ∷ bytes) < 2 ^ 16
    → answer slot n phase bytes ≡ sent slot n phase bytes
answer_lem slot n phase bytes h =
    let l = length (phase ∷ bytes) in
    let small : l % 2 ^ 16 ≡ l = omega arith in
    let all : take (l % 2 ^ 16 - 1) bytes ≡ bytes = take-ge (l % 2 ^ 16 - 1) bytes (omega arith) in
    ground (arith, small, all)

with_more :
    {A : Type 0} (P Q : A → Type 0) (m : Result A)
    → ((a : A) → P a → Q a)
    → Returns P m
    → Returns (λ a. P a × Q a) m
with_more P Q (ok a) k r = (r, k a r)
with_more P Q fail k r = absurd r
with_more P Q fault k r = absurd r

-- Data of a phase that the module sends in any number of messages, none of them empty, less than
-- 2 ^ 32 bytes together, where nothing was waiting on the session and the callback is registered: the
-- messages in front of the last call nothing. With less than 2 ^ 16 bytes, the last calls the callback,
-- once, with the phase and all of the data; with more, the length is cut to 16 bits, and the callback
-- gets no more than that much of the data, or is not called where nothing is left.
pub messages-answer :
    (slot n phase : ℕ) (bytes : List ℕ) (parts : List (List ℕ)) (final : List ℕ)
    (lowspeed : Lowspeed)
    → All (λ p. (1 ≤ length p) × (length p < 2 ^ 16)) (final ∷ parts)
    → flatten parts ++ final ≡ phase ∷ bytes
    → length (phase ∷ bytes) < 2 ^ 32
    → chain_at n (lowspeed.sessions) ≡ null
    → lowspeed.send_callback ≡ true
    → Returns
        (λ r.
          (r.0 ≡ map (λ _. nothing) parts ++ (answer slot n phase bytes ∷ []))
          × (length (phase ∷ bytes) < 2 ^ 16
              → r.0 ≡ map (λ _. nothing) parts ++ (sent slot n phase bytes ∷ [])))
        (messages lowspeed slot n (chained parts final))
messages-answer slot n phase bytes parts final lowspeed a e h c reg =
    let whole : length (phase ∷ bytes) < 2 ^ 16
        → answer slot n phase bytes ≡ sent slot n phase bytes =
      λ s. answer_lem slot n phase bytes s in
    let Q = Answered (answer slot n phase bytes) parts in
    with_more Q
      (λ r.
        length (phase ∷ bytes) < 2 ^ 16
        → r.0 ≡ map (λ _. nothing) parts ++ (sent slot n phase bytes ∷ []))
      (messages lowspeed slot n (chained parts final))
      (λ r q s. q ∙ ap (λ x. map (λ _. nothing) parts ++ (x ∷ [])) (whole s))
      (messages-Answered slot n phase bytes parts final lowspeed a
        (subst (IsRoom (length (flatten parts ++ final))) (sym c) tt)
        (subst (λ k. length k < 2 ^ 32) (sym e) h) reg
        (ap (λ b. held b ++ (flatten parts ++ final)) c ∙ e))
