-- ===== src/En50221/App/Rm/Profile.antt =====
-- A profile on its way from one side to the other.
use dvb_apps.Common.{
  ℕ, ◌*◌, ◌^◌, ◌≤◌, ◌<◌, ◌≡◌, refl, sym, ap, ap₂, subst, ◌∙◌, true, some, List, [], ◌∷◌, ◌++◌,
  append-nil, arith, length, get_elem?, All, ok, ◌>>=◌, Returns,
}
use dvb_apps.En50221.App.{tag_bytes}
use dvb_apps.En50221.Transport.Frame.{length_field}
use dvb_apps.En50221.Session.Apdus.{Message, message_bytes}
use dvb_apps.En50221.App.Fields.{read_body_whole, read_tag_lem, message_header_lem}
use mathlib.Core.List.{flatten}
use dvb_apps.En50221.App.Rm.{
  Rm, reply_call, tag_profile, swapped_ids, parse_profile_reply, message, id_bytes, reply,
}
use dvb_apps.En50221.App.OverSession.{session_functions, Queued, send_datav-Queued}
use dvb_apps.En50221.Link.{TransportLink}
use dvb_apps.En50221.Session.{active, Session, SessionLayer}

swapped_ids-id_bytes : (ids : List ℕ) → All (λ i. i < 2 ^ 32) ids → swapped_ids (id_bytes ids) ≡ ids
unfolding swapped_ids id_bytes
swapped_ids-id_bytes [] a = refl
swapped_ids-id_bytes (i ∷ ids) a =
    ap₂ (λ x xs. x ∷ xs) (omega (arith, a.0)) (swapped_ids-id_bytes ids (a.1))

length-id_bytes : (ids : List ℕ) → length (id_bytes ids) ≡ length ids * 4
unfolding id_bytes
length-id_bytes [] = refl
length-id_bytes (i ∷ ids) = omega (arith, length-id_bytes ids)

-- A profile as a message.
abbrev pub profile : List ℕ → Message
profile ids = ((0x9f, 0x80, 0x11), id_bytes ids)

message-profile :
    (rm : Rm) (slot n : ℕ) (ids : List ℕ)
    → All (λ i. i < 2 ^ 32) ids
    → length ids < 2 ^ 14
    → rm.reply ≡ true
    → message rm slot n (message_bytes (profile ids)) ≡ ok (some (reply_call slot n ids))
unfolding message parse_profile_reply
message-profile rm slot n ids a h r =
    let body = id_bytes ids in
    let l = length-id_bytes ids in
    let bytes = length_field (length body) ++ body in
    let e = read_body_whole body (omega (arith, l)) in
    ground (arith, e, r, read_tag_lem 0x9f 0x80 0x11 bytes, swapped_ids-id_bytes ids a)

vector_lem :
    (ids : List ℕ)
    → flatten ((tag_bytes tag_profile ++ length_field (length ids * 4)) ∷ id_bytes ids ∷ [])
      ≡ message_bytes (profile ids)
unfolding mathlib.Core.List.flatten
vector_lem ids =
    ap (λ t. (tag_bytes tag_profile ++ length_field (length ids * 4)) ++ t)
      (append-nil (id_bytes ids))
    ∙ ap (λ k. 0x9f ∷ 0x80 ∷ 0x11 ∷ (length_field k ++ id_bytes ids)) (sym (length-id_bytes ids))

-- Up to 16380 resource identifiers of 32 bits, sent as a profile on an active session: the message is
-- made, and if the session layer takes it, it waits for the connection of the session, is read back
-- there as one message of the session, and a resource manager with a callback for profiles that is
-- given this message calls it with those identifiers.
pub reply-message :
    {T : Type 0} (link : TransportLink T) (n : ℕ) (ids : List ℕ) (s : Session) (sl : SessionLayer T)
    (rm : Rm) (slot m : ℕ)
    → All (λ i. i < 2 ^ 32) ids
    → length ids ≤ 16380
    → get_elem? (sl.sessions) n ≡ some s
    → s.state ≡ active
    → rm.reply ≡ true
    → Returns (Queued link n s sl (profile ids)) (reply (session_functions link) n ids sl)
      × (message rm slot m (message_bytes (profile ids)) ≡ ok (some (reply_call slot m ids)))
unfolding reply
reply-message link n ids s sl rm slot m a h g e r =
    let head = message_header_lem tag_profile (length ids * 4) (omega arith) in
    let vector = (tag_bytes tag_profile ++ length_field (length ids * 4)) ∷ id_bytes ids ∷ [] in
    (
      subst
          (λ r.
            Returns (Queued link n s sl (profile ids))
              (r >>= λ h. ok ((session_functions link).send_datav n (h ∷ id_bytes ids ∷ []) sl)))
          (sym head)
          (send_datav-Queued link n s sl (profile ids) vector (omega (arith, length-id_bytes ids)) g
            e (omega arith) (vector_lem ids)),
      message-profile rm slot m ids a (omega arith) r,
    )
