-- ===== src/En50221/App/Mmi/Delivered.antt =====
-- A menu on its way from the transport layer to the user.
use dvb_apps.Common.{
  ℕ, ◌^◌, ◌≤◌, ◌<◌, ◌≡◌, refl, sym, ap, subst, ◌∙◌, inl, Bool, true, false, some, List, [], ◌∷◌,
  ◌++◌, map, append-nil, arith, ◌==◌, if◌then◌else◌, length, get_elem?, drop, All,
  drop-length_append, ok, Returns,
}
use dvb_apps.En50221.App.Mmi.{null, Mmi, Reply, nothing, calls}
use dvb_apps.En50221.App.Mmi.Fragments.{pending}
use dvb_apps.En50221.App.Mmi.Texts.{Text, IsText}
use dvb_apps.En50221.App.Mmi.Shows.{IsCount, shown_bytes, shown_of}
use dvb_apps.En50221.Session.Apdus.{Message, apdu_bytes, message_bytes}
use mathlib.Core.List.{flatten}
use dvb_apps.En50221.App.Mmi.Dialogue.{
  messages, shown_chain, shown_tag, show_registered, shown_call, dialogue, messages-shown_bytes,
}
use dvb_apps.En50221.Link.{TransportLink}
use dvb_apps.En50221.Session.{
  active, Session, SessionEvent, apdu, Upper, SessionLayer, st_session_number, two_bytes,
}
use dvb_apps.En50221.Session.Receive.{data_received, transport_callback}
use dvb_apps.En50221.Session.Delivery.{transport_callback-message_bytes}

-- The messages that the events of the session layer hand to a callback of a resource.
unfoldable pub handed_up : ℕ → List SessionEvent → List (List ℕ)
handed_up cb [] = []
handed_up cb (apdu k slot n resource bytes ∷ es) =
    let rest = handed_up cb es in if k == cb then bytes ∷ rest else rest
handed_up cb (_ ∷ es) = handed_up cb es

handed_up_lem :
    (cb slot n resource : ℕ) (bs : List (List ℕ))
    → handed_up cb (map (apdu cb slot n resource) bs) ≡ bs
unfolding handed_up
handed_up_lem cb slot n resource [] = refl
handed_up_lem cb slot n resource (b ∷ bs) = ground (arith, handed_up_lem cb slot n resource bs)

abbrev as_messages : Bool → List (List ℕ) → List ℕ → List Message
as_messages is_list [] final = (shown_tag is_list true, final) ∷ []
as_messages is_list (p ∷ ps) final = (shown_tag is_list false, p) ∷ as_messages is_list ps final

dialogue_lem :
    (is_list : Bool) (parts : List (List ℕ)) (final : List ℕ)
    → map message_bytes (as_messages is_list parts final) ≡ dialogue is_list parts final
dialogue_lem is_list [] final = refl
dialogue_lem is_list (p ∷ ps) final =
    ap (λ r. apdu_bytes (shown_tag is_list false) p ∷ r) (dialogue_lem is_list ps final)

short_enough :
    (is_list : Bool) (parts : List (List ℕ)) (final : List ℕ)
    → All (λ p. (1 ≤ length p) × (length p < 2 ^ 16)) (final ∷ parts)
    → All (λ m. length (m.1) < 2 ^ 16) (as_messages is_list parts final)
short_enough is_list [] final a = (a.0.1, tt)
short_enough is_list (p ∷ ps) final a = (a.1.0.1, short_enough is_list ps final (a.0, a.1.1))

-- A menu or list with all its texts, cut anywhere into messages that are sent as one package on an active
-- session whose resource is the dialogue with the user: if nothing of that kind is waiting there and
-- the callback is registered, the transport layer's data goes up through the session layer and the
-- callback of its kind is called, once, at the last message, with the session's slot and the texts.
pub transport_callback-shown_bytes :
    {T : Type 0} (link : TransportLink T) (u : Upper) (n cb : ℕ) (s : Session) (sl : SessionLayer T)
    (is_list : Bool) (choice_nb : ℕ) (title subtitle bottom : Text) (items : List Text)
    (rest : List ℕ) (parts : List (List ℕ)) (final : List ℕ) (mmi : Mmi)
    → n < 2 ^ 16
    → get_elem? (sl.sessions) n ≡ some s
    → s.state ≡ active
    → s.callback ≡ some cb
    → IsCount choice_nb items
    → All IsText (title ∷ subtitle ∷ bottom ∷ items)
    → flatten parts ++ final ≡ shown_bytes choice_nb title subtitle bottom items rest
    → All (λ p. (1 ≤ length p) × (length p < 2 ^ 16)) (final ∷ parts)
    → length (flatten parts ++ final) < 2 ^ 32
    → pending n (shown_chain is_list) (mmi.sessions) ≡ null
    → show_registered is_list mmi ≡ true
    → Returns
        (λ sl1.
          Returns
            (λ r.
              r.0
              ≡ map (λ _. nothing) parts
                ++ (calls (
                      shown_call is_list
                        (s.slot_id)
                        n
                        (shown_of choice_nb title subtitle bottom items rest))
                    ∷ []))
            (messages mmi (s.slot_id) n (handed_up cb (drop (length (sl.events)) (sl1.events)))))
        (transport_callback link u
          (data_received
            (st_session_number ∷ 2 ∷ (two_bytes n ++ flatten (dialogue is_list parts final))))
          (s.slot_id)
          (s.connection_id)
          sl)
transport_callback-shown_bytes link u n cb s sl is_list choice_nb title subtitle bottom items rest
      parts final mmi h g a k c t e1 l b p reg =
    let ms = as_messages is_list parts final in
    let all = dialogue is_list parts final in
    let up = map (apdu cb (s.slot_id) n (s.resource_id)) (map message_bytes ms) in
    let pack : List ℕ → List ℕ = λ bytes. st_session_number ∷ 2 ∷ (two_bytes n ++ bytes) in
    let d = dialogue_lem is_list parts final in
    let Q : List Reply × Mmi → Type 0 = λ r.
      r.0
      ≡ map (λ _. nothing) parts
        ++ (calls (
              shown_call is_list (s.slot_id) n
                (shown_of choice_nb title subtitle bottom items rest))
            ∷ []) in
    let P : SessionLayer _ → Type 0 = λ sl1.
      Returns Q
        (messages mmi (s.slot_id) n (handed_up cb (drop (length (sl.events)) (sl1.events)))) in
    let e : flatten (map message_bytes ms) ++ [] ≡ flatten all =
      append-nil (flatten (map message_bytes ms)) ∙ ap flatten d in
    let taken : transport_callback link u (data_received (pack (flatten all))) (s.slot_id)
          (s.connection_id) sl
        ≡ ok (record sl { events = sl.events ++ up }) =
      ap (λ b. transport_callback link u (data_received (pack b)) (s.slot_id) (s.connection_id) sl)
        (sym e)
      ∙ transport_callback-message_bytes link u n cb ms [] s sl h g a k
          (short_enough is_list parts final l) (inl refl) in
    let handed : handed_up cb (drop (length (sl.events)) (sl.events ++ up)) ≡ all =
      ap (handed_up cb) (drop-length_append (sl.events) up)
      ∙ handed_up_lem cb (s.slot_id) n (s.resource_id) (map message_bytes ms)
      ∙ d in
    subst (Returns P) (sym taken) (
      subst (λ b. Returns Q (messages mmi (s.slot_id) n b)) (sym handed)
        (messages-shown_bytes is_list (s.slot_id) n choice_nb title subtitle bottom items rest parts
          final mmi c t e1 l b p reg))
