-- ===== src/En50221/App/Mmi/Answers.antt =====
-- The answers of the user on their way to the module.
use dvb_apps.Common.{
  ℕ, ◌+◌, ◌*◌, ◌^◌, ◌≤◌, ◌<◌, ◌≡◌, refl, sym, ap, subst, ◌∙◌, ◌⊎◌, inl, inr, Bool, some, List, [],
  ◌∷◌, ◌++◌, append-nil, append_assoc, arith, ◌==◌, if◌then◌else◌, Bool-cases, length, get_elem?,
  Result, ok, fault, ◌>>=◌, Returns,
}
use dvb_apps.En50221.App.{SendFunctions, tag_bytes, message_header}
use dvb_apps.En50221.Transport.Frame.{length_field}
use dvb_apps.En50221.Session.Apdus.{message_bytes}
use dvb_apps.En50221.App.Fields.{message_header_lem}
use mathlib.Core.List.{flatten}
use dvb_apps.En50221.App.Mmi.Send.{
  tag_display_reply, tag_answer, PixelDepth, DisplayReplyDetails, pixdepths, answ, send_gfx,
  display_reply,
}
use dvb_apps.En50221.App.OverSession.{session_functions, Queued, send_datav-Queued}
use dvb_apps.En50221.Link.{TransportLink}
use dvb_apps.En50221.Session.{active, Session, SessionLayer}

answer_bytes :
    (text : List ℕ)
    → flatten (((tag_bytes tag_answer ++ length_field (length text + 1)) ++ (1 ∷ [])) ∷ text ∷ [])
      ≡ message_bytes ((0x9f, 0x88, 0x08), 1 ∷ text)
unfolding mathlib.Core.List.flatten
answer_bytes text =
    let count : length text + 1 ≡ length (1 ∷ text) = omega arith in
    let field = length_field (length text + 1) in
    ap (λ t. ((tag_bytes tag_answer ++ field) ++ (1 ∷ [])) ++ t) (append-nil text)
    ∙ ap (λ r. 0x9f ∷ 0x88 ∷ 0x08 ∷ r) (append_assoc field (1 ∷ []) text)
    ∙ ap (λ k. 0x9f ∷ 0x88 ∷ 0x08 ∷ (length_field k ++ (1 ∷ text))) count

one_bytes :
    (answ_id : ℕ)
    → flatten ((tag_bytes tag_answer ++ (1 ∷ answ_id ∷ [])) ∷ [])
      ≡ message_bytes ((0x9f, 0x88, 0x08), answ_id ∷ [])
unfolding mathlib.Core.List.flatten
one_bytes answ_id = refl

pixdepths_lem :
    (ds : List PixelDepth)
    → (length ((pixdepths ds).0) ≡ 2 * length ds) × ((pixdepths ds).1 ≡ 2 * length ds)
unfolding pixdepths
pixdepths_lem [] = ground arith
pixdepths_lem (d ∷ ds) = let ih = pixdepths_lem ds in (omega (arith, ih), omega (arith, ih))

-- An answer to an enquiry of the module, with a text of less than 65523 bytes, or a cancellation, on an
-- active session: it is made, and if the session layer takes it, it waits for the connection of the
-- session as one message more, which is read back there as one message of the session, an answer with
-- its text, or a cancellation without one.
pub answ-Queued :
    {T : Type 0} (link : TransportLink T) (n answ_id : ℕ) (text : List ℕ) (s : Session)
    (sl : SessionLayer T)
    → length text + 13 < 2 ^ 16
    → get_elem? (sl.sessions) n ≡ some s
    → s.state ≡ active
    → Returns
        (Queued link n s sl ((0x9f, 0x88, 0x08), if answ_id == 1 then 1 ∷ text else answ_id ∷ []))
        (answ (session_functions link) n answ_id text sl)
unfolding answ
answ-Queued link n answ_id text s sl h g a =
    let funcs = session_functions link in
    let Q = λ (b : Bool) (r : Result (Bool × SessionLayer _)).
      Returns (Queued link n s sl ((0x9f, 0x88, 0x08), if b then 1 ∷ text else answ_id ∷ [])) r in
    let head = message_header_lem tag_answer (length text + 1) (omega arith) in
    let vector =
      ((tag_bytes tag_answer ++ length_field (length text + 1)) ++ (1 ∷ [])) ∷ text ∷ [] in
    elim (Bool-cases (answ_id == 1)) [
      | inl e ↦
          let id : 1 ≡ answ_id = ground arith in
          subst
            (λ k.
              Returns (Queued link n s sl ((0x9f, 0x88, 0x08), if k == 1 then 1 ∷ text else k ∷ []))
                (answ funcs n k text sl))
            id
            (subst
              (λ r.
                Returns (Queued link n s sl ((0x9f, 0x88, 0x08), 1 ∷ text))
                  (r >>= λ h. ok (funcs.send_datav n ((h ++ (1 ∷ [])) ∷ text ∷ []) sl)))
              (sym head)
              (send_datav-Queued link n s sl ((0x9f, 0x88, 0x08), 1 ∷ text) vector (omega arith) g a
                (omega arith) (answer_bytes text)))
      | inr e ↦
          subst
            (λ b. Q b (
              if b
              then (message_header tag_answer (length text + 1) >>= λ h.
                  ok (funcs.send_datav n ((h ++ (answ_id ∷ [])) ∷ text ∷ []) sl))
              else ok (funcs.send_datav n ((tag_bytes tag_answer ++ (1 ∷ answ_id ∷ [])) ∷ []) sl)))
            (sym e)
            (send_datav-Queued link n s sl ((0x9f, 0x88, 0x08), answ_id ∷ [])
              ((tag_bytes tag_answer ++ (1 ∷ answ_id ∷ [])) ∷ []) (omega arith) g a (omega arith)
              (one_bytes answ_id))
    ]

-- Details of graphics with a pixel depth or more are never sent: the pointer that is handed on for the
-- pixel depths stands behind them, and what is read there is outside their memory.
pub display_reply-pixdepths :
    {S : Type 0} (funcs : SendFunctions S) (n reply_id : ℕ) (details : DisplayReplyDetails) (s : S)
    → (reply_id ≡ 4) ⊎ (reply_id ≡ 5)
    → 1 ≤ length (details.gfx.pixel_depths)
    → length (details.gfx.pixel_depths) < 2 ^ 8
    → display_reply funcs n reply_id details s ≡ fault
unfolding display_reply send_gfx
display_reply-pixdepths funcs n reply_id details s r l h =
    let ds = details.gfx.pixel_depths in
    let e = pixdepths_lem ds in
    ground (arith, message_header_lem tag_display_reply (1 + 9 + length ds * 2), e)
