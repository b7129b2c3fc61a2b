-- ===== src/En50221/Link/OfLayer.antt =====
-- en50221_transport.c as the layer below the sessions.
use dvb_apps.Common.{
  ℕ, ◌+◌, ◌^◌, ◌<◌, ◌≡◌, sym, ap, subst, ◌∙◌, ◌≢◌, ◌⊎◌, inl, inr, Bool, true, false, Option, none,
  some, List, [], ◌∷◌, ◌++◌, arith, ◌==◌, Bool-cases, Option-cases, length, get_elem?, set,
  get_elem?-set, get_elem?-set_other,
}
use dvb_apps.En50221.Transport.{active, Connection, Slot, with_connection, change, t_data_last}
use dvb_apps.En50221.Transport.Sending.{slot_send_data, data_message, queue_message}
use dvb_apps.En50221.Transport.Sent.{data_message-frame, data_message_lem}
use dvb_apps.En50221.Transport.Frame.{frame}
use dvb_apps.En50221.Transport.Layer.{CamSlot, Layer, seen, on_slot, tl_send_data}
use dvb_apps.En50221.Link.{TransportLink}

-- The messages that wait for connection `c` among those of a slot.
abbrev pub queue_of : List Connection → ℕ → List (List ℕ)
queue_of ks c = elim (get_elem? ks c) [ none ↦ [] | some k ↦ k.send_queue ]

abbrev pub waiting : Layer → ℕ → ℕ → List (List ℕ)
waiting tl i c = elim (get_elem? (tl.slots) i) [ none ↦ [] | some p ↦ queue_of (p.connections) c ]

-- The connection with one message more.
abbrev behind : List ℕ → Connection → Connection
behind msg k = record k { send_queue = k.send_queue ++ (msg ∷ []) }

-- Either one message waits behind the others, or nothing has changed.
slot_send_data_cases :
    (c : ℕ) (bytes msg : List ℕ) (s : Slot)
    → data_message c bytes ≡ some msg
    → ((k : Connection) × (get_elem? (s.connections) c ≡ some k)
        × (slot_send_data true c bytes s ≡ (true, with_connection c (behind msg k) s)))
      ⊎ (((slot_send_data true c bytes s).0 ≡ false)
          × ((slot_send_data true c bytes s).1.connections ≡ s.connections))
unfolding slot_send_data queue_message change
slot_send_data_cases c bytes msg s m = elim (Option-cases (get_elem? (s.connections) c)) [
  | inl e ↦ inr (ground (arith, e), ground (arith, e))
  | inr (k, e) ↦ elim (Bool-cases (elim k.state [ active ↦ true | _ ↦ false ])) [
    | inl a ↦ inl (k, e, ground (arith, e, m, a))
    | inr a ↦ inr (ground (arith, e, a), ground (arith, e, a))
  ]
]

present_lem :
    (ks : List Connection) (c : ℕ) (k : Connection)
    → get_elem? ks c ≡ some k
    → queue_of ks c ≡ k.send_queue
present_lem ks c k e = ground (arith, e)

slot_send_data-queue_of :
    (c : ℕ) (bytes : List ℕ) (s : Slot)
    → length bytes + 1 < 2 ^ 16
    → (slot_send_data true c bytes s).0 ≡ true
    → queue_of ((slot_send_data true c bytes s).1.connections) c
      ≡ queue_of (s.connections) c ++ (frame t_data_last c bytes ∷ [])
slot_send_data-queue_of c bytes s h t =
    let msg = frame t_data_last c bytes in
    elim (slot_send_data_cases c bytes msg s (data_message-frame c bytes h)) [
      | inl (k, e, f) ↦
          ap (λ r. queue_of (r.1.connections) c) f
          ∙ present_lem (set (s.connections) c (behind msg k)) c (behind msg k)
              (get_elem?-set (s.connections) c k (behind msg k) e)
          ∙ ap (λ q. q ++ (msg ∷ [])) (sym (present_lem (s.connections) c k e))
      | inr (f, _) ↦ let bad : ◌≡◌ {A = Bool} true false = sym t ∙ f in ground arith
    ]

slot_send_data_other :
    (c d : ℕ) (bytes : List ℕ) (s : Slot)
    → ((slot_send_data true c bytes s).0 ≡ false) ⊎ (c ≢ d)
    → queue_of ((slot_send_data true c bytes s).1.connections) d ≡ queue_of (s.connections) d
slot_send_data_other c d bytes s h =
    elim (slot_send_data_cases c bytes _ s (data_message_lem c bytes)) [
      | inr (_, e) ↦ ap (λ ks. queue_of ks d) e
      | inl (k, e, f) ↦ elim h [
        | inl z ↦ let bad : ◌≡◌ {A = Bool} true false = sym (ap (λ r. r.0) f) ∙ z in ground arith
        | inr z ↦
            ap (λ r. queue_of (r.1.connections) d) f
            ∙ ap
                (λ (o : Option Connection). elim o as (λ _. List (List ℕ)) [
                  | none ↦ []
                  | some k ↦ k.send_queue
                ])
                (get_elem?-set_other (s.connections) c d _ z)
      ]
    ]

-- A slot in use is sent to, and its messages are those of the layer; otherwise the layer refuses.
tl_send_data_cases :
    (i c : ℕ) (bytes : List ℕ) (tl : Layer)
    → ((p : CamSlot) × (get_elem? (tl.slots) i ≡ some p)
        × ((tl_send_data true i c bytes tl).0 ≡ (slot_send_data true c bytes (seen p tl)).0)
        × ((tl_send_data true i c bytes tl).1.slots
            ≡ set (tl.slots) i (record p {
              connections = (slot_send_data true c bytes (seen p tl)).1.connections;
            })))
      ⊎ (((tl_send_data true i c bytes tl).0 ≡ false)
          × ((tl_send_data true i c bytes tl).1.slots ≡ tl.slots))
unfolding tl_send_data on_slot
tl_send_data_cases i c bytes tl = elim (Option-cases (get_elem? (tl.slots) i)) [
  | inl e ↦ inr (ground (arith, e), ground (arith, e))
  | inr (p, e) ↦ elim (Option-cases (p.ca_hndl)) [
    | inl f ↦ inr (ground (arith, e, f), ground (arith, e, f))
    | inr (h, f) ↦ inl (p, e, ground (arith, e, f), ground (arith, e, f))
  ]
]

updated_lem :
    (tl tl' : Layer) (i : ℕ) (p p' : CamSlot) (c : ℕ)
    → get_elem? (tl.slots) i ≡ some p
    → tl'.slots ≡ set (tl.slots) i p'
    → waiting tl' i c ≡ queue_of (p'.connections) c
updated_lem tl tl' i p p' c g e =
    let at : get_elem? (tl'.slots) i ≡ some p' =
      ap (λ ps. get_elem? ps i) e ∙ get_elem?-set (tl.slots) i p p' g in
    ground (arith, at)

elsewhere_lem :
    (tl tl' : Layer) (i j : ℕ) (p' : CamSlot) (c : ℕ)
    → i ≢ j
    → tl'.slots ≡ set (tl.slots) i p'
    → waiting tl' j c ≡ waiting tl j c
elsewhere_lem tl tl' i j p' c h e =
    let at : get_elem? (tl'.slots) j ≡ get_elem? (tl.slots) j =
      ap (λ ps. get_elem? ps j) e ∙ get_elem?-set_other (tl.slots) i j p' h in
    ap
      (λ (o : Option CamSlot). elim o as (λ _. List (List ℕ)) [
        | none ↦ []
        | some p ↦ queue_of (p.connections) c
      ])
      at

-- Where `en50221_tl_send_data` takes data of less than 65535 bytes, the messages that wait for that
-- connection of that slot are those that waited before and, behind them, the data as one message.
pub tl_send_data-frame :
    (tl : Layer) (i c : ℕ) (bytes : List ℕ)
    → length bytes + 1 < 2 ^ 16
    → (tl_send_data true i c bytes tl).0 ≡ true
    → waiting ((tl_send_data true i c bytes tl).1) i c
      ≡ waiting tl i c ++ (frame t_data_last c bytes ∷ [])
tl_send_data-frame tl i c bytes h t = elim (tl_send_data_cases i c bytes tl) [
  | inr (f, _) ↦ ground (arith, f)
  | inl (p, e, f, w) ↦
      let s = seen p tl in
      let s' = (slot_send_data true c bytes s).1 in
      let before : waiting tl i c ≡ queue_of (p.connections) c = ground (arith, e) in
      updated_lem tl ((tl_send_data true i c bytes tl).1) i p
        (record p { connections = s'.connections }) c e w
      ∙ slot_send_data-queue_of c bytes s h (sym f ∙ t)
      ∙ ap (λ q. q ++ (frame t_data_last c bytes ∷ [])) (sym before)
]

-- The messages of every other connection and slot stay as they are, and those of every one where the
-- data is refused.
pub tl_send_data_other :
    (tl : Layer) (i c : ℕ) (bytes : List ℕ) (j d : ℕ)
    → ((tl_send_data true i c bytes tl).0 ≡ false) ⊎ ((i ≢ j) ⊎ (c ≢ d))
    → waiting ((tl_send_data true i c bytes tl).1) j d ≡ waiting tl j d
tl_send_data_other tl i c bytes j d h = elim (tl_send_data_cases i c bytes tl) [
  | inr (_, e) ↦
      ap
        (λ (ps : List CamSlot). elim (get_elem? ps j) as (λ _. List (List ℕ)) [
          | none ↦ []
          | some p ↦ queue_of (p.connections) d
        ])
        e
  | inl (p, e, f, w) ↦
      let s = seen p tl in
      let s' = (slot_send_data true c bytes s).1 in
      let tl' = (tl_send_data true i c bytes tl).1 in
      let p' = record p { connections = s'.connections } in
      elim (Bool-cases (i == j)) [
        | inr z ↦ elsewhere_lem tl tl' i j p' d (λ y. ground arith) w
        | inl z ↦
            let ij : i ≡ j = ground arith in
            let same : ((slot_send_data true c bytes s).0 ≡ false) ⊎ (c ≢ d) = elim h [
              | inl a ↦ inl (sym f ∙ a)
              | inr (inl a) ↦ absurd (a ij)
              | inr (inr a) ↦ inr a
            ] in
            let before : waiting tl i d ≡ queue_of (p.connections) d = ground (arith, e) in
            subst (λ k. waiting tl' k d ≡ waiting tl k d) ij
              (updated_lem tl tl' i p p' d e w ∙ slot_send_data_other c d bytes s same ∙ sym before)
      ]
]

-- The transport layer, where memory does not run out.
abbrev pub layer_link : TransportLink Layer
layer_link = record {
  send_data = λ tl i c bytes. tl_send_data true i c bytes tl;
  get_error = λ tl. tl.error;
  queue = waiting;
  send_data-queue = tl_send_data-frame;
  send_data-other = tl_send_data_other;
}
