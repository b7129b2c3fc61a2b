-- ===== src/En50221/App/Lowspeed.antt =====
-- lib/libdvben50221/en50221_app_lowspeed.c: a modem or return channel of the host, used by the module.
pub mod Chained
pub mod Commands
use dvb_apps.Common.{
  ℕ, zero, suc, ◌+◌, ◌-◌, ◌*◌, ◌/◌, ◌%◌, ◌^◌, ◌≤◌, ◌<◌, min, ◌≡◌, refl, sym, ap, ap₂, subst, ◌∙◌,
  ◌≢◌, ◌↔◌, ◌⊎◌, inl, inr, Bool, true, false, not, ◌&&◌, ◌||◌, Option, none, some, List, [], ◌∷◌,
  ◌++◌, map, append-nil, append_assoc, arith, ltb, leb, ◌==◌, if◌then◌else◌, bit, ltb→lt, lt→ltb,
  leb→le, ==_iff, tests, Bool-cases, Option-cases, if_rule, bool_rule, option_rule, &&_left,
  &&_right, length, get_elem?, get_or, set, take, drop, replicate, All, length-append, length-set,
  length-take, length-drop, length-map, take-append-drop, take-ge, drop-ge, take-append,
  take-length_append, drop-length_append, take-append_le, drop-append_le, drop-append_ge, drop_cons,
  take-add, drop-take, take-take, get_elem?-set, get_elem?-drop_one, get_elem?-set_other, set-set,
  set_self, read-get_or, read-drop, drop-drop, drop-behind, drop-next, Result, ok, fail, fault,
  ◌>>=◌, ◌>>◌, guard, read, Returns, Returns-bind, Safe, Result-cases, Safe-bind, Safe-guard,
  Safe-elim,
}
use dvb_apps.En50221.App.{
  SendFunctions, PublicResourceId, decode_public_resource_id, tag_bytes, read_tag, slice, read_body,
  message_header,
}
use dvb_apps.En50221.Asn1.{asn_1_decode}
use dvb_apps.En50221.App.Mmi.{Block, null, block, freed, free}
use dvb_apps.En50221.App.Mmi.Fragments.{append}

-- `struct en50221_app_lowspeed_session`.
pub record LowspeedSession : Type 0 where
  pub session_number : ℕ
  pub block_chain : Block

-- `struct en50221_app_lowspeed`, with the callbacks that are registered.
pub record Lowspeed : Type 0 where
  pub command_callback : Bool
  pub send_callback : Bool
  pub sessions : List LowspeedSession

-- `struct en50221_app_lowspeed_command`, where something of it is set; a connection has a telephone
-- descriptor or a cable channel, a retry count and a timeout.
pub data Command : Type 0 where
  telephone : List ℕ → ℕ → ℕ → Command
  cable : ℕ → ℕ → ℕ → Command
  set_params : ℕ → ℕ → Command
  get_next_buffer : ℕ → Command
  no_details : Command

-- What a message is answered with: -1, 0, or the value of a callback, which is given the slot, the session
-- number, and a command with its details, or a phase and data to send.
pub data LowspeedReply : Type 0 where
  refused nothing : LowspeedReply
  commanded : ℕ → ℕ → ℕ → Command → LowspeedReply
  sent : ℕ → ℕ → ℕ → List ℕ → LowspeedReply

abbrev pub tag_comms_command : ℕ
tag_comms_command = 0x9f8c00

abbrev pub tag_connection_descriptor : ℕ
tag_connection_descriptor = 0x9f8c01

abbrev pub tag_comms_reply : ℕ
tag_comms_reply = 0x9f8c02

abbrev pub tag_comms_send_last : ℕ
tag_comms_send_last = 0x9f8c03

abbrev pub tag_comms_send_more : ℕ
tag_comms_send_more = 0x9f8c04

abbrev pub tag_comms_recv_last : ℕ
tag_comms_recv_last = 0x9f8c05

-- `dvb_telephone_descriptor_codec`: three bytes of lengths, and as many bytes as they count.
unfoldable pub telephone_codec : List ℕ → Result (List ℕ)
telephone_codec d = do
  len ← read d 1
  guard (leb 3 len)
  second ← read d 3
  third ← read d 4
  guard (
      3
        + second / 2 ^ 5 % 2 ^ 2
        + second / 2 ^ 2 % 2 ^ 3
        + second % 2 ^ 2
        + third / 2 ^ 4 % 2 ^ 3
        + third % 2 ^ 4
      == len)
  ok d

-- What is behind the descriptor: the retry count and the timeout, and nothing else.
unfoldable pub last_bit : (ℕ → ℕ → Command) → List ℕ → Result Command
last_bit command rest = do
  guard (length rest == 2)
  retry_count ← read rest 0
  timeout ← read rest 1
  ok (command retry_count timeout)

-- The descriptor, of `n` bytes behind its type.
unfoldable pub parse_descriptor : ℕ → ℕ → List ℕ → Result Command
parse_descriptor descriptor_type n bytes =
    if descriptor_type == 1
    then (guard (leb 2 n)
        >> (read bytes 1 >>= λ len.
            guard (n == 2 + len)
            >> (read bytes 0 >>= λ tag.
                guard (tag == 0x57)
                >> (slice bytes 0 n >>= λ d.
                    telephone_codec d >>= λ d. last_bit (telephone d) (drop n bytes)))))
    else if descriptor_type == 2
    then (guard (n == 1) >> (read bytes 0 >>= λ id. last_bit (cable id) (drop 1 bytes)))
    else fail

unfoldable pub parse_connect_on_channel : List ℕ → Result Command
parse_connect_on_channel bytes = do
  tag ← read_tag bytes
  guard (tag == tag_connection_descriptor)
  r ← asn_1_decode (drop 3 bytes) (length bytes - 3)
  let behind = drop (3 + r.1) bytes
  guard (leb (r.0) (length behind))
  guard (leb 1 (r.0))
  descriptor_type ← read behind 0
  parse_descriptor descriptor_type (r.0 - 1) (drop 1 behind)

-- The details of a command, by its number.
unfoldable pub parse_details : ℕ → List ℕ → Result Command
parse_details command_id bytes =
    if command_id == 1
    then parse_connect_on_channel bytes
    else if command_id == 3
    then (guard (length bytes == 2)
        >> (read bytes 0 >>= λ size. read bytes 1 >>= λ timeout. ok (set_params size timeout)))
    else if command_id == 5
    then (guard (length bytes == 1) >> (read bytes 0 >>= λ phase. ok (get_next_buffer phase)))
    else if (command_id == 2) || (command_id == 4)
    then ok no_details
    else fail

unfoldable pub parse_command : Lowspeed → ℕ → ℕ → List ℕ → Result LowspeedReply
parse_command lowspeed slot n bytes = do
  body ← read_body bytes
  guard (leb 1 (length body))
  command_id ← read body 0
  command ← parse_details command_id (drop 1 body)
  ok (if lowspeed.command_callback then commanded slot n command_id command else nothing)

-- The chain of the first session with a number, and a change of it.
unfoldable pub find : ℕ → List LowspeedSession → Option Block
find n [] = none
find n (s ∷ ss) = if s.session_number == n then some (s.block_chain) else find n ss

unfoldable pub put : ℕ → Block → List LowspeedSession → List LowspeedSession
put n b [] = []
put n b (s ∷ ss) =
    let rest = put n b ss in
    if s.session_number == n then record s { block_chain = b } ∷ ss else s ∷ rest

-- The reassembled data, whose length is kept in 16 bits.
unfoldable pub send_reply : Lowspeed → ℕ → ℕ → List ℕ → Result LowspeedReply
send_reply lowspeed slot n bytes = do
  let l = length bytes % 2 ^ 16
  guard (leb 1 l)
  phase_id ← read bytes 0
  ok (
      if lowspeed.send_callback
      then sent slot n phase_id (take (l - 1) (drop 1 bytes))
      else nothing)

abbrev pub replied : Lowspeed → Result LowspeedReply → Result (LowspeedReply × Lowspeed)
replied lowspeed (ok r) = ok (r, lowspeed)
replied lowspeed fail = ok (refused, lowspeed)
replied lowspeed fault = fault

abbrev pub with_sessions : List LowspeedSession → Lowspeed → Lowspeed
with_sessions ss lowspeed = record lowspeed { sessions = ss }

-- The sessions, with one of that number at their front if there was none.
unfoldable pub with_new_session : ℕ → List LowspeedSession → List LowspeedSession
with_new_session n ss = elim (find n ss) [
  | some b ↦ ss
  | none ↦ record { session_number = n; block_chain = null } ∷ ss
]

abbrev pub chain_at : ℕ → List LowspeedSession → Block
chain_at n ss = elim (find n ss) [ some b ↦ b | none ↦ null ]

-- A fragment: more is to come, on a session that is made where there is none, or it is the last one.
unfoldable pub take_in : Lowspeed → ℕ → ℕ → Bool → List ℕ → Result (LowspeedReply × Lowspeed)
take_in lowspeed slot n false body =
    let ss1 = with_new_session n (lowspeed.sessions) in
    elim (append (chain_at n ss1) body) [
      | ok new ↦ ok (nothing, with_sessions (put n (block new) ss1) lowspeed)
      | fail ↦ ok (refused, with_sessions (put n freed ss1) lowspeed)
      | fault ↦ fault
    ]
take_in lowspeed slot n true body = elim (find n (lowspeed.sessions)) [
  | none ↦ replied lowspeed (send_reply lowspeed slot n body)
  | some b ↦ elim (append b body) [
    | ok new ↦
        let after = with_sessions (put n null (lowspeed.sessions)) lowspeed in
        replied after (send_reply after slot n new)
    | fail ↦ ok (refused, with_sessions (put n freed (lowspeed.sessions)) lowspeed)
    | fault ↦ fault
  ]
]

unfoldable pub parse_send : Lowspeed → ℕ → ℕ → Bool → List ℕ → Result (LowspeedReply × Lowspeed)
parse_send lowspeed slot n last bytes = elim (read_body bytes) [
  | ok body ↦ take_in lowspeed slot n last body
  | fail ↦ ok (refused, lowspeed)
  | fault ↦ fault
]

-- `en50221_app_lowspeed_message`.
unfoldable pub message : Lowspeed → ℕ → ℕ → List ℕ → Result (LowspeedReply × Lowspeed)
message lowspeed slot n bytes = elim (read_tag bytes) [
  | fail ↦ ok (refused, lowspeed)
  | fault ↦ fault
  | ok tag ↦
      if tag == tag_comms_command
      then replied lowspeed (parse_command lowspeed slot n (drop 3 bytes))
      else if tag == tag_comms_send_last
      then parse_send lowspeed slot n true (drop 3 bytes)
      else if tag == tag_comms_send_more
      then parse_send lowspeed slot n false (drop 3 bytes)
      else ok (refused, lowspeed)
]

-- The loop of `en50221_app_lowspeed_clear_session`.
unfoldable pub clear : ℕ → List LowspeedSession → Result (List LowspeedSession)
clear n [] = ok []
clear n (s ∷ ss) =
    let rest = clear n ss in
    if s.session_number == n then (free (s.block_chain) >> ok ss) else (rest >>= λ ss. ok (s ∷ ss))

module _ {S : Type 0} (funcs : SendFunctions S) where
  unfoldable pub send_comms_reply : ℕ → ℕ → ℕ → S → Bool × S
  send_comms_reply n comms_reply_id return_value s =
      funcs.send_data n (tag_bytes tag_comms_reply ++ (2 ∷ comms_reply_id ∷ return_value ∷ [])) s

  unfoldable pub send_comms_data : ℕ → ℕ → List ℕ → S → Result (Bool × S)
  send_comms_data n phase_id tx_data s =
      guard (leb (length tx_data) 254)
      >> (message_header tag_comms_recv_last (length tx_data + 1) >>= λ h.
          ok (funcs.send_datav n ((h ++ (phase_id ∷ [])) ∷ tx_data ∷ []) s))
