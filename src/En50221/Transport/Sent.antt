-- ===== src/En50221/Transport/Sent.antt =====
-- Data that is sent, and what the other side reads.
use dvb_apps.Common.{
  ℕ, ◌+◌, ◌-◌, ◌%◌, ◌^◌, ◌<◌, ◌≡◌, ap, ◌∙◌, inl, inr, true, some, List, [], ◌∷◌, ◌++◌, arith,
  length, get_elem?, take, drop, ok, fail, Result, ◌==◌, if◌then◌else◌, Returns, Result-cases,
}
use dvb_apps.En50221.Asn1.{asn_1_encode}
use dvb_apps.En50221.Asn1.Lengths.{encode-cases}
use dvb_apps.En50221.Transport.{active, Connection, Slot, with_connection, change, t_data_last}
use dvb_apps.En50221.Transport.Sending.{data_message, queue_message, slot_send_data}
use dvb_apps.En50221.Transport.Receive.{Tpdu, parse_tpdu}
use dvb_apps.En50221.Transport.Frame.{frame, length_field, parse_tpdu-frame}

take-width :
    (n : ℕ)
    → n < 2 ^ 16
    → Returns (λ r. take (r.1) (r.0) ≡ length_field n) (asn_1_encode n (0 ∷ 0 ∷ 0 ∷ []) 3)
take-width n h = ground (arith, encode-cases n 0 0 0 [] h)

-- Data is laid out as one message, whose length field says its length cut to 16 bits.
pub data_message_lem :
    (c : ℕ) (bytes : List ℕ)
    → data_message c bytes
      ≡ some (t_data_last ∷ (length_field ((length bytes + 1) % 2 ^ 16) ++ (c ∷ bytes)))
unfolding data_message
data_message_lem c bytes =
    let n = (length bytes + 1) % 2 ^ 16 in
    elim (Result-cases (asn_1_encode n (0 ∷ 0 ∷ 0 ∷ []) 3)) [
      | inl (r, e) ↦ ground (arith, take-width n (omega arith))
      | inr e ↦ ground (arith, take-width n (omega arith))
    ]

pub data_message-frame :
    (c : ℕ) (bytes : List ℕ)
    → length bytes + 1 < 2 ^ 16
    → data_message c bytes ≡ some (frame t_data_last c bytes)
data_message-frame c bytes h =
    let n : (length bytes + 1) % 2 ^ 16 ≡ length bytes + 1 = omega arith in
    data_message_lem c bytes ∙ ap (λ m. some (t_data_last ∷ (length_field m ++ (c ∷ bytes)))) n

-- Sending up to 65534 bytes on an active connection succeeds if there is room; it appends one message
-- to the connection's queue, and whoever parses that message, with anything behind it, reads the tag
-- of data, the connection and the bytes that were sent.
pub slot_send_data-read :
    (c : ℕ) (bytes rest : List ℕ) (k : Connection) (s : Slot)
    → length bytes + 1 < 2 ^ 16
    → get_elem? (s.connections) c ≡ some k
    → k.state ≡ active
    → (msg : List ℕ) × (slot_send_data true c bytes s
        ≡ (true, with_connection c (record k { send_queue = k.send_queue ++ (msg ∷ []) }) s))
      × (parse_tpdu (msg ++ rest)
          ≡ ok (record { tag = t_data_last; connection_id = c; body = bytes; rest = rest }))
unfolding slot_send_data queue_message change
slot_send_data-read c bytes rest k s h g a = (
  frame t_data_last c bytes,
  ground (arith, data_message-frame c bytes h),
  parse_tpdu-frame t_data_last c bytes rest h,
)

-- How a message is read that has the length field of `n`: `bytes` are cut behind `n - 1` of them.
abbrev pub cut_at : ℕ → ℕ → List ℕ → Result Tpdu
cut_at c n bytes =
    if n == 0
    then fail
    else ok (record {
      tag = t_data_last;
      connection_id = c;
      body = take (n - 1) bytes;
      rest = drop (n - 1) bytes;
    })
