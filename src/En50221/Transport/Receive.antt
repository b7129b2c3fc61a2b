-- ===== src/En50221/Transport/Receive.antt =====
-- en50221_transport.c: a read from the device, taken apart into messages.
use dvb_apps.Common.{
  ℕ, zero, suc, ◌+◌, ◌-◌, Bool, true, false, ◌&&◌, none, some, List, leb, ◌==◌, if◌then◌else◌,
  length, get_elem?, take, drop, Result, ok, fail, fault, ◌>>=◌, ◌>>◌, guard, read,
}
use dvb_apps.En50221.Asn1.{asn_1_decode}
use dvb_apps.En50221.Transport.{
  Timeval, Connection, badconnectionid, badcamdata, Event, Slot, Done, failed, t_sb, t_c_t_c_reply,
  t_delete_t_c, t_d_t_c_reply, t_request_t_c, t_data_last, t_data_more,
}
use dvb_apps.En50221.Transport.Handlers.{
  handle_create_tc_reply, handle_delete_tc, handle_delete_tc_reply, handle_data_more,
  handle_data_last, handle_sb, handle_request_tc,
}

-- A message: its tag, its connection, its body, and what follows it.
pub record Tpdu : Type 0 where
  pub tag : ℕ
  pub connection_id : ℕ
  pub body : List ℕ
  pub rest : List ℕ

-- What follows the length field: `n` is the length and `used` the size of the field.
unfoldable pub tpdu_behind : List ℕ → ℕ → ℕ → ℕ → Result Tpdu
tpdu_behind bytes tag n used = do
  guard (leb 1 n && leb n (length bytes - (1 + used)))
  c ← read bytes (1 + used)
  let behind = drop (2 + used) bytes
  ok (record {
    tag = tag;
    connection_id = c;
    body = take (n - 1) behind;
    rest = drop (n - 1) behind;
  })

-- The header at the front of the data; `fail` is bad data.
unfoldable pub parse_tpdu : List ℕ → Result Tpdu
parse_tpdu bytes = do
  tag ← read bytes 0
  r ← asn_1_decode (drop 1 bytes) (length bytes - 1)
  tpdu_behind bytes tag (r.0) (r.1)

-- The handler of a tag.
unfoldable pub handle_tpdu : (List Event → Bool) → Timeval → Tpdu → Connection → Slot → Done
handle_tpdu device now p k s =
    let c = p.connection_id in
    if p.tag == t_c_t_c_reply
    then handle_create_tc_reply c k s
    else if p.tag == t_delete_t_c
    then handle_delete_tc device c k s
    else if p.tag == t_d_t_c_reply
    then handle_delete_tc_reply c k s
    else if p.tag == t_request_t_c
    then handle_request_tc device now c s
    else if p.tag == t_data_more
    then handle_data_more device c k (p.body) s
    else if p.tag == t_data_last
    then handle_data_last device c k (p.body) s
    else if p.tag == t_sb
    then handle_sb device now c k (p.body) s
    else failed badcamdata s

-- The loop over the messages of one read. A fuel above the length of the data is enough; a fault is a
-- read outside the data, or fuel that ran out.
unfoldable pub process_data : ℕ → (List Event → Bool) → Timeval → List ℕ → Slot → Result Done
process_data zero device now bytes s = fault
process_data (suc fuel) device now bytes s = elim (length bytes == 0) [
  | true ↦ ok (true, s)
  | false ↦ elim (parse_tpdu bytes) [
    | fault ↦ fault
    | fail ↦ ok (failed badcamdata s)
    | ok p ↦ elim (get_elem? (s.connections) (p.connection_id)) [
      | none ↦ ok (failed badconnectionid s)
      | some k ↦
          let r = handle_tpdu device now p k s in
          elim r.0 [ true ↦ process_data fuel device now (p.rest) (r.1) | false ↦ ok r ]
    ]
  ]
]
