-- ===== src/En50221/App/Ca.antt =====
-- lib/libdvben50221/en50221_app_ca.c: conditional access.
pub mod Replies
pub mod Format
pub mod Read
pub mod Carried
pub mod Layout
use dvb_apps.Common.{
  ℕ, zero, suc, ◌+◌, ◌-◌, ◌*◌, ◌/◌, ◌%◌, ◌^◌, ◌≤◌, ◌<◌, min, ◌≡◌, refl, sym, ap, ap₂, subst, ◌∙◌,
  ◌≢◌, ◌↔◌, ◌⊎◌, inl, inr, Bool, true, false, not, ◌&&◌, ◌||◌, Option, none, some, List, [], ◌∷◌,
  ◌++◌, map, append-nil, append_assoc, arith, ltb, leb, ◌==◌, if◌then◌else◌, bit, ltb→lt, lt→ltb,
  leb→le, ==_iff, tests, Bool-cases, Option-cases, if_rule, bool_rule, option_rule, &&_left,
  &&_right, length, get_elem?, get_or, set, take, drop, replicate, All, length-append, length-set,
  length-take, length-drop, length-map, take-append-drop, take-ge, drop-ge, take-append,
  take-length_append, drop-length_append, take-append_le, drop-append_le, drop-append_ge, drop_cons,
  take-add, drop-take, take-take, get_elem?-set, get_elem?-drop_one, get_elem?-set_other, set-set,
  set_self, read-get_or, read-drop, drop-drop, drop-behind, drop-next, Result, ok, fail, fault,
  ◌>>=◌, ◌>>◌, guard, read, Returns, Returns-bind, Safe, Result-cases, Safe-bind, Safe-guard,
  Safe-elim,
}
use dvb_apps.En50221.App.{
  SendFunctions, PublicResourceId, decode_public_resource_id, tag_bytes, read_tag, slice, read_body,
  message_header,
}
use dvb_apps.En50221.Asn1.{asn_1_decode}
use dvb_apps.Ucsi.Codec.{bswap16}

-- `struct en50221_app_ca`: the callbacks that are registered.
pub record Ca : Type 0 where
  pub ca_info : Bool
  pub ca_pmt_reply : Bool

-- A call of a callback, with the slot and the session number.
pub data CaCall : Type 0 where
  ca_info_call ca_pmt_reply_call : ℕ → ℕ → List ℕ → CaCall

abbrev pub tag_ca_info_enquiry : ℕ
tag_ca_info_enquiry = 0x9f8030

abbrev pub tag_ca_info : ℕ
tag_ca_info = 0x9f8031

abbrev pub tag_ca_pmt : ℕ
tag_ca_pmt = 0x9f8032

abbrev pub tag_ca_pmt_reply : ℕ
tag_ca_pmt_reply = 0x9f8033

unfoldable pub create : Ca
create = record { ca_info = false; ca_pmt_reply = false }

abbrev pub register_info_callback : Bool → Ca → Ca
register_info_callback b ca = record ca { ca_info = b }

abbrev pub register_pmt_reply_callback : Bool → Ca → Ca
register_pmt_reply_callback b ca = record ca { ca_pmt_reply = b }

-- `some` is the callback whose value is returned, `none` is 0.
abbrev pub called : Bool → CaCall → Option CaCall
called registered call = if registered then some call else none

-- The numbers in memory once their two bytes are swapped.
unfoldable pub swapped_ids : List ℕ → List ℕ
swapped_ids (a ∷ b ∷ rest) = (a * 2 ^ 8 + b) ∷ swapped_ids rest
swapped_ids _ = []

unfoldable pub parse_info : Ca → ℕ → ℕ → List ℕ → Result (Option CaCall)
parse_info ca slot n bytes =
    read_body bytes >>= λ body. ok (called (ca.ca_info) (ca_info_call slot n (swapped_ids body)))

-- The loop over the table of a reply: the two bytes at `pos` are swapped, which is 3 further on in each
-- round, below the length of the reply. One more fuel than that length is enough.
unfoldable pub swap_table : ℕ → ℕ → ℕ → List ℕ → Result (List ℕ)
swap_table zero pos n mem = fault
swap_table (suc fuel) pos n mem =
    if ltb pos n then (bswap16 mem pos >>= λ m. swap_table fuel (pos + 3) n m) else ok mem

-- The reply is swapped in place and handed on as it is.
unfoldable pub parse_reply : Ca → ℕ → ℕ → List ℕ → Result (Option CaCall)
parse_reply ca slot n bytes = do
  r ← asn_1_decode bytes (length bytes)
  let (l, used) = r
  guard (leb 4 l)
  guard (leb l (length bytes - used))
  m ← bswap16 (drop used bytes) 0
  table ← swap_table (suc l) 4 l m
  ok (called (ca.ca_pmt_reply) (ca_pmt_reply_call slot n (take l table)))

-- `en50221_app_ca_message`.
unfoldable pub message : Ca → ℕ → ℕ → List ℕ → Result (Option CaCall)
message ca slot n bytes = read_tag bytes >>= λ tag.
    if tag == tag_ca_info
    then parse_info ca slot n (drop 3 bytes)
    else if tag == tag_ca_pmt_reply
    then parse_reply ca slot n (drop 3 bytes)
    else fail

module _ {S : Type 0} (funcs : SendFunctions S) where
  unfoldable pub info_enq : ℕ → S → Bool × S
  info_enq n s = funcs.send_data n (tag_bytes tag_ca_info_enquiry ++ (0 ∷ [])) s

  unfoldable pub pmt : ℕ → List ℕ → S → Result (Bool × S)
  pmt n ca_pmt s =
      message_header tag_ca_pmt (length ca_pmt) >>= λ h. ok (funcs.send_datav n (h ∷ ca_pmt ∷ []) s)
