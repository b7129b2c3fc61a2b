-- ===== src/En50221/App.antt =====
-- lib/libdvben50221/en50221_app_utils.c and .h, and en50221_app_tags.h: what the resources of the host
-- share, each of which reads the messages of its sessions and writes its answers.
pub mod Fields
pub mod OverSession
pub mod Rm
pub mod Ca
pub mod Mmi
pub mod Lowspeed
mod Runs
use dvb_apps.Common.{
  ℕ, zero, suc, ◌+◌, ◌-◌, ◌*◌, ◌/◌, ◌%◌, ◌^◌, ◌≤◌, ◌<◌, min, ◌≡◌, refl, sym, ap, ap₂, subst, ◌∙◌,
  ◌≢◌, ◌↔◌, ◌⊎◌, inl, inr, Bool, true, false, not, ◌&&◌, ◌||◌, Option, none, some, List, [], ◌∷◌,
  ◌++◌, map, append-nil, append_assoc, arith, ltb, leb, ◌==◌, if◌then◌else◌, bit, ltb→lt, lt→ltb,
  leb→le, ==_iff, tests, Bool-cases, Option-cases, if_rule, bool_rule, option_rule, &&_left,
  &&_right, length, get_elem?, get_or, set, take, drop, replicate, All, length-append, length-set,
  length-take, length-drop, length-map, take-append-drop, take-ge, drop-ge, take-append,
  take-length_append, drop-length_append, take-append_le, drop-append_le, drop-append_ge, drop_cons,
  take-add, drop-take, take-take, get_elem?-set, get_elem?-drop_one, get_elem?-set_other, set-set,
  set_self, read-get_or, read-drop, drop-drop, drop-behind, drop-next, Result, ok, fail, fault,
  ◌>>=◌, ◌>>◌, guard, read, Returns, Safe, Result-cases, Safe-bind, Safe-guard, Safe-elim,
}
use dvb_apps.En50221.Asn1.{asn_1_decode, asn_1_encode}

-- `struct en50221_app_send_functions`: what a resource sends through, with the state of the layer below
-- in place of `arg`. A call takes the session number; the Boolean is whether the layer took the data.
pub record SendFunctions (S : Type 0) : Type 0 where
  pub send_data : ℕ → List ℕ → S → Bool × S
  pub send_datav : ℕ → List (List ℕ) → S → Bool × S

-- `struct en50221_app_public_resource_id`.
pub record PublicResourceId : Type 0 where
  pub resource_class : ℕ
  pub resource_type : ℕ
  pub resource_version : ℕ

-- `none` is NULL, for a private resource.
unfoldable pub decode_public_resource_id : ℕ → Option PublicResourceId
decode_public_resource_id resource_id =
    if resource_id / 2 ^ 30 % 4 == 3
    then none
    else some (record {
      resource_class = resource_id / 2 ^ 16 % 2 ^ 16;
      resource_type = resource_id / 2 ^ 6 % 2 ^ 10;
      resource_version = resource_id % 2 ^ 6;
    })

-- The three bytes of a tag.
abbrev pub tag_bytes : ℕ → List ℕ
tag_bytes tag = tag / 2 ^ 16 % 2 ^ 8 ∷ tag / 2 ^ 8 % 2 ^ 8 ∷ tag % 2 ^ 8 ∷ []

-- The tag at the front of a message.
unfoldable pub read_tag : List ℕ → Result ℕ
read_tag message = do
  guard (leb 3 (length message))
  a ← read message 0
  b ← read message 1
  c ← read message 2
  ok (a * 2 ^ 16 + b * 2 ^ 8 + c)

-- `n` bytes of memory from an index on, which have to be there.
abbrev pub slice : List ℕ → ℕ → ℕ → Result (List ℕ)
slice memory pos n = if leb (pos + n) (length memory) then ok (take n (drop pos memory)) else fault

-- The body of a message, which is its length field and as many bytes.
unfoldable pub read_body : List ℕ → Result (List ℕ)
read_body bytes = do
  r ← asn_1_decode bytes (length bytes)
  guard (leb (r.0) (length bytes - r.1))
  slice bytes (r.1) (r.0)

-- The start of a message: its tag and length, which goes into three bytes.
unfoldable pub message_header : ℕ → ℕ → Result (List ℕ)
message_header tag n = do
  r ← asn_1_encode (n % 2 ^ 16) (0 ∷ 0 ∷ 0 ∷ []) 3
  ok (tag_bytes tag ++ take (r.1) (r.0))
