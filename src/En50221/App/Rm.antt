-- ===== src/En50221/App/Rm.antt =====
-- lib/libdvben50221/en50221_app_rm.c: the resource manager, by which both sides say what they have.
pub mod Profile
use dvb_apps.Common.{
  ℕ, zero, suc, ◌+◌, ◌-◌, ◌*◌, ◌/◌, ◌%◌, ◌^◌, ◌≤◌, ◌<◌, min, ◌≡◌, refl, sym, ap, ap₂, subst, ◌∙◌,
  ◌≢◌, ◌↔◌, ◌⊎◌, inl, inr, Bool, true, false, not, ◌&&◌, ◌||◌, Option, none, some, List, [], ◌∷◌,
  ◌++◌, map, append-nil, append_assoc, arith, ltb, leb, ◌==◌, if◌then◌else◌, bit, ltb→lt, lt→ltb,
  leb→le, ==_iff, tests, Bool-cases, Option-cases, if_rule, bool_rule, option_rule, &&_left,
  &&_right, length, get_elem?, get_or, set, take, drop, replicate, All, length-append, length-set,
  length-take, length-drop, length-map, take-append-drop, take-ge, drop-ge, take-append,
  take-length_append, drop-length_append, take-append_le, drop-append_le, drop-append_ge, drop_cons,
  take-add, drop-take, take-take, get_elem?-set, get_elem?-drop_one, get_elem?-set_other, set-set,
  set_self, read-get_or, read-drop, drop-drop, drop-behind, drop-next, Result, ok, fail, fault,
  ◌>>=◌, ◌>>◌, guard, read, Returns, Returns-bind, Safe, Result-cases, Safe-bind, Safe-guard,
  Safe-elim,
}
use dvb_apps.En50221.App.{
  SendFunctions, PublicResourceId, decode_public_resource_id, tag_bytes, read_tag, slice, read_body,
  message_header,
}

-- `struct en50221_app_rm`: the callbacks that are registered.
pub record Rm : Type 0 where
  pub enq : Bool
  pub reply : Bool
  pub changed : Bool

-- A call of a callback, with the slot and the session number.
pub data RmCall : Type 0 where
  enq_call changed_call : ℕ → ℕ → RmCall
  reply_call : ℕ → ℕ → List ℕ → RmCall

abbrev pub tag_profile_enquiry : ℕ
tag_profile_enquiry = 0x9f8010

abbrev pub tag_profile : ℕ
tag_profile = 0x9f8011

abbrev pub tag_profile_change : ℕ
tag_profile_change = 0x9f8012

unfoldable pub create : Rm
create = record { enq = false; reply = false; changed = false }

abbrev pub register_enq_callback : Bool → Rm → Rm
register_enq_callback b rm = record rm { enq = b }

abbrev pub register_reply_callback : Bool → Rm → Rm
register_reply_callback b rm = record rm { reply = b }

abbrev pub register_changed_callback : Bool → Rm → Rm
register_changed_callback b rm = record rm { changed = b }

-- `some` is the callback whose value is returned, `none` is 0.
abbrev pub called : Bool → RmCall → Option RmCall
called registered call = if registered then some call else none

-- The numbers in memory once their four bytes are swapped.
unfoldable pub swapped_ids : List ℕ → List ℕ
swapped_ids (a ∷ b ∷ c ∷ d ∷ rest) = (a * 2 ^ 24 + b * 2 ^ 16 + c * 2 ^ 8 + d) ∷ swapped_ids rest
swapped_ids _ = []

unfoldable pub parse_profile_reply : Rm → ℕ → ℕ → List ℕ → Result (Option RmCall)
parse_profile_reply rm slot n bytes =
    read_body bytes >>= λ body. ok (called (rm.reply) (reply_call slot n (swapped_ids body)))

-- `en50221_app_rm_message`.
unfoldable pub message : Rm → ℕ → ℕ → List ℕ → Result (Option RmCall)
message rm slot n bytes = read_tag bytes >>= λ tag.
    if tag == tag_profile_enquiry
    then ok (called (rm.enq) (enq_call slot n))
    else if tag == tag_profile
    then parse_profile_reply rm slot n (drop 3 bytes)
    else if tag == tag_profile_change
    then ok (called (rm.changed) (changed_call slot n))
    else fail

-- The bytes of the numbers, swapped.
unfoldable pub id_bytes : List ℕ → List ℕ
id_bytes [] = []
id_bytes (i ∷ ids) =
    i / 2 ^ 24 % 2 ^ 8 ∷ i / 2 ^ 16 % 2 ^ 8 ∷ i / 2 ^ 8 % 2 ^ 8 ∷ i % 2 ^ 8 ∷ id_bytes ids

module _ {S : Type 0} (funcs : SendFunctions S) where
  unfoldable pub enq : ℕ → S → Bool × S
  enq n s = funcs.send_data n (tag_bytes tag_profile_enquiry ++ (0 ∷ [])) s

  unfoldable pub reply : ℕ → List ℕ → S → Result (Bool × S)
  reply n ids s = message_header tag_profile (length ids * 4) >>= λ h.
      ok (funcs.send_datav n (h ∷ id_bytes ids ∷ []) s)

  unfoldable pub changed : ℕ → S → Bool × S
  changed n s = funcs.send_data n (tag_bytes tag_profile_change ++ (0 ∷ [])) s
