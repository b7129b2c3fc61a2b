-- ===== src/En50221/App/Lowspeed/Commands.antt =====
-- What is read of a command.
use dvb_apps.Common.{
  ℕ, zero, suc, ◌+◌, ◌-◌, ◌≤◌, ◌<◌, ◌≡◌, refl, sym, subst, List, [], ◌∷◌, arith, leb, ◌==◌, length,
  get_or, take, drop, length-take, length-drop, read-get_or, ok, ◌>>=◌, ◌>>◌, guard, read, Safe,
  Safe-bind, Safe-guard,
}
use dvb_apps.En50221.App.{read_tag, slice, read_body}
use dvb_apps.En50221.Asn1.{asn_1_decode}
use dvb_apps.En50221.Transport.Frame.{decode-Safe}
use dvb_apps.En50221.App.Mmi.Bounds.{read_tag-Safe, read_body-Safe}
use dvb_apps.En50221.App.Lowspeed.{
  Lowspeed, Command, telephone, cable, tag_connection_descriptor, telephone_codec, last_bit,
  parse_descriptor, parse_connect_on_channel, parse_details, parse_command,
}

-- A descriptor whose length byte counts the bytes behind it.
telephone_codec-Safe :
    (d : List ℕ)
    → 2 ≤ length d
    → length d ≡ 2 + get_or d 1 0
    → Safe (λ e. e ≡ d) (telephone_codec d)
unfolding telephone_codec
telephone_codec-Safe d l h = ground (arith, read-get_or d 1, read-get_or d 3, read-get_or d 4)

last_bit-Safe :
    (command : ℕ → ℕ → Command) (rest : List ℕ) → Safe (λ c. Unit) (last_bit command rest)
unfolding last_bit
last_bit-Safe command rest = ground (arith, read-get_or rest 0, read-get_or rest 1)

get_or-take : (xs : List ℕ) (n i d : ℕ) → i < n → get_or (take n xs) i d ≡ get_or xs i d
get_or-take xs zero i d h = absurd (omega arith)
get_or-take [] (suc n) i d h = refl
get_or-take (x ∷ xs) (suc n) zero d h = refl
get_or-take (x ∷ xs) (suc n) (suc i) d h = get_or-take xs n i d (omega arith)

telephone-Safe :
    (n : ℕ) (bytes : List ℕ)
    → 2 ≤ n
    → n ≤ length bytes
    → n ≡ 2 + get_or bytes 1 0
    → Safe
        (λ c. Unit)
        (slice bytes 0 n >>= λ d. telephone_codec d >>= λ d. last_bit (telephone d) (drop n bytes))
telephone-Safe n bytes l m e =
    let d = take n bytes in
    let size : length d ≡ n = omega (arith, length-take n bytes) in
    let cut : slice bytes 0 n ≡ ok d = ground arith in
    subst
      (λ r.
        Safe (λ c. Unit)
          (r >>= λ d. telephone_codec d >>= λ d. last_bit (telephone d) (drop n bytes)))
      (sym cut)
      (Safe-bind (λ e. e ≡ d) (λ c. Unit) (telephone_codec d) _
        (telephone_codec-Safe d (omega arith)
          (omega (arith, get_or-take bytes n 1 0 (omega arith))))
        λ d h. last_bit-Safe (telephone d) (drop n bytes))

parse_descriptor-Safe :
    (descriptor_type n : ℕ) (bytes : List ℕ)
    → n ≤ length bytes
    → Safe (λ c. Unit) (parse_descriptor descriptor_type n bytes)
unfolding parse_descriptor
parse_descriptor-Safe descriptor_type n bytes l = ground (
  arith,
  read-get_or bytes 0,
  read-get_or bytes 1,
  telephone-Safe n bytes,
  last_bit-Safe (cable (get_or bytes 0 0)) (drop 1 bytes),
)

connect_behind :
    (n : ℕ) (behind : List ℕ)
    → Safe
        (λ c. Unit)
        (guard (leb n (length behind))
          >> (guard (leb 1 n)
              >> (read behind 0 >>= λ descriptor_type.
                  parse_descriptor descriptor_type (n - 1) (drop 1 behind))))
connect_behind n behind = ground (
  arith,
  read-get_or behind 0,
  length-drop 1 behind,
  parse_descriptor-Safe (get_or behind 0 0) (n - 1) (drop 1 behind),
)

parse_connect_on_channel-Safe : (bytes : List ℕ) → Safe (λ c. Unit) (parse_connect_on_channel bytes)
unfolding parse_connect_on_channel
parse_connect_on_channel-Safe bytes =
    let back = drop 3 bytes in
    let d : Safe (λ r. (1 ≤ r.1) × (r.1 ≤ length bytes - 3))
        (asn_1_decode back (length bytes - 3)) =
      subst (λ n. Safe (λ r. (1 ≤ r.1) × (r.1 ≤ n)) (asn_1_decode back n)) (length-drop 3 bytes)
        (decode-Safe back) in
    Safe-bind (λ tag. 3 ≤ length bytes) (λ c. Unit) (read_tag bytes) _ (read_tag-Safe bytes)
      λ tag l.
        Safe-guard (λ c. Unit) (tag == tag_connection_descriptor) _
          λ e.
            Safe-bind (λ r. (1 ≤ r.1) × (r.1 ≤ length bytes - 3)) (λ c. Unit)
              (asn_1_decode back (length bytes - 3)) _ d
              λ (n, used) r. connect_behind n (drop (3 + used) bytes)

parse_details-Safe :
    (command_id : ℕ) (bytes : List ℕ) → Safe (λ c. Unit) (parse_details command_id bytes)
unfolding parse_details
parse_details-Safe command_id bytes =
    ground (arith, read-get_or bytes 0, read-get_or bytes 1, parse_connect_on_channel-Safe bytes)

-- A command of any bytes is refused or understood, and nothing outside it is read: its number, the
-- connection descriptor with the telephone number or the cable channel in it, and its parameters.
pub parse_command-Safe :
    (lowspeed : Lowspeed) (slot n : ℕ) (bytes : List ℕ)
    → Safe (λ r. Unit) (parse_command lowspeed slot n bytes)
unfolding parse_command
parse_command-Safe lowspeed slot n bytes =
    Safe-bind (λ body. length body ≤ length bytes) (λ r. Unit) (read_body bytes) _
      (read_body-Safe bytes)
      λ body l.
        let command_id = get_or body 0 0 in
        let d = parse_details-Safe command_id (drop 1 body) in ground (arith, read-get_or body 0, d)
