-- ===== src/En50221/App/Fields.antt =====
-- The fields of messages written and read back.
use dvb_apps.Common.{
  ℕ, ◌+◌, ◌*◌, ◌%◌, ◌^◌, ◌<◌, ◌≡◌, sym, ap, ◌∙◌, List, [], ◌∷◌, ◌++◌, append-nil, arith, length,
  length-append, take-length_append, drop-length_append, ok,
}
use dvb_apps.En50221.App.{tag_bytes, read_tag, slice, read_body, message_header}
use dvb_apps.En50221.Asn1.Lengths.{encode-cases}
use dvb_apps.En50221.Transport.Frame.{length_field, length_field_lem}

pub read_tag_lem :
    (a b c : ℕ) (rest : List ℕ) → read_tag (a ∷ b ∷ c ∷ rest) ≡ ok (a * 2 ^ 16 + b * 2 ^ 8 + c)
unfolding read_tag
read_tag_lem a b c rest = ground arith

pub slice_lem :
    (front body rest : List ℕ)
    → slice (front ++ (body ++ rest)) (length front) (length body) ≡ ok body
slice_lem front body rest =
    let t = take-length_append body rest in
    let d = drop-length_append front (body ++ rest) in
    ground (arith, t, d, length-append front (body ++ rest), length-append body rest)

pub read_body_lem :
    (body rest : List ℕ)
    → length body < 2 ^ 16
    → read_body (length_field (length body) ++ (body ++ rest)) ≡ ok body
unfolding read_body
read_body_lem body rest h =
    let field = length_field (length body) in
    let l = length-append field (body ++ rest) in
    let m = length-append body rest in
    let e =
      length_field_lem (length body) (length (field ++ (body ++ rest))) (body ++ rest) h
        (omega (arith, l)) in
    ground (arith, e, l, m, slice_lem field body rest)

pub message_header_lem :
    (tag n : ℕ) → n < 2 ^ 16 → message_header tag n ≡ ok (tag_bytes tag ++ length_field n)
unfolding message_header
message_header_lem tag n h =
    let e : n % 2 ^ 16 ≡ n = omega arith in ground (arith, e, encode-cases n 0 0 0 [] h)

pub read_body_whole :
    (body : List ℕ)
    → length body < 2 ^ 16
    → read_body (length_field (length body) ++ body) ≡ ok body
read_body_whole body h =
    ap (λ b. read_body (length_field (length body) ++ b)) (sym (append-nil body))
    ∙ read_body_lem body [] h
