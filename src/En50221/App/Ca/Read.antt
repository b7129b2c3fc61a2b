-- ===== src/En50221/App/Ca/Read.antt =====
-- en50221_app_ca.c: a CA_PMT as it is read by the rules of its layout, which the text of EN 50221 gives.
use dvb_apps.Common.{
  ℕ, zero, suc, ◌-◌, inl, inr, Bool-cases, ◌+◌, ◌*◌, ◌/◌, ◌%◌, ◌^◌, ◌≤◌, ◌<◌, ◌≡◌, refl, sym, ap,
  ◌∙◌, ◌⊎◌, ◌&&◌, Option, none, some, List, [], ◌∷◌, ◌++◌, map, arith, leb, ◌==◌, if◌then◌else◌,
  length, take, drop, length-append, take-length_append, drop-length_append, All,
}
use mathlib.Core.List.{flatten}
use dvb_apps.En50221.App.Ca.Format.{
  Stream, Pmt, sum_lengths, descriptors_length, descriptor_bytes, stream_bytes, pmt_bytes,
}

-- What a CA_PMT says. A stream is its type, its PID and the descriptors for it.
pub record CaPmt : Type 0 where
  pub list_management : ℕ
  pub program_number : ℕ
  pub version_number : ℕ
  pub info : List ℕ
  pub streams : List (ℕ × ℕ × List ℕ)

-- Descriptors behind their length of 12 bits, and what follows them. Where the length is not 0, the first
-- byte is the command.
unfoldable pub read_info : ℕ → List ℕ → Option (List ℕ × List ℕ)
read_info cmd (hi ∷ lo ∷ rest) =
    let n = hi % 2 ^ 4 * 2 ^ 8 + lo in
    if n == 0 then some ([], rest) else elim rest [
      | [] ↦ none
      | c ∷ cs ↦
          if (c == cmd) && leb n (length cs + 1)
          then some (take (n - 1) cs, drop (n - 1) cs)
          else none
    ]
read_info cmd _ = none

-- A fuel above the number of the streams is enough.
unfoldable pub read_streams : ℕ → ℕ → List ℕ → Option (List (ℕ × ℕ × List ℕ))
read_streams zero cmd bytes = none
read_streams (suc fuel) cmd [] = some []
read_streams (suc fuel) cmd (type ∷ hi ∷ lo ∷ rest) = elim (read_info cmd rest) [
  | none ↦ none
  | some r ↦ elim (read_streams fuel cmd (r.1)) [
    | none ↦ none
    | some ss ↦ some ((type, hi % 2 ^ 5 * 2 ^ 8 + lo, r.0) ∷ ss)
  ]
]
read_streams (suc fuel) cmd _ = none

unfoldable pub read_ca_pmt : ℕ → List ℕ → Option CaPmt
read_ca_pmt cmd (list_management ∷ hi ∷ lo ∷ version ∷ rest) = elim (read_info cmd rest) [
  | none ↦ none
  | some r ↦ elim (read_streams (length rest) cmd (r.1)) [
    | none ↦ none
    | some ss ↦ some (record {
      list_management = list_management;
      program_number = hi * 2 ^ 8 + lo;
      version_number = version / 2 % 2 ^ 5;
      info = r.0;
      streams = ss;
    })
  ]
]
read_ca_pmt cmd _ = none

pub length-flatten : (ds : List (List ℕ)) → length (flatten ds) ≡ sum_lengths ds
unfolding mathlib.Core.List.flatten sum_lengths
length-flatten [] = refl
length-flatten (d ∷ ds) = omega (arith, length-append d (flatten ds), length-flatten ds)

nothing_lem : (bytes : List ℕ) → length bytes ≡ 0 → bytes ≡ []
nothing_lem [] h = refl
nothing_lem (b ∷ bs) h = absurd (omega (arith, h))

read_info-some :
    (cmd n : ℕ) (body more : List ℕ)
    → n ≡ length body + 1
    → n < 2 ^ 12
    → read_info cmd (n / 2 ^ 8 % 2 ^ 4 ∷ n % 2 ^ 8 ∷ cmd ∷ (body ++ more)) ≡ some (body, more)
unfolding read_info
read_info-some cmd n body more e h =
    let m : n / 2 ^ 8 % 2 ^ 4 % 2 ^ 4 * 2 ^ 8 + n % 2 ^ 8 ≡ n = omega arith in
    let l : n - 1 ≡ length body = omega (arith, e) in
    let t : take (n - 1) (body ++ more) ≡ body =
      ap (λ k. take k (body ++ more)) l ∙ take-length_append body more in
    let d : drop (n - 1) (body ++ more) ≡ more =
      ap (λ k. drop k (body ++ more)) l ∙ drop-length_append body more in
    ground (arith, m, t, d, length-append body more)

descriptor_bytes-cases :
    (cmd : ℕ) (ds : List (List ℕ))
    → let n = descriptors_length ds in
      ((flatten ds ≡ []) × (descriptor_bytes cmd ds ≡ 0 ∷ 0 ∷ []))
      ⊎ ((n ≡ length (flatten ds) + 1)
          × (descriptor_bytes cmd ds ≡ n / 2 ^ 8 % 2 ^ 4 ∷ n % 2 ^ 8 ∷ cmd ∷ flatten ds))
unfolding descriptor_bytes
descriptor_bytes-cases cmd ds =
    let l = length-flatten ds in
    elim (Bool-cases (sum_lengths ds == 0)) [
      | inl z ↦
          let e : flatten ds ≡ [] = nothing_lem (flatten ds) (ground (arith, l)) in
          inl (ground arith)
      | inr z ↦ inr (ground (arith, l))
    ]

read_info-none : (cmd : ℕ) (more : List ℕ) → read_info cmd (0 ∷ 0 ∷ more) ≡ some ([], more)
unfolding read_info
read_info-none cmd more = refl

pub read_info-descriptors :
    (cmd : ℕ) (ds : List (List ℕ)) (more : List ℕ)
    → descriptors_length ds < 2 ^ 12
    → read_info cmd (descriptor_bytes cmd ds ++ more) ≡ some (flatten ds, more)
read_info-descriptors cmd ds more h = elim (descriptor_bytes-cases cmd ds) [
  | inl (f, e) ↦
      ap (λ r. read_info cmd (r ++ more)) e
      ∙ read_info-none cmd more
      ∙ ap (λ r. some (r, more)) (sym f)
  | inr (n, e) ↦
      ap (λ r. read_info cmd (r ++ more)) e
      ∙ read_info-some cmd (descriptors_length ds) (flatten ds) more n h
]

-- A stream that is written whole: its PID has 13 bits, and the length of its descriptors 12.
abbrev pub FitsStream : Stream → Type 0
FitsStream s = (s.pid < 2 ^ 13) × (descriptors_length (s.descriptors) < 2 ^ 12)

abbrev pub said : Stream → ℕ × ℕ × List ℕ
said s = (s.stream_type, s.pid, flatten (s.descriptors))

read_streams-stream_bytes :
    (fuel cmd : ℕ) (ss : List Stream)
    → length ss < fuel
    → All FitsStream ss
    → read_streams fuel cmd (stream_bytes cmd ss) ≡ some (map said ss)
unfolding read_streams stream_bytes
read_streams-stream_bytes zero cmd ss h f = absurd (omega arith)
read_streams-stream_bytes (suc fuel) cmd [] h f = refl
read_streams-stream_bytes (suc fuel) cmd (s ∷ ss) h f =
    let pid : s.pid / 2 ^ 8 % 2 ^ 5 % 2 ^ 5 * 2 ^ 8 + s.pid % 2 ^ 8 ≡ s.pid =
      omega (arith, f.0.0) in
    ground (
      arith,
      pid,
      read_info-descriptors cmd (s.descriptors) (stream_bytes cmd ss) (f.0.1),
      read_streams-stream_bytes fuel cmd ss (omega arith) (f.1),
    )

streams_lem : (cmd : ℕ) (ss : List Stream) → length ss ≤ length (stream_bytes cmd ss)
unfolding stream_bytes
streams_lem cmd [] = omega arith
streams_lem cmd (s ∷ ss) = omega (
  arith,
  streams_lem cmd ss,
  length-append (descriptor_bytes cmd (s.descriptors)) (stream_bytes cmd ss),
)

two_bytes_lem : (cmd : ℕ) (ds : List (List ℕ)) → 1 ≤ length (descriptor_bytes cmd ds)
unfolding descriptor_bytes
two_bytes_lem cmd ds = omega arith

-- The fields of the table itself have the widths of the section.
abbrev pub IsHeader : Pmt → Type 0
IsHeader pmt =
    (pmt.program_number < 2 ^ 16) × (pmt.version_number < 2 ^ 5) × (pmt.current_next_indicator < 2)

-- What is written is read back.
pub read_ca_pmt-pmt_bytes :
    (pmt : Pmt) (list_management cmd : ℕ) (ds : List (List ℕ)) (ss : List Stream)
    → IsHeader pmt
    → descriptors_length ds < 2 ^ 12
    → All FitsStream ss
    → read_ca_pmt cmd (pmt_bytes pmt list_management cmd ds ss)
      ≡ some (record {
        list_management = list_management;
        program_number = pmt.program_number;
        version_number = pmt.version_number;
        info = flatten ds;
        streams = map said ss;
      })
unfolding read_ca_pmt pmt_bytes
read_ca_pmt-pmt_bytes pmt list_management cmd ds ss h d f =
    let rest = descriptor_bytes cmd ds ++ stream_bytes cmd ss in
    let number : pmt.program_number / 2 ^ 8 % 2 ^ 8 * 2 ^ 8 + pmt.program_number % 2 ^ 8
        ≡ pmt.program_number =
      omega (arith, h.0) in
    let version : (pmt.version_number * 2 + pmt.current_next_indicator) % 2 ^ 8 / 2 % 2 ^ 5
        ≡ pmt.version_number =
      omega (arith, h.1, h.2) in
    let room : length ss < length rest = omega (
      arith,
      length-append (descriptor_bytes cmd ds) (stream_bytes cmd ss),
      two_bytes_lem cmd ds,
      streams_lem cmd ss,
    ) in
    ground (
      arith,
      number,
      version,
      read_info-descriptors cmd ds (stream_bytes cmd ss) d,
      read_streams-stream_bytes (length rest) cmd ss room f,
    )
