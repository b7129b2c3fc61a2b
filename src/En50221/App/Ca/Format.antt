-- ===== src/En50221/App/Ca/Format.antt =====
-- en50221_app_ca.c: a program map table written as a CA_PMT.
--
-- A descriptor is its bytes: tag, length and body, in the order in which the loops of the section codecs
-- come to it. malloc is taken to succeed.
use dvb_apps.Common.{
  ℕ, ◌+◌, ◌*◌, ◌/◌, ◌%◌, ◌^◌, Bool, true, false, ◌&&◌, List, [], ◌∷◌, ◌++◌, map, ltb, ◌==◌,
  if◌then◌else◌, length, Result, ok, fail,
}
use mathlib.Core.List.{flatten}

-- What is read of the section: a stream, and the table.
pub record Stream : Type 0 where
  pub stream_type : ℕ
  pub pid : ℕ
  pub descriptors : List (List ℕ)

pub record Pmt : Type 0 where
  pub program_number : ℕ
  pub version_number : ℕ
  pub current_next_indicator : ℕ
  pub descriptors : List (List ℕ)
  pub streams : List Stream

-- Its tag is `dtag_mpeg_ca`.
abbrev pub is_ca : List ℕ → Bool
is_ca [] = false
is_ca (tag ∷ rest) = tag == 0x09

unfoldable pub extract_descriptors : List (List ℕ) → List (List ℕ)
extract_descriptors [] = []
extract_descriptors (d ∷ ds) =
    let rest = extract_descriptors ds in if is_ca d then d ∷ rest else rest

abbrev pub extract_stream : Stream → Stream
extract_stream s = record s { descriptors = extract_descriptors (s.descriptors) }

-- `memcmp` finds no difference.
unfoldable pub same_bytes : List ℕ → List ℕ → Bool
same_bytes [] [] = true
same_bytes (a ∷ as') (b ∷ bs) = (a == b) && same_bytes as' bs
same_bytes _ _ = false

-- The loop over the descriptors of a stream and the first stream, which have equal numbers of them.
unfoldable pub same_descriptors : List (List ℕ) → List (List ℕ) → Bool
same_descriptors [] _ = true
same_descriptors (d ∷ ds) [] = false
same_descriptors (d ∷ ds) (e ∷ es) =
    (length d == length e) && (same_bytes d e && same_descriptors ds es)

abbrev pub same_stream : Stream → Stream → Bool
same_stream first cur =
    (length (cur.descriptors) == length (first.descriptors))
    && same_descriptors (cur.descriptors) (first.descriptors)

unfoldable pub all_same : Stream → List Stream → Bool
all_same first [] = true
all_same first (s ∷ ss) = same_stream first s && all_same first ss

abbrev pub cleared : Stream → Stream
cleared s = record s { descriptors = [] }

-- The descriptors of the program and the streams behind it.
unfoldable pub try_move : List (List ℕ) → List Stream → List (List ℕ) × List Stream
try_move pmt_descriptors [] = (pmt_descriptors, [])
try_move pmt_descriptors (first ∷ others) =
    if all_same first others
    then (first.descriptors, cleared first ∷ map cleared others)
    else (pmt_descriptors, first ∷ others)

abbrev pub is_none : List (List ℕ) → Bool
is_none [] = true
is_none (d ∷ ds) = false

-- What is written: the descriptors of the program, and the streams.
unfoldable pub ca_layout : Pmt → Bool → List (List ℕ) × List Stream
ca_layout pmt move =
    let ds = extract_descriptors (pmt.descriptors) in
    let ss = map extract_stream (pmt.streams) in
    if is_none ds && move then try_move ds ss else (ds, ss)

-- The loop that adds up lengths, and the byte for the command where there is a descriptor.
unfoldable pub sum_lengths : List (List ℕ) → ℕ
sum_lengths [] = 0
sum_lengths (d ∷ ds) = length d + sum_lengths ds

abbrev pub descriptors_length : List (List ℕ) → ℕ
descriptors_length ds = let n = sum_lengths ds in if n == 0 then 0 else n + 1

unfoldable pub streams_length : List Stream → ℕ
streams_length [] = 0
streams_length (s ∷ ss) = 5 + descriptors_length (s.descriptors) + streams_length ss

abbrev pub calculate_length : List (List ℕ) → List Stream → ℕ
calculate_length ds ss = 6 + descriptors_length ds + streams_length ss

-- The length of the descriptors in 12 bits, the command and the descriptors.
unfoldable pub descriptor_bytes : ℕ → List (List ℕ) → List ℕ
descriptor_bytes ca_pmt_cmd_id ds =
    let n = descriptors_length ds in
    n / 2 ^ 8 % 2 ^ 4 ∷ n % 2 ^ 8 ∷ (if n == 0 then [] else ca_pmt_cmd_id ∷ flatten ds)

unfoldable pub stream_bytes : ℕ → List Stream → List ℕ
stream_bytes ca_pmt_cmd_id [] = []
stream_bytes ca_pmt_cmd_id (s ∷ ss) =
    s.stream_type
    ∷ s.pid / 2 ^ 8 % 2 ^ 5
    ∷ s.pid % 2 ^ 8
    ∷ (descriptor_bytes ca_pmt_cmd_id (s.descriptors) ++ stream_bytes ca_pmt_cmd_id ss)

unfoldable pub pmt_bytes : Pmt → ℕ → ℕ → List (List ℕ) → List Stream → List ℕ
pmt_bytes pmt ca_pmt_list_management ca_pmt_cmd_id ds ss =
    ca_pmt_list_management
    ∷ pmt.program_number / 2 ^ 8 % 2 ^ 8
    ∷ pmt.program_number % 2 ^ 8
    ∷ (pmt.version_number * 2 + pmt.current_next_indicator) % 2 ^ 8
    ∷ (descriptor_bytes ca_pmt_cmd_id ds ++ stream_bytes ca_pmt_cmd_id ss)

-- `en50221_ca_format_pmt`: the bytes that are written to the front of `data`; their number is returned.
unfoldable pub format_pmt : Pmt → ℕ → Bool → ℕ → ℕ → Result (List ℕ)
format_pmt pmt data_length move ca_pmt_list_management ca_pmt_cmd_id =
    let e = ca_layout pmt move in
    if ltb data_length (calculate_length (e.0) (e.1))
    then fail
    else ok (pmt_bytes pmt ca_pmt_list_management ca_pmt_cmd_id (e.0) (e.1))
