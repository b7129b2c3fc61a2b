-- ===== src/Ucsi/SectionBuf/Payload.antt =====
-- `section_buf_add_transport_payload`: bounds, the pointer field and the errors.
use dvb_apps.Common.{
  ℕ, ◌+◌, ◌≤◌, ◌<◌, ◌≡◌, refl, ◌∙◌, ◌≢◌, true, false, List, [], ◌∷◌, ◌++◌, append-nil, arith,
  length, length-append, take-length_append, drop-length_append, drop_cons, ok,
}
use dvb_apps.Ucsi.SectionBuf.{
  SectionBuf, Added, pending, complete, section_pad, finished, section_buf_add, add_header,
  check_length, accumulate, skip_padding, section_buf_add_transport_payload, section_buf_remaining,
  add_pdu_start, add_final, just_accumulate, section_buf_reset,
}
use dvb_apps.Ucsi.SectionBuf.Invariant.{IsValid}
use dvb_apps.Ucsi.SectionBuf.Reassembly.{IsSection, IsFresh, section_buf_add_whole}
use dvb_apps.Ucsi.SectionBuf.Fragments.{section_buf_add-append}

abbrev pub Bounded : List ℕ → Added → Type 0
Bounded payload r = IsValid r.section × (r.used ≤ length payload)

keeps_wait :
    (s : SectionBuf) (frag : List ℕ) → (section_buf_add s frag).section.wait_pdu ≡ s.wait_pdu
unfolding section_buf_add add_header check_length accumulate
keeps_wait s frag = ground arith

-- Nothing is being put together: the pointer field leads over the end of an older section to the
-- next one, which is taken whole, and the struct no longer waits for a PDU start.
pub payload_next_section :
    (max : ℕ) (s : SectionBuf) (old sec rest : List ℕ)
    → IsFresh max s
    → IsSection max sec
    → (r : Added) × (section_buf_add_transport_payload s (length old ∷ (old ++ (sec ++ rest))) true
        ≡ ok r)
      × (r.status ≡ complete)
      × (r.used ≡ 1 + length old + length sec)
      × (r.section.bytes ≡ sec)
      × (r.section.wait_pdu ≡ false)
unfolding section_buf_add_transport_payload add_pdu_start just_accumulate
payload_next_section max s old sec rest f v =
    let payload = length old ∷ (old ++ (sec ++ rest)) in
    let t = record s { wait_pdu = false } in
    let added =
      section_buf_add_whole max t sec rest
        (record {
          limit = f.limit;
          no_bytes = f.no_bytes;
          no_header = f.no_header;
          empty = f.empty;
        })
        v in
    let from =
      drop_cons (length old) (length old) (old ++ (sec ++ rest))
      ∙ drop-length_append old (sec ++ rest) in
    (
      just_accumulate t payload (1 + length old),
      ground (arith, length-append old (sec ++ rest)),
      ground (arith, from, added),
      ground (arith, from, added),
      ground (arith, from, added),
      ground (arith, from, added, keeps_wait t (sec ++ rest)),
    )

complete-finished :
    (s : SectionBuf) (frag : List ℕ)
    → (section_buf_add s frag).status ≡ complete
    → finished (section_buf_add s frag).section ≡ true
unfolding section_buf_add add_header check_length accumulate
complete-finished s frag e = ground arith

pending-finished :
    (s : SectionBuf) (frag : List ℕ)
    → (section_buf_add s frag).status ≡ pending
    → finished (section_buf_add s frag).section ≡ false
unfolding section_buf_add add_header check_length accumulate
pending-finished s frag e = ground arith

add_header_count :
    (s : SectionBuf) (frag : List ℕ) (used : ℕ)
    → s.header ≡ false
    → 0 < length frag
    → 0 < (add_header s frag used).section.count
unfolding add_header check_length accumulate
add_header_count s frag used h l = ground arith

skip_padding_none : (a : ℕ) (xs : List ℕ) → a ≢ section_pad → skip_padding (a ∷ xs) ≡ (0, a ∷ xs)
unfolding skip_padding
skip_padding_none a xs h = ground arith

started_count :
    (max : ℕ) (s : SectionBuf) (a : ℕ) (frag : List ℕ)
    → IsFresh max s
    → a ≢ section_pad
    → 0 < (section_buf_add s (a ∷ frag)).section.count
unfolding section_buf_add
started_count max s a frag f h =
    ground (arith, skip_padding_none a frag h, add_header_count s (a ∷ frag) 0)

add_final_complete :
    (s : SectionBuf) (ys rest : List ℕ)
    → (section_buf_add s ys).status ≡ complete
    → (section_buf_add s ys).used ≡ length ys
    → let r = section_buf_add s ys in
      add_final s (length ys ∷ (ys ++ rest)) (length ys)
      ≡ record { used = 1 + length ys; status = complete; section = r.section }
unfolding add_final section_buf_remaining
add_final_complete s ys rest e u =
    ground (arith, take-length_append ys rest, complete-finished s ys e)

-- A section is half there, and the pointer field counts its other half: it is completed, and the
-- bytes of the next section are left for another call.
pub payload_completes :
    (max : ℕ) (s : SectionBuf) (a : ℕ) (xs ys rest : List ℕ)
    → IsFresh max s
    → IsValid s
    → s.wait_pdu ≡ false
    → IsSection max (a ∷ (xs ++ ys))
    → (section_buf_add s (a ∷ xs)).status ≡ pending
    → let s1 = (section_buf_add s (a ∷ xs)).section in
      (r : Added) × (section_buf_add_transport_payload s1 (length ys ∷ (ys ++ rest)) true ≡ ok r)
      × (r.status ≡ complete)
      × (r.used ≡ 1 + length ys)
      × (r.section.bytes ≡ a ∷ (xs ++ ys))
unfolding section_buf_add_transport_payload add_pdu_start
payload_completes max s a xs ys rest f v wait w e =
    let s1 = (section_buf_add s (a ∷ xs)).section in
    let added = section_buf_add_whole max s (a ∷ (xs ++ ys)) [] f w in
    let facts : ((section_buf_add s1 ys).status ≡ complete)
        × ((section_buf_add s1 ys).used ≡ length ys)
        × ((section_buf_add s1 ys).section.bytes ≡ a ∷ (xs ++ ys)) =
      ground (
        arith,
        added,
        append-nil (xs ++ ys),
        length-append xs ys,
        section_buf_add-append s (a ∷ xs) ys v e,
      ) in
    (
      record { used = 1 + length ys; status = complete; section = (section_buf_add s1 ys).section },
      ground (
        arith,
        facts,
        pending-finished s (a ∷ xs) e,
        started_count max s a xs f w.not_padding,
        keeps_wait s (a ∷ xs),
        length-append ys rest,
        add_final_complete s1 ys rest,
      ),
      refl,
      refl,
      facts.2,
    )

-- `section_buf_reset` empties the struct, but keeps its `wait_pdu`: one that was not waiting for a
-- PDU start still does not, and takes the next payload for the start of a section.
pub section_buf_reset_lem :
    (s : SectionBuf) (payload : List ℕ)
    → IsValid s
    → s.wait_pdu ≡ false
    → IsFresh s.max (section_buf_reset s)
      × ((section_buf_reset s).wait_pdu ≡ false)
      × (section_buf_add_transport_payload (section_buf_reset s) payload false
          ≡ ok (just_accumulate (section_buf_reset s) payload 0))
unfolding section_buf_reset section_buf_add_transport_payload
section_buf_reset_lem s payload v h = ground arith
