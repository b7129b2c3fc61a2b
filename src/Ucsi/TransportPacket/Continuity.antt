-- ===== src/Ucsi/TransportPacket/Continuity.antt =====
-- The continuity counters of a stream: what passes and what is noticed.
use dvb_apps.Common.{
  read-get_or, ℕ, ◌+◌, ◌*◌, ◌%◌, ◌≤◌, ◌<◌, ◌≡◌, refl, subst, ◌≢◌, Bool, true, false, not, ◌&&◌,
  List, [], ◌∷◌, arith, ◌==◌, if◌then◌else◌, bit, length, get_or, Result, ok, fail, ◌>>=◌, Returns,
}
use dvb_apps.Ucsi.TransportPacket.{
  transport_packet_continuity_check, transport_packet_pid, has_payload, continuity_counter,
  transport_null_pid,
}

-- A packet of a stream: its pid is not that of null packets, it has a payload, and its counter.
abbrev pub Carries : List ℕ → ℕ → Type 0
Carries pkt c =
    (4 ≤ length pkt)
    × (get_or pkt 1 0 % 32 * 256 + get_or pkt 2 0 ≢ transport_null_pid)
    × (bit (get_or pkt 3 0) 4 ≡ true)
    × (get_or pkt 3 0 % 16 ≡ c)

-- The three reads of the check, on a packet of a stream.
check_reads :
    (pkt : List ℕ) (c : ℕ)
    → Carries pkt c
    → (transport_packet_pid pkt ≡ ok (get_or pkt 1 0 % 32 * 256 + get_or pkt 2 0))
      × (has_payload pkt ≡ ok true)
      × (continuity_counter pkt ≡ ok c)
unfolding transport_packet_pid has_payload continuity_counter
check_reads pkt c h = ground (arith, read-get_or pkt 1, read-get_or pkt 2, read-get_or pkt 3)

-- What the check comes to on it.
check_valid :
    (pkt : List ℕ) (c cstate : ℕ)
    → Carries pkt c
    → transport_packet_continuity_check pkt false cstate ≡ (
        if not (bit cstate 7)
        then ok (c + 0x80)
        else if (cstate % 16 + 1) % 16 == c
        then ok (c + 0x80)
        else if (cstate % 16 == c) && not (bit cstate 6)
        then ok (c + 0xc0)
        else fail)
unfolding transport_packet_continuity_check
check_valid pkt c cstate h = ground (arith, check_reads pkt c h)

check_next :
    (pkt : List ℕ) (c p : ℕ)
    → Carries pkt c
    → p < 128
    → c ≡ (p % 16 + 1) % 16
    → transport_packet_continuity_check pkt false (p + 0x80) ≡ ok (c + 0x80)
check_next pkt c p h a e = ground (arith, check_valid pkt c (p + 0x80) h)

check_twice :
    (pkt : List ℕ) (c : ℕ)
    → Carries pkt c
    → transport_packet_continuity_check pkt false (c + 0x80) ≡ ok (c + 0xc0)
check_twice pkt c h = ground (arith, check_valid pkt c (c + 0x80) h)

check_first :
    (pkt : List ℕ) (c : ℕ)
    → Carries pkt c
    → transport_packet_continuity_check pkt false 0 ≡ ok (c + 0x80)
check_first pkt c h = ground (arith, check_valid pkt c 0 h)

-- The packets of a stream one after the other, from a state, up to an error.
unfoldable pub check_all : List (List ℕ) → ℕ → Result ℕ
check_all [] cstate = ok cstate
check_all (pkt ∷ pkts) cstate =
    transport_packet_continuity_check pkt false cstate >>= λ next. check_all pkts next

-- The counters of a stream that starts at `c`: each packet is sent once, or twice where `true`.
abbrev pub counters : ℕ → List Bool → List ℕ
counters c [] = []
counters c (true ∷ ts) = c ∷ c ∷ counters ((c + 1) % 16) ts
counters c (false ∷ ts) = c ∷ counters ((c + 1) % 16) ts

abbrev pub CarriesAll : List (List ℕ) → List ℕ → Type 0
CarriesAll [] [] = Unit
CarriesAll [] (c ∷ cs) = ⊥
CarriesAll (p ∷ ps) [] = ⊥
CarriesAll (p ∷ ps) (c ∷ cs) = Carries p c × CarriesAll ps cs

-- From a state that has seen the counter before.
check_all-counters :
    (pkts : List (List ℕ)) (ts : List Bool) (p : ℕ)
    → p < 128
    → CarriesAll pkts (counters ((p % 16 + 1) % 16) ts)
    → Returns (λ s. s % 16 ≡ (p + length ts) % 16) (check_all pkts (p + 0x80))
unfolding check_all
check_all-counters [] [] p h c = omega arith
check_all-counters (k ∷ ks) [] p h c = absurd c
check_all-counters [] (true ∷ ts) p h c = absurd c
check_all-counters [] (false ∷ ts) p h c = absurd c
check_all-counters (k ∷ []) (true ∷ ts) p h c = absurd (c.1)
check_all-counters (k ∷ k' ∷ ks) (true ∷ ts) p h c =
    let q = (p % 16 + 1) % 16 in
    let e : (q + 1) % 16 ≡ ((q + 64) % 16 + 1) % 16 = omega arith in
    let r =
      check_all-counters ks ts (q + 64) (omega arith)
        (subst (λ n. CarriesAll ks (counters n ts)) e (c.1.1)) in
    ground (arith, r, check_next k q p (c.0) h refl, check_twice k' q (c.1.0))
check_all-counters (k ∷ ks) (false ∷ ts) p h c =
    let q = (p % 16 + 1) % 16 in
    let e : (q + 1) % 16 ≡ (q % 16 + 1) % 16 = omega arith in
    let r =
      check_all-counters ks ts q (omega arith)
        (subst (λ n. CarriesAll ks (counters n ts)) e (c.1)) in
    ground (arith, r, check_next k q p (c.0) h refl)

-- From the initial state 0, a stream whose counters go up by one modulo 16, each packet sent once or
-- twice, is accepted whole, and the state at the end holds the counter of its last packet.
pub check_all-stream :
    (pkts : List (List ℕ)) (c : ℕ) (ts : List Bool)
    → c < 16
    → ts ≢ []
    → CarriesAll pkts (counters c ts)
    → Returns (λ s. s % 16 ≡ (c + length ts + 15) % 16) (check_all pkts 0)
unfolding check_all
check_all-stream pkts c [] h ne s = absurd (ne refl)
check_all-stream [] c (true ∷ ts) h ne s = absurd s
check_all-stream [] c (false ∷ ts) h ne s = absurd s
check_all-stream (k ∷ []) c (true ∷ ts) h ne s = absurd (s.1)
check_all-stream (k ∷ k' ∷ ks) c (true ∷ ts) h ne s =
    let e : (c + 1) % 16 ≡ ((c + 64) % 16 + 1) % 16 = omega arith in
    let r =
      check_all-counters ks ts (c + 64) (omega arith)
        (subst (λ n. CarriesAll ks (counters n ts)) e (s.1.1)) in
    ground (arith, r, check_first k c (s.0), check_twice k' c (s.1.0))
check_all-stream (k ∷ ks) c (false ∷ ts) h ne s =
    let e : (c + 1) % 16 ≡ (c % 16 + 1) % 16 = omega arith in
    let r =
      check_all-counters ks ts c (omega arith)
        (subst (λ n. CarriesAll ks (counters n ts)) e (s.1)) in
    ground (arith, r, check_first k c (s.0))

-- In a valid state, a packet that comes where between 1 and 14 packets of the stream are missing is
-- an error, as long as no discontinuity is announced.
pub transport_packet_continuity_check_loss :
    (pkt : List ℕ) (cstate missing : ℕ)
    → bit cstate 7 ≡ true
    → 1 ≤ missing
    → missing ≤ 14
    → Carries pkt ((cstate % 16 + 1 + missing) % 16)
    → transport_packet_continuity_check pkt false cstate ≡ fail
transport_packet_continuity_check_loss pkt cstate missing v lo hi h =
    ground (arith, check_valid pkt _ cstate h)
