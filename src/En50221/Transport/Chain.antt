-- ===== src/En50221/Transport/Chain.antt =====
-- Data that the module sends in several messages.
use dvb_apps.Common.{
  get_elem?-set, set-set, ℕ, zero, suc, ◌+◌, ◌^◌, ◌≤◌, ◌<◌, ◌≡◌, sym, ap, ap₂, ◌∙◌, ◌≢◌, inl, inr,
  Bool, true, false, not, ◌&&◌, ◌==◌, if◌then◌else◌, length-append, none, some, List, [], ◌∷◌, ◌++◌,
  append_assoc, arith, Option-cases, Bool-cases, length, get_elem?, set, All, ok,
}
use dvb_apps.En50221.Transport.{
  active, Timeval, Connection, outofmemory, Event, received, Slot, Done, failed, with_connection,
  answered, t_data_last, t_data_more,
}
use dvb_apps.En50221.Transport.Handlers.{
  so_far, is_null, realloc, with_room, handle_data_more, handle_data_last,
}
use dvb_apps.En50221.Transport.Receive.{Tpdu, handle_tpdu, process_data}
use mathlib.Core.List.{flatten}
use dvb_apps.En50221.Transport.Frame.{frame, parse_tpdu-frame}

-- One message of the loop whose handler succeeds.
process_data-frame :
    (fuel : ℕ) (device : List Event → Bool) (now : Timeval) (tag c : ℕ) (body rest : List ℕ)
    (k : Connection) (s s' : Slot)
    → length body + 1 < 2 ^ 16
    → get_elem? (s.connections) c ≡ some k
    → handle_tpdu device now (record { tag = tag; connection_id = c; body = body; rest = rest }) k s
      ≡ (true, s')
    → process_data (suc fuel) device now (frame tag c body ++ rest) s
      ≡ process_data fuel device now rest s'
unfolding process_data
process_data-frame fuel device now tag c body rest k s s' h ek eh =
    let p : Tpdu = record { tag = tag; connection_id = c; body = body; rest = rest } in
    let ep = parse_tpdu-frame tag c body rest h in ground (arith, ep, ek, eh)

-- There is memory for whatever is asked for.
abbrev pub HasMemory : (List Event → Bool) → Type 0
HasMemory device =
    (events : List Event) (c n : ℕ) → device (events ++ (Event.memory c n ∷ [])) ≡ true

with_room-resized :
    (device : List Event → Bool) (c : ℕ) (k : Connection) (body : List ℕ) (s : Slot) (done : Done)
    → HasMemory device
    → k.chain_freed ≡ false
    → length (so_far (k.chain_buffer)) + length body ≢ 0
    → length (so_far (k.chain_buffer)) + length body < 2 ^ 31
    → with_room device c k body s done ≡ done
unfolding with_room realloc
with_room-resized device c k body s done m f ne l =
    let n = length (so_far (k.chain_buffer)) + length body in ground (arith, m (s.events) c n)

handle_more :
    (device : List Event → Bool) (now : Timeval) (c : ℕ) (body rest : List ℕ) (k : Connection)
    (s : Slot)
    → HasMemory device
    → k.state ≡ active
    → k.chain_freed ≡ false
    → length body ≢ 0
    → length (so_far (k.chain_buffer)) + length body < 2 ^ 31
    → handle_tpdu device now
        (record { tag = t_data_more; connection_id = c; body = body; rest = rest })
        k
        s
      ≡ (
        true,
        with_connection c
            (record (answered k) { chain_buffer = some (so_far (k.chain_buffer) ++ body) })
            s,
      )
unfolding handle_tpdu handle_data_more
handle_more device now c body rest k s m e f ne l =
    let whole = so_far (k.chain_buffer) ++ body in
    let done : Done =
      (true, with_connection c (record (answered k) { chain_buffer = some whole }) s) in
    let r = with_room-resized device c k body s done m f (omega (arith, ne)) l in ground arith

abbrev pub with_received : ℕ → Connection → List ℕ → Slot → Slot
with_received c k whole s = record s {
  connections = set (s.connections) c (record (answered k) { chain_buffer = none });
  events = s.events ++ (received c whole ∷ []);
}

handle_last :
    (device : List Event → Bool) (now : Timeval) (c : ℕ) (body rest : List ℕ) (k : Connection)
    (s : Slot)
    → HasMemory device
    → k.state ≡ active
    → k.chain_freed ≡ false
    → length body ≢ 0
    → length (so_far (k.chain_buffer)) + length body < 2 ^ 31
    → handle_tpdu device now
        (record { tag = t_data_last; connection_id = c; body = body; rest = rest })
        k
        s
      ≡ (true, with_received c k (so_far (k.chain_buffer) ++ body) s)
unfolding handle_tpdu handle_data_last
handle_last device now c body rest k s m e f ne l =
    let done : Done = (true, with_received c k (so_far (k.chain_buffer) ++ body) s) in
    let r = with_room-resized device c k body s done m f (omega (arith, ne)) l in
    elim (Option-cases (k.chain_buffer)) [ inl n ↦ ground arith | inr (b, n) ↦ ground arith ]

-- The messages of a chain: all parts but the last, and the last.
abbrev pub chain : ℕ → List (List ℕ) → List ℕ → List ℕ
chain c [] body = frame t_data_last c body ++ []
chain c (p ∷ ps) body = frame t_data_more c p ++ chain c ps body

-- A body that is not empty and goes into one message.
abbrev pub IsBody : List ℕ → Type 0
IsBody body = (length body ≢ 0) × (length body + 1 < 2 ^ 16)

chain-received :
    (device : List Event → Bool) (now : Timeval) (fuel c : ℕ) (parts : List (List ℕ))
    (body : List ℕ) (k : Connection) (s : Slot)
    → HasMemory device
    → length parts + 2 ≤ fuel
    → All IsBody parts
    → IsBody body
    → length (so_far (k.chain_buffer)) + length (flatten parts ++ body) < 2 ^ 31
    → (k.state ≡ active) × (k.chain_freed ≡ false)
    → get_elem? (s.connections) c ≡ some k
    → process_data fuel device now (chain c parts body) s
      ≡ ok (true, with_received c k (so_far (k.chain_buffer) ++ (flatten parts ++ body)) s)
unfolding process_data flatten
chain-received device now zero c parts body k s m f hp hb l e ek = absurd (omega arith)
chain-received device now (suc zero) c parts body k s m f hp hb l e ek = absurd (omega arith)
chain-received device now (suc (suc fuel)) c [] body k s m f hp hb l e ek =
    process_data-frame (suc fuel) device now t_data_last c body [] k s _ (hb.1) ek
      (handle_last device now c body [] k s m (e.0) (e.1) (hb.0) l)
chain-received device now (suc (suc fuel)) c (p ∷ ps) body k s m f hp hb l e ek =
    let old = so_far (k.chain_buffer) in
    let k' : Connection = record (answered k) { chain_buffer = some (old ++ p) } in
    let s' = with_connection c k' s in
    let whole = flatten ps ++ body in
    let e' : (old ++ p) ++ whole ≡ old ++ (flatten (p ∷ ps) ++ body) =
      append_assoc old p whole ∙ ap (λ r. old ++ r) (sym (append_assoc p (flatten ps) body)) in
    let n : length (flatten (p ∷ ps) ++ body) ≡ length p + length whole =
      ap length (append_assoc p (flatten ps) body) ∙ length-append p whole in
    let last : Connection = record (answered k) { chain_buffer = none } in
    process_data-frame (suc fuel) device now t_data_more c p (chain c ps body) k s s' (hp.0.1) ek (
      handle_more device now c p (chain c ps body) k s m (e.0) (e.1) (hp.0.0) (omega (arith, n, l)))
    ∙ chain-received device now (suc fuel) c ps body k' s' m (omega arith) (hp.1) hb
        (omega (arith, n, l, length-append old p)) e (get_elem?-set (s.connections) c k k' ek)
    ∙ ap₂
        (λ ks w. ok (true, record s { connections = ks; events = s.events ++ (received c w ∷ []) }))
        (set-set (s.connections) c k' last) e'

-- Data for an active connection with nothing collected and no freed memory, cut into messages
-- anywhere, goes up in one piece, if there is memory for it and it is shorter than 2 ^ 31: after
-- `T_DATA_MORE` messages and a `T_DATA_LAST`, none of them empty, the one event is the
-- concatenation of their bodies, no answer is awaited and nothing is left collected.
pub process_data-chain :
    (device : List Event → Bool) (now : Timeval) (fuel c : ℕ) (parts : List (List ℕ))
    (body : List ℕ) (k : Connection) (s : Slot)
    → HasMemory device
    → length parts + 2 ≤ fuel
    → All IsBody parts
    → IsBody body
    → length (flatten parts ++ body) < 2 ^ 31
    → (k.state ≡ active) × (k.chain_freed ≡ false)
    → k.chain_buffer ≡ none
    → get_elem? (s.connections) c ≡ some k
    → process_data fuel device now (chain c parts body) s
      ≡ ok (true, with_received c k (flatten parts ++ body) s)
process_data-chain device now fuel c parts body k s m f hp hb l e n ek =
    let z : length (so_far (k.chain_buffer)) ≡ 0 = ap (λ o. length (so_far o)) n in
    chain-received device now fuel c parts body k s m f hp hb (omega (arith, z, l)) e ek
    ∙ ap (λ o. ok (true, with_received c k (so_far o ++ (flatten parts ++ body)) s)) n

-- What an empty last message of a chain leads to.
abbrev pub emptied : ℕ → Connection → Slot → Done
emptied c k s =
    if not (is_null (k.chain_buffer)) && (length (so_far (k.chain_buffer)) == 0)
    then failed outofmemory (with_connection c (record (answered k) { chain_freed = true }) s)
    else (true, with_connection c (record (answered k) { chain_buffer = none }) s)

empty_last :
    (device : List Event → Bool) (now : Timeval) (c : ℕ) (k : Connection) (s : Slot)
    → HasMemory device
    → length (so_far (k.chain_buffer)) < 2 ^ 31
    → k.state ≡ active
    → k.chain_freed ≡ false
    → handle_tpdu device now
        (record { tag = t_data_last; connection_id = c; body = []; rest = [] })
        k
        s
      ≡ emptied c k s
unfolding handle_tpdu handle_data_last with_room realloc
empty_last device now c k s m l e f =
    let h = m (s.events) c (length (so_far (k.chain_buffer)) + 0) in
    elim (Option-cases (k.chain_buffer)) [ inl n ↦ ground arith | inr (b, n) ↦ ground (arith, h) ]

-- The loop over a single message.
process_data-last :
    (device : List Event → Bool) (now : Timeval) (fuel c : ℕ) (k : Connection) (s : Slot) (r : Done)
    → get_elem? (s.connections) c ≡ some k
    → handle_tpdu device now
        (record { tag = t_data_last; connection_id = c; body = []; rest = [] })
        k
        s
      ≡ r
    → process_data (suc (suc fuel)) device now (chain c [] []) s ≡ ok r
unfolding process_data
process_data-last device now fuel c k s r ek eh =
    let ep = parse_tpdu-frame t_data_last c [] [] (omega arith) in
    elim (Bool-cases (r.0)) [
      | inl b ↦ ground (arith, ep, ek, eh)
      | inr b ↦ ground (arith, ep, ek, eh)
    ]

-- On an active connection with no freed memory: if the last message of a chain is empty and there
-- is memory for what was collected, of less than 2 ^ 31 bytes, then that is dropped: the chain is
-- at its end and nothing goes up. If only empty messages have come before it, it is an error, and
-- the connection is left with a pointer to memory that was freed.
pub process_data-chain_lost :
    (device : List Event → Bool) (now : Timeval) (fuel c : ℕ) (k : Connection) (s : Slot)
    → HasMemory device
    → 2 ≤ fuel
    → length (so_far (k.chain_buffer)) < 2 ^ 31
    → (k.state ≡ active) × (k.chain_freed ≡ false)
    → get_elem? (s.connections) c ≡ some k
    → process_data fuel device now (chain c [] []) s ≡ ok (emptied c k s)
process_data-chain_lost device now zero c k s m f l e ek = absurd (omega arith)
process_data-chain_lost device now (suc zero) c k s m f l e ek = absurd (omega arith)
process_data-chain_lost device now (suc (suc fuel)) c k s m f l e ek =
    process_data-last device now fuel c k s (emptied c k s) ek
      (empty_last device now c k s m l (e.0) (e.1))
