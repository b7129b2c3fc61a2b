-- ===== src/Ucsi/Codec/Entries.antt =====
-- What the loop over the entries of a table accepts.
use dvb_apps.Common.{
  ℕ, ◌+◌, ◌-◌, ◌≤◌, ◌≡◌, sym, ap, ap₂, ◌∙◌, ◌≢◌, List, [], ◌∷◌, ◌++◌, arith, length, take, drop,
  length-append, take-length_append, drop-length_append, take-add, drop-take, take-take, ok, fault,
}
use dvb_apps.Ucsi.Descriptor.{Descriptor, verify_descriptors}
use dvb_apps.Ucsi.Descriptor.Verify.{
  encode, region, length-region, get_or-drop, get_or-take, drop-drop, verify_descriptors_iff,
}
use dvb_apps.Ucsi.Codec.{check_descriptors}
use dvb_apps.Ucsi.Codec.Memory.{stream12}

-- An entry: the bytes of its struct as they stand in the stream, and its descriptors.
pub record Entry : Type 0 where
  pub head : List ℕ
  pub descriptors : List Descriptor

-- The struct has `k` bytes, and its length field at `o` counts the bytes of the descriptors.
pub record Fits (k o : ℕ) (e : Entry) : Type 0 where
  pub size : length e.head ≡ k
  pub counts : stream12 e.head o ≡ length (encode e.descriptors)

unfoldable pub encode_entries : List Entry → List ℕ
encode_entries [] = []
encode_entries (e ∷ es) = e.head ++ (encode e.descriptors ++ encode_entries es)

-- The descriptors at `pos` are checked against what the memory holds there.
pub check_descriptors-ne-fault :
    (mem : List ℕ) (len pos n : ℕ) → len ≤ length mem → check_descriptors mem len pos n ≢ fault
unfolding check_descriptors
check_descriptors-ne-fault mem len pos n h = ground (arith, verify_descriptors_iff mem pos n)

pub check_descriptors_ok :
    (mem : List ℕ) (len pos n next : ℕ)
    → len ≤ length mem
    → check_descriptors mem len pos n ≡ ok next
    → (next ≡ pos + n) × (pos + n ≤ len) × ((ds : List Descriptor) × (region mem pos n ≡ encode ds))
unfolding check_descriptors
check_descriptors_ok mem len pos n next h e =
    let parts : (next ≡ pos + n) × (pos + n ≤ len) × (verify_descriptors mem pos n ≡ ok tt) =
      ground arith in
    (parts.0, parts.1, (verify_descriptors_iff mem pos n (omega arith)).1.0 parts.2)

pub check_descriptors_complete :
    (mem : List ℕ) (len pos n : ℕ) (ds : List Descriptor)
    → len ≤ length mem
    → pos + n ≤ len
    → region mem pos n ≡ encode ds
    → check_descriptors mem len pos n ≡ ok (pos + n)
unfolding check_descriptors
check_descriptors_complete mem len pos n ds h le e =
    let v = (verify_descriptors_iff mem pos n (omega arith)).1.1 (ds, e) in ground (arith, v)

-- A region in two parts.
pub region-add :
    (mem : List ℕ) (p a b : ℕ) → region mem p (a + b) ≡ region mem p a ++ region mem (p + a) b
region-add mem p a b =
    take-add a b (drop p mem) ∙ ap (λ l. region mem p a ++ take b l) (drop-drop p a mem)

pub stream12-region :
    (mem : List ℕ) (pos k o : ℕ)
    → o + 2 ≤ k
    → stream12 (region mem pos k) o ≡ stream12 mem (pos + o)
stream12-region mem pos k o h = ground (
  arith,
  get_or-take k o (drop pos mem),
  get_or-take k (o + 1) (drop pos mem),
  get_or-drop pos o mem,
  get_or-drop pos (o + 1) mem,
)

pub region-take : (mem : List ℕ) (p a c : ℕ) → a ≤ c → region mem p a ≡ take a (region mem p c)
region-take mem p a c h = sym (take-take a c (drop p mem) h)

pub region-drop : (mem : List ℕ) (p a c : ℕ) → region mem (p + a) (c - a) ≡ drop a (region mem p c)
region-drop mem p a c =
    sym (drop-take a c (drop p mem) ∙ ap (λ l. take (c - a) l) (drop-drop p a mem))

pub region-same : (m mem : List ℕ) (q n : ℕ) → drop q m ≡ drop q mem → region m q n ≡ region mem q n
region-same m mem q n e = ap (λ l. take n l) e

-- An entry and the entries behind it, put together.
pub entries_cons :
    (mem : List ℕ) (k len pos n : ℕ) (ds : List Descriptor) (es : List Entry)
    → pos + k + n ≤ len
    → region mem (pos + k) n ≡ encode ds
    → region mem (pos + k + n) (len - (pos + k + n)) ≡ encode_entries es
    → region mem pos (len - pos)
      ≡ encode_entries (record { head = region mem pos k; descriptors = ds } ∷ es)
unfolding encode_entries
entries_cons mem k len pos n ds es le d r =
    let a : len - pos ≡ k + (n + (len - (pos + k + n))) = omega arith in
    ap (λ c. region mem pos c) a
    ∙ region-add mem pos k (n + (len - (pos + k + n)))
    ∙ ap (λ l. region mem pos k ++ l)
        (region-add mem (pos + k) n (len - (pos + k + n)) ∙ ap₂ (λ x y. x ++ y) d r)

-- The same taken apart.
pub entries_first :
    (mem : List ℕ) (k o len pos : ℕ) (e : Entry) (es : List Entry)
    → o + 2 ≤ k
    → len ≤ length mem
    → pos ≤ len
    → Fits k o e
    → region mem pos (len - pos) ≡ encode_entries (e ∷ es)
    → let n = stream12 mem (pos + o) in
      (pos + k + n ≤ len)
      × (region mem (pos + k) n ≡ encode e.descriptors)
      × (region mem (pos + k + n) (len - (pos + k + n)) ≡ encode_entries es)
unfolding encode_entries
entries_first mem k o len pos e es room h le f q =
    let hd = e.head in
    let ds = encode e.descriptors in
    let rest = encode_entries es in
    let n = stream12 mem (pos + o) in
    let size : len - pos ≡ k + (length ds + length rest) = omega (
      arith,
      f.size,
      length-region mem pos (len - pos) (omega arith),
      ap (λ l. length l) q,
      length-append hd (ds ++ rest),
      length-append ds rest,
    ) in
    let front : region mem pos k ≡ hd =
      region-take mem pos k (len - pos) (omega arith)
      ∙ ap₂ (λ a l. take a l) (sym f.size) q
      ∙ take-length_append hd (ds ++ rest) in
    let count : n ≡ length ds =
      sym (stream12-region mem pos k o room) ∙ ap (λ l. stream12 l o) front ∙ f.counts in
    let behind : region mem (pos + k) (len - pos - k) ≡ ds ++ rest =
      region-drop mem pos k (len - pos)
      ∙ ap₂ (λ a l. drop a l) (sym f.size) q
      ∙ drop-length_append hd (ds ++ rest) in
    (
      omega arith,
      region-take mem (pos + k) n (len - pos - k) (omega arith)
          ∙ ap₂ (λ a l. take a l) count behind
          ∙ take-length_append ds rest,
      ap (λ c. region mem (pos + k + n) c) (omega arith)
          ∙ region-drop mem (pos + k) n (len - pos - k)
          ∙ ap₂ (λ a l. drop a l) count behind
          ∙ drop-length_append ds rest,
    )

-- An entry whose descriptors were checked, and the entries `es` behind it, in the memory `mem` before
-- the swaps of the entry, which left `m`.
pub entry_found :
    (mem m : List ℕ) (k o len pos next : ℕ) (es : List Entry)
    → o + 2 ≤ k
    → len ≤ length mem
    → length m ≡ length mem
    → pos + k ≤ len
    → ((q : ℕ) → pos + k ≤ q → drop q m ≡ drop q mem)
    → check_descriptors m len (pos + k) (stream12 mem (pos + o)) ≡ ok next
    → region m next (len - next) ≡ encode_entries es
    → (e : Entry) × Fits k o e × (region mem pos (len - pos) ≡ encode_entries (e ∷ es))
entry_found mem m k o len pos next es room h size le same c r =
    let n = stream12 mem (pos + o) in
    let part = check_descriptors_ok m len (pos + k) n next (omega arith) c in
    let ds = part.2.0 in
    let d : region mem (pos + k) n ≡ encode ds =
      sym (region-same m mem (pos + k) n (same (pos + k) (omega arith))) ∙ part.2.1 in
    let tail : region mem (pos + k + n) (len - (pos + k + n)) ≡ encode_entries es =
      sym (region-same m mem (pos + k + n) _ (same (pos + k + n) (omega arith)))
      ∙ ap (λ q. region m q (len - q)) (sym part.0)
      ∙ r in
    (
      record { head = region mem pos k; descriptors = ds },
      record {
        size = length-region mem pos k (omega arith);
        counts =
            stream12-region mem pos k o room
            ∙ sym (length-region mem (pos + k) n (omega arith))
            ∙ ap (λ l. length l) d;
      },
      entries_cons mem k len pos n ds es (omega arith) d tail,
    )

-- The other way round: an entry that is there passes the check.
pub entry_checked :
    (mem m : List ℕ) (k o len pos : ℕ) (e : Entry) (es : List Entry)
    → o + 2 ≤ k
    → len ≤ length mem
    → length m ≡ length mem
    → pos ≤ len
    → ((q : ℕ) → pos + k ≤ q → drop q m ≡ drop q mem)
    → Fits k o e
    → region mem pos (len - pos) ≡ encode_entries (e ∷ es)
    → let n = stream12 mem (pos + o) in
      (pos + k + n ≤ len)
      × (check_descriptors m len (pos + k) n ≡ ok (pos + k + n))
      × (region m (pos + k + n) (len - (pos + k + n)) ≡ encode_entries es)
entry_checked mem m k o len pos e es room h size le same f q =
    let n = stream12 mem (pos + o) in
    let first = entries_first mem k o len pos e es room h le f q in
    (
      first.0,
      check_descriptors_complete m len (pos + k) n e.descriptors (omega arith) first.0
          (region-same m mem (pos + k) n (same (pos + k) (omega arith)) ∙ first.1),
      region-same m mem (pos + k + n) _ (same (pos + k + n) (omega arith)) ∙ first.2,
    )
