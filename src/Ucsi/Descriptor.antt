-- ===== src/Ucsi/Descriptor.antt =====
-- lib/libucsi/descriptor.h: lists of descriptors, each a tag, a length and that many bytes.
--
-- Memory is a list of bytes, and a pointer is an index of it; a read outside is a fault.
pub mod Verify
pub mod Walk
use dvb_apps.Common.{
  ℕ, zero, suc, ◌+◌, true, false, Option, none, some, List, [], ◌∷◌, ltb, ◌==◌, leb, if◌then◌else◌,
  Result, ok, fail, fault, ◌>>=◌, read, length, take, drop,
}

-- The loop of `verify_descriptors`. Every round moves `pos` on by two bytes or more, so that a fuel
-- above `len` is enough; running out of it counts as a fault.
unfoldable pub verify_loop : ℕ → List ℕ → ℕ → ℕ → ℕ → Result (Unit {0})
verify_loop zero mem buf len pos = fault
verify_loop (suc fuel) mem buf len pos = elim (ltb pos len) [
  | false ↦ if pos == len then ok tt else fail
  | true ↦
      if ltb len (pos + 2)
      then fail
      else (read mem (buf + (pos + 1)) >>= λ n. verify_loop fuel mem buf len (pos + (2 + n)))
]

-- `verify_descriptors(mem + buf, len)`: `ok` is 0 and `fail` is -1.
unfoldable pub verify_descriptors : List ℕ → ℕ → ℕ → Result (Unit {0})
verify_descriptors mem buf len = verify_loop (suc len) mem buf len 0

-- `next_descriptor(mem + buf, len, mem + pos)` for a `pos` that is not null.
unfoldable pub next_descriptor : List ℕ → ℕ → ℕ → ℕ → Result (Option ℕ)
next_descriptor mem buf len pos = read mem (pos + 1) >>= λ n.
    let next = pos + 2 + n in ok (if leb (buf + len) next then none else some next)

-- A descriptor: its tag and its bytes.
abbrev pub Descriptor : Type 0
Descriptor = ℕ × List ℕ

-- What a user reads at a `struct descriptor *`: the tag, and the bytes of `unknown_descriptor_data`,
-- `unknown_descriptor_data_size` of them.
unfoldable pub descriptor_at : List ℕ → ℕ → Result Descriptor
descriptor_at mem pos = do
  tag ← read mem pos
  size ← read mem (pos + 1)
  if ltb (length mem) (pos + 2 + size) then fault else ok (tag, take size (drop (pos + 2) mem))

-- The body of a `…_descriptors_for_each` loop, from a pointer that is not null.
unfoldable pub walk : ℕ → List ℕ → ℕ → ℕ → ℕ → Result (List Descriptor)
walk zero mem buf len pos = fault
walk (suc fuel) mem buf len pos = do
  d ← descriptor_at mem pos
  next ← next_descriptor mem buf len pos
  elim next [ none ↦ ok (d ∷ []) | some q ↦ (walk fuel mem buf len q >>= λ ds. ok (d ∷ ds)) ]

-- The loop, which starts with `…_descriptors_first`.
unfoldable pub descriptors_for_each : List ℕ → ℕ → ℕ → Result (List Descriptor)
descriptors_for_each mem buf len = if len == 0 then ok [] else walk len mem buf len buf
