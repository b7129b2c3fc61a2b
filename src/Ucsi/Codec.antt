-- ===== src/Ucsi/Codec.antt =====
-- lib/libucsi: the section codecs, which check a table and swap its fields to host order in place.
-- endianops.h, the length accessors of section.h, and mpeg/{pat,pmt,cat}_section.c,
-- dvb/{nit,sdt,eit,bat,tot,rst,tdt,sit}_section.c on a little-endian host.
--
-- The memory starts at the section; `size_t` has 64 bits. A loop takes fuel, and running out of it
-- counts as a fault.
pub mod Memory
pub mod Section
pub mod Entries
pub mod EntryLoop
pub mod Front
pub mod Tables
pub mod Listed
pub mod Fixed
mod Runs
mod SectionRuns
use dvb_apps.Common.{
  ℕ, zero, suc, ◌+◌, ◌-◌, ◌*◌, ◌%◌, ◌^◌, true, false, List, [], ◌∷◌, ltb, leb, ◌==◌, if◌then◌else◌,
  not, set, length, Result, ok, fail, fault, ◌>>=◌, ◌>>◌, guard, read,
}
use dvb_apps.Ucsi.Descriptor.{verify_descriptors}

-- `bswap16(mem + pos)`
unfoldable pub bswap16 : List ℕ → ℕ → Result (List ℕ)
bswap16 mem pos = do a ← read mem pos; b ← read mem (pos + 1); ok (set (set mem pos b) (pos + 1) a)

-- The low 12 bits of the 16 bit word at `pos`, in host order: a `:12` length field.
unfoldable pub field12 : List ℕ → ℕ → Result ℕ
field12 mem pos = do a ← read mem pos; b ← read mem (pos + 1); ok ((a + 256 * b) % 4096)

-- `section_length`
unfoldable pub section_length : List ℕ → Result ℕ
section_length mem = field12 mem 1 >>= λ n. ok (n + 3)

-- `section_ext_length`: the sum is taken in `size_t`, so a length of 0 wraps.
unfoldable pub section_ext_length : List ℕ → Result ℕ
section_ext_length mem = field12 mem 1 >>= λ n. ok ((n + 3 + 2 ^ 64 - 4) % 2 ^ 64)

-- `section_codec(mem, len)`.
unfoldable pub section_codec : List ℕ → ℕ → Result (List ℕ)
section_codec mem len = do
  guard (leb 3 len)
  m ← bswap16 mem 1
  n ← field12 m 1
  guard (len == n + 3)
  ok m

-- `bswap16(mem + pos + offset)` for each offset.
unfoldable pub swap_all : List ℕ → ℕ → List ℕ → Result (List ℕ)
swap_all mem pos [] = ok mem
swap_all mem pos (o ∷ os) = bswap16 mem (pos + o) >>= λ m. swap_all m pos os

-- The swaps of a struct whose length field at `o` is swapped last and then read.
unfoldable pub swap_header : List ℕ → ℕ → List ℕ → ℕ → Result (List ℕ × ℕ)
swap_header mem pos os o = do
  m1 ← swap_all mem pos os
  m2 ← bswap16 m1 (pos + o)
  n ← field12 m2 (pos + o)
  ok (m2, n)

-- `n` bytes of descriptors at `pos`: they end by `len` and are well formed. Returns the position
-- behind them.
unfoldable pub check_descriptors : List ℕ → ℕ → ℕ → ℕ → Result ℕ
check_descriptors mem len pos n = do
  guard (leb (pos + n) len)
  verify_descriptors mem pos n
  ok (pos + n)

-- `while (pos < len)` over structs of `k` bytes, each with a list of descriptors behind it, and the
-- test `pos != len` behind the loop. Every round moves on by `k` bytes or more.
unfoldable pub entry_loop : ℕ → List ℕ → ℕ → ℕ → List ℕ → ℕ → ℕ → Result (List ℕ)
entry_loop k os o zero mem len pos = fault
entry_loop k os o (suc fuel) mem len pos = elim (ltb pos len) [
  | false ↦ if pos == len then ok mem else fail
  | true ↦
      (guard (leb (pos + k) len) >>= λ _. swap_header mem pos os o >>= λ r.
      check_descriptors r.0 len (pos + k) r.1 >>= λ next. entry_loop k os o fuel r.0 len next)
]

-- The same over structs of `k` bytes with nothing behind them.
unfoldable pub fixed_loop : ℕ → List ℕ → ℕ → List ℕ → ℕ → ℕ → Result (List ℕ)
fixed_loop k os zero mem len pos = fault
fixed_loop k os (suc fuel) mem len pos = elim (ltb pos len) [
  | false ↦ if pos == len then ok mem else fail
  | true ↦
      (guard (leb (pos + k) len) >>= λ _.
      swap_all mem pos os >>= λ m. fixed_loop k os fuel m len (pos + k))
]

-- The codecs. `fail` is `NULL`; else the memory with its fields in host order.
unfoldable pub mpeg_pat_section_codec : List ℕ → Result (List ℕ)
mpeg_pat_section_codec mem = do
  len ← section_ext_length mem
  guard (leb 8 len)
  fixed_loop 4 (0 ∷ 2 ∷ []) (suc len) mem len 8

unfoldable pub mpeg_pmt_section_codec : List ℕ → Result (List ℕ)
mpeg_pmt_section_codec mem = do
  len ← section_ext_length mem
  guard (leb 12 len)
  r ← swap_header mem 8 (0 ∷ []) 2
  pos ← check_descriptors r.0 len 12 r.1
  entry_loop 5 (1 ∷ []) 3 (suc len) r.0 len pos

-- The subtraction is in `size_t`, and `len` is not checked.
unfoldable pub mpeg_cat_section_codec : List ℕ → Result (List ℕ)
mpeg_cat_section_codec mem = do
  len ← section_ext_length mem
  verify_descriptors mem 8 ((len + 2 ^ 64 - 8) % 2 ^ 64)
  ok mem

-- The length of the transport stream loop is swapped and not looked at.
unfoldable pub dvb_nit_section_codec : List ℕ → Result (List ℕ)
dvb_nit_section_codec mem = do
  len ← section_ext_length mem
  guard (leb 10 len)
  r ← swap_header mem 8 [] 0
  pos ← check_descriptors r.0 len 10 r.1
  guard (leb (pos + 2) len)
  m ← bswap16 r.0 pos
  entry_loop 6 (0 ∷ 2 ∷ []) 4 (suc len) m len (pos + 2)

unfoldable pub dvb_bat_section_codec : List ℕ → Result (List ℕ)
dvb_bat_section_codec mem = do
  len ← section_ext_length mem
  guard (leb 10 len)
  r ← swap_header mem 8 [] 0
  pos ← check_descriptors r.0 len 10 r.1
  guard (leb (pos + 2) len)
  m ← bswap16 r.0 pos
  entry_loop 6 (0 ∷ 2 ∷ []) 4 (suc len) m len (pos + 2)

unfoldable pub dvb_sdt_section_codec : List ℕ → Result (List ℕ)
dvb_sdt_section_codec mem = do
  len ← section_ext_length mem
  guard (leb 11 len)
  m ← bswap16 mem 8
  entry_loop 5 (0 ∷ []) 3 (suc len) m len 11

unfoldable pub dvb_eit_section_codec : List ℕ → Result (List ℕ)
dvb_eit_section_codec mem = do
  len ← section_ext_length mem
  guard (leb 14 len)
  m1 ← bswap16 mem 8
  m2 ← bswap16 m1 10
  entry_loop 12 (0 ∷ []) 10 (suc len) m2 len 14

-- The CRC is taken off in `size_t`.
unfoldable pub dvb_tot_section_codec : List ℕ → Result (List ℕ)
dvb_tot_section_codec mem = do
  n ← section_length mem
  let len = (n + 2 ^ 64 - 4) % 2 ^ 64
  guard (leb 10 len)
  r ← swap_header mem 8 [] 0
  pos ← check_descriptors r.0 len 10 r.1
  guard (pos == len)
  ok r.0

-- `struct dvb_rst_status` is not packed, so its 9 bytes are padded to `sizeof` 10.
unfoldable pub dvb_rst_section_codec : List ℕ → Result (List ℕ)
dvb_rst_section_codec mem = do
  len ← section_length mem
  fixed_loop 10 (0 ∷ 2 ∷ 4 ∷ 6 ∷ []) (suc len) mem len 3

unfoldable pub dvb_tdt_section_codec : List ℕ → Result (List ℕ)
dvb_tdt_section_codec mem = do len ← section_length mem; guard (len == 8); ok mem
