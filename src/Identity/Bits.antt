-- ===== src/Identity/Bits.antt =====
-- Bit access of packages/identity/src/status-list.ts: `bitAt`, `setBit` and `statusAt`. The shifts
-- work on 32-bit words; a product of an index and a status size is taken to be exact.
pub mod View
pub mod Write
pub mod Status
use stellar_onramp.Base.{
  ℕ, zero, suc, ◌+◌, ◌-◌, ◌*◌, ◌/◌, ◌%◌, ◌^◌, bit_or, Option, none, some, ltb, leb, if◌then◌else◌,
  length, get_or, set, Result, ok, err, ◌>>=◌, ◌>>◌, guard, or_throw, Bytes, Number, nat, to_nat?,
}
use stellar_onramp.Identity.StatusListError.{
  StatusListError, bit_out_of_range, bad_index, range_error,
}

-- `i >> 3`; none where the 32-bit word is negative, so that the array has no such element.
byte_index : ℕ → Option ℕ
byte_index i = if ltb (i % 2 ^ 32) (2 ^ 31) then some (i % 2 ^ 32 / 8) else none

-- An element that is `undefined` shifts as 0.
read_byte : Bytes → Option ℕ → ℕ
read_byte bits none = 0
read_byte bits (some k) = get_or bits k 0

-- A store past the end, or at no element, changes nothing.
write_byte : Bytes → Option ℕ → ℕ → Bytes
write_byte bits none v = bits
write_byte bits (some k) v = set bits k (v % 256)

-- The guard that `bitAt` and `setBit` begin with.
in_bitstring : Bytes → Number → Result StatusListError ℕ
in_bitstring bits index = do
  i ← or_throw (to_nat? index) bit_out_of_range
  guard (ltb i (length bits * 8)) bit_out_of_range
  ok i

unfoldable pub bit_at : Bytes → Number → Result StatusListError ℕ
unfolding in_bitstring byte_index read_byte
bit_at bits index = do
  i ← in_bitstring bits index
  ok (read_byte bits (byte_index i) / 2 ^ (7 - i % 8) % 2)

unfoldable pub set_bit : Bytes → Number → Result StatusListError Bytes
unfolding in_bitstring byte_index read_byte write_byte
set_bit bits index = do
  i ← in_bitstring bits index
  ok (write_byte bits (byte_index i) (bit_or (read_byte bits (byte_index i)) (128 / 2 ^ (i % 8))))

-- The part of `DecodedStatusList` that `statusAt` reads.
pub record Bitstring : Type 0 where
  pub status_size : ℕ
  pub bits : Bytes
  pub bit_length : ℕ

-- The loop of `statusAt`, over the bits that are left; `value` is a 32-bit pattern.
unfoldable pub read_status : Bytes → ℕ → ℕ → ℕ → Result StatusListError ℕ
read_status bits position zero value = ok value
read_status bits position (suc left) value = do
  bit ← bit_at bits (nat position)
  read_status bits (position + 1) left (value * 2 % 2 ^ 32 + bit)

unfoldable pub status_at : Bitstring → Number → Result StatusListError ℕ
status_at list index = do
  i ← or_throw (to_nat? index) bad_index
  let start = i * list.status_size
  guard (leb (start + list.status_size) list.bit_length) range_error
  read_status list.bits start list.status_size 0
