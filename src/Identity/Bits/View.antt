-- ===== src/Identity/Bits/View.antt =====
-- The bits of a byte array as the specification numbers them: the bit with index 0 is the left-most.
use stellar_onramp.Base.{
  ℕ, ◌-◌, ◌*◌, ◌/◌, ◌%◌, ◌^◌, ◌<◌, ◌≤◌, ◌≡◌, arith, length, get_or, ok, Bytes, nat, err,
}
use stellar_onramp.Identity.StatusListError.{bit_out_of_range}
use stellar_onramp.Identity.Bits.{bit_at}

abbrev pub bit : Bytes → ℕ → ℕ
bit bits i = get_or bits (i / 8) 0 / 2 ^ (7 - i % 8) % 2

-- An array whose bits a 32-bit index can name.
abbrev pub Fits : Bytes → Type 0
Fits bits = length bits * 8 ≤ 2 ^ 31

pub bit_at-bit :
    (bits : Bytes) (i : ℕ) → Fits bits → i < length bits * 8 → bit_at bits (nat i) ≡ ok (bit bits i)
unfolding bit_at
bit_at-bit bits i f h = ground arith

pub bit_at-outside :
    (bits : Bytes) (i : ℕ) → length bits * 8 ≤ i → bit_at bits (nat i) ≡ err bit_out_of_range
unfolding bit_at
bit_at-outside bits i h = ground arith

pub bit-lt_two : (bits : Bytes) (i : ℕ) → bit bits i < 2
bit-lt_two bits i = omega arith
