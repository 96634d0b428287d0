-- ===== src/Identity/Bits/Write.antt =====
-- `setBit` of packages/identity/src/status-list.ts writes one bit and leaves the others.
use stellar_onramp.Base.{
  ℕ, ◌-◌, ◌*◌, ◌/◌, ◌%◌, ◌^◌, ◌<◌, ◌≡◌, refl, arith, bit_or, length, get_or, set, ok, Bytes,
  AreBytes, nat, ◌==◌, true, all_below, all_below_sound, ==_iff, All-set, IsByte, Bool-cases,
  All-get_or, get_or-set_self, get_or-set_ne, false, ◌≢◌, inl, inr, if◌then◌else◌,
}
use stellar_onramp.Identity.Bits.{set_bit}
use stellar_onramp.Identity.Bits.View.{bit, Fits}

or_table :
    all_below 256 (λ byte. all_below 8 (λ k. all_below 8 (λ m.
      (bit_or byte (128 / 2 ^ k) % 256 / 2 ^ (7 - m) % 2)
      == (if k == m then 1 else byte / 2 ^ (7 - m) % 2))))
    ≡ true
unfolding all_below
or_table = refl

bit_or-bits :
    (byte k m : ℕ)
    → byte < 256
    → k < 8
    → m < 8
    → bit_or byte (128 / 2 ^ k) % 256 / 2 ^ (7 - m) % 2
      ≡ (if k == m then 1 else byte / 2 ^ (7 - m) % 2)
bit_or-bits byte k m hb hk hm =
    let at_byte = all_below_sound 256 _ byte or_table hb in
    let at_k = all_below_sound 8 _ k at_byte hk in (==_iff _ _).0 (all_below_sound 8 _ m at_k hm)

-- The byte array that `setBit` leaves.
abbrev pub with_bit : Bytes → ℕ → Bytes
with_bit bits i = set bits (i / 8) (bit_or (get_or bits (i / 8) 0) (128 / 2 ^ (i % 8)) % 256)

-- `setBit` inside the bitstring sets that bit, and throws nothing.
pub set_bit-with_bit :
    (bits : Bytes) (i : ℕ)
    → Fits bits
    → i < length bits * 8
    → set_bit bits (nat i) ≡ ok (with_bit bits i)
unfolding set_bit
set_bit-with_bit bits i f h = ground arith

pub with_bit-AreBytes : (bits : Bytes) (i : ℕ) → AreBytes bits → AreBytes (with_bit bits i)
with_bit-AreBytes bits i h = All-set IsByte bits (i / 8) _ h (omega arith)

same_place : (i j : ℕ) → i / 8 ≡ j / 8 → (i % 8 == j % 8) ≡ (i == j)
same_place i j e = elim (Bool-cases (i % 8 == j % 8)) [
  | inl hit ↦ ground (arith, hit)
  | inr miss ↦ ground (arith, miss)
]

pub bit-with_bit :
    (bits : Bytes) (i j : ℕ)
    → AreBytes bits
    → i < length bits * 8
    → bit (with_bit bits i) j ≡ (if i == j then 1 else bit bits j)
bit-with_bit bits i j h hi = elim (Bool-cases (i / 8 == j / 8)) [
  | inl same ↦
      let e = (==_iff (i / 8) (j / 8)).0 same in
      let byte = All-get_or IsByte bits (i / 8) 0 h (omega arith) in
      rw
        (
          ← e,
          get_or-set_self bits (i / 8) (bit_or (get_or bits (i / 8) 0) (128 / 2 ^ (i % 8)) % 256) 0
              (omega arith),
        )
        (rw (← same_place i j e)
          (bit_or-bits (get_or bits (i / 8) 0) (i % 8) (j % 8) byte (omega arith) (omega arith)))
  | inr other ↦
      let ne : (i == j) ≡ false = ground (arith, other) in
      let apart : i / 8 ≢ j / 8 = ground (arith, other) in
      rw
        (
          get_or-set_ne bits (i / 8) (j / 8)
              (bit_or (get_or bits (i / 8) 0) (128 / 2 ^ (i % 8)) % 256) 0 apart,
          ne,
        )
        refl
]
