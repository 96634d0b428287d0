-- ===== src/Identity/Bits/Status.antt =====
-- `statusAt` of packages/identity/src/status-list.ts: an entry is zero when all its bits are.
use stellar_onramp.Base.{
  ℕ, zero, suc, ◌+◌, ◌*◌, ◌/◌, ◌%◌, ◌^◌, ◌<◌, ◌≤◌, ◌≡◌, refl, ◌∙◌, arith, length, ok, err, not,
  Bytes, nat, ltb, ◌==◌, ◌||◌, true, false, Bool, all_below, all_below_sound, ltb→lt, if◌then◌else◌,
}
use stellar_onramp.Identity.StatusListError.{range_error}
use stellar_onramp.Identity.Bits.{Bitstring, read_status, status_at}
use stellar_onramp.Identity.Bits.View.{bit, Fits, bit_at-bit, bit-lt_two}

-- Some of the `left` bits from `position` on is set.
unfoldable pub any_bit : Bytes → ℕ → ℕ → Bool
any_bit bits position zero = false
any_bit bits position (suc left) = bit bits position == 1 || any_bit bits (position + 1) left

-- A value below this keeps within 32 bits while `left` more bits are read.
room : ℕ → ℕ
room zero = 2 ^ 32
room (suc left) = room left / 2

room_pos : all_below 9 (λ n. ltb 0 (room n)) ≡ true
unfolding room all_below
room_pos = refl

room-le : (n : ℕ) → room n ≤ 2 ^ 32
unfolding room
room-le zero = omega arith
room-le (suc n) = omega (arith, room-le n)

step_zero :
    (b value : ℕ) (later : Bool)
    → b < 2
    → value < 2 ^ 31
    → (if later then false else (value * 2 % 2 ^ 32 + b) == 0)
      ≡ (if b == 1 || later then false else value == 0)
step_zero b value true hb hv = ground arith
step_zero b value false hb hv = ground arith

read_status-zero :
    (bits : Bytes) (left position value : ℕ)
    → Fits bits
    → position + left ≤ length bits * 8
    → value < room left
    → (v : ℕ) × (read_status bits position left value ≡ ok v)
      × ((v == 0) ≡ (if any_bit bits position left then false else value == 0))
unfolding read_status any_bit room
read_status-zero bits zero position value f h r = (value, refl, refl)
read_status-zero bits (suc left) position value f h r =
    let (v, ran, zero_iff) =
      read_status-zero bits left (position + 1) (value * 2 % 2 ^ 32 + bit bits position) f
        (omega arith) (omega (arith, room-le left, bit-lt_two bits position)) in
    (
      v,
      ground (arith, bit_at-bit bits position f, ran),
      zero_iff
          ∙ step_zero (bit bits position) value (any_bit bits (position + 1) left)
              (bit-lt_two bits position) (omega (arith, room-le left)),
    )

negated : (b : Bool) → (if b then false else 0 == 0) ≡ not b
negated true = refl
negated false = refl

-- `statusAt` answers for every entry inside the bitstring, and the answer is 0 exactly when no bit
-- of the entry is set, for the sizes up to 8 that a decoded list has.
pub status_at-zero :
    (list : Bitstring) (i : ℕ)
    → Fits list.bits
    → list.bit_length ≡ length list.bits * 8
    → list.status_size ≤ 8
    → (i + 1) * list.status_size ≤ list.bit_length
    → (v : ℕ) × (status_at list (nat i) ≡ ok v)
      × ((v == 0) ≡ not (any_bit list.bits (i * list.status_size) list.status_size))
unfolding status_at
status_at-zero list i f e small inside =
    let start = i * list.status_size in
    let fits : start + list.status_size ≤ list.bit_length = grind arith in
    let enough =
      ltb→lt 0 (room list.status_size)
        (all_below_sound 9 _ list.status_size room_pos (omega arith)) in
    let (v, ran, zero_iff) =
      read_status-zero list.bits list.status_size start 0 f (omega arith) enough in
    (v, ground (arith, ran), zero_iff ∙ negated (any_bit list.bits start list.status_size))

-- An entry that ends past the bitstring is a range error, whatever the array holds.
pub status_at-outside :
    (list : Bitstring) (i : ℕ)
    → list.bit_length < (i + 1) * list.status_size
    → status_at list (nat i) ≡ err range_error
unfolding status_at
status_at-outside list i h =
    let past : list.bit_length < i * list.status_size + list.status_size = grind arith in
    ground arith
