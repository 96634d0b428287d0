-- ===== src/Gateway/Kyc/RevocationIndex/Unique.antt =====
-- The indexes that packages/gateway/src/kyc/revocation-index.ts gives out.
use mathlib.Core.Path.{subst}
use stellar_onramp.Base.{
  ℕ, zero, suc, ◌+◌, ◌≤◌, ◌<◌, Option, some, ltb, leb, inl, inr, ◌≡◌, arith, Bool-cases,
  if◌then◌else◌, get_elem?, Result, ok, err, or_throw-eq-ok, guard-eq-ok, ok-injective, leb→le,
  Number, to_nat?,
}
use stellar_onramp.Gateway.Kyc.RevocationIndex.{
  Allocator, IndexError, exhausted, create, allocate, allocations, assert_usable_revocation_index,
  max_revocation_index, or_number,
}

-- Each call is answered with the number after the one before, from the first on; past the cap every
-- call is refused, and no number comes round again.
pub allocations-get :
    (n : ℕ) (a : Allocator) (i : ℕ)
    → i < n
    → get_elem? (allocations n a) i
      ≡ some (if leb (a.next + i) a.max then ok (a.next + i) else err exhausted)
unfolding allocations allocate
allocations-get zero a i h = absurd (ground arith)
allocations-get (suc n) a zero h = ground arith
allocations-get (suc n) a (suc i) h = elim (Bool-cases (ltb a.max a.next)) [
  | inl t ↦ let rest = allocations-get n a i (ground arith) in ground (arith, t, rest)
  | inr f ↦
      let rest = allocations-get n (record a { next = a.next + 1 }) i (ground arith) in
      ground (arith, f, rest)
]

allocations-short :
    (n : ℕ) (a : Allocator) (i : ℕ) {answer : Result IndexError ℕ}
    → get_elem? (allocations n a) i ≡ some answer
    → i < n
unfolding allocations
allocations-short zero a i h = absurd (cc)
allocations-short (suc n) a zero h = ground arith
allocations-short (suc n) a (suc i) h =
    let rest = allocations-short n (allocate a).0 i h in ground (arith, rest)

allocations-index :
    (n : ℕ) (a : Allocator) (i x : ℕ)
    → get_elem? (allocations n a) i ≡ some (ok x)
    → (x ≡ a.next + i) × (x ≤ a.max)
allocations-index n a i x h =
    let answer = allocations-get n a i (allocations-short n a i h) in ground (arith, answer, h)

create-bounds :
    (start max : Option Number) {a : Allocator}
    → create start max ≡ ok a
    → a.max ≤ max_revocation_index
unfolding create
create-bounds start max h =
    let (s, _, h₁) = or_throw-eq-ok (to_nat? (or_number start 0)) _ _ h in
    let (_, h₂) = guard-eq-ok (leb s max_revocation_index) _ h₁ in
    let (m, _, h₃) = or_throw-eq-ok (to_nat? (or_number max max_revocation_index)) _ _ h₂ in
    let (_, h₄) = guard-eq-ok (leb s m) _ h₃ in
    let (bound, h₅) = guard-eq-ok (leb m max_revocation_index) _ h₄ in
    subst (λ (a : Allocator). a.max ≤ max_revocation_index) (ok-injective h₅) (leb→le _ _ bound)

-- Of an allocator that the constructor made, no two calls are given one index, and each index that
-- is given passes the check for one that came from elsewhere: it is a 32-bit number.
pub allocations_unique :
    (start max : Option Number) {a : Allocator} (n i j x : ℕ)
    → create start max ≡ ok a
    → get_elem? (allocations n a) i ≡ some (ok x)
    → get_elem? (allocations n a) j ≡ some (ok x)
    → (i ≡ j) × (assert_usable_revocation_index (Number.nat x) ≡ ok x)
unfolding assert_usable_revocation_index
allocations_unique start max {a} n i j x h hi hj =
    let (xi, within) = allocations-index n a i x hi in
    let (xj, _) = allocations-index n a j x hj in
    let bound = create-bounds start max h in (omega (arith, xi, xj), ground (arith, within, bound))
