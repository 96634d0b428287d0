-- ===== src/Identity/Points.antt =====
-- The lengths of packages/identity/src/points.ts; the points themselves are a curve library's.
use mathlib.Core.Path.{subst}
use stellar_onramp.Base.{
  ℕ, ◌+◌, ◌*◌, ◌-◌, ◌/◌, ◌%◌, ◌==◌, leb, Result, ok, ◌>>◌, guard, ◌≡◌, true, arith, guard-eq-ok,
  ok-injective,
}

pub data PointError : Type 0 where
  bad_proof_length too_many_undisclosed : PointError

abbrev pub signature_bytes : ℕ
signature_bytes = 80

-- `expectedProofBytes`
unfoldable pub expected_proof_bytes : ℕ → Result PointError ℕ
expected_proof_bytes undisclosed = do
  guard (leb undisclosed 39) too_many_undisclosed
  ok (144 + 32 * (4 + undisclosed))

-- `undisclosedCountFromProofBytes`
unfoldable pub undisclosed_count_from_proof_bytes : ℕ → Result PointError ℕ
undisclosed_count_from_proof_bytes length = do
  guard (leb 272 length) bad_proof_length
  guard ((length - 272) % 32 == 0) bad_proof_length
  guard (leb ((length - 272) / 32) 39) too_many_undisclosed
  ok ((length - 272) / 32)

-- The count is read back from the length that it calls for.
pub undisclosed_count-expected :
    (u : ℕ) {n : ℕ} → expected_proof_bytes u ≡ ok n → undisclosed_count_from_proof_bytes n ≡ ok u
unfolding expected_proof_bytes undisclosed_count_from_proof_bytes
undisclosed_count-expected u h =
    let (few, h₁) = guard-eq-ok (leb u 39) too_many_undisclosed h in
    subst (λ n. undisclosed_count_from_proof_bytes n ≡ ok u) (ok-injective h₁) (counted few)
  where
    counted : leb u 39 ≡ true → undisclosed_count_from_proof_bytes (144 + 32 * (4 + u)) ≡ ok u
    counted few =
        let same : (144 + 32 * (4 + u) - 272) / 32 ≡ u = omega arith in
        let whole : (144 + 32 * (4 + u) - 272) % 32 ≡ 0 = omega arith in
        ground (arith, few, same, whole)
