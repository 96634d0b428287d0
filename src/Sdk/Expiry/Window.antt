-- ===== src/Sdk/Expiry/Window.antt =====
-- The window of packages/sdk/src/expiry.ts.
use mathlib.Core.Path.{subst}
use stellar_onramp.Base.{
  ℕ, ◌+◌, ◌≤◌, ◌<◌, not, leb, leb→le, ◌==◌, Bool-cases, inl, inr, ◌⊎◌, ◌%◌, min, Option, some, ◌≡◌,
  ap, ◌∙◌, arith, ok, guard-eq-ok, or_throw-eq-ok, ok-injective, Number, nat, to_nat?,
  to_nat?_sound,
}
use stellar_onramp.Identity.Schema.{max_safe_integer}
use stellar_onramp.Sdk.Expiry.{
  bad_margin, no_ledger, bad_sequence, proof_max_window, max_expiry_horizon, add_double,
  expiry_after, margin_or_default, ledger_expiry_for, record_expires_at_for,
}

-- After the ledger that was answered, and at most the cap further, or one more where that is past 2^53
-- and doubles have lost the odd numbers.
abbrev pub IsWithin : Option Number → ℕ → ℕ → Type 0
IsWithin latest cap expiry =
    (sequence : ℕ) × (latest ≡ some (nat sequence))
    × (sequence < expiry)
    × ((expiry ≤ sequence + cap)
        ⊎ ((max_safe_integer + 1 < sequence + cap) × (expiry ≤ sequence + cap + 1)))

add_double-bounds :
    (a b : ℕ)
    → 0 < b
    → a ≤ max_safe_integer
    → (a < add_double a b)
      × ((add_double a b ≤ a + b) ⊎ ((max_safe_integer + 1 < a + b) × (add_double a b ≤ a + b + 1)))
unfolding add_double
add_double-bounds a b positive safe = elim (Bool-cases (leb (a + b) (max_safe_integer + 1))) [
  | inl small ↦ (ground (arith, small, positive), inl (ground (arith, small)))
  | inr large ↦ elim (Bool-cases ((a + b) % 4 == 1)) [
    | inl down ↦ (ground (arith, large, down, positive, safe), inl (ground (arith, large, down)))
    | inr rest ↦ elim (Bool-cases ((a + b) % 4 == 3)) [
      | inl up ↦ (
        ground (arith, large, rest, up, positive),
        inr (ground (arith, large), ground (arith, large, rest, up)),
      )
      | inr even ↦
          (ground (arith, large, rest, even, positive), inl (ground (arith, large, rest, even)))
    ]
  ]
]

expiry_after-IsWithin :
    (cap : ℕ) (latest : Option Number) (ahead : Number) {expiry : ℕ}
    → 0 < cap
    → expiry_after cap latest ahead ≡ ok expiry
    → IsWithin latest cap expiry
unfolding expiry_after
expiry_after-IsWithin cap latest ahead positive h =
    let (ledgers, _, h₁) = or_throw-eq-ok (to_nat? ahead) bad_margin _ h in
    let (some_ledgers, h₂) = guard-eq-ok (not (ledgers == 0)) bad_margin h₁ in
    let (raw, answered, h₃) = or_throw-eq-ok latest no_ledger _ h₂ in
    let (sequence, is, h₄) = or_throw-eq-ok (to_nat? raw) bad_sequence _ h₃ in
    let (small, h₅) = guard-eq-ok (leb sequence max_safe_integer) bad_sequence h₄ in
    let sum = ok-injective h₅ in
    let above : 0 < ledgers = ground (arith, some_ledgers) in
    let step : 0 < min ledgers cap = omega (arith, above, positive) in
    let (later, within) =
      add_double-bounds sequence (min ledgers cap) step (leb→le sequence max_safe_integer small) in
    (
      sequence,
      answered ∙ ap some (to_nat?_sound raw is),
      subst (λ e. sequence < e) sum later,
      elim within [
        | inl exact ↦ inl (omega (arith, exact, sum))
        | inr (large, rounded) ↦ inr (omega (arith, large), omega (arith, rounded, sum))
      ],
    )

-- The expiries that are computed lie after the ledger that the source answered, and no further ahead
-- than the contract's window: 17280 ledgers for a proof, the horizon of the storage for a record. Only
-- where the end of the window is past 2^53 may they lie one ledger beyond it, as doubles round.
pub ledger_expiry_for-IsWithin :
    (latest margin : Option Number) (ahead : Number) {expiry record_expiry : ℕ}
    → ledger_expiry_for latest margin ≡ ok expiry
    → record_expires_at_for latest ahead ≡ ok record_expiry
    → IsWithin latest proof_max_window expiry × IsWithin latest max_expiry_horizon record_expiry
ledger_expiry_for-IsWithin latest margin ahead h h' = (
  expiry_after-IsWithin proof_max_window latest (margin_or_default margin) (omega arith) h,
  expiry_after-IsWithin max_expiry_horizon latest ahead (ground arith) h',
)
