-- ===== src/Sdk/Expiry.antt =====
-- packages/sdk/src/expiry.ts. What the ledger source answers is an argument, none where it rejects.
pub mod Window
use stellar_onramp.Base.{
  ℕ, ◌+◌, ◌-◌, ◌%◌, if◌then◌else◌, Bool, not, leb, ◌==◌, Option, none, some, min, Result, ok, err,
  ◌>>=◌, ◌>>◌, guard, or_throw, Number, nat, to_nat?,
}
use stellar_onramp.Identity.Schema.{max_safe_integer}

pub data ExpiryError : Type 0 where
  bad_margin no_ledger bad_sequence : ExpiryError

-- `PROOF_MAX_WINDOW` of packages/identity/src/binding.ts
abbrev pub proof_max_window : ℕ
proof_max_window = 17280

abbrev pub default_expiry_margin_ledgers : ℕ
default_expiry_margin_ledgers = 720

-- `MAX_EXPIRY_HORIZON` of packages/gateway/src/chain/constants.ts
abbrev pub max_expiry_horizon : ℕ
max_expiry_horizon = min 2073600 3110399

-- `a + b` for two natural numbers whose sum is below 2^54, as doubles add: past 2^53 only even numbers
-- are there, and a tie goes to the multiple of 4.
unfoldable pub add_double : ℕ → ℕ → ℕ
add_double a b =
    let sum = a + b in
    if leb sum (max_safe_integer + 1)
    then sum
    else if sum % 4 == 1
    then sum - 1
    else if sum % 4 == 3
    then sum + 1
    else sum

-- `sequence + Math.min(ahead, cap)` after the checks.
unfoldable pub expiry_after : ℕ → Option Number → Number → Result ExpiryError ℕ
expiry_after cap latest ahead = do
  ledgers ← or_throw (to_nat? ahead) bad_margin
  guard (not (ledgers == 0)) bad_margin
  raw ← or_throw latest no_ledger
  sequence ← or_throw (to_nat? raw) bad_sequence
  guard (leb sequence max_safe_integer) bad_sequence
  ok (add_double sequence (min ledgers cap))

-- `margin` by default
abbrev pub margin_or_default : Option Number → Number
margin_or_default none = nat default_expiry_margin_ledgers
margin_or_default (some margin) = margin

abbrev pub ledger_expiry_for : Option Number → Option Number → Result ExpiryError ℕ
ledger_expiry_for latest margin = expiry_after proof_max_window latest (margin_or_default margin)

abbrev pub record_expires_at_for : Option Number → Number → Result ExpiryError ℕ
record_expires_at_for latest ledgers_ahead = expiry_after max_expiry_horizon latest ledgers_ahead
