-- ===== src/Gateway/Chain/Epoch.antt =====
-- packages/gateway/src/chain/epoch.ts: the epoch of a subject, read off the contract's record. The
-- simulator and the check of an address (the Stellar SDK) are parameters.
pub mod FailClosed
use stellar_onramp.Base.{
  ℕ, Bool, true, false, Option, none, some, leb, ◌==◌, length, Bytes, if◌then◌else◌, Result, ok,
  err, ◌>>=◌, ◌>>◌, guard, or_throw, rethrow_as, Number, to_nat?, Text,
}
use stellar_onramp.Gateway.Chain.Errors.{
  Heap, Value, decode_contract_error_code, kyc_gate_errors, no_claim_record,
}

-- A field of the decoded record: a number, a bigint, or neither.
pub data Field : Type 0 where
  number bigint : Number → Field
  other : Field

pub record RawRecord : Type 0 where
  pub claims : Field
  pub expires_at : Field
  -- none where it is no array of bytes
  pub issuer_id : Option Bytes
  pub issued_at : Field
  pub revocation_epoch : Field
  pub revocation_index : Field

pub record ClaimRecord : Type 0 where
  pub claims : ℕ
  pub expires_at : ℕ
  pub issuer_id : Bytes
  pub issued_at : ℕ
  pub revocation_epoch : ℕ
  pub revocation_index : ℕ

pub data DecodeError : Type 0 where
  not_a_record not_32_bytes not_a_u32 : DecodeError

-- `Number(v)` of a number or a bigint.
abbrev pub numeric : Field → Option Number
numeric (number n) = some n
numeric (bigint n) = some n
numeric other = none

abbrev pub u32 : Field → Result DecodeError ℕ
u32 field = do
  value ← or_throw (numeric field) not_a_u32
  n ← or_throw (to_nat? value) not_a_u32
  guard (leb n 4294967295) not_a_u32
  ok n

-- `none` is a value that is no object.
unfoldable pub decode_claim_record : Option RawRecord → Result DecodeError ClaimRecord
decode_claim_record raw = do
  rec ← or_throw raw not_a_record
  issuer ← or_throw rec.issuer_id not_32_bytes
  guard (length issuer == 32) not_32_bytes
  claims ← u32 rec.claims
  expires_at ← u32 rec.expires_at
  issued_at ← u32 rec.issued_at
  revocation_epoch ← u32 rec.revocation_epoch
  revocation_index ← u32 rec.revocation_index
  ok (record {
    claims = claims;
    expires_at = expires_at;
    issuer_id = issuer;
    issued_at = issued_at;
    revocation_epoch = revocation_epoch;
    revocation_index = revocation_index;
  })

-- What `simulateClaimRecord` does: it resolves, or it rejects with a value over a heap.
pub data Simulation : Type 0 where
  resolves : Option RawRecord → Simulation
  rejects : Heap → Value → Simulation

pub record SubjectChainState : Type 0 where
  pub subject : Text
  pub revocation_epoch : ℕ
  -- `record`
  pub claim_record : Option ClaimRecord
  pub revoked : Bool

-- The error of `Address.fromString`, or an `EpochReadError` by its cause.
pub data EpochError : Type 0 where
  bad_address unreachable : EpochError
  contract_error : ℕ → EpochError
  undecodable : DecodeError → EpochError

-- The catch of a rejected simulation.
unfoldable pub rejected : Text → Option ℕ → Result EpochError SubjectChainState
rejected subject none = err unreachable
rejected subject (some code) =
    if code == kyc_gate_errors no_claim_record
    then ok
        (record { subject = subject; revocation_epoch = 0; claim_record = none; revoked = false })
    else err (contract_error code)

unfoldable pub simulated : Text → Simulation → Result EpochError SubjectChainState
simulated subject (rejects heap thrown) = rejected subject (decode_contract_error_code heap thrown)
simulated subject (resolves raw) = do
  claim_record ← rethrow_as (decode_claim_record raw) undecodable
  ok (record {
    subject = subject;
    revocation_epoch = claim_record.revocation_epoch;
    claim_record = some claim_record;
    revoked = claim_record.claims == 0;
  })

unfoldable pub read_subject_chain_state :
    (Text → Bool) → (Text → Simulation) → Text → Result EpochError SubjectChainState
read_subject_chain_state is_address simulate subject = do
  guard (is_address subject) bad_address
  simulated subject (simulate subject)

unfoldable pub read_revocation_epoch :
    (Text → Bool) → (Text → Simulation) → Text → Result EpochError ℕ
read_revocation_epoch is_address simulate subject = do
  state ← read_subject_chain_state is_address simulate subject
  ok state.revocation_epoch
