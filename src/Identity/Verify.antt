-- ===== src/Identity/Verify.antt =====
-- `verifyDetailed` of packages/identity/src/credential.ts. A check that an option may switch off
-- (UNSAFE_SKIP) takes an Option. What a resolver of status lists does is a parameter; none where it
-- throws. The catch around the whole body catches nothing more than the inner ones.
pub mod Policy
mod Naturals
pub mod Permitted
pub mod Presented
pub mod Accepted
pub mod Replay
pub mod Shown
pub mod Complete
pub mod Honest
use stellar_onramp.Base.{
  ℕ, zero, suc, ◌+◌, Bool, true, false, not, ◌&&◌, ◌||◌, List, [], ◌∷◌, Option, none, some, map,
  ltb, leb, ◌==◌, length, if◌then◌else◌, Result, ok, err, ◌>>=◌, ◌>>◌, guard, or_throw, rethrow_as,
  Number, Instant, nat, to_nat?, Bytes, Text, codes, equal, sort,
}
use stellar_onramp.Identity.Hashes.{Hashes}
use stellar_onramp.Identity.Bbs.{Bbs}
use stellar_onramp.Identity.Gzip.{GzipStreams}
use stellar_onramp.Identity.Points.{undisclosed_count_from_proof_bytes}
use stellar_onramp.Identity.Schema.{
  ClaimName, ClaimValue, assert_no_pii_disclosed, decode_disclosed,
}
use stellar_onramp.Identity.Binding.{
  ProofBinding, BindingError, assert_valid_binding, binding_digest_hex, presentation_header_for,
}
use stellar_onramp.Identity.ReplayGuard.{ReplayGuard, consume}
use stellar_onramp.Identity.Credential.{
  Proof, credential_header, schema_version_text, issuer_id_from_public_key,
}
use stellar_onramp.Identity.StatusList.{StatusListValue, StatusPurpose, revocation}
use Policy.{
  VerifyFailure, schema_version, binding_mismatch, binding_invalid, expired, malformed_proof,
  disclosure_shape, unknown_index, message_index_mismatch, replayed, bbs_invalid, error,
  StatusSource, Expectations, Decoded, check_policy,
}

pub data Disclosure : Type 0 where
  -- not an array
  no_array : Disclosure
  indexes : List Number → Disclosure

pub record VerifyOptions : Type 0 where
  pub current_ledger : Option Number
  pub current_time : Option Instant
  pub expected_subject_binding : Option Text
  pub status_list : Option StatusSource
  pub replay_guard : Option ReplayGuard
  pub status_purpose : Option StatusPurpose
  pub expected_claims : Option Expectations
  pub expected_disclosed_indexes : Option Disclosure

-- `expectedBinding` is valid, and the proof carries the same; the result is its ledger sequence.
unfoldable pub check_binding : Hashes → ProofBinding → ProofBinding → Result VerifyFailure ℕ
check_binding hashes carried expected = do
  expiry ← rethrow_as (assert_valid_binding expected) (λ e. binding_invalid)
  digest ← rethrow_as (binding_digest_hex hashes carried) (λ e. binding_invalid)
  wanted ← rethrow_as (binding_digest_hex hashes expected) (λ e. binding_invalid)
  guard (equal digest wanted) binding_mismatch
  ok expiry

unfoldable pub check_ledger : Option Number → ℕ → Result VerifyFailure (Unit {0})
check_ledger none expiry = ok tt
check_ledger (some raw) expiry = do
  ledger ← or_throw (to_nat? raw) error
  guard (leb ledger expiry) expired

-- The index after the one before, if any.
abbrev pub follows : Option ℕ → ℕ → Bool
follows none i = true
follows (some previous) i = ltb previous i

-- The loop over the disclosed indexes.
unfoldable pub check_indexes : Option ℕ → List Number → Result VerifyFailure (List ℕ)
check_indexes previous [] = ok []
check_indexes previous (raw ∷ rest) = do
  i ← or_throw (to_nat? raw) unknown_index
  guard (ltb i 12) unknown_index
  guard (follows previous i) disclosure_shape
  others ← check_indexes (some i) rest
  ok (i ∷ others)

unfoldable pub check_shape : Proof → Result VerifyFailure (List ℕ)
check_shape proof = do
  total ← or_throw (to_nat? proof.total_messages) disclosure_shape
  guard (total == 12) disclosure_shape
  guard (length proof.disclosed_indexes == length proof.disclosed_messages) disclosure_shape
  disclosed ← check_indexes none proof.disclosed_indexes
  rethrow_as (assert_no_pii_disclosed disclosed) (λ e. disclosure_shape)
  ok disclosed

-- An index that the caller asks for.
unfoldable pub asked_indexes : List Number → Result VerifyFailure (List ℕ)
asked_indexes [] = ok []
asked_indexes (raw ∷ rest) = do
  i ← or_throw (to_nat? raw) error
  guard (ltb i 12) error
  others ← asked_indexes rest
  ok (i ∷ others)

unfoldable pub same_indexes : List ℕ → List ℕ → Bool
same_indexes [] [] = true
same_indexes (i ∷ is) (j ∷ js) = i == j && same_indexes is js
same_indexes _ _ = false

unfoldable pub check_asked : Option Disclosure → List ℕ → Result VerifyFailure (Unit {0})
check_asked none disclosed = ok tt
check_asked (some no_array) disclosed = err error
check_asked (some (indexes raw)) disclosed = do
  want ← asked_indexes raw
  guard (same_indexes (sort want) disclosed) disclosure_shape

-- The length of the proof agrees with the indexes that it discloses.
unfoldable pub check_length : Bytes → List ℕ → Result VerifyFailure (Unit {0})
check_length proof disclosed = do
  undisclosed ←
      rethrow_as (undisclosed_count_from_proof_bytes (length proof)) (λ e. malformed_proof)
  guard (undisclosed + length disclosed == 12) disclosure_shape

-- The guard after the call, and whether the nonce was fresh.
abbrev pub burn :
    Hashes → ProofBinding → Option ReplayGuard → Option ReplayGuard × Result BindingError Bool
burn hashes expected none = (none, ok true)
burn hashes expected (some guard) =
    let (guard', fresh) = consume hashes expected guard in (some guard', fresh)

abbrev pub answer : Decoded → Result BindingError Bool → Result VerifyFailure Decoded
answer decoded (ok true) = ok decoded
answer decoded (ok false) = err replayed
answer decoded (err e) = err error

-- The last steps, of what was decoded.
abbrev pub conclude :
    Hashes
    → ProofBinding
    → Option ReplayGuard
    → Result VerifyFailure Decoded
    → Option ReplayGuard × Result VerifyFailure Decoded
conclude hashes expected replay (err reason) = (replay, err reason)
conclude hashes expected replay (ok decoded) =
    let (replay', fresh) = burn hashes expected replay in (replay', answer decoded fresh)

module _ (hashes : Hashes) (bbs : Bbs) where
  unfoldable pub check_proof :
      Proof → List ℕ → Bytes → ProofBinding → Result VerifyFailure (Unit {0})
  check_proof proof disclosed key expected = do
    header ← rethrow_as (presentation_header_for hashes expected) (λ e. malformed_proof)
    verdict ←
        or_throw
          (bbs.verify_proof key proof.proof (hashes.utf8_to_bytes credential_header) header
            (map hashes.utf8_to_bytes proof.disclosed_messages) disclosed)
          malformed_proof
    guard verdict bbs_invalid

  -- The checks on the presentation; the result is what it discloses.
  unfoldable pub check_presentation :
      Proof → Bytes → ProofBinding → VerifyOptions → Result VerifyFailure Decoded
  check_presentation proof key expected options = do
    guard (equal proof.schema_version schema_version_text) schema_version
    expiry ← check_binding hashes proof.binding expected
    check_ledger options.current_ledger expiry
    disclosed ← check_shape proof
    check_asked options.expected_disclosed_indexes disclosed
    check_length proof.proof disclosed
    decoded ←
        rethrow_as (decode_disclosed disclosed proof.disclosed_messages)
          (λ e. message_index_mismatch)
    check_proof proof disclosed key expected
    ok decoded

  -- Everything but the replay guard.
  unfoldable pub judge :
      GzipStreams → Proof → Bytes → ProofBinding → VerifyOptions → Result VerifyFailure Decoded
  judge streams proof key expected options = do
    decoded ← check_presentation proof key expected options
    check_policy streams (issuer_id_from_public_key hashes bbs key) options.current_time
        options.expected_subject_binding options.expected_claims options.status_list
        options.status_purpose decoded

  unfoldable pub verify_detailed :
      GzipStreams
      → Proof
      → Bytes
      → ProofBinding
      → VerifyOptions
      → Option ReplayGuard × Result VerifyFailure Decoded
  verify_detailed streams proof key expected options =
      conclude hashes expected options.replay_guard (judge streams proof key expected options)
