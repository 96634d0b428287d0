-- ===== src/Identity/Verify/Policy.antt =====
-- The checks of `verifyDetailed` (packages/identity/src/credential.ts) on the values that a proof
-- discloses.
use stellar_onramp.Base.{
  ◌+◌, Bool, true, false, not, List, [], ◌∷◌, Option, none, some, leb, ◌==◌, if◌then◌else◌, Result,
  ok, err, ◌>>=◌, ◌>>◌, guard, or_throw, rethrow_as, Number, nat, negsuc, Text, equal, Instant,
  minus_infinity, whole, negative, part, negative_part, is_finite, is_after,
}
use stellar_onramp.Identity.Gzip.{GzipStreams}
use stellar_onramp.Identity.Bits.{status_at}
use stellar_onramp.Identity.Schema.{ClaimName, name_text, ClaimValue}
use stellar_onramp.Identity.Credential.{schema_version_text}
use stellar_onramp.Identity.StatusList.{
  StatusListValue, StatusPurpose, revocation, decode_status_list,
}

pub data VerifyFailure : Type 0 where
  schema_version binding_mismatch binding_invalid expired credential_expired : VerifyFailure
  subject_mismatch malformed_proof disclosure_shape unknown_index : VerifyFailure
  message_index_mismatch claim_mismatch revoked status_list_invalid replayed : VerifyFailure
  bbs_invalid error : VerifyFailure

pub record ListRequest : Type 0 where
  pub revocation_index : Number
  pub issuer_id : Option Text
  pub status_purpose : StatusPurpose

pub data StatusSource : Type 0 where
  list : StatusListValue → StatusSource
  resolver : (ListRequest → Option StatusListValue) → StatusSource

-- The value that is expected of a claim by its name; none where it is undefined.
pub data Expectations : Type 0 where
  no_plain_object : Expectations
  entries : List (Text × Option ClaimValue) → Expectations

abbrev pub Decoded : Type 0
Decoded = List (ClaimName × ClaimValue)

-- `decoded[name]`: a later assignment takes the place of an earlier one.
unfoldable pub lookup : Text → Decoded → Option ClaimValue
lookup name [] = none
lookup name ((n, v) ∷ rest) = elim (lookup name rest) [
  | some w ↦ some w
  | none ↦ if equal (name_text n) name then some v else none
]

-- `typeof decoded[name] === 'number'`, `'string'`
abbrev pub number_of : Option ClaimValue → Option Number
number_of (some (ClaimValue.number n)) = some n
number_of _ = none

abbrev pub text_of : Option ClaimValue → Option Text
text_of (some (ClaimValue.text t)) = some t
text_of _ = none

-- `===` on values; NaN is equal to nothing.
abbrev pub same_number : Number → Number → Bool
same_number (nat a) (nat b) = a == b
same_number (negsuc a) (negsuc b) = a == b
same_number _ _ = false

abbrev pub same_value : ClaimValue → ClaimValue → Bool
same_value (ClaimValue.text a) (ClaimValue.text b) = equal a b
same_value (ClaimValue.number a) (ClaimValue.number b) = same_number a b
same_value (ClaimValue.boolean true) (ClaimValue.boolean b) = b
same_value (ClaimValue.boolean false) (ClaimValue.boolean b) = not b
same_value _ _ = false

-- `decoded.name !== undefined && decoded.name !== text`, negated.
abbrev pub agrees : Option ClaimValue → Text → Bool
agrees none text = true
agrees (some value) text = same_value value (ClaimValue.text text)

-- `time > expiresAt`, negated.
abbrev pub is_before_end : Instant → Number → Bool
is_before_end time end = not (is_after time end)

-- `issuedAt > time + 300`, negated.
abbrev pub has_begun : Instant → Number → Bool
has_begun (whole n) (nat start) = leb start (n + 300)
has_begun (part n false) (nat start) = leb start (n + 300)
has_begun (part n true) (nat start) = leb start (n + 301)
has_begun (negative n) (nat start) = leb (start + n + 1) 300
has_begun (negative_part n false) (nat start) = leb (start + n + 1) 300
has_begun (negative_part n true) (nat start) = leb (start + n) 300
has_begun (negative n) (negsuc start) = leb n (start + 300)
has_begun (negative_part n false) (negsuc start) = leb n (start + 300)
has_begun (negative_part n true) (negsuc start) = leb n (start + 301)
has_begun minus_infinity start = false
has_begun _ _ = true

-- The start, where one is disclosed.
abbrev pub has_started : Instant → Option Number → Bool
has_started time none = true
has_started time (some start) = has_begun time start

unfoldable pub check_time : Option Instant → Decoded → Result VerifyFailure (Unit {0})
check_time none decoded = ok tt
check_time (some time) decoded = do
  guard (is_finite time) error
  end ← or_throw (number_of (lookup (name_text ClaimName.expires_at) decoded)) disclosure_shape
  guard (is_before_end time end) credential_expired
  guard (has_started time (number_of (lookup (name_text ClaimName.issued_at) decoded)))
      credential_expired

unfoldable pub check_subject : Option Text → Decoded → Result VerifyFailure (Unit {0})
check_subject none decoded = ok tt
check_subject (some expected) decoded = do
  subject ←
      or_throw (text_of (lookup (name_text ClaimName.subject_binding) decoded)) disclosure_shape
  guard (equal subject expected) subject_mismatch

unfoldable pub check_entries :
    List (Text × Option ClaimValue) → Decoded → Result VerifyFailure (Unit {0})
check_entries [] decoded = ok tt
check_entries ((name, none) ∷ rest) decoded = check_entries rest decoded
check_entries ((name, some want) ∷ rest) decoded = do
  got ← or_throw (lookup name decoded) claim_mismatch
  guard (same_value got want) claim_mismatch
  check_entries rest decoded

unfoldable pub check_expected : Option Expectations → Decoded → Result VerifyFailure (Unit {0})
check_expected none decoded = ok tt
check_expected (some no_plain_object) decoded = err error
check_expected (some (entries expected)) decoded = check_entries expected decoded

-- `options.statusPurpose ?? 'revocation'`
abbrev pub purpose_or_default : Option StatusPurpose → StatusPurpose
purpose_or_default none = revocation
purpose_or_default (some purpose) = purpose

abbrev pub resolved_list : StatusSource → ListRequest → Option StatusListValue
resolved_list (list value) request = some value
resolved_list (resolver resolve) request = resolve request

unfoldable pub check_status :
    GzipStreams → Option StatusSource → StatusPurpose → Decoded → Result VerifyFailure (Unit {0})
check_status streams none purpose decoded = ok tt
check_status streams (some source) purpose decoded = do
  index ←
      or_throw (number_of (lookup (name_text ClaimName.revocation_index) decoded)) disclosure_shape
  value ←
      or_throw
        (resolved_list source (record {
          revocation_index = index;
          issuer_id = text_of (lookup (name_text ClaimName.issuer_id) decoded);
          status_purpose = purpose;
        }))
        status_list_invalid
  decoded_list ←
      rethrow_as (decode_status_list streams value (some purpose)) (λ e. status_list_invalid)
  status ← rethrow_as (status_at decoded_list.bitstring index) (λ e. status_list_invalid)
  guard (status == 0) revoked

unfoldable pub check_policy :
    GzipStreams
    → Text
    → Option Instant
    → Option Text
    → Option Expectations
    → Option StatusSource
    → Option StatusPurpose
    → Decoded
    → Result VerifyFailure Decoded
check_policy streams issuer time subject expected source purpose decoded = do
  guard (agrees (lookup (name_text ClaimName.schema_version) decoded) schema_version_text)
      schema_version
  guard (agrees (lookup (name_text ClaimName.issuer_id) decoded) issuer) claim_mismatch
  check_time time decoded
  check_subject subject decoded
  check_expected expected decoded
  check_status streams source (purpose_or_default purpose) decoded
  ok decoded
