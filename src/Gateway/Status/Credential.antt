-- ===== src/Gateway/Status/Credential.antt =====
-- The signed status list document of packages/gateway/src/status/credential.ts: its shape, its proof
-- and its dates. What `JSON.parse` gives is a tree (Canonical.antt), and the document that is returned
-- is that tree with the fields read from it. Ed25519 is a parameter.
pub mod Date
mod Shaped
pub mod Verified
use stellar_onramp.Base.{
  ℕ, Bool, not, ◌&&◌, ◌||◌, true, false, List, [], ◌∷◌, Option, none, some, ◌==◌, length, Result,
  ok, err, ◌>>=◌, ◌>>◌, guard, or_throw, rethrow_as, Bytes, Text, codes, equal, Number, non_integer,
}
use stellar_onramp.Identity.Base64.{base64url_decode, base64url_encode}
use stellar_onramp.Identity.StatusList.{StatusList}
use stellar_onramp.Identity.StatusList.Messages.{MessageEntry, StatusMessages}
use stellar_onramp.Gateway.Status.CredentialError.{
  CredentialError, not_json_object, wrong_context, wrong_type, missing_field, no_subject,
  wrong_subject_type, bad_subject, unsigned_document, null_proof, wrong_proof_type,
  wrong_cryptosuite, wrong_purpose, wrong_issuer, wrong_method, bad_public_key, bad_proof_value,
  wrong_prefix, wrong_signature_length, bad_signature, bad_encoding,
}
use stellar_onramp.Gateway.Status.Canonical.{
  JsonValue, null, number, string, array, object, Elements, end, element, Members, Signatures,
  member_of, without, status_list_signing_input,
}

-- A document whose shape has been checked; `list` is what `toBitstringStatusList` makes of it, and
-- `proof` is none where it is undefined.
pub record Document : Type 0 where
  pub raw : JsonValue
  pub id : Text
  pub issuer : Text
  pub valid_from : Text
  pub valid_until : Text
  pub list : StatusList
  pub proof : Option JsonValue

-- `value.key`, where the value is not null: none where it is undefined.
abbrev pub property : Text → JsonValue → Option JsonValue
property key (object bag) = member_of key bag
property key _ = none

-- `typeof value === 'string'`
abbrev pub text_of : Option JsonValue → Option Text
text_of (some (string text)) = some text
text_of _ = none

-- `value === text`
pub is_text : Option JsonValue → Text → Bool
is_text (some (string value)) text = equal value text
is_text _ text = false

-- `array.includes(text)`
includes : Elements → Text → Bool
unfolding is_text
includes end text = false
includes (element value values) text = is_text (some value) text || includes values text

-- `Array.isArray(value) && value.includes(text)`
array_includes : Option JsonValue → Text → Bool
unfolding includes
array_includes (some (array values)) text = includes values text
array_includes _ text = false

-- A string that is not empty.
required : Option JsonValue → Result CredentialError Text
required (some (string (c ∷ cs))) = ok (c ∷ cs)
required _ = err missing_field

-- `statusSize`; what is no number is no integer either, which is what is asked of it.
status_size_of : Option JsonValue → Option Number
status_size_of none = none
status_size_of (some (number size)) = some size
status_size_of (some _) = some non_integer

message_entry_of : JsonValue → MessageEntry
message_entry_of (object bag) =
    MessageEntry.object (text_of (member_of (codes "status") bag))
      (text_of (member_of (codes "message") bag))
message_entry_of _ = MessageEntry.not_object

message_entries_of : Elements → List MessageEntry
unfolding message_entry_of
message_entries_of end = []
message_entries_of (element value values) = message_entry_of value ∷ message_entries_of values

-- `statusMessage`, as `assertStatusMessage` tells it apart.
status_message_of : Option JsonValue → StatusMessages
unfolding message_entries_of
status_message_of none = StatusMessages.absent
status_message_of (some (array values)) = StatusMessages.array (message_entries_of values)
status_message_of (some _) = StatusMessages.not_array

-- The object that a property has to be.
object_of : Option JsonValue → Result CredentialError Members
object_of (some (object bag)) = ok bag
object_of _ = err no_subject

-- The checks on `credentialSubject`; the result is what `toBitstringStatusList` makes of it.
to_bitstring_status_list : Members → Result CredentialError StatusList
unfolding is_text status_size_of status_message_of
to_bitstring_status_list subject = do
  guard (is_text (member_of (codes "type") subject) (codes "BitstringStatusList"))
      wrong_subject_type
  purpose ← or_throw (text_of (member_of (codes "statusPurpose") subject)) bad_subject
  encoded ← or_throw (text_of (member_of (codes "encodedList") subject)) bad_subject
  ok (record {
    status_purpose = purpose;
    encoded_list = encoded;
    status_size = status_size_of (member_of (codes "statusSize") subject);
    status_message = status_message_of (member_of (codes "statusMessage") subject);
  })

-- The checks on an object.
assert_members : Members → Result CredentialError Document
unfolding array_includes required object_of to_bitstring_status_list
assert_members bag = do
  guard
      (array_includes (member_of (codes "@context") bag)
        (codes "https://www.w3.org/ns/credentials/v2"))
      wrong_context
  guard (array_includes (member_of (codes "type") bag) (codes "BitstringStatusListCredential"))
      wrong_type
  id ← required (member_of (codes "id") bag)
  issuer ← required (member_of (codes "issuer") bag)
  valid_from ← required (member_of (codes "validFrom") bag)
  valid_until ← required (member_of (codes "validUntil") bag)
  subject ← object_of (member_of (codes "credentialSubject") bag)
  list ← to_bitstring_status_list subject
  ok (record {
    raw = object bag;
    id = id;
    issuer = issuer;
    valid_from = valid_from;
    valid_until = valid_until;
    list = list;
    proof = member_of (codes "proof") bag;
  })

unfoldable pub assert_document_shape : JsonValue → Result CredentialError Document
unfolding assert_members
assert_document_shape (object bag) = assert_members bag
assert_document_shape _ = err not_json_object

unfoldable pub encode_proof_value : Bytes → Text
encode_proof_value signature = b'u' ∷ base64url_encode signature

unfoldable pub decode_proof_value : Option JsonValue → Result CredentialError Bytes
decode_proof_value (some (string (prefix ∷ rest))) = do
  guard (prefix == b'u') wrong_prefix
  bytes ← rethrow_as (base64url_decode rest) bad_encoding
  guard (length bytes == 64) wrong_signature_length
  ok bytes
decode_proof_value _ = err bad_proof_value

-- What the verifier is pinned to.
pub record Expected : Type 0 where
  pub public_key_raw : Bytes
  pub issuer : Text
  pub verification_method : Option Text

method_agrees : Option Text → Option JsonValue → Bool
unfolding is_text
method_agrees none actual = true
method_agrees (some expected) actual = is_text actual expected

-- The checks on a proof that is there.
verify_proof : Signatures → Document → JsonValue → Expected → Result CredentialError Document
unfolding is_text method_agrees
verify_proof signatures doc proof expected = do
  guard (is_text (property (codes "type") proof) (codes "DataIntegrityProof")) wrong_proof_type
  guard (is_text (property (codes "cryptosuite") proof) (codes "stellaronramp-eddsa-jcs-2026"))
      wrong_cryptosuite
  guard (is_text (property (codes "proofPurpose") proof) (codes "assertionMethod")) wrong_purpose
  guard (equal doc.issuer expected.issuer) wrong_issuer
  guard (method_agrees expected.verification_method (property (codes "verificationMethod") proof))
      wrong_method
  guard (length expected.public_key_raw == 32) bad_public_key
  signature ← decode_proof_value (property (codes "proofValue") proof)
  input ← status_list_signing_input signatures doc.raw (without (codes "proofValue") proof)
  guard (signatures.verify expected.public_key_raw input signature) bad_signature
  ok doc

check_proof : Signatures → Document → Option JsonValue → Expected → Result CredentialError Document
unfolding verify_proof
check_proof signatures doc none expected = err unsigned_document
check_proof signatures doc (some null) expected = err null_proof
check_proof signatures doc (some proof) expected = verify_proof signatures doc proof expected

unfoldable pub verify_status_list_credential :
    Signatures → JsonValue → Expected → Result CredentialError Document
unfolding check_proof
verify_status_list_credential signatures value expected = do
  doc ← assert_document_shape value
  check_proof signatures doc doc.proof expected
