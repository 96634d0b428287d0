-- ===== src/Identity/Credential.antt =====
-- `issue` and `derive` of packages/identity/src/credential.ts.
pub mod Issued
use stellar_onramp.Base.{
  ℕ, ◌-◌, Bool, true, false, not, List, [], ◌∷◌, Option, none, some, map, ltb, leb, ◌==◌, length,
  get_elem?, Result, ok, err, ◌>>=◌, ◌>>◌, guard, or_throw, rethrow_as, Number, nat, negsuc,
  non_integer, to_nat?, Bytes, Text, codes, equal,
}
use stellar_onramp.Identity.Hashes.{Hashes}
use stellar_onramp.Identity.Bbs.{Bbs}
use stellar_onramp.Identity.Points.{PointError, signature_bytes, expected_proof_bytes}
use stellar_onramp.Identity.Schema.{
  ClaimName, claim_specs, ClaimValue, Claims, SchemaError, encode_claims, normalize_indexes,
}
use stellar_onramp.Identity.Binding.{
  ProofBinding, BindingError, assert_valid_binding, presentation_header_for,
}

abbrev pub schema_version_text : Text
schema_version_text = codes "1"

abbrev pub credential_header : Text
credential_header = codes "stellaronramp/kyc-credential/v1"

pub record KycClaims : Type 0 where
  pub schema_version : Text
  pub issuer_id : Text
  pub revocation_index : Number
  pub issued_at : Number
  pub expires_at : Number
  pub subject_binding : Text
  pub over18 : Bool
  pub over21 : Bool
  pub not_sanctioned : Bool
  pub not_pep : Bool
  pub jurisdiction_ok : Bool
  pub liveness_ok : Bool

-- `claims[name]`
unfoldable pub claims_of : KycClaims → Claims
claims_of c ClaimName.schema_version = some (ClaimValue.text c.schema_version)
claims_of c ClaimName.issuer_id = some (ClaimValue.text c.issuer_id)
claims_of c ClaimName.revocation_index = some (ClaimValue.number c.revocation_index)
claims_of c ClaimName.issued_at = some (ClaimValue.number c.issued_at)
claims_of c ClaimName.expires_at = some (ClaimValue.number c.expires_at)
claims_of c ClaimName.subject_binding = some (ClaimValue.text c.subject_binding)
claims_of c ClaimName.over18 = some (ClaimValue.boolean c.over18)
claims_of c ClaimName.over21 = some (ClaimValue.boolean c.over21)
claims_of c ClaimName.not_sanctioned = some (ClaimValue.boolean c.not_sanctioned)
claims_of c ClaimName.not_pep = some (ClaimValue.boolean c.not_pep)
claims_of c ClaimName.jurisdiction_ok = some (ClaimValue.boolean c.jurisdiction_ok)
claims_of c ClaimName.liveness_ok = some (ClaimValue.boolean c.liveness_ok)

pub record Credential : Type 0 where
  pub schema_version : Text
  pub messages : List Text
  pub signature : Bytes
  pub issuer_public_key : Bytes
  pub claims : KycClaims

pub record Proof : Type 0 where
  pub schema_version : Text
  pub proof : Bytes
  pub disclosed_indexes : List Number
  pub disclosed_messages : List Text
  pub total_messages : Number
  pub binding : ProofBinding

pub data CredentialError : Type 0 where
  bad_secret_key wrong_schema_version expires_before_issue wrong_message_count : CredentialError
  no_public_key wrong_issuer_id signing_failed bad_signature_length : CredentialError
  derivation_failed proof_length negative_count no_message : CredentialError
  bad_schema : SchemaError → CredentialError
  bad_binding : BindingError → CredentialError
  bad_point : PointError → CredentialError

-- `a <= b`; a number that is no integer is taken for NaN, and `encodeClaims` refuses it in any case.
abbrev pub number_leb : Number → Number → Bool
number_leb (nat a) (nat b) = leb a b
number_leb (nat a) (negsuc b) = false
number_leb (negsuc a) (nat b) = true
number_leb (negsuc a) (negsuc b) = leb b a
number_leb non_integer b = false
number_leb a non_integer = false

module _ (hashes : Hashes) (bbs : Bbs) where
  abbrev pub issuer_id_from_public_key : Bytes → Text
  issuer_id_from_public_key key = hashes.bytes_to_hex (hashes.sha256 key)

  unfoldable pub issue : KycClaims → Bytes → Result CredentialError Credential
  issue claims secret_key = do
    guard (length secret_key == 32) bad_secret_key
    guard (equal claims.schema_version schema_version_text) wrong_schema_version
    guard (not (number_leb claims.expires_at claims.issued_at)) expires_before_issue
    messages ← rethrow_as (encode_claims (claims_of claims)) bad_schema
    guard (length messages == 12) wrong_message_count
    public_key ← or_throw (bbs.secret_key_to_public_key secret_key) no_public_key
    guard (equal claims.issuer_id (issuer_id_from_public_key public_key)) wrong_issuer_id
    signature ←
        or_throw
          (bbs.sign secret_key public_key (hashes.utf8_to_bytes credential_header)
            (map hashes.utf8_to_bytes messages))
          signing_failed
    guard (length signature == signature_bytes) bad_signature_length
    ok (record {
      schema_version = schema_version_text;
      messages = messages;
      signature = signature;
      issuer_public_key = public_key;
      claims = claims;
    })

  -- The messages at the disclosed indexes.
  unfoldable pub messages_at : List Text → List ℕ → Result CredentialError (List Text)
  messages_at messages [] = ok []
  messages_at messages (i ∷ indexes) = do
    message ← or_throw (get_elem? messages i) no_message
    rest ← messages_at messages indexes
    ok (message ∷ rest)

  unfoldable pub derive : Credential → List Number → ProofBinding → Result CredentialError Proof
  derive credential revealed binding = do
    guard (equal credential.schema_version schema_version_text) wrong_schema_version
    expiry ← rethrow_as (assert_valid_binding binding) bad_binding
    disclosed ← rethrow_as (normalize_indexes revealed) bad_schema
    header ← rethrow_as (presentation_header_for hashes binding) bad_binding
    proof ←
        or_throw
          (bbs.derive_proof credential.issuer_public_key credential.signature
            (hashes.utf8_to_bytes credential_header) (map hashes.utf8_to_bytes credential.messages)
            header disclosed)
          derivation_failed
    guard (leb (length disclosed) (length credential.messages)) negative_count
    expected ←
        rethrow_as (expected_proof_bytes (length credential.messages - length disclosed)) bad_point
    guard (length proof == expected) proof_length
    disclosed_messages ← messages_at credential.messages disclosed
    ok (record {
      schema_version = credential.schema_version;
      proof = proof;
      disclosed_indexes = map nat disclosed;
      disclosed_messages = disclosed_messages;
      total_messages = nat (length credential.messages);
      binding = binding;
    })

  -- `verifyCredential`: false where the library throws.
  unfoldable pub verify_credential : Credential → Bool
  verify_credential credential =
      elim (bbs.verify_signature credential.issuer_public_key credential.signature
        (hashes.utf8_to_bytes credential_header) (map hashes.utf8_to_bytes credential.messages)) [
          | none ↦ false
          | some verdict ↦ verdict
        ]

-- The names of the disclosed attributes; none where an index is not in the schema.
unfoldable pub disclosed_claim_names : List Number → Option (List ClaimName)
disclosed_claim_names [] = some []
disclosed_claim_names (raw ∷ indexes) =
    let rest = disclosed_claim_names indexes in
    elim (to_nat? raw) [
      | none ↦ none
      | some i ↦ elim (get_elem? claim_specs i) [
        | none ↦ none
        | some name ↦ elim rest [ none ↦ none | some names ↦ some (name ∷ names) ]
      ]
    ]
