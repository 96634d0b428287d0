-- ===== src/Gateway/Status/Credential/Verified.antt =====
-- What `verifyStatusListCredential` (packages/gateway/src/status/credential.ts) has checked of the
-- document that it returns.
use mathlib.Core.Path.{subst}
use stellar_onramp.Base.{
  true, [], ◌∷◌, ◌++◌, Option, none, some, ◌≡◌, refl, sym, ap, ◌∙◌, length, ok, rethrow_as,
  >>=-eq-ok, rethrow_as-eq-ok, Bytes, Text, codes, equal, equal_iff, ==_iff, ◌==◌, guard-eq-ok,
  ok-injective, err-ne-ok,
}
use stellar_onramp.Identity.Base64.{base64url_decode}
use stellar_onramp.Gateway.Status.CredentialError.{
  wrong_prefix, wrong_signature_length, bad_encoding,
}
use stellar_onramp.Gateway.Status.Canonical.{
  JsonValue, null, boolean, number, string, array, object, Members, Signatures, without,
  canonical_json, status_list_domain, status_list_signing_input,
}
use stellar_onramp.Gateway.Status.Credential.{
  Document, Expected, property, assert_document_shape, decode_proof_value, verify_proof,
  check_proof, verify_status_list_credential, method_agrees, is_text,
}
use stellar_onramp.Gateway.Status.Credential.Shaped.{
  is_text-eq, IsShaped, assert_document_shape-IsShaped,
}

-- A proof is of the pinned suite, and its value is a signature of the pinned key over the domain and
-- the digests of its own configuration and of the document without it.
pub record IsSigned (signatures : Signatures) (document : JsonValue) (proof : JsonValue)
    (expected : Expected) : Type 0 where
  pub proof_type : property (codes "type") proof ≡ some (string (codes "DataIntegrityProof"))
  pub suite :
      property (codes "cryptosuite") proof ≡ some (string (codes "stellaronramp-eddsa-jcs-2026"))
  pub purpose : property (codes "proofPurpose") proof ≡ some (string (codes "assertionMethod"))
  pub of_method :
      (method : Text)
      → expected.verification_method ≡ some method
      → property (codes "verificationMethod") proof ≡ some (string method)
  pub key_length : length expected.public_key_raw ≡ 32
  pub encoded : Text
  pub signature : Bytes
  pub value_h : property (codes "proofValue") proof ≡ some (string (b'u' ∷ encoded))
  pub decoded : base64url_decode encoded ≡ ok signature
  pub signature_length : length signature ≡ 64
  pub config : Text
  pub config_h :
      canonical_json signatures.stringify (without (codes "proofValue") proof) ≡ ok config
  pub unsigned : Text
  pub unsigned_h :
      canonical_json signatures.stringify (without (codes "proof") document) ≡ ok unsigned
  pub verifies :
      signatures.verify expected.public_key_raw
        (status_list_domain
          ++ (signatures.sha256 (signatures.utf8 config)
              ++ signatures.sha256 (signatures.utf8 unsigned)))
        signature
      ≡ true

-- The document is the object received, it names the pinned issuer, and its proof is signed.
pub record IsVerified (signatures : Signatures) (value : JsonValue) (expected : Expected)
    (doc : Document) : Type 0 where
  pub bag : Members
  pub received : value ≡ object bag
  pub shaped : IsShaped bag doc
  pub from_issuer : doc.issuer ≡ expected.issuer
  pub proof : JsonValue
  pub carried : doc.proof ≡ some proof
  pub is_signed : IsSigned signatures value proof expected

method_agrees-eq :
    (method : Option Text) (actual : Option JsonValue)
    → method_agrees method actual ≡ true
    → (m : Text) → method ≡ some m
    → actual ≡ some (string m)
unfolding method_agrees
method_agrees-eq none actual h m is = absurd (cc)
method_agrees-eq (some method) actual h m is =
    let same : method ≡ m = cc in is_text-eq actual method h ∙ ap (λ t. some (string t)) same

decode_proof_value_sound :
    (value : Option JsonValue) {signature : Bytes}
    → decode_proof_value value ≡ ok signature
    → (encoded : Text) × (value ≡ some (string (b'u' ∷ encoded)))
      × (base64url_decode encoded ≡ ok signature)
      × (length signature ≡ 64)
unfolding decode_proof_value
decode_proof_value_sound (some (string (prefix ∷ rest))) h =
    let (multibase, h₁) = guard-eq-ok (prefix == b'u') wrong_prefix h in
    let (bytes, decodes, h₂) = >>=-eq-ok (rethrow_as (base64url_decode rest) bad_encoding) _ h₁ in
    let (long, h₃) = guard-eq-ok (length bytes == 64) wrong_signature_length h₂ in
    let same = ok-injective h₃ in
    (
      rest,
      ap (λ c. some (string (c ∷ rest))) ((==_iff prefix b'u').0 multibase),
      rethrow_as-eq-ok (base64url_decode rest) _ decodes ∙ ap ok same,
      ap length (sym same) ∙ (==_iff (length bytes) 64).0 long,
    )
decode_proof_value_sound (some (string [])) h = absurd (err-ne-ok h)
decode_proof_value_sound none h = absurd (err-ne-ok h)
decode_proof_value_sound (some null) h = absurd (err-ne-ok h)
decode_proof_value_sound (some (boolean b)) h = absurd (err-ne-ok h)
decode_proof_value_sound (some (number n)) h = absurd (err-ne-ok h)
decode_proof_value_sound (some (array values)) h = absurd (err-ne-ok h)
decode_proof_value_sound (some (object bag)) h = absurd (err-ne-ok h)

signing_input_sound :
    (signatures : Signatures) (document proof_config : JsonValue) {input : Bytes}
    → status_list_signing_input signatures document proof_config ≡ ok input
    → (config : Text) × (unsigned : Text) × (canonical_json signatures.stringify proof_config
        ≡ ok config)
      × (canonical_json signatures.stringify (without (codes "proof") document) ≡ ok unsigned)
      × (input
          ≡ status_list_domain
            ++ (signatures.sha256 (signatures.utf8 config)
                ++ signatures.sha256 (signatures.utf8 unsigned)))
unfolding status_list_signing_input
signing_input_sound signatures document proof_config h =
    let (config, config_h, h₁) = >>=-eq-ok (canonical_json signatures.stringify proof_config) _ h in
    let (unsigned, unsigned_h, h₂) =
      >>=-eq-ok (canonical_json signatures.stringify (without (codes "proof") document)) _ h₁ in
    (config, unsigned, config_h, unsigned_h, sym (ok-injective h₂))

verify_proof-IsSigned :
    (signatures : Signatures) (expected : Expected) (doc : Document) (proof : JsonValue)
    {result : Document}
    → verify_proof signatures doc proof expected ≡ ok result
    → (doc ≡ result) × (doc.issuer ≡ expected.issuer) × IsSigned signatures doc.raw proof expected
unfolding verify_proof
verify_proof-IsSigned signatures expected doc proof h =
    let (type_h, h₁) =
      guard-eq-ok (is_text (property (codes "type") proof) (codes "DataIntegrityProof")) _ h in
    let (suite, h₂) =
      guard-eq-ok
        (is_text (property (codes "cryptosuite") proof) (codes "stellaronramp-eddsa-jcs-2026")) _
        h₁ in
    let (purpose, h₃) =
      guard-eq-ok (is_text (property (codes "proofPurpose") proof) (codes "assertionMethod")) _
        h₂ in
    let (from_issuer, h₄) = guard-eq-ok (equal doc.issuer expected.issuer) _ h₃ in
    let (method, h₅) =
      guard-eq-ok
        (method_agrees expected.verification_method (property (codes "verificationMethod") proof)) _
        h₄ in
    let (key, h₆) = guard-eq-ok (length expected.public_key_raw == 32) _ h₅ in
    let (signature, carried, h₇) =
      >>=-eq-ok (decode_proof_value (property (codes "proofValue") proof)) _ h₆ in
    let (input, over, h₈) =
      >>=-eq-ok (status_list_signing_input signatures doc.raw (without (codes "proofValue") proof))
        _ h₇ in
    let (verifies, h₉) =
      guard-eq-ok (signatures.verify expected.public_key_raw input signature) _ h₈ in
    let (encoded, value_h, decoded, long) =
      decode_proof_value_sound (property (codes "proofValue") proof) carried in
    let (config, unsigned, config_h, unsigned_h, input_h) =
      signing_input_sound signatures doc.raw (without (codes "proofValue") proof) over in
    (
      ok-injective h₉,
      (equal_iff doc.issuer expected.issuer).0 from_issuer,
      record {
        proof_type = is_text-eq (property (codes "type") proof) (codes "DataIntegrityProof") type_h;
        suite =
            is_text-eq (property (codes "cryptosuite") proof) (codes "stellaronramp-eddsa-jcs-2026")
              suite;
        purpose =
            is_text-eq (property (codes "proofPurpose") proof) (codes "assertionMethod") purpose;
        of_method = method_agrees-eq expected.verification_method _ method;
        key_length = (==_iff _ 32).0 key;
        encoded = encoded;
        signature = signature;
        value_h = value_h;
        decoded = decoded;
        signature_length = long;
        config = config;
        config_h = config_h;
        unsigned = unsigned;
        unsigned_h = unsigned_h;
        verifies =
            ap (λ i. signatures.verify expected.public_key_raw i signature) (sym input_h)
            ∙ verifies;
      },
    )

check_proof_sound :
    (signatures : Signatures) (expected : Expected) (doc : Document) (field : Option JsonValue)
    {result : Document}
    → check_proof signatures doc field expected ≡ ok result
    → (proof : JsonValue) × (field ≡ some proof)
      × (verify_proof signatures doc proof expected ≡ ok result)
unfolding check_proof
check_proof_sound signatures expected doc none h = absurd (err-ne-ok h)
check_proof_sound signatures expected doc (some null) h = absurd (err-ne-ok h)
check_proof_sound signatures expected doc (some (boolean b)) h = (_, refl, h)
check_proof_sound signatures expected doc (some (number n)) h = (_, refl, h)
check_proof_sound signatures expected doc (some (string text)) h = (_, refl, h)
check_proof_sound signatures expected doc (some (array values)) h = (_, refl, h)
check_proof_sound signatures expected doc (some (object bag)) h = (_, refl, h)

-- Every document that `verifyStatusListCredential` returns is verified. It is the object received,
-- with the id, the dates, and the list's purpose and encoding that the object says, and it names the
-- pinned issuer. Its proof is of the pinned type, suite, purpose and, where one is pinned, method; and
-- its value is a signature of 64 bytes that the pinned key verifies over the domain tag, the digest of
-- the canonical proof without that value, and the digest of the canonical object without the proof.
pub verify-IsVerified :
    (signatures : Signatures) (value : JsonValue) (expected : Expected) {doc : Document}
    → verify_status_list_credential signatures value expected ≡ ok doc
    → IsVerified signatures value expected doc
unfolding verify_status_list_credential
verify-IsVerified signatures value expected h =
    let (doc, shape, h₁) = >>=-eq-ok (assert_document_shape value) _ h in
    let (bag, received, shaped) = assert_document_shape-IsShaped value shape in
    let (proof, carried, h₂) = check_proof_sound signatures expected doc doc.proof h₁ in
    let (same, from_issuer, is_signed) = verify_proof-IsSigned signatures expected doc proof h₂ in
    subst (IsVerified signatures value expected) same (record {
      bag = bag;
      received = received;
      shaped = shaped;
      from_issuer = from_issuer;
      proof = proof;
      carried = carried;
      is_signed =
          subst (λ raw. IsSigned signatures raw proof expected) (shaped.raw_h ∙ sym received)
            is_signed;
    })
