-- ===== src/Identity/Credential/Issued.antt =====
-- What `issue` and `derive` of packages/identity/src/credential.ts have done where they return.
use mathlib.Core.Path.{subst}
use stellar_onramp.Base.{
  ℕ, zero, suc, ◌-◌, ◌≤◌, not, List, [], ◌∷◌, some, map, leb, ◌==◌, length, get_elem?, get_or, ◌≡◌,
  refl, sym, ap, ◌∙◌, ok, Number, nat, Bytes, Text, equal, equal_iff, ==_iff, leb→le, guard-eq-ok,
  or_throw-eq-ok, rethrow_as-eq-ok, >>=-eq-ok, ok-injective, rethrow_as,
}
use stellar_onramp.Identity.Hashes.{Hashes}
use stellar_onramp.Identity.Bbs.{Bbs}
use stellar_onramp.Identity.Points.{signature_bytes, expected_proof_bytes}
use stellar_onramp.Identity.Schema.{encode_claims, normalize_indexes}
use stellar_onramp.Identity.Binding.{ProofBinding, assert_valid_binding, presentation_header_for}
use stellar_onramp.Identity.Credential.{
  schema_version_text, credential_header, KycClaims, claims_of, Credential, Proof, bad_secret_key,
  wrong_schema_version, expires_before_issue, wrong_message_count, no_public_key, wrong_issuer_id,
  signing_failed, bad_signature_length, derivation_failed, proof_length, negative_count, no_message,
  bad_schema, bad_binding, bad_point, number_leb, issuer_id_from_public_key, issue, messages_at,
  derive,
}

-- The credential carries the messages of the claims, signed, and names the key that signed them.
pub record IsIssued (hashes : Hashes) (bbs : Bbs) (claims : KycClaims) (secret_key : Bytes)
    (credential : Credential) : Type 0 where
  pub of_version : credential.schema_version ≡ schema_version_text
  pub carries_claims : credential.claims ≡ claims
  pub claims_version : claims.schema_version ≡ schema_version_text
  pub encoded : encode_claims (claims_of claims) ≡ ok credential.messages
  pub twelve : length credential.messages ≡ 12
  pub key : bbs.secret_key_to_public_key secret_key ≡ some credential.issuer_public_key
  pub names_key :
      claims.issuer_id ≡ issuer_id_from_public_key hashes bbs credential.issuer_public_key
  pub signed :
      bbs.sign secret_key credential.issuer_public_key
        (hashes.utf8_to_bytes credential_header)
        (map hashes.utf8_to_bytes credential.messages)
      ≡ some credential.signature

pub issue-IsIssued :
    (hashes : Hashes) (bbs : Bbs) (claims : KycClaims) (secret_key : Bytes)
    {credential : Credential}
    → issue hashes bbs claims secret_key ≡ ok credential
    → IsIssued hashes bbs claims secret_key credential
unfolding issue
issue-IsIssued hashes bbs claims secret_key h =
    let (_, h₁) = guard-eq-ok (length secret_key == 32) bad_secret_key h in
    let (version, h₂) =
      guard-eq-ok (equal claims.schema_version schema_version_text) wrong_schema_version h₁ in
    let (_, h₃) =
      guard-eq-ok (not (number_leb claims.expires_at claims.issued_at)) expires_before_issue h₂ in
    let (messages, encoded, h₄) =
      >>=-eq-ok (rethrow_as (encode_claims (claims_of claims)) bad_schema) _ h₃ in
    let (twelve, h₅) = guard-eq-ok (length messages == 12) wrong_message_count h₄ in
    let (key, given, h₆) =
      or_throw-eq-ok (bbs.secret_key_to_public_key secret_key) no_public_key _ h₅ in
    let (names_key, h₇) =
      guard-eq-ok (equal claims.issuer_id (issuer_id_from_public_key hashes bbs key))
        wrong_issuer_id h₆ in
    let (signature, signed, h₈) =
      or_throw-eq-ok
        (bbs.sign secret_key key (hashes.utf8_to_bytes credential_header)
          (map hashes.utf8_to_bytes messages))
        signing_failed _ h₇ in
    let (_, h₉) = guard-eq-ok (length signature == signature_bytes) bad_signature_length h₈ in
    subst (IsIssued hashes bbs claims secret_key) (ok-injective h₉) (record {
      of_version = refl;
      carries_claims = refl;
      claims_version = (equal_iff claims.schema_version schema_version_text).0 version;
      encoded = rethrow_as-eq-ok (encode_claims (claims_of claims)) _ encoded;
      twelve = (==_iff (length messages) 12).0 twelve;
      key = given;
      names_key = (equal_iff claims.issuer_id _).0 names_key;
      signed = signed;
    })

get_elem?-below :
    (messages : List Text) (i : ℕ) {message : Text}
    → get_elem? messages i ≡ some message
    → get_or messages i [] ≡ message
get_elem?-below [] i h = absurd (cc)
get_elem?-below (m ∷ messages) zero h = cc
get_elem?-below (m ∷ messages) (suc i) h = get_elem?-below messages i h

pub messages_at_sound :
    (hashes : Hashes) (bbs : Bbs) (messages : List Text) (indexes : List ℕ) {found : List Text}
    → messages_at hashes bbs messages indexes ≡ ok found
    → map (λ i. get_or messages i []) indexes ≡ found
unfolding messages_at
messages_at_sound hashes bbs messages [] h = ok-injective h
messages_at_sound hashes bbs messages (i ∷ indexes) h =
    let (message, at, h₁) = or_throw-eq-ok (get_elem? messages i) no_message _ h in
    let (rest, found, h₂) = >>=-eq-ok (messages_at hashes bbs messages indexes) _ h₁ in
    ap (λ m. m ∷ map (λ i. get_or messages i []) indexes) (get_elem?-below messages i at)
    ∙ ap (λ ms. message ∷ ms) (messages_at_sound hashes bbs messages indexes found)
    ∙ ok-injective h₂

-- The proof discloses the messages at the normalized indexes, and is bound to this binding.
pub record IsDerived (hashes : Hashes) (bbs : Bbs) (credential : Credential)
    (revealed : List Number) (binding_of : ProofBinding) (proof : Proof) : Type 0 where
  pub of_version : proof.schema_version ≡ credential.schema_version
  pub expiry : ℕ
  pub valid : assert_valid_binding binding_of ≡ ok expiry
  pub disclosed : List ℕ
  pub normal : normalize_indexes revealed ≡ ok disclosed
  pub header : Bytes
  pub headed : presentation_header_for hashes binding_of ≡ ok header
  pub derived :
      bbs.derive_proof credential.issuer_public_key credential.signature
        (hashes.utf8_to_bytes credential_header)
        (map hashes.utf8_to_bytes credential.messages)
        header
        disclosed
      ≡ some proof.proof
  pub few : length disclosed ≤ length credential.messages
  pub measured :
      expected_proof_bytes (length credential.messages - length disclosed) ≡ ok (length proof.proof)
  pub carries : proof.disclosed_indexes ≡ map nat disclosed
  pub shows : proof.disclosed_messages ≡ map (λ i. get_or credential.messages i []) disclosed
  pub total : proof.total_messages ≡ nat (length credential.messages)
  pub bound : proof.binding ≡ binding_of

pub derive-IsDerived :
    (hashes : Hashes) (bbs : Bbs) (credential : Credential) (revealed : List Number)
    (binding_of : ProofBinding) {proof : Proof}
    → derive hashes bbs credential revealed binding_of ≡ ok proof
    → IsDerived hashes bbs credential revealed binding_of proof
unfolding derive
derive-IsDerived hashes bbs credential revealed binding_of h =
    let (_, h₁) =
      guard-eq-ok (equal credential.schema_version schema_version_text) wrong_schema_version h in
    let (expiry, valid, h₂) =
      >>=-eq-ok (rethrow_as (assert_valid_binding binding_of) bad_binding) _ h₁ in
    let (disclosed, normal, h₃) =
      >>=-eq-ok (rethrow_as (normalize_indexes revealed) bad_schema) _ h₂ in
    let (header, headed, h₄) =
      >>=-eq-ok (rethrow_as (presentation_header_for hashes binding_of) bad_binding) _ h₃ in
    let (proof, derived, h₅) =
      or_throw-eq-ok
        (bbs.derive_proof credential.issuer_public_key credential.signature
          (hashes.utf8_to_bytes credential_header) (map hashes.utf8_to_bytes credential.messages)
          header disclosed)
        derivation_failed _ h₄ in
    let (few, h₆) =
      guard-eq-ok (leb (length disclosed) (length credential.messages)) negative_count h₅ in
    let (expected, measured, h₇) =
      >>=-eq-ok
        (rethrow_as (expected_proof_bytes (length credential.messages - length disclosed))
          bad_point)
        _ h₆ in
    let (fits, h₈) = guard-eq-ok (length proof == expected) proof_length h₇ in
    let (shown, at, h₉) = >>=-eq-ok (messages_at hashes bbs credential.messages disclosed) _ h₈ in
    subst (IsDerived hashes bbs credential revealed binding_of) (ok-injective h₉) (record {
      of_version = refl;
      expiry = expiry;
      valid = rethrow_as-eq-ok (assert_valid_binding binding_of) _ valid;
      disclosed = disclosed;
      normal = rethrow_as-eq-ok (normalize_indexes revealed) _ normal;
      header = header;
      headed = rethrow_as-eq-ok (presentation_header_for hashes binding_of) _ headed;
      derived = derived;
      few = leb→le (length disclosed) (length credential.messages) few;
      measured =
          rethrow_as-eq-ok (expected_proof_bytes (length credential.messages - length disclosed)) _
            measured
          ∙ ap ok (sym ((==_iff (length proof) expected).0 fits));
      carries = refl;
      shows = sym (messages_at_sound hashes bbs credential.messages disclosed at);
      total = refl;
      bound = refl;
    })
