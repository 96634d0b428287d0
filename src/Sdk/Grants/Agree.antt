-- ===== src/Sdk/Grants/Agree.antt =====
-- The bits of packages/sdk/src/attest/grants.ts against the claims of the credential.
use stellar_onramp.Base.{
  ℕ, ◌+◌, ◌*◌, Bool, true, false, ◌&&◌, List, [], ◌∷◌, ◌++◌, none, some, map, ◌==◌, ==_iff, ◌≡◌,
  refl, sym, ap, ◌∙◌, arith, inl, inr, Bool-cases, get_or, if◌then◌else◌, ok, ok-injective, Number,
  nat, Bytes, Text, codes, equal, equal_self, is_member,
}
use stellar_onramp.Identity.Hashes.{Hashes}
use stellar_onramp.Identity.Bbs.{Bbs}
use stellar_onramp.Identity.Schema.{
  ClaimName, bool, claim_kind, claim_index, claim_specs, name_text, ClaimValue, SchemaError,
  encode_claims, encode_claim, encode_value,
}
use stellar_onramp.Identity.Schema.RoundTrip.{encode_each-get, get_elem?-claim_specs}
use stellar_onramp.Identity.Binding.{ProofBinding}
use stellar_onramp.Identity.Credential.{KycClaims, claims_of, Credential, Proof, issue, derive}
use stellar_onramp.Identity.Credential.Issued.{issue-IsIssued, derive-IsDerived}
use stellar_onramp.Identity.Schema.{normalize_indexes}
use stellar_onramp.Gateway.Kyc.Claims.Bitmap.{bit_value}
use stellar_onramp.Sdk.Grants.{message_for, is_message, grant_all, derive_granted_claims}

message_for-disclosed :
    (index : ℕ) (messages : List Text) (disclosed : List ℕ)
    → message_for index (map nat disclosed) (map (λ i. get_or messages i []) disclosed)
      ≡ (if is_member index disclosed then some (get_or messages index []) else none)
unfolding message_for is_member
message_for-disclosed index messages [] = refl
message_for-disclosed index messages (i ∷ disclosed) = elim (Bool-cases (i == index)) [
  | inl t ↦
      let same = ap (λ j. some (get_or messages j [])) ((==_iff i index).0 t) in
      ground (arith, t, same)
  | inr f ↦ let rest = message_for-disclosed index messages disclosed in ground (arith, f, rest)
]

-- The message of a boolean claim.
abbrev true_message : ClaimName → Text
true_message name = name_text name ++ (b'=' ∷ codes "true")

equal-append : (prefix a b : Text) → equal (prefix ++ a) (prefix ++ b) ≡ equal a b
unfolding equal
equal-append [] a b = refl
equal-append (c ∷ prefix) a b = ground (arith, equal-append prefix a b)

encode_claim_bool :
    (name : ClaimName) (value : Bool) {message : Text}
    → claim_kind name ≡ bool
    → encode_claim name (ClaimValue.boolean value) ≡ ok message
    → equal message (true_message name) ≡ value
unfolding encode_claim encode_value equal
encode_claim_bool name true {message} kind h =
    let encoded : encode_value (claim_kind name) (ClaimValue.boolean true) ≡ ok (codes "true") =
      ap (λ k. encode_value k (ClaimValue.boolean true)) kind in
    let is : true_message name ≡ message =
      ok-injective {E = SchemaError} (ground (arith, encoded, h)) in
    ap (λ m. equal m (true_message name)) (sym is) ∙ equal_self (true_message name)
encode_claim_bool name false {message} kind h =
    let encoded : encode_value (claim_kind name) (ClaimValue.boolean false) ≡ ok (codes "false") =
      ap (λ k. encode_value k (ClaimValue.boolean false)) kind in
    let is : name_text name ++ (b'=' ∷ codes "false") ≡ message =
      ok-injective {E = SchemaError} (ground (arith, encoded, h)) in
    ap (λ m. equal m (true_message name)) (sym is)
    ∙ equal-append (name_text name) (b'=' ∷ codes "false") (b'=' ∷ codes "true")

-- The message of a boolean claim is found where the claim is disclosed, and says whether it is true.
granted :
    (claims : KycClaims) (name : ClaimName) (value : Bool) (disclosed : List ℕ)
    {messages : List Text}
    → encode_claims (claims_of claims) ≡ ok messages
    → claim_kind name ≡ bool
    → claims_of claims name ≡ some (ClaimValue.boolean value)
    → is_message
        (message_for
          (claim_index name)
          (map nat disclosed)
          (map (λ i. get_or messages i []) disclosed))
        (true_message name)
      ≡ (is_member (claim_index name) disclosed && value)
unfolding encode_claims
granted claims name value disclosed {messages} encoded kind given =
    let (v, given', message) =
      encode_each-get claim_specs (claims_of claims) (claim_index name) name encoded
        (get_elem?-claim_specs name) in
    let same : v ≡ ClaimValue.boolean value = cc in
    let says = encode_claim_bool name value kind (ap (encode_claim name) (sym same) ∙ message) in
    ap (λ o. is_message o (true_message name))
      (message_for-disclosed (claim_index name) messages disclosed)
    ∙ (elim (Bool-cases (is_member (claim_index name) disclosed)) [
      | inl t ↦ ground (arith, t, says)
      | inr f ↦ ground (arith, f)
    ])

-- The bits that are requested for a proof derived from a credential are those of the claims that the
-- proof discloses and that the credential says are true: bits 0 to 3, in the order of the contract.
pub derive_granted_claims-bits :
    (hashes : Hashes) (bbs : Bbs) (claims : KycClaims) (secret_key : Bytes)
    (credential : Credential) (revealed : List Number) (b : ProofBinding) (proof : Proof)
    (disclosed : List ℕ)
    → issue hashes bbs claims secret_key ≡ ok credential
    → derive hashes bbs credential revealed b ≡ ok proof
    → normalize_indexes revealed ≡ ok disclosed
    → derive_granted_claims proof
      ≡ bit_value (is_member 6 disclosed && claims.over18)
        + 2 * bit_value (is_member 7 disclosed && claims.over21)
        + 4 * bit_value (is_member 8 disclosed && claims.not_sanctioned)
        + 8 * bit_value (is_member 10 disclosed && claims.jurisdiction_ok)
unfolding derive_granted_claims grant_all claims_of
derive_granted_claims-bits hashes bbs claims secret_key credential revealed b proof disclosed
      issued_h derived_h normal =
    let issued = issue-IsIssued hashes bbs claims secret_key issued_h in
    let made = derive-IsDerived hashes bbs credential revealed b derived_h in
    let same : made.disclosed ≡ disclosed = ok-injective (sym made.normal ∙ normal) in
    let indexes : proof.disclosed_indexes ≡ map nat disclosed = made.carries ∙ ap (map nat) same in
    let messages : proof.disclosed_messages ≡ map (λ i. get_or credential.messages i []) disclosed =
      made.shows ∙ ap (map (λ i. get_or credential.messages i [])) same in
    let found = λ (name : ClaimName).
      ap
        (λ is.
          is_message (message_for (claim_index name) is proof.disclosed_messages)
            (true_message name))
        indexes
      ∙ ap
          (λ ms.
            is_message (message_for (claim_index name) (map nat disclosed) ms) (true_message name))
          messages in
    let adult =
      found ClaimName.over18
      ∙ granted claims ClaimName.over18 claims.over18 disclosed issued.encoded refl refl in
    let older =
      found ClaimName.over21
      ∙ granted claims ClaimName.over21 claims.over21 disclosed issued.encoded refl refl in
    let clean =
      found ClaimName.not_sanctioned
      ∙ granted claims ClaimName.not_sanctioned claims.not_sanctioned disclosed issued.encoded refl
          refl in
    let inside =
      found ClaimName.jurisdiction_ok
      ∙ granted claims ClaimName.jurisdiction_ok claims.jurisdiction_ok disclosed issued.encoded
          refl refl in
    ground (arith, adult, older, clean, inside)
