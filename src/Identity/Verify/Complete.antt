-- ===== src/Identity/Verify/Complete.antt =====
-- `check_presentation` of Verify.antt on a proof that `derive` made of a credential that `issue` made.
use mathlib.Core.Path.{subst}
use stellar_onramp.Base.{
  ℕ, zero, suc, ◌+◌, ◌-◌, ◌<◌, ◌≤◌, Bool, true, List, [], ◌∷◌, Option, none, some, map, ltb, ◌==◌,
  length, length-map, get_or, ◌≡◌, refl, sym, ap, ◌∙◌, arith, Result-cases, inl, inr, ok, Number,
  nat, Bytes, Text, equal, equal_self, ==_iff, is_ascending, is_above, are_below, sort,
}
use stellar_onramp.Identity.Hashes.{Hashes}
use stellar_onramp.Identity.Bbs.{Bbs, IsBbs}
use stellar_onramp.Identity.Points.{
  expected_proof_bytes, undisclosed_count_from_proof_bytes, undisclosed_count-expected,
}
use stellar_onramp.Identity.Schema.{
  ClaimName, claim_index, encode_claims, decode_disclosed, assert_no_pii_disclosed,
}
use stellar_onramp.Identity.Schema.Indexes.{name_at, normalize_indexes_sound, indexes_of-names}
use stellar_onramp.Identity.Schema.RoundTrip.{Shows, decode_disclosed-encode_claims}
use stellar_onramp.Identity.Binding.{
  ProofBinding, assert_valid_binding, canonical_binding_bytes, binding_digest, binding_digest_hex,
}
use stellar_onramp.Identity.Credential.{
  KycClaims, claims_of, Credential, Proof, credential_header, schema_version_text,
}
use stellar_onramp.Identity.Credential.Issued.{IsIssued, IsDerived}
use stellar_onramp.Identity.Verify.Policy.{Decoded}
use stellar_onramp.Identity.Verify.{
  indexes, VerifyOptions, check_binding, check_ledger, follows, check_indexes, check_shape,
  asked_indexes, same_indexes, check_asked, check_length, check_proof, check_presentation,
}

-- The index before, if any, is below the first.
abbrev continues : Option ℕ → List ℕ → Bool
continues none list = is_ascending list
continues (some previous) list = is_above previous list

continues-follows :
    (previous : Option ℕ) (i : ℕ) (list : List ℕ)
    → continues previous (i ∷ list) ≡ true
    → (follows previous i ≡ true) × (is_above i list ≡ true)
unfolding is_ascending is_above
continues-follows none i list h = (refl, h)
continues-follows (some previous) i list h = (ground (arith, h), ground (arith, h))

check_indexes-ascending :
    (previous : Option ℕ) (list : List ℕ)
    → continues previous list ≡ true
    → are_below 12 list ≡ true
    → check_indexes previous (map nat list) ≡ ok list
unfolding check_indexes are_below
check_indexes-ascending previous [] a b = refl
check_indexes-ascending previous (i ∷ list) a b =
    let (after, above) = continues-follows previous i list a in
    let rest = check_indexes-ascending (some i) list above (ground (arith, b)) in
    let small : ltb i 12 ≡ true = ground (arith, b) in ground (arith, after, small, rest)

asked_indexes-below :
    (want : List ℕ) → are_below 12 want ≡ true → asked_indexes (map nat want) ≡ ok want
unfolding asked_indexes are_below
asked_indexes-below [] h = refl
asked_indexes-below (i ∷ want) h =
    let rest = asked_indexes-below want (ground (arith, h)) in
    let small : ltb i 12 ≡ true = ground (arith, h) in ground (arith, small, rest)

same_indexes_self : (is : List ℕ) → same_indexes is is ≡ true
unfolding same_indexes
same_indexes_self [] = refl
same_indexes_self (i ∷ is) = ground (arith, same_indexes_self is)

-- A list of indexes that was asked for, and its normal form.
check_asked-normal :
    (want disclosed : List ℕ)
    → are_below 12 want ≡ true
    → sort want ≡ disclosed
    → check_asked (some (indexes (map nat want))) disclosed ≡ ok tt
unfolding check_asked
check_asked-normal want disclosed below sorted =
    let asked = asked_indexes-below want below in
    let same : same_indexes (sort want) disclosed ≡ true =
      ap (same_indexes (sort want)) (sym sorted) ∙ same_indexes_self (sort want) in
    ground (arith, asked, same)

binding_digest_hex-valid :
    (hashes : Hashes) (b : ProofBinding) {expiry : ℕ}
    → assert_valid_binding b ≡ ok expiry
    → (digest : Text) × (binding_digest_hex hashes b ≡ ok digest)
unfolding binding_digest_hex binding_digest canonical_binding_bytes
binding_digest_hex-valid hashes b valid = elim (Result-cases (binding_digest_hex hashes b)) [
  | inl made ↦ made
  | inr (e, failed) ↦ absurd (ground (arith, valid, failed))
]

check_binding-same :
    (hashes : Hashes) (b : ProofBinding) {expiry : ℕ}
    → assert_valid_binding b ≡ ok expiry
    → check_binding hashes b b ≡ ok expiry
unfolding check_binding
check_binding-same hashes b valid =
    let (digest, made) = binding_digest_hex-valid hashes b valid in
    let self = equal_self digest in ground (arith, valid, made, self)

get_or-map :
    (f : Text → Bytes) (messages : List Text) (i : ℕ)
    → i < length messages
    → get_or (map f messages) i [] ≡ f (get_or messages i [])
get_or-map f [] i h = elim h [ ]
get_or-map f (m ∷ messages) zero h = refl
get_or-map f (m ∷ messages) (suc i) h = get_or-map f messages i (omega arith)

-- The bytes of the messages at these indexes.
bytes_at :
    (f : Text → Bytes) (messages : List Text) (is : List ℕ)
    → are_below (length messages) is ≡ true
    → map (λ i. get_or (map f messages) i []) is ≡ map f (map (λ i. get_or messages i []) is)
unfolding are_below
bytes_at f messages [] h = refl
bytes_at f messages (i ∷ is) h =
    ap (λ m. m ∷ map (λ i. get_or (map f messages) i []) is)
      (get_or-map f messages i (ground (arith, h)))
    ∙ ap (λ ms. f (get_or messages i []) ∷ ms) (bytes_at f messages is (ground (arith, h)))

map-names :
    (messages : List Text) (names : List ClaimName)
    → map (λ name. get_or messages (claim_index name) []) names
      ≡ map (λ i. get_or messages i []) (map claim_index names)
map-names messages [] = refl
map-names messages (n ∷ names) =
    ap (λ ms. get_or messages (claim_index n) [] ∷ ms) (map-names messages names)

-- The attributes that a proof discloses decode to the values in the claims.
decode-shown :
    (claims : KycClaims) (disclosed : List ℕ) {messages : List Text}
    → encode_claims (claims_of claims) ≡ ok messages
    → are_below 12 disclosed ≡ true
    → (out : Decoded) × (decode_disclosed disclosed (map (λ i. get_or messages i []) disclosed)
        ≡ ok out)
      × Shows (claims_of claims) (map name_at disclosed) out
decode-shown claims disclosed {messages} encoded below =
    let names = map name_at disclosed in
    let (out, reads, shows) = decode_disclosed-encode_claims (claims_of claims) names encoded in
    let is = indexes_of-names disclosed below in
    (
      out,
      ap (λ js. decode_disclosed js (map (λ i. get_or messages i []) js)) (sym is)
          ∙ ap (decode_disclosed (map claim_index names)) (sym (map-names messages names))
          ∙ reads,
      shows,
    )

check_shape-ascending :
    (proof : Proof) (disclosed : List ℕ)
    → proof.total_messages ≡ nat 12
    → proof.disclosed_indexes ≡ map nat disclosed
    → length proof.disclosed_messages ≡ length disclosed
    → is_ascending disclosed ≡ true
    → are_below 12 disclosed ≡ true
    → assert_no_pii_disclosed disclosed ≡ ok tt
    → check_shape proof ≡ ok disclosed
unfolding check_shape
check_shape-ascending proof disclosed total carries counted ascending below clean =
    let even : (length proof.disclosed_indexes == length proof.disclosed_messages) ≡ true =
      (==_iff (length proof.disclosed_indexes) (length proof.disclosed_messages)).1
        (ap length carries ∙ length-map nat disclosed ∙ sym counted) in
    let checked : check_indexes none proof.disclosed_indexes ≡ ok disclosed =
      ap (check_indexes none) carries ∙ check_indexes-ascending none disclosed ascending below in
    ground (arith, total, even, checked, clean)

check_length-expected :
    (proof : Bytes) (disclosed : List ℕ)
    → length disclosed ≤ 12
    → undisclosed_count_from_proof_bytes (length proof) ≡ ok (12 - length disclosed)
    → check_length proof disclosed ≡ ok tt
unfolding check_length
check_length-expected proof disclosed few counted =
    let twelve : (12 - length disclosed + length disclosed == 12) ≡ true = ground (arith, few) in
    ground (arith, counted, twelve)

check_proof_complete :
    (hashes : Hashes) (bbs : Bbs) (credential : Credential) (secret_key : Bytes)
    (claims : KycClaims) (revealed : List Number) (b : ProofBinding) (proof : Proof)
    → IsBbs bbs
    → IsIssued hashes bbs claims secret_key credential
    → (made : IsDerived hashes bbs credential revealed b proof) → are_below 12 made.disclosed ≡ true
    → check_proof hashes bbs proof made.disclosed credential.issuer_public_key b ≡ ok tt
unfolding check_proof
check_proof_complete hashes bbs credential secret_key claims revealed b proof lawful issued made
      below =
    let complete =
      lawful.complete secret_key credential.issuer_public_key
        (hashes.utf8_to_bytes credential_header) made.header
        (map hashes.utf8_to_bytes credential.messages) made.disclosed issued.key issued.signed
        made.derived in
    let bytes =
      bytes_at hashes.utf8_to_bytes credential.messages made.disclosed
        (ap (λ n. are_below n made.disclosed) issued.twelve ∙ below) in
    let verifies : bbs.verify_proof credential.issuer_public_key proof.proof
          (hashes.utf8_to_bytes credential_header) made.header
          (map hashes.utf8_to_bytes proof.disclosed_messages) made.disclosed
        ≡ some true =
      ap
        (λ ms.
          bbs.verify_proof credential.issuer_public_key proof.proof
            (hashes.utf8_to_bytes credential_header) made.header ms made.disclosed)
        (ap (map hashes.utf8_to_bytes) made.shows ∙ sym bytes)
      ∙ complete in
    let headed = made.headed in ground (arith, headed, verifies)

-- A proof derived from a credential that was issued passes the checks on presentations, for its own
-- binding in time, under the key of its issuer, where what was revealed is asked for.
pub check_presentation_complete :
    (hashes : Hashes) (bbs : Bbs) (claims : KycClaims) (secret_key : Bytes)
    (credential : Credential) (revealed : List Number) (b : ProofBinding) (proof : Proof)
    (options : VerifyOptions)
    → IsBbs bbs
    → IsIssued hashes bbs claims secret_key credential
    → (made : IsDerived hashes bbs credential revealed b proof)
    → check_ledger options.current_ledger made.expiry ≡ ok tt
    → options.expected_disclosed_indexes ≡ some (indexes revealed)
    → (decoded : Decoded) × (check_presentation hashes bbs proof credential.issuer_public_key b
          options
        ≡ ok decoded)
      × Shows (claims_of claims) (map name_at made.disclosed) decoded
      × (are_below 12 made.disclosed ≡ true)
unfolding check_presentation
check_presentation_complete hashes bbs claims secret_key credential revealed b proof options lawful
      issued made timely asks =
    let disclosed = made.disclosed in
    let (want, raws, want_below, sorted, ascending, below, clean) =
      normalize_indexes_sound revealed made.normal in
    let (decoded, reads, shows) = decode-shown claims disclosed issued.encoded below in
    let version : equal proof.schema_version schema_version_text ≡ true =
      ap (λ t. equal t schema_version_text) (made.of_version ∙ issued.of_version)
      ∙ equal_self schema_version_text in
    let bound : check_binding hashes proof.binding b ≡ ok made.expiry =
      ap (λ c. check_binding hashes c b) made.bound ∙ check_binding-same hashes b made.valid in
    let counted : length proof.disclosed_messages ≡ length disclosed =
      ap length made.shows ∙ length-map (λ i. get_or credential.messages i []) disclosed in
    let shaped =
      check_shape-ascending proof disclosed (made.total ∙ ap nat issued.twelve) made.carries counted
        ascending below clean in
    let asked : check_asked options.expected_disclosed_indexes disclosed ≡ ok tt =
      ap (λ o. check_asked o disclosed) (asks ∙ ap (λ l. some (indexes l)) raws)
      ∙ check_asked-normal want disclosed want_below sorted in
    let few : length disclosed ≤ 12 = subst (λ n. length disclosed ≤ n) issued.twelve made.few in
    let measured = check_length-expected proof.proof disclosed few (
      undisclosed_count-expected (12 - length disclosed) (
        ap (λ n. expected_proof_bytes (n - length disclosed)) (sym issued.twelve)
        ∙ made.measured)) in
    let read : decode_disclosed disclosed proof.disclosed_messages ≡ ok decoded =
      ap (decode_disclosed disclosed) made.shows ∙ reads in
    let proven =
      check_proof_complete hashes bbs credential secret_key claims revealed b proof lawful issued
        made below in
    (
      decoded,
      ground (arith, version, bound, timely, shaped, asked, measured, read, proven),
      shows,
      below,
    )
