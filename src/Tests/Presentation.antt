-- ===== src/Tests/Presentation.antt =====
-- Runs of issuance, presentation and verification in packages/identity/src.
use stellar_onramp.Base.{
  ℕ, zero, suc, ◌+◌, ◌*◌, ◌-◌, ◌/◌, ◌%◌, ltb, if◌then◌else◌, ◌<◌, ◌≡◌, refl, ap, ◌∙◌, arith, true,
  false, List, [], ◌∷◌, some, map, All, replicate, length, get_elem?, ok, err, nat, Bytes, Text,
  codes, equal, all_hex, is_hex32, includes, IsOneOf, is_member, insert, sort,
}
use stellar_onramp.Identity.Hashes.{Hashes, IsNoble}
use stellar_onramp.Identity.Bbs.{Bbs, IsBbs}
use stellar_onramp.Identity.Gzip.{join}
use stellar_onramp.Identity.Points.{expected_proof_bytes}
use stellar_onramp.Identity.Decimal.{digits_of}
use stellar_onramp.Identity.Schema.{
  ClaimName, ClaimValue, name_text, encode_claims, encode_each, encode_claim, encode_value,
  has_equals, normalize_indexes, collect_indexes, assert_no_pii_disclosed,
}
use stellar_onramp.Identity.Schema.RoundTrip.{Shows}
use stellar_onramp.Identity.Binding.{
  ProofBinding, all_base32, assert_valid_binding, len_prefixed, canonical_binding_bytes,
  binding_digest, binding_digest_hex, presentation_header_for,
}
use stellar_onramp.Identity.ReplayGuard.{new_guard, answers}
use stellar_onramp.Identity.ReplayGuard.FirstUse.{answers-first_use, answer_after}
use stellar_onramp.Identity.Base64.{multibase_decode, base64url_decode, run, finish, decoded_length}
use stellar_onramp.Identity.Bits.{status_at, read_status, bit_at}
use stellar_onramp.Identity.Gzip.{gunzip, read_capped}
use stellar_onramp.Identity.StatusList.{object, revocation, decode_status_list}
use stellar_onramp.Identity.StatusList.Messages.{assert_status_message}
use stellar_onramp.Identity.Schema.Indexes.{name_at}
use stellar_onramp.Identity.Verify.{VerifyOptions, judge, check_presentation, verify_detailed}
use stellar_onramp.Identity.Verify.Accepted.{IsAccepted, verify_detailed-IsAccepted}
use stellar_onramp.Identity.Verify.Replay.{verify_detailed-kept, verify_detailed-once}
use stellar_onramp.Identity.Binding.Canonical.{canonical_binding_bytes-injective}
use stellar_onramp.Identity.Predicates.{
  Predicate, is_over18, is_not_sanctioned, same_name, claim_predicate, expected_of, expect_value,
  merge_expected, add_indexes, merge_all, join_with, all_of, is_name_among, unique_names,
  claim_predicates, gate_predicate_for, discloses, with_predicate, check_predicate,
}
use stellar_onramp.Identity.Predicates.Merge.{IsMerge, all_of-IsMerge}
use stellar_onramp.Identity.Predicates.Gate.{gate_predicate_for-demands}
use stellar_onramp.Identity.Predicates.Checked.{AllShown, check_predicate_sound}
use stellar_onramp.Identity.Predicates.Countries.{
  country_code, country_codes, normalize, missing, is_text_below, insert_text, sort_unique,
  country_allowed, country_allowed-covers,
}
use stellar_onramp.Identity.Verify.Policy.{Decoded, schema_version}
use stellar_onramp.Identity.Verify.Honest.{strict_options, verify_detailed_complete}
use stellar_onramp.Tests.Identity.{zeros, zero_list, zero_bits}
use stellar_onramp.Identity.Credential.{
  KycClaims, claims_of, Credential, Proof, issue, messages_at, derive,
}

-- The list cut or filled up to this length.
abbrev fit : ℕ → Bytes → Bytes
fit zero bytes = []
fit (suc n) [] = 0 ∷ fit n []
fit (suc n) (b ∷ bytes) = b ∷ fit n bytes

length-fit : (n : ℕ) (bytes : Bytes) → length (fit n bytes) ≡ n
length-fit zero bytes = refl
length-fit (suc n) [] = ap suc (length-fit n [])
length-fit (suc n) (b ∷ bytes) = ap suc (length-fit n bytes)

-- Two digits in one number.
abbrev pack : Text → Bytes
pack [] = []
pack (c ∷ []) = []
pack (c ∷ d ∷ text) = (c * 128 + d) ∷ pack text

length-pack : (text : Text) (n : ℕ) → length text ≡ n + n → length (pack text) ≡ n
length-pack [] zero h = refl
length-pack [] (suc n) h = absurd (ground (arith, h))
length-pack (c ∷ []) zero h = absurd (ground (arith, h))
length-pack (c ∷ []) (suc n) h = absurd (omega (arith, h))
length-pack (c ∷ d ∷ text) zero h = absurd (ground (arith, h))
length-pack (c ∷ d ∷ text) (suc n) h = ap suc (length-pack text n (omega (arith, h)))

pack-injective :
    (a b : Text) (n : ℕ)
    → length a ≡ n + n
    → length b ≡ n + n
    → all_hex a ≡ true
    → all_hex b ≡ true
    → pack a ≡ pack b
    → a ≡ b
unfolding all_hex
pack-injective [] [] n la lb ha hb h = refl
pack-injective [] (d ∷ b) n la lb ha hb h = absurd (omega (arith, la, lb))
pack-injective (c ∷ a) [] n la lb ha hb h = absurd (omega (arith, la, lb))
pack-injective (c ∷ []) (d ∷ b) n la lb ha hb h = absurd (omega (arith, la))
pack-injective (c ∷ c' ∷ a) (d ∷ []) n la lb ha hb h = absurd (omega (arith, lb))
pack-injective (c ∷ c' ∷ a) (d ∷ d' ∷ b) zero la lb ha hb h = absurd (ground (arith, la))
pack-injective (c ∷ c' ∷ a) (d ∷ d' ∷ b) (suc n) la lb ha hb h =
    let rest =
      pack-injective a b n (omega (arith, la)) (omega (arith, lb)) (ground (arith, ha))
        (ground (arith, hb)) (tails h) in
    let first : c * 128 + c' ≡ d * 128 + d' = heads h in
    let small : c' < 128 = ground (arith, ha) in
    let small' : d' < 128 = ground (arith, hb) in
    let high : c ≡ d = omega (arith, first, small, small') in
    let low : c' ≡ d' = omega (arith, first, high) in
    ap (λ k. k ∷ c' ∷ a) high ∙ ap (λ k. d ∷ k ∷ a) low ∙ ap (λ l. d ∷ d' ∷ l) rest
  where
    heads : {x y : ℕ} {xs ys : Bytes} → (x ∷ xs) ≡ (y ∷ ys) → x ≡ y
    heads e = cc

    tails : {x y : ℕ} {xs ys : Bytes} → (x ∷ xs) ≡ (y ∷ ys) → xs ≡ ys
    tails e = cc

abbrev digit : ℕ → ℕ
digit n = if ltb n 10 then b'0' + n else b'a' + (n - 10)

abbrev unpack : Bytes → Text
unpack [] = []
unpack (b ∷ bytes) = digit (b / 16 % 16) ∷ digit (b % 16) ∷ unpack bytes

-- A digest that keeps the first 32 bytes; hexadecimal digits in pairs; text as it is.
abbrev pub hashes : Hashes
hashes = record {
  sha256 = fit 32;
  utf8_to_bytes = λ text. text;
  hex_to_bytes = pack;
  bytes_to_hex = unpack;
  concat_bytes = join;
}

length-hex32 :
    (text : Text) → is_hex32 text ≡ true → (length text ≡ 32 + 32) × (all_hex text ≡ true)
length-hex32 text h = (ground (arith, h), ground (arith, h))

hashes-IsNoble : IsNoble hashes
hashes-IsNoble = record {
  digest_length = length-fit 32;
  utf8_ascii = λ text h. refl;
  hex_length = λ text h. length-pack text 32 (length-hex32 text h).0;
  hex_injective = λ a b ha hb h.
      pack-injective a b 32 (length-hex32 a ha).0 (length-hex32 b hb).0 (length-hex32 a ha).1
        (length-hex32 b hb).1 h;
  concat_join = λ parts. refl;
}

-- A scheme whose proofs are as long as they must be.
abbrev pub bbs : Bbs
bbs = record {
  secret_key_to_public_key = λ sk. some sk;
  sign = λ sk pk header messages. some (fit 80 pk);
  verify_signature = λ pk signature header messages. some true;
  derive_proof = λ pk signature header messages ph indexes.
      some (fit (272 + 32 * (length messages - length indexes)) signature);
  verify_proof = λ pk proof header ph messages indexes. some true;
}

bbs-IsBbs : IsBbs bbs
bbs-IsBbs = record { complete = λ sk pk header ph messages indexes key signed derived. refl }

abbrev pub secret_key : Bytes
secret_key = replicate 32 5

abbrev pub kyc_claims : KycClaims
kyc_claims = record {
  schema_version = codes "1";
  issuer_id = unpack secret_key;
  revocation_index = nat 7;
  issued_at = nat 1000;
  expires_at = nat 2000;
  subject_binding = replicate 64 b'0';
  over18 = true;
  over21 = false;
  not_sanctioned = true;
  not_pep = true;
  jurisdiction_ok = true;
  liveness_ok = true;
}

abbrev pub nonce_binding : ProofBinding
nonce_binding = record {
  nonce = replicate 64 b'0';
  wallet_address = b'G' ∷ replicate 55 b'A';
  contract_id = b'C' ∷ replicate 55 b'A';
  network_passphrase = codes "Test";
  ledger_expiry = nat 500;
}

pub issued : (credential : Credential) × (issue hashes bbs kyc_claims secret_key ≡ ok credential)
unfolding issue encode_claims encode_each encode_claim encode_value has_equals all_hex digits_of
    equal claims_of
issued = (_, refl)

abbrev pub audit : List ℕ
audit = 0 ∷ 1 ∷ 2 ∷ 3 ∷ 4 ∷ 5 ∷ 6 ∷ []

pub derived :
    (proof : Proof) × (derive hashes bbs issued.0 (map nat audit) nonce_binding ≡ ok proof)
unfolding derive normalize_indexes collect_indexes sort insert is_member assert_no_pii_disclosed
    assert_valid_binding all_base32 all_hex presentation_header_for binding_digest
    canonical_binding_bytes len_prefixed join expected_proof_bytes messages_at equal issued
derived = (_, refl)

pub normal : normalize_indexes (map nat audit) ≡ ok audit
unfolding normalize_indexes collect_indexes sort insert is_member assert_no_pii_disclosed
normal = refl

digested : (digest : Text) × (binding_digest_hex hashes nonce_binding ≡ ok digest)
unfolding binding_digest_hex binding_digest canonical_binding_bytes len_prefixed join
    assert_valid_binding all_base32 all_hex equal
digested = (_, refl)

abbrev gate_claims : List ClaimName
gate_claims = ClaimName.schema_version ∷ ClaimName.over18 ∷ []

abbrev strict : VerifyOptions
strict =
    strict_options 400 1500 kyc_claims.subject_binding (object zero_list) new_guard
      (map (λ n. (name_text n, claims_of kyc_claims n)) gate_claims) (map nat audit)

zero_list-revocation : decode_status_list zeros (object zero_list) (some revocation) ≡ ok zero_bits
unfolding decode_status_list multibase_decode base64url_decode run finish decoded_length gunzip
    read_capped equal assert_status_message
zero_list-revocation = refl

zero_bits-clear : status_at zero_bits.bitstring (nat 7) ≡ ok 0
unfolding status_at read_status bit_at
zero_bits-clear = refl

verify_detailed_complete_example :
    (decoded : Decoded) × ((verify_detailed hashes bbs zeros derived.0 issued.0.issuer_public_key
        nonce_binding strict).1
      ≡ ok decoded)
    × Shows (claims_of kyc_claims) (map name_at audit) decoded
unfolding is_member includes
verify_detailed_complete_example =
    verify_detailed_complete hashes bbs zeros kyc_claims secret_key issued.0 (map nat audit)
      nonce_binding derived.0 audit 400 500 1500 2000 1000 (object zero_list) zero_bits new_guard
      digested.0 gate_claims bbs-IsBbs issued.1 derived.1 normal (refl, (refl, (refl, tt)))
      (refl, (refl, tt)) refl (ground arith) refl (ground arith) refl (ground arith)
      zero_list-revocation zero_bits-clear digested.1 refl

-- The verifier's answer to the honest presentation.
accepted :
    (decoded : Decoded) × ((verify_detailed hashes bbs zeros derived.0 issued.0.issuer_public_key
        nonce_binding strict).1
      ≡ ok decoded)
unfolding is_member includes
accepted =
    let run =
      verify_detailed_complete hashes bbs zeros kyc_claims secret_key issued.0 (map nat audit)
        nonce_binding derived.0 audit 400 500 1500 2000 1000 (object zero_list) zero_bits new_guard
        digested.0 gate_claims bbs-IsBbs issued.1 derived.1 normal (refl, (refl, (refl, tt)))
        (refl, (refl, tt)) refl (ground arith) refl (ground arith) refl (ground arith)
        zero_list-revocation zero_bits-clear digested.1 refl in
    (run.0, run.1)

verify_detailed-IsAccepted_example :
    IsAccepted hashes bbs zeros derived.0 issued.0.issuer_public_key nonce_binding strict accepted.0
verify_detailed-IsAccepted_example =
    verify_detailed-IsAccepted hashes bbs zeros derived.0 issued.0.issuer_public_key nonce_binding
      strict accepted.1

-- The options once the guard has seen the binding.
abbrev strict_again : VerifyOptions
strict_again = record strict {
  replay_guard =
      (verify_detailed hashes bbs zeros derived.0 issued.0.issuer_public_key nonce_binding
        strict).0;
}

verify_detailed-once_example : ¬ (
    (decoded : Decoded) × ((verify_detailed hashes bbs zeros derived.0 secret_key nonce_binding
        strict_again).1
      ≡ ok decoded))
verify_detailed-once_example =
    verify_detailed-once hashes bbs zeros derived.0 derived.0 issued.0.issuer_public_key secret_key
      nonce_binding strict strict_again new_guard refl accepted.1 refl

-- A proof of another version of the schema.
abbrev proof2 : Proof
proof2 = record {
  schema_version = codes "2";
  proof = [];
  disclosed_indexes = [];
  disclosed_messages = [];
  total_messages = nat 12;
  binding = nonce_binding;
}

refused :
    (verify_detailed hashes bbs zeros proof2 secret_key nonce_binding strict).1 ≡ err schema_version
unfolding verify_detailed judge check_presentation equal
refused = refl

verify_detailed-kept_example :
    (verify_detailed hashes bbs zeros proof2 secret_key nonce_binding strict).0 ≡ some new_guard
verify_detailed-kept_example =
    verify_detailed-kept hashes bbs zeros proof2 secret_key nonce_binding strict refused

answers-first_use_example :
    get_elem? (answers hashes (nonce_binding ∷ nonce_binding ∷ []) new_guard) 1
    ≡ some (answer_after hashes (nonce_binding ∷ []) (binding_digest_hex hashes nonce_binding))
answers-first_use_example = answers-first_use hashes (nonce_binding ∷ nonce_binding ∷ []) 1 refl

canonical : (bytes : Bytes) × (canonical_binding_bytes hashes nonce_binding ≡ ok bytes)
unfolding canonical_binding_bytes len_prefixed join assert_valid_binding all_base32 all_hex equal
canonical = (_, refl)

canonical_binding_bytes-injective_example :
    (nonce_binding.nonce ≡ nonce_binding.nonce)
    × (nonce_binding.wallet_address ≡ nonce_binding.wallet_address)
    × (nonce_binding.contract_id ≡ nonce_binding.contract_id)
    × (nonce_binding.ledger_expiry ≡ nonce_binding.ledger_expiry)
    × (hashes.sha256 (hashes.utf8_to_bytes nonce_binding.network_passphrase)
        ≡ hashes.sha256 (hashes.utf8_to_bytes nonce_binding.network_passphrase))
canonical_binding_bytes-injective_example =
    canonical_binding_bytes-injective hashes hashes-IsNoble nonce_binding nonce_binding canonical.1
      canonical.1

gate : (predicate : Predicate) × (gate_predicate_for (ClaimName.over18 ∷ []) ≡ ok predicate)
unfolding gate_predicate_for unique_names is_name_among claim_predicates claim_predicate all_of
    merge_all merge_expected expect_value expected_of same_name add_indexes sort insert is_member
    join_with
gate = (_, refl)

gate_predicate_for-demands_example :
    All (λ i. is_member i gate.0.disclose ≡ true) (0 ∷ 1 ∷ 2 ∷ 3 ∷ 4 ∷ 5 ∷ [])
    × (is_member 6 gate.0.disclose ≡ true)
    × (expected_of ClaimName.over18 gate.0.expect ≡ some (ClaimValue.boolean true))
unfolding is_name_among same_name
gate_predicate_for-demands_example =
    gate_predicate_for-demands (ClaimName.over18 ∷ []) ClaimName.over18 gate.1 refl

both : (predicate : Predicate) × (all_of (is_over18 ∷ is_not_sanctioned ∷ []) ≡ ok predicate)
unfolding all_of merge_all merge_expected expect_value expected_of same_name add_indexes sort insert
    is_member join_with
both = (_, refl)

all_of-IsMerge_example : IsMerge (is_over18 ∷ is_not_sanctioned ∷ []) both.0
all_of-IsMerge_example = all_of-IsMerge (is_over18 ∷ is_not_sanctioned ∷ []) both.1

checked :
    (decoded : Decoded) × ((check_predicate hashes bbs zeros derived.0 gate.0
        issued.0.issuer_public_key nonce_binding strict).1
      ≡ ok decoded)
unfolding check_predicate discloses gate derived sort insert
checked = accepted

check_predicate_sound_example :
    IsAccepted hashes bbs zeros derived.0 issued.0.issuer_public_key nonce_binding
      (with_predicate gate.0 strict)
      checked.0
    × (derived.0.disclosed_indexes ≡ map nat (sort gate.0.disclose))
    × AllShown checked.0 gate.0.expect
check_predicate_sound_example =
    check_predicate_sound hashes bbs zeros derived.0 gate.0 issued.0.issuer_public_key nonce_binding
      strict checked.1

abbrev everywhere : List Text
everywhere = codes "us" ∷ codes "AT" ∷ []

allowed :
    (predicate : Predicate) × (country_allowed everywhere (some (codes "at" ∷ [])) ≡ ok predicate)
unfolding country_allowed normalize country_codes country_code missing includes equal sort_unique
    insert_text is_text_below join_with
allowed = (_, refl)

country_allowed-covers_example :
    (rp : List Text) × (issuer : List Text) × (country_codes everywhere ≡ ok rp)
    × (country_codes (codes "at" ∷ []) ≡ ok issuer)
    × All (IsOneOf rp) issuer
    × (allowed.0.disclose ≡ 10 ∷ [])
    × (allowed.0.expect ≡ (ClaimName.jurisdiction_ok, ClaimValue.boolean true) ∷ [])
country_allowed-covers_example =
    country_allowed-covers everywhere (some (codes "at" ∷ [])) allowed.1
