-- ===== src/Gateway/Kyc/Record/WellFormed.antt =====
-- What packages/gateway/src/kyc/record.ts keeps.
use mathlib.Core.Path.{subst}
use stellar_onramp.Base.{
  ℕ, ◌<◌, true, [], ◌∷◌, ◌≢◌, ltb, leb, length, ◌≡◌, refl, arith, ok, >>=-eq-ok, guard-eq-ok,
  ok-injective, ltb→lt, leb→le, Number, nat, Text, all_hex, is_hex32,
}
use stellar_onramp.Gateway.Kyc.Record.{
  Field, IssuanceArgs, IssuanceRecord, non_empty, u32, hex32, build_issuance_record,
  erase_subject_linkage, not_after_issuance,
}

abbrev pub IsU32Of : Number → ℕ → Type 0
IsU32Of value n = (value ≡ nat n) × (n < 4294967296)

abbrev pub IsTextOf : Text → Text → Type 0
IsTextOf given kept = (given ≡ kept) × (kept ≢ [])

-- The record says what the arguments say, and each of its fields is one that may be kept.
pub record IsKept (args : IssuanceArgs) (r : IssuanceRecord) : Type 0 where
  pub provider_h : IsTextOf args.provider r.provider
  pub ref_h : IsTextOf args.provider_ref_id r.provider_ref_id
  pub subject_h : IsTextOf args.subject_id r.subject_id
  pub wallet_h : IsTextOf args.wallet_c_addr r.wallet_c_addr
  pub bitmap_h : IsU32Of args.claim_bitmap r.claim_bitmap
  pub version_h : IsTextOf args.schema_version r.schema_version
  pub issued_h : IsU32Of args.issued_at r.issued_at
  pub expires_h : IsU32Of args.expires_at r.expires_at
  pub index_h : IsU32Of args.revocation_index r.revocation_index
  pub issuer_h : args.issuer_id ≡ r.issuer_id
  pub issuer_long : length r.issuer_id ≡ 64
  pub issuer_hex : all_hex r.issuer_id ≡ true
  pub lasting : r.issued_at < r.expires_at

non_empty-eq-ok :
    (value : Text) (field : Field) {kept : Text}
    → non_empty value field ≡ ok kept
    → IsTextOf value kept
non_empty-eq-ok [] field h = absurd (cc)
non_empty-eq-ok (c ∷ cs) field h =
    let same : c ∷ cs ≡ _ = ok-injective h in
    subst (IsTextOf (c ∷ cs)) same (refl, λ e. absurd (cc))

u32-eq-ok : (value : Number) (field : Field) {n : ℕ} → u32 value field ≡ ok n → IsU32Of value n
u32-eq-ok (nat n) field h =
    let (few, h₁) = guard-eq-ok (leb n 4294967295) _ h in
    let few_h = leb→le _ _ few in
    subst (IsU32Of (nat n)) (ok-injective h₁) (refl, omega (arith, few_h))
u32-eq-ok (Number.negsuc n) field h = absurd (cc)
u32-eq-ok Number.non_integer field h = absurd (cc)

hex32-eq-ok :
    (value : Text) (field : Field) {kept : Text}
    → hex32 value field ≡ ok kept
    → (value ≡ kept) × (length kept ≡ 64) × (all_hex kept ≡ true)
hex32-eq-ok value field h =
    let (test, h₁) = guard-eq-ok (is_hex32 value) _ h in
    subst (λ kept. (value ≡ kept) × (length kept ≡ 64) × (all_hex kept ≡ true)) (ok-injective h₁)
      (refl, ground (arith, test), ground (arith, test))

-- A record that is built says what its arguments say, and nothing else: its texts are not empty, its
-- numbers are 32-bit, its issuer is 64 lowercase hexadecimal digits, and it expires after its issue.
pub build_issuance_record-IsKept :
    (args : IssuanceArgs) {r : IssuanceRecord} → build_issuance_record args ≡ ok r → IsKept args r
unfolding build_issuance_record
build_issuance_record-IsKept args h =
    let (source, source_h, h₁) = >>=-eq-ok (non_empty args.provider Field.provider) _ h in
    let (ref, ref_h, h₂) = >>=-eq-ok (non_empty args.provider_ref_id Field.provider_ref_id) _ h₁ in
    let (subject, subject_h, h₃) = >>=-eq-ok (non_empty args.subject_id Field.subject_id) _ h₂ in
    let (wallet, wallet_h, h₄) =
      >>=-eq-ok (non_empty args.wallet_c_addr Field.wallet_c_addr) _ h₃ in
    let (bitmap, bitmap_h, h₅) = >>=-eq-ok (u32 args.claim_bitmap Field.claim_bitmap) _ h₄ in
    let (version, version_h, h₆) =
      >>=-eq-ok (non_empty args.schema_version Field.schema_version) _ h₅ in
    let (issued, issued_h, h₇) = >>=-eq-ok (u32 args.issued_at Field.issued_at) _ h₆ in
    let (expires, expires_h, h₈) = >>=-eq-ok (u32 args.expires_at Field.expires_at) _ h₇ in
    let (index, index_h, h₉) = >>=-eq-ok (u32 args.revocation_index Field.revocation_index) _ h₈ in
    let (issuer, issuer_h, h₁₀) = >>=-eq-ok (hex32 args.issuer_id Field.issuer_id) _ h₉ in
    let (lasting, h₁₁) = guard-eq-ok (ltb issued expires) not_after_issuance h₁₀ in
    let (same, long, hex) = hex32-eq-ok args.issuer_id Field.issuer_id issuer_h in
    subst (IsKept args) (ok-injective h₁₁) (record {
      provider_h = non_empty-eq-ok args.provider _ source_h;
      ref_h = non_empty-eq-ok args.provider_ref_id _ ref_h;
      subject_h = non_empty-eq-ok args.subject_id _ subject_h;
      wallet_h = non_empty-eq-ok args.wallet_c_addr _ wallet_h;
      bitmap_h = u32-eq-ok args.claim_bitmap _ bitmap_h;
      version_h = non_empty-eq-ok args.schema_version _ version_h;
      issued_h = u32-eq-ok args.issued_at _ issued_h;
      expires_h = u32-eq-ok args.expires_at _ expires_h;
      index_h = u32-eq-ok args.revocation_index _ index_h;
      issuer_h = same;
      issuer_long = long;
      issuer_hex = hex;
      lasting = ltb→lt _ _ lasting;
    })

-- An erased record tells nothing of the subject and the wallet: records that differ in these alone
-- are erased to one record, or refused alike.
pub erase_subject_linkage-unlinked :
    (r : IssuanceRecord) (subject wallet : Text) (erased_at : Number)
    → erase_subject_linkage (record r { subject_id = subject; wallet_c_addr = wallet }) erased_at
      ≡ erase_subject_linkage r erased_at
unfolding erase_subject_linkage
erase_subject_linkage-unlinked r subject wallet erased_at = refl
