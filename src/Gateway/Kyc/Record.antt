-- ===== src/Gateway/Kyc/Record.antt =====
-- packages/gateway/src/kyc/record.ts: the tuple that is kept of an issuance.
pub mod WellFormed
use stellar_onramp.Base.{
  ℕ, Bool, true, false, ◌&&◌, ◌||◌, [], ◌∷◌, Option, none, some, ltb, leb, ◌==◌, length,
  if◌then◌else◌, Result, ok, err, ◌>>=◌, ◌>>◌, guard, or_throw, Number, to_nat?, Text, within,
  all_hex, is_hex32,
}

pub data Field : Type 0 where
  provider provider_ref_id subject_id wallet_c_addr claim_bitmap schema_version : Field
  issued_at expires_at revocation_index issuer_id erased_at : Field

pub data RecordError : Type 0 where
  empty not_a_u32 not_hex32 : Field → RecordError
  not_after_issuance : RecordError

-- The arguments; the numbers are unchecked.
pub record IssuanceArgs : Type 0 where
  pub provider : Text
  pub provider_ref_id : Text
  pub subject_id : Text
  pub wallet_c_addr : Text
  pub claim_bitmap : Number
  pub schema_version : Text
  pub issued_at : Number
  pub expires_at : Number
  pub revocation_index : Number
  pub issuer_id : Text

pub record IssuanceRecord : Type 0 where
  pub provider : Text
  pub provider_ref_id : Text
  pub subject_id : Text
  pub wallet_c_addr : Text
  pub claim_bitmap : ℕ
  pub schema_version : Text
  pub issued_at : ℕ
  pub expires_at : ℕ
  pub revocation_index : ℕ
  pub issuer_id : Text

pub record ErasedIssuanceRecord : Type 0 where
  pub provider : Text
  pub provider_ref_id : Text
  pub subject_id : Option Text
  pub wallet_c_addr : Option Text
  pub claim_bitmap : ℕ
  pub schema_version : Text
  pub issued_at : ℕ
  pub expires_at : ℕ
  pub revocation_index : ℕ
  pub issuer_id : Text
  pub erased_at : ℕ

abbrev pub non_empty : Text → Field → Result RecordError Text
non_empty [] field = err (empty field)
non_empty (c ∷ cs) field = ok (c ∷ cs)

abbrev pub u32 : Number → Field → Result RecordError ℕ
u32 value field = do
  n ← or_throw (to_nat? value) (not_a_u32 field)
  guard (leb n 4294967295) (not_a_u32 field)
  ok n

abbrev pub hex32 : Text → Field → Result RecordError Text
hex32 value field = do guard (is_hex32 value) (not_hex32 field); ok value

unfoldable pub build_issuance_record : IssuanceArgs → Result RecordError IssuanceRecord
build_issuance_record args = do
  source ← non_empty args.provider Field.provider
  ref ← non_empty args.provider_ref_id Field.provider_ref_id
  subject ← non_empty args.subject_id Field.subject_id
  wallet ← non_empty args.wallet_c_addr Field.wallet_c_addr
  bitmap ← u32 args.claim_bitmap Field.claim_bitmap
  version ← non_empty args.schema_version Field.schema_version
  issued ← u32 args.issued_at Field.issued_at
  expires ← u32 args.expires_at Field.expires_at
  index ← u32 args.revocation_index Field.revocation_index
  issuer ← hex32 args.issuer_id Field.issuer_id
  guard (ltb issued expires) not_after_issuance
  ok (record {
    provider = source;
    provider_ref_id = ref;
    subject_id = subject;
    wallet_c_addr = wallet;
    claim_bitmap = bitmap;
    schema_version = version;
    issued_at = issued;
    expires_at = expires;
    revocation_index = index;
    issuer_id = issuer;
  })

unfoldable pub erase_subject_linkage :
    IssuanceRecord → Number → Result RecordError ErasedIssuanceRecord
erase_subject_linkage r erased_at_seconds = do
  erased ← u32 erased_at_seconds erased_at
  ok (record {
    provider = r.provider;
    provider_ref_id = r.provider_ref_id;
    subject_id = none;
    wallet_c_addr = none;
    claim_bitmap = r.claim_bitmap;
    schema_version = r.schema_version;
    issued_at = r.issued_at;
    expires_at = r.expires_at;
    revocation_index = r.revocation_index;
    issuer_id = r.issuer_id;
    erased_at = erased;
  })
