-- ===== src/Identity/Schema.antt =====
-- packages/identity/src/schema.ts: the twelve attributes of a credential and their encoding.
pub mod RoundTrip
pub mod Indexes
pub mod Lookup
use stellar_onramp.Base.{
  ℕ, zero, suc, ◌+◌, Bool, true, false, not, ◌&&◌, ◌||◌, List, [], ◌∷◌, ◌++◌, Option, none, some,
  ltb, leb, ◌==◌, length, if◌then◌else◌, get_elem?, Result, ok, err, ◌>>=◌, ◌>>◌, guard, or_throw,
  Number, nat, to_nat?, Text, codes, equal, is_hex32, is_member, sort,
}
use stellar_onramp.Identity.Decimal.{decimal, read_digits, is_canonical_uint}

pub data ClaimName : Type 0 where
  schema_version issuer_id revocation_index issued_at expires_at subject_binding : ClaimName
  over18 over21 not_sanctioned not_pep jurisdiction_ok liveness_ok : ClaimName

pub data ClaimKind : Type 0 where
  string hex32 uint bool : ClaimKind

-- The names as they stand in the messages.
abbrev pub name_text : ClaimName → Text
name_text schema_version = codes "schemaVersion"
name_text issuer_id = codes "issuerId"
name_text revocation_index = codes "revocationIndex"
name_text issued_at = codes "issuedAt"
name_text expires_at = codes "expiresAt"
name_text subject_binding = codes "subjectBinding"
name_text over18 = codes "over18"
name_text over21 = codes "over21"
name_text not_sanctioned = codes "notSanctioned"
name_text not_pep = codes "notPep"
name_text jurisdiction_ok = codes "jurisdictionOk"
name_text liveness_ok = codes "livenessOk"

-- `CLAIM_INDEX`
abbrev pub claim_index : ClaimName → ℕ
claim_index schema_version = 0
claim_index issuer_id = 1
claim_index revocation_index = 2
claim_index issued_at = 3
claim_index expires_at = 4
claim_index subject_binding = 5
claim_index over18 = 6
claim_index over21 = 7
claim_index not_sanctioned = 8
claim_index not_pep = 9
claim_index jurisdiction_ok = 10
claim_index liveness_ok = 11

-- `CLAIM_SPECS`, in the order of the indexes.
abbrev pub claim_specs : List ClaimName
claim_specs =
    schema_version ∷ issuer_id ∷ revocation_index ∷ issued_at ∷ expires_at ∷ subject_binding
    ∷ over18 ∷ over21 ∷ not_sanctioned ∷ not_pep ∷ jurisdiction_ok ∷ liveness_ok ∷ []

abbrev pub claim_kind : ClaimName → ClaimKind
claim_kind schema_version = string
claim_kind issuer_id = hex32
claim_kind revocation_index = uint
claim_kind issued_at = uint
claim_kind expires_at = uint
claim_kind subject_binding = hex32
claim_kind _ = bool

pub data ClaimValue : Type 0 where
  text : Text → ClaimValue
  number : Number → ClaimValue
  boolean : Bool → ClaimValue

pub data SchemaError : Type 0 where
  not_boolean not_uint not_hex32 not_string has_separator missing_claim : SchemaError
  length_mismatch not_in_schema malformed wrong_name non_canonical unsafe_uint : SchemaError
  bad_index duplicate_index pii_disclosed bad_wallet bad_salt : SchemaError

-- `Number.MAX_SAFE_INTEGER`
abbrev pub max_safe_integer : ℕ
max_safe_integer = 9007199254740991

-- `value.includes('=')`
unfoldable pub has_equals : Text → Bool
has_equals [] = false
has_equals (c ∷ cs) = c == b'=' || has_equals cs

abbrev pub encode_uint : Number → Result SchemaError Text
encode_uint (nat n) = do guard (leb n max_safe_integer) not_uint; ok (decimal n)
encode_uint _ = err not_uint

abbrev pub encode_string : Text → Result SchemaError Text
encode_string [] = err not_string
encode_string (c ∷ cs) = do guard (not (has_equals (c ∷ cs))) has_separator; ok (c ∷ cs)

unfoldable pub encode_value : ClaimKind → ClaimValue → Result SchemaError Text
encode_value bool (boolean true) = ok (codes "true")
encode_value bool (boolean false) = ok (codes "false")
encode_value bool _ = err not_boolean
encode_value uint (number n) = encode_uint n
encode_value uint _ = err not_uint
encode_value hex32 (text t) = do guard (is_hex32 t) not_hex32; ok t
encode_value hex32 _ = err not_hex32
encode_value string (text t) = encode_string t
encode_value string _ = err not_string

unfoldable pub encode_claim : ClaimName → ClaimValue → Result SchemaError Text
encode_claim name value = do
  encoded ← encode_value (claim_kind name) value
  ok (name_text name ++ (b'=' ∷ encoded))

-- A claim set by name; `none` is an attribute that is undefined.
abbrev pub Claims : Type 0
Claims = ClaimName → Option ClaimValue

-- The loop of `encodeClaims` over these attributes.
unfoldable pub encode_each : List ClaimName → Claims → Result SchemaError (List Text)
encode_each [] claims = ok []
encode_each (name ∷ names) claims = do
  value ← or_throw (claims name) missing_claim
  message ← encode_claim name value
  messages ← encode_each names claims
  ok (message ∷ messages)

unfoldable pub encode_claims : Claims → Result SchemaError (List Text)
encode_claims claims = encode_each claim_specs claims

-- `raw.slice(0, sep)` and `raw.slice(sep + 1)` at the first `=`.
unfoldable pub split : Text → Option (Text × Text)
split [] = none
split (c ∷ cs) =
    let rest = split cs in
    if c == b'='
    then some ([], cs)
    else elim rest [ none ↦ none | some (name, value) ↦ some (c ∷ name, value) ]

unfoldable pub decode_value : ClaimKind → Text → Result SchemaError ClaimValue
decode_value bool value =
    if equal value (codes "true")
    then ok (boolean true)
    else if equal value (codes "false")
    then ok (boolean false)
    else err non_canonical
decode_value uint value = do
  guard (is_canonical_uint value) non_canonical
  guard (leb (read_digits 0 value) max_safe_integer) unsafe_uint
  ok (number (nat (read_digits 0 value)))
decode_value hex32 value = do guard (is_hex32 value) not_hex32; ok (text value)
decode_value string [] = err not_string
decode_value string (c ∷ cs) = ok (text (c ∷ cs))

-- The body of the loop of `decodeDisclosed`.
unfoldable pub decode_message : ℕ → Text → Result SchemaError (ClaimName × ClaimValue)
decode_message index raw = do
  name ← or_throw (get_elem? claim_specs index) not_in_schema
  parts ← or_throw (split raw) malformed
  guard (equal parts.0 (name_text name)) wrong_name
  value ← decode_value (claim_kind name) parts.1
  ok (name, value)

-- The assignments to the result, in order.
unfoldable pub decode_disclosed :
    List ℕ → List Text → Result SchemaError (List (ClaimName × ClaimValue))
decode_disclosed [] [] = ok []
decode_disclosed (i ∷ indexes) (raw ∷ messages) = do
  guard (length indexes == length messages) length_mismatch
  assigned ← decode_message i raw
  rest ← decode_disclosed indexes messages
  ok (assigned ∷ rest)
decode_disclosed _ _ = err length_mismatch

-- `ISSUER_JURISDICTION_POLICY`
abbrev pub issuer_jurisdiction_policy : List Text
issuer_jurisdiction_policy =
    codes "AT"
    ∷ codes "BE"
    ∷ codes "CH"
    ∷ codes "CZ"
    ∷ codes "DE"
    ∷ codes "DK"
    ∷ codes "EE"
    ∷ codes "ES"
    ∷ codes "FI"
    ∷ codes "FR"
    ∷ codes "GB"
    ∷ codes "IE"
    ∷ codes "IT"
    ∷ codes "LT"
    ∷ codes "LU"
    ∷ codes "LV"
    ∷ codes "NL"
    ∷ codes "NO"
    ∷ codes "PL"
    ∷ codes "PT"
    ∷ codes "SE"
    ∷ codes "SI"
    ∷ codes "SK"
    ∷ []

-- No attribute of this version is personal.
abbrev pub claim_pii : ClaimName → Bool
claim_pii _ = false

-- `CLAIM_SPEC_BY_INDEX[idx]?.pii === true`
abbrev pub is_pii : Option ClaimName → Bool
is_pii none = false
is_pii (some name) = claim_pii name

unfoldable pub assert_no_pii_disclosed : List ℕ → Result SchemaError (Unit {0})
assert_no_pii_disclosed [] = ok tt
assert_no_pii_disclosed (i ∷ indexes) = do
  guard (not (is_pii (get_elem? claim_specs i))) pii_disclosed
  assert_no_pii_disclosed indexes

-- The loop of `normalizeIndexes`, with the indexes that were seen before, the last in front.
unfoldable pub collect_indexes : List ℕ → List Number → Result SchemaError (List ℕ)
collect_indexes seen [] = ok seen
collect_indexes seen (raw ∷ indexes) = do
  i ← or_throw (to_nat? raw) bad_index
  guard (ltb i 12) bad_index
  guard (not (is_member i seen)) duplicate_index
  collect_indexes (i ∷ seen) indexes

unfoldable pub normalize_indexes : List Number → Result SchemaError (List ℕ)
normalize_indexes indexes = do
  seen ← collect_indexes [] indexes
  assert_no_pii_disclosed (sort seen)
  ok (sort seen)
