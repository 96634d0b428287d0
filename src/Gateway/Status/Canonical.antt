-- ===== src/Gateway/Status/Canonical.antt =====
-- `canonicalJson` and `statusListSigningInput` of packages/gateway/src/status/credential.ts, on what
-- `JSON.parse` gives: each key once, and nothing undefined. The keys are sorted after the values have
-- been made canonical; each refusal is the same. `JSON.stringify` on strings, UTF-8 and SHA-256 are
-- parameters.
use stellar_onramp.Base.{
  Bool, true, false, ◌&&◌, ◌||◌, List, [], ◌∷◌, ◌++◌, Option, none, some, map, ltb, leb, ◌==◌,
  if◌then◌else◌, Result, ok, err, ◌>>=◌, ◌>>◌, guard, Number, nat, Bytes, Text, codes, within,
  equal,
}
use stellar_onramp.Identity.Decimal.{decimal}
use stellar_onramp.Identity.Schema.{max_safe_integer}
use stellar_onramp.Gateway.Status.CredentialError.{CredentialError, not_canonical}

mutual
  pub data JsonValue : Type 0 where
    null : JsonValue
    boolean : Bool → JsonValue
    number : Number → JsonValue
    string : Text → JsonValue
    array : Elements → JsonValue
    object : Members → JsonValue

  pub data Elements : Type 0 where
    end : Elements
    element : JsonValue → Elements → Elements

  pub data Members : Type 0 where
    empty : Members
    member : Text → JsonValue → Members → Members

-- Hashing and signatures.
pub record Signatures : Type 0 where
  -- `JSON.stringify` of a string
  pub stringify : Text → Text
  pub utf8 : Text → Bytes
  pub sha256 : Bytes → Bytes
  pub verify : Bytes → Bytes → Bytes → Bool

-- `bag[key]`; none where it is undefined.
unfoldable pub member_of : Text → Members → Option JsonValue
member_of key empty = none
member_of key (member name value rest) =
    let later = member_of key rest in if equal name key then some value else later

-- `const { key: _, ...rest } = bag`
unfoldable pub members_without : Text → Members → Members
members_without key empty = empty
members_without key (member name value rest) =
    let others = members_without key rest in
    if equal name key then others else member name value others

abbrev pub without : Text → JsonValue → JsonValue
without key (object bag) = object (members_without key bag)
without key value = value

-- `a <= b` on strings, by their code units.
unfoldable pub text_leb : Text → Text → Bool
text_leb [] b = true
text_leb (c ∷ a) [] = false
text_leb (c ∷ a) (d ∷ b) = let rest = text_leb a b in ltb c d || (c == d && rest)

unfoldable pub insert_member : Text × Text → List (Text × Text) → List (Text × Text)
insert_member m [] = m ∷ []
insert_member m (n ∷ ms) =
    let later = insert_member m ms in if text_leb m.0 n.0 then m ∷ n ∷ ms else n ∷ later

-- `keys.sort()`, with the keys' values.
unfoldable pub sort_members : List (Text × Text) → List (Text × Text)
sort_members [] = []
sort_members (m ∷ ms) = insert_member m (sort_members ms)

-- `parts.join(',')`
unfoldable pub join_commas : List Text → Text
join_commas [] = []
join_commas (part ∷ []) = part
join_commas (part ∷ next ∷ parts) = part ++ (b',' ∷ join_commas (next ∷ parts))

-- /^[\u0020-\u007e]*$/
unfoldable pub is_printable : Text → Bool
is_printable [] = true
is_printable (c ∷ cs) = within 32 126 c && is_printable cs

-- The text of a number, if it is a non-negative safe integer.
unfoldable pub canonical_number : Number → Result CredentialError Text
canonical_number (nat n) = do guard (leb n max_safe_integer) not_canonical; ok (decimal n)
canonical_number n = err not_canonical

-- A key and its value.
abbrev pub part_of : (Text → Text) → Text × Text → Text
part_of stringify (key, value) = stringify key ++ (b':' ∷ value)

unfoldable mutual
  pub canonical_json : (Text → Text) → JsonValue → Result CredentialError Text
  canonical_json stringify null = ok (codes "null")
  canonical_json stringify (boolean true) = ok (codes "true")
  canonical_json stringify (boolean false) = ok (codes "false")
  canonical_json stringify (number n) = canonical_number n
  canonical_json stringify (string text) = ok (stringify text)
  canonical_json stringify (array values) = do
    parts ← canonical_elements stringify values
    ok (b'[' ∷ (join_commas parts ++ (b']' ∷ [])))
  canonical_json stringify (object bag) = do
    parts ← canonical_members stringify bag
    ok (b'{' ∷ (join_commas (map (part_of stringify) (sort_members parts)) ++ (b'}' ∷ [])))

  pub canonical_elements : (Text → Text) → Elements → Result CredentialError (List Text)
  canonical_elements stringify end = ok []
  canonical_elements stringify (element value values) = do
    part ← canonical_json stringify value
    parts ← canonical_elements stringify values
    ok (part ∷ parts)

  pub canonical_members : (Text → Text) → Members → Result CredentialError (List (Text × Text))
  canonical_members stringify empty = ok []
  canonical_members stringify (member key value bag) = do
    guard (is_printable key) not_canonical
    part ← canonical_json stringify value
    parts ← canonical_members stringify bag
    ok ((key, part) ∷ parts)

abbrev pub status_list_domain : Bytes
status_list_domain = codes "stellaronramp.status-list.pub.v1"

-- `domain ‖ sha256(canonical(proofConfig)) ‖ sha256(canonical(documentWithoutProof))`
unfoldable pub status_list_signing_input :
    Signatures → JsonValue → JsonValue → Result CredentialError Bytes
status_list_signing_input signatures document proof_config = do
  config ← canonical_json signatures.stringify proof_config
  unsigned ← canonical_json signatures.stringify (without (codes "proof") document)
  ok (
      status_list_domain
      ++ (signatures.sha256 (signatures.utf8 config)
          ++ signatures.sha256 (signatures.utf8 unsigned)))
