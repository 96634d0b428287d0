-- ===== src/Gateway/Auth/Jws.antt =====
-- `verifyJws` of packages/gateway/src/auth/jws.ts. What it calls of node:crypto, Buffer and JSON is a
-- parameter, and so is the replay store, a state and its step. Signing and the making of keys are not
-- modelled.
pub mod Read
pub mod Authentic
use stellar_onramp.Base.{
  ℕ, ◌+◌, Bool, true, false, not, ◌&&◌, ◌||◌, List, [], ◌∷◌, ◌++◌, Option, none, some, ltb, leb,
  ◌==◌, length, if◌then◌else◌, Result, ok, err, ◌>>=◌, ◌>>◌, guard, or_throw, rethrow_as, Number,
  nat, negsuc, non_integer, Instant, is_earlier, is_from, Bytes, Text, codes, within, equal,
}
use stellar_onramp.Identity.Schema.{max_safe_integer}
use stellar_onramp.Gateway.Auth.Der.{DerError, raw_to_der}

pub data JwsError : Type 0 where
  malformed_token bad_header alg_not_es256 alg_not_eddsa not_an_ec_p256_key : JwsError
  not_an_okp_ed25519_key signature_length signature_mismatch payload_malformed : JwsError
  claim_absent claim_type invalid_window unknown_claim issuer_mismatch : JwsError
  audience_mismatch token_not_yet_valid token_expired replay_detected : JwsError
  -- what a library throws
  thrown : JwsError

pub data Algorithm : Type 0 where
  es256 eddsa : Algorithm

-- A key object; the curve is that of its exported public half.
pub record Key : Type 0 where
  pub key_type : Text
  pub asymmetric_type : Option Text
  pub curve : Option Text
  pub material : Bytes

-- A field of a parsed object.
pub data Field : Type 0 where
  absent other : Field
  string : Text → Field
  number : Number → Field

pub data Json : Type 0 where
  no_object : Json
  object : (Text → Field) → Json

pub record Jose : Type 0 where
  pub encode_base64url : Bytes → Text
  pub decode_base64url : Text → Bytes
  pub to_utf8 : Bytes → Text
  pub parse_json : Text → Option Json
  -- none where the call throws
  pub verify_sha256 : Bytes → Key → Bytes → Option Bool
  pub verify_plain : Bytes → Key → Bytes → Option Bool

pub data ClaimPolicy : Type 0 where
  strict sep10 : ClaimPolicy

pub record VerifyJwsOptions : Type 0 where
  pub public_key : Key
  pub now_seconds : Instant
  pub issuer : Text
  pub audience : Text
  pub claim_policy : ClaimPolicy
  -- the provider, where a replay store is configured
  pub replay : Option Text

pub record VerifiedJws : Type 0 where
  pub iss : Text
  pub sub : Text
  pub aud : Option Text
  pub iat : Number
  pub nbf : Option Number
  pub exp : Number
  pub jti : Option Text

abbrev pub is_text : Option Text → Text → Bool
is_text none text = false
is_text (some t) text = equal t text

-- What is left of `keyAlgorithm` for a key that is not Ed25519.
unfoldable pub curve_algorithm : Key → Result JwsError Algorithm
curve_algorithm key = do
  guard (is_text key.asymmetric_type (codes "ec")) not_an_ec_p256_key
  guard (is_text key.curve (codes "P-256")) not_an_ec_p256_key
  ok es256

unfoldable pub key_algorithm : Key → Result JwsError Algorithm
key_algorithm key = do
  guard (equal key.key_type (codes "public") || equal key.key_type (codes "private"))
      not_an_ec_p256_key
  (if is_text key.asymmetric_type (codes "ed25519") then ok eddsa else curve_algorithm key)

abbrev pub header_json : Algorithm → Text
header_json es256 = codes "{\"alg\":\"ES256\",\"typ\":\"JWT\"}"
header_json eddsa = codes "{\"alg\":\"EdDSA\",\"typ\":\"JWT\"}"

abbrev pub algorithm_name : Algorithm → Text
algorithm_name es256 = codes "ES256"
algorithm_name eddsa = codes "EdDSA"

abbrev pub wrong_algorithm : Algorithm → JwsError
wrong_algorithm es256 = alg_not_es256
wrong_algorithm eddsa = alg_not_eddsa

-- `token.split('.')`
abbrev pub prepend : ℕ → List Text → List Text
prepend c [] = (c ∷ []) ∷ []
prepend c (t ∷ ts) = (c ∷ t) ∷ ts

unfoldable pub split_on : ℕ → Text → List Text
split_on dot [] = [] ∷ []
split_on dot (c ∷ cs) = let rest = split_on dot cs in if c == dot then [] ∷ rest else prepend c rest

-- [A-Za-z0-9_-]*
unfoldable pub all_base64url : Text → Bool
all_base64url [] = true
all_base64url (c ∷ cs) =
    (within b'A' b'Z' c || (within b'a' b'z' c || (within b'0' b'9' c || (c == b'_' || c == b'-'))))
    && all_base64url cs

abbrev pub is_present : Field → Bool
is_present absent = false
is_present _ = true

-- `field === text`
abbrev pub is_string : Field → Text → Bool
is_string (string t) text = equal t text
is_string _ text = false

-- A non-empty string.
abbrev pub non_empty : Field → Option Text
non_empty (string (c ∷ cs)) = some (c ∷ cs)
non_empty _ = none

-- `Number.isSafeInteger`
abbrev pub safe_integer : Field → Option Number
safe_integer (number (nat n)) = if leb n max_safe_integer then some (nat n) else none
safe_integer (number (negsuc n)) = if leb (n + 1) max_safe_integer then some (negsuc n) else none
safe_integer _ = none

-- A claim that has to be there.
abbrev pub require_text : Field → Result JwsError Text
require_text absent = err claim_absent
require_text field = or_throw (non_empty field) claim_type

abbrev pub require_time : Field → Result JwsError Number
require_time absent = err claim_absent
require_time field = or_throw (safe_integer field) claim_type

-- A claim that may be left out.
abbrev pub optional_text : Field → Result JwsError (Option Text)
optional_text absent = ok none
optional_text field = do t ← or_throw (non_empty field) claim_type; ok (some t)

abbrev pub optional_time : Field → Result JwsError (Option Number)
optional_time absent = ok none
optional_time field = do n ← or_throw (safe_integer field) claim_type; ok (some n)

-- The claims that were checked for their presence and type; the optional ones as they are.
pub record Claims : Type 0 where
  pub iss : Text
  pub sub : Text
  pub aud : Option Text
  pub iat : Number
  pub nbf : Option Number
  pub exp : Number

-- The checks under the claim policy, in the order of the loops.
unfoldable pub read_claims : ClaimPolicy → (Text → Field) → Result JwsError Claims
read_claims strict bag = do
  iss ← require_text (bag (codes "iss"))
  sub ← require_text (bag (codes "sub"))
  aud ← require_text (bag (codes "aud"))
  iat ← require_time (bag (codes "iat"))
  nbf ← require_time (bag (codes "nbf"))
  exp ← require_time (bag (codes "exp"))
  ok (record { iss = iss; sub = sub; aud = some aud; iat = iat; nbf = some nbf; exp = exp })
read_claims sep10 bag = do
  iss ← require_text (bag (codes "iss"))
  sub ← require_text (bag (codes "sub"))
  iat ← require_time (bag (codes "iat"))
  exp ← require_time (bag (codes "exp"))
  aud ← optional_text (bag (codes "aud"))
  nbf ← optional_time (bag (codes "nbf"))
  ok (record { iss = iss; sub = sub; aud = aud; iat = iat; nbf = nbf; exp = exp })

-- `bag['aud'] !== options.audience` where the claim is there, negated.
abbrev pub is_for : Option Text → Text → Bool
is_for none audience = true
is_for (some a) audience = equal a audience

-- `nbf !== undefined && now < nbf`, negated.
abbrev pub has_started : Option Number → Instant → Bool
has_started none now = true
has_started (some nbf) now = not (is_earlier now nbf)

unfoldable pub check_claims : VerifyJwsOptions → Claims → Result JwsError (Unit {0})
check_claims options claims = do
  guard (equal claims.iss options.issuer) issuer_mismatch
  guard (is_for claims.aud options.audience) audience_mismatch
  guard (has_started claims.nbf options.now_seconds) token_not_yet_valid
  guard (not (is_from options.now_seconds claims.exp)) token_expired

-- The three segments; none for another number of them.
abbrev pub three : List Text → Option (Text × Text × Text)
three (header ∷ payload ∷ signature ∷ []) = some (header, payload, signature)
three _ = none

-- What the header that was parsed is refused for.
unfoldable pub refuse_parsed : Algorithm → Json → Result JwsError (Unit {0})
refuse_parsed alg no_object = err bad_header
refuse_parsed alg (object bag) = do
  guard (not (is_present (bag (codes "jwk")))) bad_header
  guard (not (is_present (bag (codes "jku")))) bad_header
  guard (not (is_present (bag (codes "x5u")))) bad_header
  guard (not (is_present (bag (codes "x5c")))) bad_header
  guard (not (is_present (bag (codes "crit")))) bad_header
  guard (is_string (bag (codes "alg")) (algorithm_name alg)) (wrong_algorithm alg)
  err bad_header

-- The payload's fields, where it is an object.
abbrev pub bag_of : Json → Option (Text → Field)
bag_of no_object = none
bag_of (object bag) = some bag

module _ (jose : Jose) where
  abbrev pub frozen_header : Algorithm → Text
  frozen_header alg = jose.encode_base64url (header_json alg)

  unfoldable pub decode_strict : Text → Result JwsError Bytes
  decode_strict segment = do
    guard (not (length segment == 0) && all_base64url segment) malformed_token
    ok (jose.decode_base64url segment)

  -- `parseProtectedHeader`, and the refusal that follows it.
  unfoldable pub refuse_header : Algorithm → Text → Result JwsError (Unit {0})
  refuse_header alg header = do
    bytes ← decode_strict header
    parsed ← or_throw (jose.parse_json (jose.to_utf8 bytes)) bad_header
    refuse_parsed alg parsed

  -- The header that is not the frozen one is refused in any case.
  abbrev pub check_header : Algorithm → Text → Result JwsError (Unit {0})
  check_header alg header =
      if equal header (frozen_header alg) then ok tt else refuse_header alg header

  -- The verdict of the key on the signature.
  unfoldable pub verdict : Algorithm → Text → Key → Bytes → Result JwsError Bool
  verdict es256 input key signature = do
    der ← rethrow_as (raw_to_der signature) (λ e. signature_length)
    or_throw (jose.verify_sha256 input key der) thrown
  verdict eddsa input key signature = or_throw (jose.verify_plain input key signature) thrown

  unfoldable pub check_signature : Algorithm → Key → Text → Text → Text → Result JwsError (Unit {0})
  check_signature alg key header payload signature = do
    raw ← decode_strict signature
    guard (length raw == 64) signature_length
    verified ← verdict alg (header ++ (b'.' ∷ payload)) key raw
    guard verified signature_mismatch

  unfoldable pub parse_payload : Text → Result JwsError (Text → Field)
  parse_payload payload = do
    bytes ← decode_strict payload
    parsed ← or_throw (jose.parse_json (jose.to_utf8 bytes)) payload_malformed
    or_throw (bag_of parsed) payload_malformed

  -- All but the replay check.
  unfoldable pub open_token : Text → VerifyJwsOptions → Result JwsError ((Text → Field) × Claims)
  open_token token options = do
    alg ← key_algorithm options.public_key
    parts ← or_throw (three (split_on b'.' token)) malformed_token
    check_header alg parts.0
    check_signature alg options.public_key parts.0 parts.1 parts.2
    bag ← parse_payload parts.1
    claims ← read_claims options.claim_policy bag
    check_claims options claims
    ok (bag, claims)

abbrev pub verified_jws : Claims → Option Text → VerifiedJws
verified_jws claims jti = record {
  iss = claims.iss;
  sub = claims.sub;
  aud = claims.aud;
  iat = claims.iat;
  nbf = claims.nbf;
  exp = claims.exp;
  jti = jti;
}

abbrev pub seen_first : Option Bool → Result JwsError (Unit {0})
seen_first none = err thrown
seen_first (some first) = guard first replay_detected

module _ {State : Type 0} (first_sight : State → Text → Text → Instant → State × Option Bool) where
  -- The id, where it is a non-empty string.
  abbrev pub check_id :
      VerifyJwsOptions → Text → Option Text → State → State × Result JwsError (Option Text)
  check_id options provider none state = (state, err claim_absent)
  check_id options provider (some jti) state =
      let (state', first) = first_sight state provider jti options.now_seconds in
      (state', seen_first first >> ok (some jti))

  abbrev pub check_replay :
      VerifyJwsOptions → Field → Option Text → State → State × Result JwsError (Option Text)
  check_replay options field none state = (state, optional_text field)
  check_replay options field (some provider) state =
      check_id options provider (non_empty field) state

  unfoldable pub verify_jws :
      Jose → Text → VerifyJwsOptions → State → State × Result JwsError VerifiedJws
  verify_jws jose token options state = elim (open_token jose token options) [
    | err e ↦ (state, err e)
    | ok (bag, claims) ↦
        let (state', jti) = check_replay options (bag (codes "jti")) options.replay state in
        (state', jti >>= λ j. ok (verified_jws claims j))
  ]
