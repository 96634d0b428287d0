-- ===== src/Tests/Auth.antt =====
-- Runs of packages/gateway/src/auth/jws.ts.
use stellar_onramp.Base.{
  ℕ, suc, ◌≡◌, refl, Bool, true, false, Option, none, some, ok, [], ◌∷◌, ◌++◌, replicate, Instant,
  whole, nat, Bytes, Text, codes, equal, if◌then◌else◌,
}
use stellar_onramp.Gateway.Auth.Der.{strip, integer, raw_to_der, der_to_raw}
use stellar_onramp.Gateway.Auth.Der.RoundTrip.{der_to_raw-raw_to_der}
use stellar_onramp.Gateway.Auth.Jws.{
  Field, absent, string, number, object, Jose, sep10, VerifyJwsOptions, VerifiedJws, Claims,
  key_algorithm, header_json, eddsa, split_on, all_base64url, read_claims, check_claims,
  decode_strict, verdict, check_signature, parse_payload, open_token, verified_jws, verify_jws,
}
use stellar_onramp.Gateway.Auth.Jws.Read.{IsTextIfAny}
use stellar_onramp.Gateway.Auth.Jws.Authentic.{IsAuthentic, IsFirstSight, verify_jws-IsAuthentic}

-- A half with leading zeros and a high bit, and one with neither.
abbrev raw_signature : Bytes
raw_signature = replicate 31 0 ++ (200 ∷ replicate 32 5)

der : (bytes : Bytes) × (raw_to_der raw_signature ≡ ok bytes)
unfolding raw_to_der integer strip
der = (_, refl)

der_to_raw-raw_to_der_example : der_to_raw der.0 ≡ ok raw_signature
der_to_raw-raw_to_der_example = der_to_raw-raw_to_der raw_signature refl der.1

abbrev payload_bag : Text → Field
payload_bag name =
    if equal name (codes "iss")
    then string (codes "issuer")
    else if equal name (codes "sub")
    then string (codes "holder")
    else if equal name (codes "jti")
    then string (codes "id")
    else if equal name (codes "iat")
    then number (nat 10)
    else if equal name (codes "exp")
    then number (nat 90)
    else absent

-- Libraries that hand everything over as it is.
abbrev jose : Jose
jose = record {
  encode_base64url = λ bytes. bytes;
  decode_base64url = λ text. text;
  to_utf8 = λ bytes. bytes;
  parse_json = λ text. some (object payload_bag);
  verify_sha256 = λ input key signature. some false;
  verify_plain = λ input key signature. some true;
}

abbrev options : VerifyJwsOptions
options = record {
  public_key = record {
    key_type = codes "public";
    asymmetric_type = some (codes "ed25519");
    curve = none;
    material = [];
  };
  now_seconds = whole 50;
  issuer = codes "issuer";
  audience = codes "gateway";
  claim_policy = sep10;
  replay = some (codes "sep10");
}

abbrev token : Text
token = header_json eddsa ++ (b'.' ∷ (codes "payload" ++ (b'.' ∷ replicate 64 b'A')))

-- A store that has seen nothing, and counts.
abbrev count : ℕ → Text → Text → Instant → ℕ × Option Bool
count n provider id now = (suc n, some true)

opened : (out : VerifiedJws) × ((verify_jws count jose token options 0).1 ≡ ok out)
unfolding verify_jws open_token key_algorithm split_on check_signature decode_strict all_base64url
    verdict parse_payload read_claims check_claims equal
opened = (_, refl)

verify_jws-IsAuthentic_example :
    (bag : Text → Field) × (claims : Claims) × (jti : Option Text) × IsAuthentic jose token options
      bag claims
    × IsFirstSight count options 0 jti
    × IsTextIfAny (bag (codes "jti")) jti
    × (opened.0 ≡ verified_jws claims jti)
verify_jws-IsAuthentic_example = verify_jws-IsAuthentic count jose token options 0 opened.1
