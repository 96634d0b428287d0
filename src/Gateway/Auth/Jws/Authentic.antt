-- ===== src/Gateway/Auth/Jws/Authentic.antt =====
-- What `verifyJws` (packages/gateway/src/auth/jws.ts) has checked of a token that it accepts.
use mathlib.Core.Path.{subst}
use stellar_onramp.Base.{
  ◌⊎◌, Bool, true, false, not, [], ◌∷◌, ◌++◌, Option, none, some, ◌==◌, ==_iff, length, ◌≡◌, refl,
  sym, ap, ◌∙◌, arith, inl, inr, Bool-cases, Result-cases, ok, err, ◌>>=◌, ◌>>◌, guard-ok,
  guard-eq-ok, or_throw-eq-ok, >>=-eq-ok, ok-injective, err-ne-ok, Option-cases, Number, Instant,
  nan, IsEarlier, IsFrom, is_from, not_from-IsEarlier, not_earlier-IsFrom, Bytes, Text, codes,
  equal, equal_iff,
}
use stellar_onramp.Gateway.Auth.Jws.{
  malformed_token, signature_length, signature_mismatch, issuer_mismatch, audience_mismatch,
  token_not_yet_valid, token_expired, bad_header, claim_absent, Algorithm, Field, absent, other,
  number, string, Json, no_object, object, Jose, VerifyJwsOptions, VerifiedJws, is_present,
  is_string, algorithm_name, check_id, key_algorithm, split_on, non_empty, Claims, read_claims,
  is_for, has_started, check_claims, refuse_parsed, frozen_header, decode_strict, refuse_header,
  check_header, verdict, check_signature, parse_payload, wrong_algorithm, three, open_token,
  verified_jws, seen_first, check_replay, verify_jws,
}
use stellar_onramp.Gateway.Auth.Jws.Read.{
  IsTextIfAny, optional_text_sound, dotted, dotted-split_on, three_sound, IsRead,
  read_claims-IsRead,
}

-- The time is before the end of the claims, and from their start on; a clock that is NaN passes.
abbrev pub IsTimely : Claims → Instant → Type 0
IsTimely claims now =
    ((now ≡ nan) ⊎ IsEarlier now claims.exp)
    × ((start : Number) → claims.nbf ≡ some start → (now ≡ nan) ⊎ IsFrom now start)

-- What an accepted token is, for these options.
pub record IsAuthentic (jose : Jose) (token : Text) (options : VerifyJwsOptions)
    (bag : Text → Field) (claims : Claims) : Type 0 where
  pub alg : Algorithm
  pub pinned : key_algorithm options.public_key ≡ ok alg
  pub header : Text
  pub payload : Text
  pub signature : Text
  pub segments : token ≡ header ++ (b'.' ∷ (payload ++ (b'.' ∷ signature)))
  pub frozen : header ≡ frozen_header jose alg
  pub raw : Bytes
  pub decoded : decode_strict jose signature ≡ ok raw
  pub raw_length : length raw ≡ 64
  pub verified : verdict jose alg (header ++ (b'.' ∷ payload)) options.public_key raw ≡ ok true
  pub parsed : parse_payload jose payload ≡ ok bag
  pub is_read : IsRead options.claim_policy bag claims
  pub issuer_h : claims.iss ≡ options.issuer
  pub audience_h : (a : Text) → claims.aud ≡ some a → a ≡ options.audience
  pub timely : IsTimely claims options.now_seconds

-- A header that is looked into is refused.
refuse_parsed_never : (alg : Algorithm) (parsed : Json) → refuse_parsed alg parsed ≡ ok tt → ⊥
unfolding refuse_parsed
refuse_parsed_never alg no_object h = absurd (cc)
refuse_parsed_never alg (object bag) h =
    let (_, h₁) = guard-eq-ok (not (is_present (bag (codes "jwk")))) bad_header h in
    let (_, h₂) = guard-eq-ok (not (is_present (bag (codes "jku")))) bad_header h₁ in
    let (_, h₃) = guard-eq-ok (not (is_present (bag (codes "x5u")))) bad_header h₂ in
    let (_, h₄) = guard-eq-ok (not (is_present (bag (codes "x5c")))) bad_header h₃ in
    let (_, h₅) = guard-eq-ok (not (is_present (bag (codes "crit")))) bad_header h₄ in
    let (_, h₆) =
      guard-eq-ok (is_string (bag (codes "alg")) (algorithm_name alg)) (wrong_algorithm alg) h₅ in
    err-ne-ok h₆

check_header_sound :
    (jose : Jose) (alg : Algorithm) (header : Text)
    → check_header jose alg header ≡ ok tt
    → header ≡ frozen_header jose alg
unfolding refuse_header
check_header_sound jose alg header h = elim (Bool-cases (equal header (frozen_header jose alg))) [
  | inl same ↦ (equal_iff header (frozen_header jose alg)).0 same
  | inr f ↦
      let refused : refuse_header jose alg header ≡ ok tt = ground (arith, f, h) in
      let (bytes, _, h₁) = >>=-eq-ok (decode_strict jose header) _ refused in
      let (parsed, _, h₂) = or_throw-eq-ok (jose.parse_json (jose.to_utf8 bytes)) bad_header _ h₁ in
      absurd (refuse_parsed_never alg parsed h₂)
]

check_claims-IsTimely :
    (options : VerifyJwsOptions) (bag : Text → Field) (claims : Claims)
    → IsRead options.claim_policy bag claims
    → check_claims options claims ≡ ok tt
    → (claims.iss ≡ options.issuer)
      × ((a : Text) → claims.aud ≡ some a → a ≡ options.audience)
      × IsTimely claims options.now_seconds
unfolding check_claims
check_claims-IsTimely options bag claims read h =
    let now = options.now_seconds in
    let (iss, h₁) = guard-eq-ok (equal claims.iss options.issuer) issuer_mismatch h in
    let (aud, h₂) = guard-eq-ok (is_for claims.aud options.audience) audience_mismatch h₁ in
    let (begun, h₃) = guard-eq-ok (has_started claims.nbf now) token_not_yet_valid h₂ in
    let lasting = guard-ok (not (is_from now claims.exp)) token_expired h₃ in
    (
      (equal_iff claims.iss options.issuer).0 iss,
      (λ a is.
          (equal_iff a options.audience).0 (ap (λ o. is_for o options.audience) (sym is) ∙ aud)),
      (
        not_from-IsEarlier now claims.exp read.exp_integer lasting,
        λ start is.
            not_earlier-IsFrom now start (read.nbf_integer start is)
              (ap (λ o. has_started o now) (sym is) ∙ begun),
      ),
    )

open_token-IsAuthentic :
    (jose : Jose) (token : Text) (options : VerifyJwsOptions) {bag : Text → Field} {claims : Claims}
    → open_token jose token options ≡ ok (bag, claims)
    → IsAuthentic jose token options bag claims
unfolding open_token check_signature
open_token-IsAuthentic jose token options h =
    let key = options.public_key in
    let (alg, pinned, h₁) = >>=-eq-ok (key_algorithm options.public_key) _ h in
    let (parts, split, h₂) = or_throw-eq-ok (three (split_on b'.' token)) malformed_token _ h₁ in
    let (header, payload, signature) = parts in
    let (_, frozen, h₃) = >>=-eq-ok (check_header jose alg parts.0) _ h₂ in
    let (_, signed, h₄) =
      >>=-eq-ok (check_signature jose alg options.public_key parts.0 parts.1 parts.2) _ h₃ in
    let (bag, parsed, h₅) = >>=-eq-ok (parse_payload jose parts.1) _ h₄ in
    let (claims, read, h₆) = >>=-eq-ok (read_claims options.claim_policy bag) _ h₅ in
    let (_, checked, h₇) = >>=-eq-ok (check_claims options claims) _ h₆ in
    let (raw, decoded, s₁) = >>=-eq-ok (decode_strict jose parts.2) _ signed in
    let (long, s₂) = guard-eq-ok (length raw == 64) signature_length s₁ in
    let (verified, given, s₃) =
      >>=-eq-ok (verdict jose alg (parts.0 ++ (b'.' ∷ parts.1)) options.public_key raw) _ s₂ in
    let is_read = read_claims-IsRead options.claim_policy bag read in
    let (issuer_h, audience_h, timely) = check_claims-IsTimely options bag claims is_read checked in
    let same = ok-injective h₇ in
    subst (λ (p : (Text → Field) × Claims). IsAuthentic jose token options p.0 p.1) same
      (record {
        alg = alg;
        pinned = pinned;
        header = parts.0;
        payload = parts.1;
        signature = parts.2;
        segments =
            sym (dotted-split_on token) ∙ ap dotted (three_sound (split_on b'.' token) split);
        frozen = check_header_sound jose alg parts.0 frozen;
        raw = raw;
        decoded = decoded;
        raw_length = (==_iff (length raw) 64).0 long;
        verified = given ∙ ap ok (guard-ok verified signature_mismatch s₃);
        parsed = parsed;
        is_read = is_read;
        issuer_h = issuer_h;
        audience_h = audience_h;
        timely = timely;
      })

-- Where a replay store is configured, it had not seen this token's id.
abbrev pub IsFirstSight :
    {State : Type 0}
    → (State → Text → Text → Instant → State × Option Bool)
    → VerifyJwsOptions
    → State
    → Option Text
    → Type 0
IsFirstSight first_sight options state jti =
    (provider : Text)
    → options.replay ≡ some provider
    → (id : Text) × (jti ≡ some id)
      × ((first_sight state provider id options.now_seconds).1 ≡ some true)

check_replay-IsFirstSight :
    {State : Type 0} (first_sight : State → Text → Text → Instant → State × Option Bool)
    (options : VerifyJwsOptions) (field : Field) (replay : Option Text) (state : State)
    {jti : Option Text}
    → (check_replay first_sight options field replay state).1 ≡ ok jti
    → (provider : Text) → replay ≡ some provider
    → (id : Text) × (jti ≡ some id)
      × ((first_sight state provider id options.now_seconds).1 ≡ some true)
check_replay-IsFirstSight first_sight options field none state h provider configured = absurd (cc)
check_replay-IsFirstSight first_sight options field (some p) state {jti} h provider configured =
    let same : p ≡ provider = cc in
    subst
      (λ provider.
        (id : Text) × (jti ≡ some id)
        × ((first_sight state provider id options.now_seconds).1 ≡ some true))
      same (asked (non_empty field) h)
  where
    seen_first_sound :
        (first : Option Bool) (id : Text) {jti : Option Text}
        → (seen_first first >> ok (some id)) ≡ ok jti
        → (first ≡ some true) × (some id ≡ jti)
    seen_first_sound none id h = absurd (cc)
    seen_first_sound (some true) id h = (refl, ok-injective h)
    seen_first_sound (some false) id h = absurd (cc)

    asked :
        (given : Option Text)
        → (check_id first_sight options p given state).1 ≡ ok jti
        → (id : Text) × (jti ≡ some id)
          × ((first_sight state p id options.now_seconds).1 ≡ some true)
    asked none h = absurd (cc)
    asked (some id) h =
        let (first, same) = seen_first_sound (first_sight state p id options.now_seconds).1 id h in
        (id, sym same, first)

non_empty_sound : (field : Field) {t : Text} → non_empty field ≡ some t → field ≡ string t
non_empty_sound absent h = absurd (cc)
non_empty_sound other h = absurd (cc)
non_empty_sound (number n) h = absurd (cc)
non_empty_sound (string []) h = absurd (cc)
non_empty_sound (string (c ∷ cs)) h = ground (arith, h)

-- The id that is returned is the field, where there is one.
check_replay-IsTextIfAny :
    {State : Type 0} (first_sight : State → Text → Text → Instant → State × Option Bool)
    (options : VerifyJwsOptions) (field : Field) (replay : Option Text) (state : State)
    {jti : Option Text}
    → (check_replay first_sight options field replay state).1 ≡ ok jti
    → IsTextIfAny field jti
check_replay-IsTextIfAny first_sight options field none state h = optional_text_sound field h
check_replay-IsTextIfAny first_sight options field (some p) state {jti} h =
    elim (Option-cases (non_empty field)) [
      | inl missing ↦
          let refused : err claim_absent ≡ ok jti =
            ap (λ o. (check_id first_sight options p o state).1) (sym missing) ∙ h in
          absurd (err-ne-ok refused)
      | inr (id, given) ↦
          let answer : (seen_first (first_sight state p id options.now_seconds).1 >> ok (some id))
              ≡ ok jti =
            ap (λ o. (check_id first_sight options p o state).1) (sym given) ∙ h in
          let (_, _, same) =
            >>=-eq-ok (seen_first (first_sight state p id options.now_seconds).1) _ answer in
          subst (IsTextIfAny field) (ok-injective same) (non_empty_sound field given)
    ]

-- `verifyJws` accepts only an authentic token: three segments, of which the first is the frozen header
-- of the key's algorithm and the third 64 bytes that the key verifies over the first two; a payload
-- that names the configured issuer and, strictly or where it names one, the audience; a time from its
-- "nbf" on and before its "exp", unless the configured clock is NaN; and, where there is a replay
-- store, a "jti" that the store sees for the first time. What is returned are the claims of that
-- payload, its "jti" among them.
pub verify_jws-IsAuthentic :
    {State : Type 0} (first_sight : State → Text → Text → Instant → State × Option Bool)
    (jose : Jose) (token : Text) (options : VerifyJwsOptions) (state : State)
    {verified : VerifiedJws}
    → (verify_jws first_sight jose token options state).1 ≡ ok verified
    → (bag : Text → Field) × (claims : Claims) × (jti : Option Text) × IsAuthentic jose token
        options bag claims
      × IsFirstSight first_sight options state jti
      × IsTextIfAny (bag (codes "jti")) jti
      × (verified ≡ verified_jws claims jti)
unfolding verify_jws
verify_jws-IsAuthentic first_sight jose token options state {verified} h =
    elim (Result-cases (open_token jose token options)) [
      | inr (e, failed) ↦ absurd (ground (arith, failed, h))
      | inl ((bag, claims), opened) ↦
          let answered : ((check_replay first_sight options (bag (codes "jti")) options.replay
                  state).1
                >>= λ j. ok (verified_jws claims j))
              ≡ ok verified =
            ground (arith, opened, h) in
          let (jti, checked, same) =
            >>=-eq-ok (check_replay first_sight options (bag (codes "jti")) options.replay state).1
              (λ j. ok (verified_jws claims j)) answered in
          (
            bag,
            claims,
            jti,
            open_token-IsAuthentic jose token options opened,
            check_replay-IsFirstSight first_sight options (bag (codes "jti")) options.replay state
                checked,
            check_replay-IsTextIfAny first_sight options (bag (codes "jti")) options.replay state
                checked,
            sym (ok-injective same),
          )
    ]
