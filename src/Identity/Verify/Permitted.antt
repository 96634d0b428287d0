-- ===== src/Identity/Verify/Permitted.antt =====
-- `check_policy` of Policy.antt: what an accepted disclosure satisfies.
use stellar_onramp.Base.{
  ℕ, ◌+◌, true, false, List, [], ◌∷◌, Option, none, some, ◌==◌, ◌≤◌, ◌≡◌, refl, sym, ap, ◌∙◌, arith,
  ok, rethrow_as, Number, nat, negsuc, non_integer, Text, equal_iff, Instant, nan, infinity,
  minus_infinity, whole, negative, part, negative_part, is_finite, IsUpTo, not_after-IsUpTo, All,
  >>=-eq-ok, guard-eq-ok, guard-ok, or_throw-eq-ok, rethrow_as-eq-ok, ok-injective,
}
use stellar_onramp.Identity.Gzip.{GzipStreams}
use stellar_onramp.Identity.Bits.{status_at}
use stellar_onramp.Identity.Schema.{ClaimName, name_text, ClaimValue}
use stellar_onramp.Identity.Credential.{schema_version_text}
use stellar_onramp.Identity.StatusList.{
  StatusListValue, DecodedStatusList, StatusPurpose, decode_status_list,
}
use stellar_onramp.Identity.Verify.Policy.{
  credential_expired, disclosure_shape, error, claim_mismatch, schema_version, status_list_invalid,
  revoked, StatusSource, Expectations, no_plain_object, entries, Decoded, lookup, number_of,
  text_of, same_number, same_value, agrees, is_before_end, has_begun, has_started, check_time,
  check_subject, check_entries, check_expected, purpose_or_default, resolved_list, check_status,
  check_policy,
}
use stellar_onramp.Identity.Verify.Naturals.{AreNatural}

same_number_sound : (a b : Number) → same_number a b ≡ true → a ≡ b
same_number_sound (nat a) (nat b) h = ap nat (ground (arith, h))
same_number_sound (negsuc a) (negsuc b) h = ap negsuc (ground (arith, h))
same_number_sound (nat a) (negsuc b) h = absurd (cc)
same_number_sound (nat a) non_integer h = absurd (cc)
same_number_sound (negsuc a) (nat b) h = absurd (cc)
same_number_sound (negsuc a) non_integer h = absurd (cc)
same_number_sound non_integer b h = absurd (cc)

pub same_value_sound : (a b : ClaimValue) → same_value a b ≡ true → a ≡ b
same_value_sound (ClaimValue.text a) (ClaimValue.text b) h =
    ap ClaimValue.text ((equal_iff a b).0 h)
same_value_sound (ClaimValue.number a) (ClaimValue.number b) h =
    ap ClaimValue.number (same_number_sound a b h)
same_value_sound (ClaimValue.boolean true) (ClaimValue.boolean true) h = refl
same_value_sound (ClaimValue.boolean true) (ClaimValue.boolean false) h = absurd (cc)
same_value_sound (ClaimValue.boolean false) (ClaimValue.boolean true) h = absurd (cc)
same_value_sound (ClaimValue.boolean false) (ClaimValue.boolean false) h = refl
same_value_sound (ClaimValue.text a) (ClaimValue.number b) h = absurd (cc)
same_value_sound (ClaimValue.text a) (ClaimValue.boolean b) h = absurd (cc)
same_value_sound (ClaimValue.number a) (ClaimValue.text b) h = absurd (cc)
same_value_sound (ClaimValue.number a) (ClaimValue.boolean b) h = absurd (cc)
same_value_sound (ClaimValue.boolean true) (ClaimValue.text b) h = absurd (cc)
same_value_sound (ClaimValue.boolean true) (ClaimValue.number b) h = absurd (cc)
same_value_sound (ClaimValue.boolean false) (ClaimValue.text b) h = absurd (cc)
same_value_sound (ClaimValue.boolean false) (ClaimValue.number b) h = absurd (cc)

number_of_sound :
    (v : Option ClaimValue) {n : Number} → number_of v ≡ some n → v ≡ some (ClaimValue.number n)
number_of_sound none h = absurd (cc)
number_of_sound (some (ClaimValue.number n)) h = cc
number_of_sound (some (ClaimValue.text t)) h = absurd (cc)
number_of_sound (some (ClaimValue.boolean b)) h = absurd (cc)

text_of_sound :
    (v : Option ClaimValue) {t : Text} → text_of v ≡ some t → v ≡ some (ClaimValue.text t)
text_of_sound none h = absurd (cc)
text_of_sound (some (ClaimValue.text t)) h = cc
text_of_sound (some (ClaimValue.number n)) h = absurd (cc)
text_of_sound (some (ClaimValue.boolean b)) h = absurd (cc)

-- The claim of this name has this value, if it is disclosed.
abbrev pub IsIfShown : Decoded → ClaimName → Text → Type 0
IsIfShown decoded name value =
    (v : ClaimValue) → lookup (name_text name) decoded ≡ some v → v ≡ ClaimValue.text value

agrees_sound :
    (o : Option ClaimValue) (t : Text)
    → agrees o t ≡ true
    → (v : ClaimValue) → o ≡ some v
    → v ≡ ClaimValue.text t
agrees_sound none t h v shown = absurd (cc)
agrees_sound (some w) t h v shown =
    let same : w ≡ v = cc in sym same ∙ same_value_sound w (ClaimValue.text t) h

-- The start is at most 300 seconds after a finite point of time, as the sum of doubles is.
abbrev pub IsBegun : Instant → ℕ → Type 0
IsBegun (whole n) start = start ≤ n + 300
IsBegun (part n false) start = start ≤ n + 300
IsBegun (part n true) start = start ≤ n + 301
IsBegun (negative n) start = start + n + 1 ≤ 300
IsBegun (negative_part n false) start = start + n + 1 ≤ 300
IsBegun (negative_part n true) start = start + n ≤ 300
IsBegun _ start = ⊥

-- The time is finite, and lies between the times that are disclosed, up to 300 seconds of skew.
abbrev pub IsCurrent : Decoded → Instant → Type 0
IsCurrent decoded time =
    ((end : ℕ) × (lookup (name_text ClaimName.expires_at) decoded
        ≡ some (ClaimValue.number (nat end)))
      × IsUpTo time end)
    × ((start : ℕ)
        → lookup (name_text ClaimName.issued_at) decoded ≡ some (ClaimValue.number (nat start))
        → IsBegun time start)

-- Each claim that is expected is disclosed with the value that is expected.
abbrev pub IsAsExpected : Decoded → Text × Option ClaimValue → Type 0
IsAsExpected decoded (name, want) = (w : ClaimValue) → want ≡ some w → lookup name decoded ≡ some w

-- The status is 0 in a list of this purpose.
abbrev pub IsUnrevoked : GzipStreams → StatusSource → StatusPurpose → Decoded → Type 0
IsUnrevoked streams source purpose decoded =
    (index : Number) × (value : StatusListValue) × (entries_of : DecodedStatusList) × (lookup
        (name_text ClaimName.revocation_index) decoded
      ≡ some (ClaimValue.number index))
    × (resolved_list source (record {
      revocation_index = index;
      issuer_id = text_of (lookup (name_text ClaimName.issuer_id) decoded);
      status_purpose = purpose;
    })
        ≡ some value)
    × (decode_status_list streams value (some purpose) ≡ ok entries_of)
    × (status_at entries_of.bitstring index ≡ ok 0)

has_begun-IsBegun :
    (time : Instant) (start : ℕ)
    → is_finite time ≡ true
    → has_begun time (nat start) ≡ true
    → IsBegun time start
has_begun-IsBegun nan start f h = absurd (cc)
has_begun-IsBegun infinity start f h = absurd (cc)
has_begun-IsBegun minus_infinity start f h = absurd (cc)
has_begun-IsBegun (whole n) start f h = ground (arith, h)
has_begun-IsBegun (part n false) start f h = ground (arith, h)
has_begun-IsBegun (part n true) start f h = ground (arith, h)
has_begun-IsBegun (negative n) start f h = ground (arith, h)
has_begun-IsBegun (negative_part n false) start f h = ground (arith, h)
has_begun-IsBegun (negative_part n true) start f h = ground (arith, h)

check_time-IsCurrent :
    (time : Instant) (decoded : Decoded)
    → AreNatural decoded
    → check_time (some time) decoded ≡ ok tt
    → IsCurrent decoded time
unfolding check_time
check_time-IsCurrent time decoded natural h =
    let (finite, h₁) = guard-eq-ok (is_finite time) error h in
    let (end, given, h₂) =
      or_throw-eq-ok (number_of (lookup (name_text ClaimName.expires_at) decoded)) disclosure_shape
        _ h₁ in
    let shown = number_of_sound (lookup (name_text ClaimName.expires_at) decoded) given in
    let (e, same) = natural (name_text ClaimName.expires_at) end shown in
    let (until, h₃) = guard-eq-ok (is_before_end time end) credential_expired h₂ in
    let begun = guard-ok (has_started time _) credential_expired h₃ in
    (
      (
        e,
        shown ∙ ap (λ n. some (ClaimValue.number n)) same,
        not_after-IsUpTo time e finite (ap (is_before_end time) (sym same) ∙ until),
      ),
      λ start started.
          has_begun-IsBegun time start finite
            (sym (ap (λ v. has_started time (number_of v)) started) ∙ begun),
    )

check_subject_sound :
    (subject : Text) (decoded : Decoded)
    → check_subject (some subject) decoded ≡ ok tt
    → lookup (name_text ClaimName.subject_binding) decoded ≡ some (ClaimValue.text subject)
unfolding check_subject
check_subject_sound subject decoded h =
    let (t, shown, h₁) =
      or_throw-eq-ok (text_of (lookup (name_text ClaimName.subject_binding) decoded))
        disclosure_shape _ h in
    text_of_sound (lookup (name_text ClaimName.subject_binding) decoded) shown
    ∙ ap (λ t. some (ClaimValue.text t)) ((equal_iff t subject).0 (ground (arith, h₁)))

check_entries_sound :
    (expected : List (Text × Option ClaimValue)) (decoded : Decoded)
    → check_entries expected decoded ≡ ok tt
    → All (IsAsExpected decoded) expected
unfolding check_entries
check_entries_sound [] decoded h = tt
check_entries_sound ((name, none) ∷ rest) decoded h =
    ((λ w want. absurd (cc)), check_entries_sound rest decoded h)
check_entries_sound ((name, some want) ∷ rest) decoded h =
    let (got, shown, h₁) = or_throw-eq-ok (lookup name decoded) claim_mismatch _ h in
    let (same, h₂) = guard-eq-ok (same_value got want) claim_mismatch h₁ in
    (
      (λ w wanted. shown ∙ ap some (same_value_sound got want same) ∙ wanted),
      check_entries_sound rest decoded h₂,
    )

check_expected_sound :
    (policy : Expectations) (decoded : Decoded)
    → check_expected (some policy) decoded ≡ ok tt
    → (expected : List (Text × Option ClaimValue)) × (policy ≡ entries expected)
      × All (IsAsExpected decoded) expected
unfolding check_expected
check_expected_sound no_plain_object decoded h = absurd (cc)
check_expected_sound (entries expected) decoded h =
    (expected, refl, check_entries_sound expected decoded h)

check_status-IsUnrevoked :
    (streams : GzipStreams) (source : StatusSource) (purpose : StatusPurpose) (decoded : Decoded)
    → check_status streams (some source) purpose decoded ≡ ok tt
    → IsUnrevoked streams source purpose decoded
unfolding check_status
check_status-IsUnrevoked streams source purpose decoded h =
    let (index, shown, h₁) =
      or_throw-eq-ok (number_of (lookup (name_text ClaimName.revocation_index) decoded))
        disclosure_shape _ h in
    let (value, from, h₂) = or_throw-eq-ok (resolved_list source _) status_list_invalid _ h₁ in
    let (read, reads, h₃) =
      >>=-eq-ok
        (rethrow_as (decode_status_list streams value (some purpose)) (λ e. status_list_invalid)) _
        h₂ in
    let (status, at, h₄) =
      >>=-eq-ok (rethrow_as (status_at read.bitstring index) (λ e. status_list_invalid)) _ h₃ in
    let clear = guard-ok (status == 0) revoked h₄ in
    (
      index,
      value,
      read,
      number_of_sound (lookup (name_text ClaimName.revocation_index) decoded) shown,
      from,
      rethrow_as-eq-ok (decode_status_list streams value (some purpose)) _ reads,
      rethrow_as-eq-ok (status_at read.bitstring index) _ at ∙ ap ok (ground (arith, clear)),
    )

-- What the options ask of the values that are disclosed.
pub record IsPermitted (streams : GzipStreams) (issuer : Text) (time : Option Instant)
    (subject : Option Text) (expected : Option Expectations) (source : Option StatusSource)
    (purpose : Option StatusPurpose) (decoded : Decoded) : Type 0 where
  pub of_version : IsIfShown decoded ClaimName.schema_version schema_version_text
  pub of_issuer : IsIfShown decoded ClaimName.issuer_id issuer
  pub is_current : (t : Instant) → time ≡ some t → IsCurrent decoded t
  pub of_subject :
      (s : Text)
      → subject ≡ some s
      → lookup (name_text ClaimName.subject_binding) decoded ≡ some (ClaimValue.text s)
  pub as_expected :
      (policy : Expectations)
      → expected ≡ some policy
      → (list : List (Text × Option ClaimValue)) × (policy ≡ entries list)
        × All (IsAsExpected decoded) list
  pub is_unrevoked :
      (s : StatusSource)
      → source ≡ some s
      → IsUnrevoked streams s (purpose_or_default purpose) decoded

pub check_policy-IsPermitted :
    (streams : GzipStreams) (issuer : Text) (time : Option Instant) (subject : Option Text)
    (expected : Option Expectations) (source : Option StatusSource) (purpose : Option StatusPurpose)
    (decoded : Decoded) {result : Decoded}
    → AreNatural decoded
    → check_policy streams issuer time subject expected source purpose decoded ≡ ok result
    → (decoded ≡ result) × IsPermitted streams issuer time subject expected source purpose decoded
unfolding check_policy
check_policy-IsPermitted streams issuer time subject expected source purpose decoded natural h =
    let (version, h₁) =
      guard-eq-ok (agrees (lookup (name_text ClaimName.schema_version) decoded) schema_version_text)
        schema_version h in
    let (by, h₂) =
      guard-eq-ok (agrees (lookup (name_text ClaimName.issuer_id) decoded) issuer) claim_mismatch
        h₁ in
    let (_, current, h₃) = >>=-eq-ok (check_time time decoded) _ h₂ in
    let (_, whose, h₄) = >>=-eq-ok (check_subject subject decoded) _ h₃ in
    let (_, agreed, h₅) = >>=-eq-ok (check_expected expected decoded) _ h₄ in
    let (_, clear, h₆) =
      >>=-eq-ok (check_status streams source (purpose_or_default purpose) decoded) _ h₅ in
    (
      ok-injective h₆,
      record {
        of_version =
            agrees_sound (lookup (name_text ClaimName.schema_version) decoded) schema_version_text
              version;
        of_issuer = agrees_sound (lookup (name_text ClaimName.issuer_id) decoded) issuer by;
        is_current = λ t is.
            check_time-IsCurrent t decoded natural
              (ap (λ o. check_time o decoded) (sym is) ∙ current);
        of_subject = λ s is.
            check_subject_sound s decoded (ap (λ o. check_subject o decoded) (sym is) ∙ whose);
        as_expected = λ p is.
            check_expected_sound p decoded (ap (λ o. check_expected o decoded) (sym is) ∙ agreed);
        is_unrevoked = λ s is.
            check_status-IsUnrevoked streams s (purpose_or_default purpose) decoded (
              ap (λ o. check_status streams o (purpose_or_default purpose) decoded) (sym is)
              ∙ clear);
      },
    )
