-- ===== src/Gateway/Auth/Jws/Read.antt =====
-- The segments of a token and the claims that `verifyJws` (packages/gateway/src/auth/jws.ts) reads.
use mathlib.Core.Path.{subst}
use stellar_onramp.Base.{
  ℕ, List, [], ◌∷◌, ◌++◌, Option, none, some, ◌==◌, ==_iff, ◌≡◌, refl, sym, ap, ◌∙◌, arith, inl,
  inr, Bool-cases, ok, or_throw, or_throw-eq-ok, >>=-eq-ok, ok-injective, err-ne-ok, Number,
  IsInteger, nat, negsuc, non_integer, Text, codes,
}
use stellar_onramp.Gateway.Auth.Jws.{
  claim_type, Field, absent, other, string, number, ClaimPolicy, strict, sep10, prepend, split_on,
  safe_integer, require_text, require_time, optional_text, optional_time, Claims, read_claims,
  three,
}

-- The segments, with dots between them.
abbrev pub dotted : List Text → Text
dotted [] = []
dotted (t ∷ []) = t
dotted (t ∷ u ∷ ts) = t ++ (b'.' ∷ dotted (u ∷ ts))

dotted-prepend : (c : ℕ) (ts : List Text) → dotted (prepend c ts) ≡ c ∷ dotted ts
dotted-prepend c [] = refl
dotted-prepend c (t ∷ []) = refl
dotted-prepend c (t ∷ u ∷ ts) = refl

split_on-ne_empty : (text : Text) → (t : Text) × (ts : List Text) × (split_on b'.' text ≡ t ∷ ts)
unfolding split_on
split_on-ne_empty [] = ([], [], refl)
split_on-ne_empty (c ∷ text) =
    let (t, ts, e) = split_on-ne_empty text in
    elim (Bool-cases (c == b'.')) [
      | inl dot ↦ ([], t ∷ ts, ground (arith, dot, e))
      | inr no_dot ↦ (c ∷ t, ts, ground (arith, no_dot, e))
    ]

pub dotted-split_on : (text : Text) → dotted (split_on b'.' text) ≡ text
unfolding split_on
dotted-split_on [] = refl
dotted-split_on (c ∷ text) =
    let (t, ts, e) = split_on-ne_empty text in
    let rest : dotted (t ∷ ts) ≡ text = ap dotted (sym e) ∙ dotted-split_on text in
    elim (Bool-cases (c == b'.')) [
      | inl dot ↦
          let is : c ≡ b'.' = (==_iff c b'.').0 dot in
          let first : split_on b'.' (c ∷ text) ≡ [] ∷ t ∷ ts = ground (arith, dot, e) in
          ap dotted first ∙ ap (λ l. b'.' ∷ l) rest ∙ ap (λ k. k ∷ text) (sym is)
      | inr no_dot ↦
          let first : split_on b'.' (c ∷ text) ≡ prepend c (t ∷ ts) = ground (arith, no_dot, e) in
          ap dotted first ∙ dotted-prepend c (t ∷ ts) ∙ ap (λ l. c ∷ l) rest
    ]

pub three_sound :
    (ts : List Text) {header payload signature : Text}
    → three ts ≡ some (header, payload, signature)
    → ts ≡ header ∷ payload ∷ signature ∷ []
three_sound [] h = absurd (cc)
three_sound (a ∷ []) h = absurd (cc)
three_sound (a ∷ b ∷ []) h = absurd (cc)
three_sound (a ∷ b ∷ c ∷ []) h = cc
three_sound (a ∷ b ∷ c ∷ d ∷ ts) h = absurd (cc)

require_text_sound : (field : Field) {t : Text} → require_text field ≡ ok t → field ≡ string t
require_text_sound absent h = absurd (cc)
require_text_sound other h = absurd (cc)
require_text_sound (number n) h = absurd (cc)
require_text_sound (string []) h = absurd (cc)
require_text_sound (string (c ∷ cs)) h = ap string (ok-injective h)

safe_integer_sound : (field : Field) {n : Number} → safe_integer field ≡ some n → field ≡ number n
safe_integer_sound absent h = absurd (cc)
safe_integer_sound other h = absurd (cc)
safe_integer_sound (string t) h = absurd (cc)
safe_integer_sound (number (nat n)) h = ground (arith, h)
safe_integer_sound (number (negsuc n)) h = ground (arith, h)
safe_integer_sound (number non_integer) h = absurd (cc)

require_time_sound : (field : Field) {n : Number} → require_time field ≡ ok n → field ≡ number n
require_time_sound absent h = absurd (cc)
require_time_sound other h = absurd (cc)
require_time_sound (string t) h = absurd (cc)
require_time_sound (number n) h =
    safe_integer_sound (number n) (or_throw_sound (safe_integer (number n)) h)
  where
    or_throw_sound : (o : Option Number) {m : Number} → or_throw o claim_type ≡ ok m → o ≡ some m
    or_throw_sound none h = absurd (cc)
    or_throw_sound (some n) h = ap some (ok-injective h)

-- What a claim that may be left out was read as.
abbrev pub IsTextIfAny : Field → Option Text → Type 0
IsTextIfAny field none = field ≡ absent
IsTextIfAny field (some t) = field ≡ string t

abbrev pub IsTimeIfAny : Field → Option Number → Type 0
IsTimeIfAny field none = field ≡ absent
IsTimeIfAny field (some n) = field ≡ number n

pub optional_text_sound :
    (field : Field) {o : Option Text} → optional_text field ≡ ok o → IsTextIfAny field o
optional_text_sound absent h = subst (IsTextIfAny absent) (ok-injective h) refl
optional_text_sound other h = absurd (cc)
optional_text_sound (number n) h = absurd (cc)
optional_text_sound (string []) h = absurd (cc)
optional_text_sound (string (c ∷ cs)) h =
    subst (IsTextIfAny (string (c ∷ cs))) (ok-injective h) refl

optional_time_sound :
    (field : Field) {o : Option Number} → optional_time field ≡ ok o → IsTimeIfAny field o
optional_time_sound absent h = subst (IsTimeIfAny absent) (ok-injective h) refl
optional_time_sound other h = absurd (cc)
optional_time_sound (string t) h = absurd (cc)
optional_time_sound (number n) h =
    let (m, safe, h₁) = or_throw-eq-ok (safe_integer (number n)) claim_type _ h in
    subst (IsTimeIfAny (number n)) (ok-injective h₁) (safe_integer_sound (number n) safe)

-- The claims are those of the payload; `sep10` lets the audience and the first time be left out.
IsInteger-safe_integer : (field : Field) {n : Number} → safe_integer field ≡ some n → IsInteger n
IsInteger-safe_integer absent h = absurd (cc)
IsInteger-safe_integer other h = absurd (cc)
IsInteger-safe_integer (string t) h = absurd (cc)
IsInteger-safe_integer (number (nat n)) h =
    let same : nat n ≡ _ = ground (arith, h) in subst IsInteger same tt
IsInteger-safe_integer (number (negsuc n)) h =
    let same : negsuc n ≡ _ = ground (arith, h) in subst IsInteger same tt
IsInteger-safe_integer (number non_integer) h = absurd (cc)

IsInteger-require_time : (field : Field) {n : Number} → require_time field ≡ ok n → IsInteger n
IsInteger-require_time absent h = absurd (cc)
IsInteger-require_time other h = absurd (cc)
IsInteger-require_time (string t) h = absurd (cc)
IsInteger-require_time (number n) h =
    let (m, safe, same) = or_throw_found (safe_integer (number n)) h in
    subst IsInteger same (IsInteger-safe_integer (number n) safe)
  where
    or_throw_found :
        (o : Option Number) {k : Number}
        → or_throw o claim_type ≡ ok k
        → (m : Number) × (o ≡ some m) × (m ≡ k)
    or_throw_found none h = absurd (err-ne-ok h)
    or_throw_found (some m) h = (m, refl, ok-injective h)

IsInteger-optional_time :
    (field : Field) {o : Option Number}
    → optional_time field ≡ ok o
    → (n : Number) → o ≡ some n
    → IsInteger n
IsInteger-optional_time absent h n is = let same = ok-injective h in absurd (cc)
IsInteger-optional_time other h n is = absurd (cc)
IsInteger-optional_time (string t) h n is = absurd (cc)
IsInteger-optional_time (number m) h n is =
    let (k, safe, h₁) = or_throw-eq-ok (safe_integer (number m)) claim_type _ h in
    let same = ok-injective h₁ in
    let value : k ≡ n = cc in subst IsInteger value (IsInteger-safe_integer (number m) safe)

pub record IsRead (policy : ClaimPolicy) (bag : Text → Field) (claims : Claims) : Type 0 where
  pub iss_h : bag (codes "iss") ≡ string claims.iss
  pub sub_h : bag (codes "sub") ≡ string claims.sub
  pub aud_h : IsTextIfAny (bag (codes "aud")) claims.aud
  pub iat_h : bag (codes "iat") ≡ number claims.iat
  pub nbf_h : IsTimeIfAny (bag (codes "nbf")) claims.nbf
  pub exp_h : bag (codes "exp") ≡ number claims.exp
  pub iat_integer : IsInteger claims.iat
  pub nbf_integer : (n : Number) → claims.nbf ≡ some n → IsInteger n
  pub exp_integer : IsInteger claims.exp
  pub strict_h : policy ≡ strict → (a : Text) × (claims.aud ≡ some a)

pub read_claims-IsRead :
    (policy : ClaimPolicy) (bag : Text → Field) {claims : Claims}
    → read_claims policy bag ≡ ok claims
    → IsRead policy bag claims
unfolding read_claims
read_claims-IsRead strict bag h =
    let (iss, iss_h, h₁) = >>=-eq-ok (require_text (bag (codes "iss"))) _ h in
    let (sub, sub_h, h₂) = >>=-eq-ok (require_text (bag (codes "sub"))) _ h₁ in
    let (aud, aud_h, h₃) = >>=-eq-ok (require_text (bag (codes "aud"))) _ h₂ in
    let (iat, iat_h, h₄) = >>=-eq-ok (require_time (bag (codes "iat"))) _ h₃ in
    let (nbf, nbf_h, h₅) = >>=-eq-ok (require_time (bag (codes "nbf"))) _ h₄ in
    let (exp, exp_h, h₆) = >>=-eq-ok (require_time (bag (codes "exp"))) _ h₅ in
    subst (IsRead strict bag) (ok-injective h₆) (record {
      iss_h = require_text_sound (bag (codes "iss")) iss_h;
      sub_h = require_text_sound (bag (codes "sub")) sub_h;
      aud_h = require_text_sound (bag (codes "aud")) aud_h;
      iat_h = require_time_sound (bag (codes "iat")) iat_h;
      nbf_h = require_time_sound (bag (codes "nbf")) nbf_h;
      exp_h = require_time_sound (bag (codes "exp")) exp_h;
      iat_integer = IsInteger-require_time (bag (codes "iat")) iat_h;
      nbf_integer = λ n is.
          let same : nbf ≡ n = cc in
          subst IsInteger same (IsInteger-require_time (bag (codes "nbf")) nbf_h);
      exp_integer = IsInteger-require_time (bag (codes "exp")) exp_h;
      strict_h = λ e. (aud, refl);
    })
read_claims-IsRead sep10 bag h =
    let (iss, iss_h, h₁) = >>=-eq-ok (require_text (bag (codes "iss"))) _ h in
    let (sub, sub_h, h₂) = >>=-eq-ok (require_text (bag (codes "sub"))) _ h₁ in
    let (iat, iat_h, h₃) = >>=-eq-ok (require_time (bag (codes "iat"))) _ h₂ in
    let (exp, exp_h, h₄) = >>=-eq-ok (require_time (bag (codes "exp"))) _ h₃ in
    let (aud, aud_h, h₅) = >>=-eq-ok (optional_text (bag (codes "aud"))) _ h₄ in
    let (nbf, nbf_h, h₆) = >>=-eq-ok (optional_time (bag (codes "nbf"))) _ h₅ in
    subst (IsRead sep10 bag) (ok-injective h₆) (record {
      iss_h = require_text_sound (bag (codes "iss")) iss_h;
      sub_h = require_text_sound (bag (codes "sub")) sub_h;
      aud_h = optional_text_sound (bag (codes "aud")) aud_h;
      iat_h = require_time_sound (bag (codes "iat")) iat_h;
      nbf_h = optional_time_sound (bag (codes "nbf")) nbf_h;
      exp_h = require_time_sound (bag (codes "exp")) exp_h;
      iat_integer = IsInteger-require_time (bag (codes "iat")) iat_h;
      nbf_integer = IsInteger-optional_time (bag (codes "nbf")) nbf_h;
      exp_integer = IsInteger-require_time (bag (codes "exp")) exp_h;
      strict_h = λ e. absurd (cc);
    })
