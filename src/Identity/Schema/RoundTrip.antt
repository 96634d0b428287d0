-- ===== src/Identity/Schema/RoundTrip.antt =====
-- Encoding and disclosure in packages/identity/src/schema.ts.
use mathlib.Core.Path.{subst}
use stellar_onramp.Base.{
  ℕ, zero, suc, true, false, not, List, [], ◌∷◌, ◌++◌, some, leb, length, ◌≡◌, refl, arith, ap, ◌∙◌,
  ok-injective, get_elem?, get_or, map, ==_iff, ok, or_throw-eq-ok, >>=-eq-ok, guard-eq-ok, nat,
  negsuc, non_integer, Text, equal, equal_self, is_hex32,
}
use stellar_onramp.Identity.Decimal.{read-decimal, decimal-canonical}
use stellar_onramp.Identity.Schema.{
  ClaimName, ClaimKind, string, hex32, uint, bool, name_text, claim_index, claim_specs, claim_kind,
  ClaimValue, text, number, boolean, max_safe_integer, has_equals, encode_value, encode_claim,
  split, decode_value, decode_message, decode_disclosed, encode_each, encode_claims, Claims,
}

-- A value that was encoded decodes to itself.
decode-encode_value :
    (kind : ClaimKind) (value : ClaimValue) {encoded : Text}
    → encode_value kind value ≡ ok encoded
    → decode_value kind encoded ≡ ok value
unfolding encode_value decode_value equal
decode-encode_value bool (boolean true) h =
    subst (λ t. decode_value bool t ≡ ok (boolean true)) (ok-injective h) refl
decode-encode_value bool (boolean false) h =
    subst (λ t. decode_value bool t ≡ ok (boolean false)) (ok-injective h) refl
decode-encode_value bool (text t) h = absurd (cc)
decode-encode_value bool (number n) h = absurd (cc)
decode-encode_value uint (number (nat n)) h =
    let (safe, h₁) = guard-eq-ok (leb n max_safe_integer) _ h in
    let canonical = decimal-canonical n in
    let back = read-decimal n in
    subst (λ t. decode_value uint t ≡ ok (number (nat n))) (ok-injective h₁)
      (ground (arith, canonical, back, safe))
decode-encode_value uint (number (negsuc n)) h = absurd (cc)
decode-encode_value uint (number non_integer) h = absurd (cc)
decode-encode_value uint (text t) h = absurd (cc)
decode-encode_value uint (boolean b) h = absurd (cc)
decode-encode_value hex32 (text t) h =
    let (hex, h₁) = guard-eq-ok (is_hex32 t) _ h in
    subst (λ u. decode_value hex32 u ≡ ok (text t)) (ok-injective h₁) (ground (arith, hex))
decode-encode_value hex32 (number n) h = absurd (cc)
decode-encode_value hex32 (boolean b) h = absurd (cc)
decode-encode_value string (text []) h = absurd (cc)
decode-encode_value string (text (c ∷ cs)) h =
    let (_, h₁) = guard-eq-ok (not (has_equals (c ∷ cs))) _ h in
    subst (λ u. decode_value string u ≡ ok (text (c ∷ cs))) (ok-injective h₁) refl
decode-encode_value string (number n) h = absurd (cc)
decode-encode_value string (boolean b) h = absurd (cc)

split-name_text :
    (name : ClaimName) (value : Text)
    → split (name_text name ++ (b'=' ∷ value)) ≡ some (name_text name, value)
unfolding split
split-name_text name value = ground arith

pub get_elem?-claim_specs :
    (name : ClaimName) → get_elem? claim_specs (claim_index name) ≡ some name
get_elem?-claim_specs name = ground arith

-- The message of a claim, disclosed at the claim's index, names that claim and gives its value back.
pub decode_message-encode_claim :
    (name : ClaimName) (value : ClaimValue) {message : Text}
    → encode_claim name value ≡ ok message
    → decode_message (claim_index name) message ≡ ok (name, value)
unfolding encode_claim decode_message
decode_message-encode_claim name value h =
    let (encoded, e, h₁) = >>=-eq-ok (encode_value (claim_kind name) value) _ h in
    let back = decode-encode_value (claim_kind name) value e in
    let found = get_elem?-claim_specs name in
    let parts = split-name_text name encoded in
    let same = equal_self (name_text name) in
    subst (λ m. decode_message (claim_index name) m ≡ ok (name, value)) (ok-injective h₁)
      (ground (arith, found, parts, same, back))

-- The message at an index is that of the attribute there.
pub encode_each-get :
    (names : List ClaimName) (claims : Claims) (i : ℕ) (name : ClaimName) {messages : List Text}
    → encode_each names claims ≡ ok messages
    → get_elem? names i ≡ some name
    → (value : ClaimValue) × (claims name ≡ some value)
      × (encode_claim name value ≡ ok (get_or messages i []))
unfolding encode_each
encode_each-get [] claims i name h e = absurd (cc)
encode_each-get (n ∷ names) claims zero name {messages} h e =
    let (value, given, h₁) = or_throw-eq-ok (claims n) _ _ h in
    let (message, m, h₂) = >>=-eq-ok (encode_claim n value) _ h₁ in
    let (rest, _, h₃) = >>=-eq-ok (encode_each names claims) _ h₂ in
    let same : n ≡ name = cc in
    subst
      (λ name.
        (value : ClaimValue) × (claims name ≡ some value)
        × (encode_claim name value ≡ ok (get_or messages zero [])))
      same (value, given, m ∙ ap (λ l. ok (get_or l zero [])) (ok-injective h₃))
encode_each-get (n ∷ names) claims (suc i) name h e =
    let (value, given, h₁) = or_throw-eq-ok (claims n) _ _ h in
    let (message, m, h₂) = >>=-eq-ok (encode_claim n value) _ h₁ in
    let (rest, r, h₃) = >>=-eq-ok (encode_each names claims) _ h₂ in
    let (v, given_v, encoded) = encode_each-get names claims i name r e in
    (v, given_v, encoded ∙ ap (λ l. ok (get_or l (suc i) [])) (ok-injective h₃))

-- These attributes with their values in the claim set, in this order.
abbrev pub Shows : Claims → List ClaimName → List (ClaimName × ClaimValue) → Type 0
Shows claims [] [] = Unit {0}
Shows claims (name ∷ names) ((n, v) ∷ out) =
    (n ≡ name) × (claims name ≡ some v) × Shows claims names out
Shows claims _ _ = ⊥

length-both :
    (names : List ClaimName) (messages : List Text)
    → length (map claim_index names)
      ≡ length (map (λ name. get_or messages (claim_index name) []) names)
length-both [] messages = refl
length-both (name ∷ names) messages = ap suc (length-both names messages)

-- Where a claim set is encoded, any of its attributes, disclosed at their indexes with the messages
-- that were signed there, decode to these attributes with the values they had.
pub decode_disclosed-encode_claims :
    (claims : Claims) (names : List ClaimName) {messages : List Text}
    → encode_claims claims ≡ ok messages
    → (out : List (ClaimName × ClaimValue)) × (decode_disclosed
          (map claim_index names)
          (map (λ name. get_or messages (claim_index name) []) names)
        ≡ ok out)
      × Shows claims names out
unfolding encode_claims decode_disclosed
decode_disclosed-encode_claims claims [] h = ([], refl, tt)
decode_disclosed-encode_claims claims (name ∷ names) {messages} h =
    let (value, given, e) =
      encode_each-get claim_specs claims (claim_index name) name h (get_elem?-claim_specs name) in
    let first = decode_message-encode_claim name value e in
    let (out, rest, shows) = decode_disclosed-encode_claims claims names h in
    let both = (==_iff _ _).1 (length-both names messages) in
    ((name, value) ∷ out, ground (arith, both, first, rest), (refl, given, shows))
