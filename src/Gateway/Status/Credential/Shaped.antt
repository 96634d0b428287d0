-- ===== src/Gateway/Status/Credential/Shaped.antt =====
-- `assertDocumentShape` (packages/gateway/src/status/credential.ts): where the fields come from.
use mathlib.Core.Path.{subst}
use stellar_onramp.Base.{
  true, [], ◌∷◌, Option, none, some, ◌≡◌, refl, ap, arith, ok, >>=-eq-ok, guard-eq-ok,
  or_throw-eq-ok, ok-injective, err-ne-ok, Text, codes, equal_iff,
}
use stellar_onramp.Identity.StatusList.{StatusList}
use stellar_onramp.Gateway.Status.CredentialError.{wrong_subject_type, bad_subject}
use stellar_onramp.Gateway.Status.Canonical.{
  JsonValue, null, boolean, number, string, array, object, Members, member_of,
}
use stellar_onramp.Gateway.Status.Credential.{
  Document, text_of, is_text, array_includes, required, object_of, to_bitstring_status_list,
  assert_members, assert_document_shape,
}

pub is_text-eq :
    (value : Option JsonValue) (text : Text)
    → is_text value text ≡ true
    → value ≡ some (string text)
unfolding is_text
is_text-eq (some (string value)) text h = ap (λ t. some (string t)) ((equal_iff value text).0 h)
is_text-eq none text h = absurd (cc)
is_text-eq (some null) text h = absurd (cc)
is_text-eq (some (boolean b)) text h = absurd (cc)
is_text-eq (some (number n)) text h = absurd (cc)
is_text-eq (some (array values)) text h = absurd (cc)
is_text-eq (some (object bag)) text h = absurd (cc)

text_of-eq :
    (value : Option JsonValue) {text : Text}
    → text_of value ≡ some text
    → value ≡ some (string text)
text_of-eq (some (string value)) h = ground (arith, h)
text_of-eq none h = absurd (cc)
text_of-eq (some null) h = absurd (cc)
text_of-eq (some (boolean b)) h = absurd (cc)
text_of-eq (some (number n)) h = absurd (cc)
text_of-eq (some (array values)) h = absurd (cc)
text_of-eq (some (object bag)) h = absurd (cc)

required-eq :
    (value : Option JsonValue) {text : Text} → required value ≡ ok text → value ≡ some (string text)
unfolding required
required-eq (some (string (c ∷ cs))) h = ap (λ t. some (string t)) (ok-injective h)
required-eq (some (string [])) h = absurd (err-ne-ok h)
required-eq none h = absurd (err-ne-ok h)
required-eq (some null) h = absurd (err-ne-ok h)
required-eq (some (boolean b)) h = absurd (err-ne-ok h)
required-eq (some (number n)) h = absurd (err-ne-ok h)
required-eq (some (array values)) h = absurd (err-ne-ok h)
required-eq (some (object bag)) h = absurd (err-ne-ok h)

object_of-eq :
    (value : Option JsonValue) {bag : Members}
    → object_of value ≡ ok bag
    → value ≡ some (object bag)
unfolding object_of
object_of-eq (some (object bag)) h = ap (λ b. some (object b)) (ok-injective h)
object_of-eq none h = absurd (err-ne-ok h)
object_of-eq (some null) h = absurd (err-ne-ok h)
object_of-eq (some (boolean b)) h = absurd (err-ne-ok h)
object_of-eq (some (number n)) h = absurd (err-ne-ok h)
object_of-eq (some (string text)) h = absurd (err-ne-ok h)
object_of-eq (some (array values)) h = absurd (err-ne-ok h)

-- A list is of this purpose and encoding, as the subject says.
pub record IsListed (subject : Members) (list : StatusList) : Type 0 where
  pub subject_type : member_of (codes "type") subject ≡ some (string (codes "BitstringStatusList"))
  pub purpose_h : member_of (codes "statusPurpose") subject ≡ some (string list.status_purpose)
  pub encoded_h : member_of (codes "encodedList") subject ≡ some (string list.encoded_list)

-- A document is this object, with the fields that it says.
pub record IsShaped (bag : Members) (doc : Document) : Type 0 where
  pub raw_h : doc.raw ≡ object bag
  pub id_h : member_of (codes "id") bag ≡ some (string doc.id)
  pub issuer_h : member_of (codes "issuer") bag ≡ some (string doc.issuer)
  pub valid_from_h : member_of (codes "validFrom") bag ≡ some (string doc.valid_from)
  pub valid_until_h : member_of (codes "validUntil") bag ≡ some (string doc.valid_until)
  pub proof_h : member_of (codes "proof") bag ≡ doc.proof
  pub subject : Members
  pub subject_h : member_of (codes "credentialSubject") bag ≡ some (object subject)
  pub is_listed : IsListed subject doc.list

to_bitstring_status_list-IsListed :
    (subject : Members) {list : StatusList}
    → to_bitstring_status_list subject ≡ ok list
    → IsListed subject list
unfolding to_bitstring_status_list
to_bitstring_status_list-IsListed subject h =
    let (typed, h₁) =
      guard-eq-ok (is_text (member_of (codes "type") subject) (codes "BitstringStatusList"))
        wrong_subject_type h in
    let (purpose, read, h₂) =
      or_throw-eq-ok (text_of (member_of (codes "statusPurpose") subject)) bad_subject _ h₁ in
    let (encoded, given, h₃) =
      or_throw-eq-ok (text_of (member_of (codes "encodedList") subject)) bad_subject _ h₂ in
    subst (IsListed subject) (ok-injective h₃) (record {
      subject_type =
          is_text-eq (member_of (codes "type") subject) (codes "BitstringStatusList") typed;
      purpose_h = text_of-eq (member_of (codes "statusPurpose") subject) read;
      encoded_h = text_of-eq (member_of (codes "encodedList") subject) given;
    })

assert_members-IsShaped :
    (bag : Members) {doc : Document} → assert_members bag ≡ ok doc → IsShaped bag doc
unfolding assert_members
assert_members-IsShaped bag h =
    let (_, h₁) = guard-eq-ok (array_includes (member_of (codes "@context") bag) _) _ h in
    let (_, h₂) = guard-eq-ok (array_includes (member_of (codes "type") bag) _) _ h₁ in
    let (id, id_h, h₃) = >>=-eq-ok (required (member_of (codes "id") bag)) _ h₂ in
    let (issuer, issuer_h, h₄) = >>=-eq-ok (required (member_of (codes "issuer") bag)) _ h₃ in
    let (from, from_h, h₅) = >>=-eq-ok (required (member_of (codes "validFrom") bag)) _ h₄ in
    let (until, until_h, h₆) = >>=-eq-ok (required (member_of (codes "validUntil") bag)) _ h₅ in
    let (subject, subject_h, h₇) =
      >>=-eq-ok (object_of (member_of (codes "credentialSubject") bag)) _ h₆ in
    let (list, listed, h₈) = >>=-eq-ok (to_bitstring_status_list subject) _ h₇ in
    subst (IsShaped bag) (ok-injective h₈) (record {
      raw_h = refl;
      id_h = required-eq (member_of (codes "id") bag) id_h;
      issuer_h = required-eq (member_of (codes "issuer") bag) issuer_h;
      valid_from_h = required-eq (member_of (codes "validFrom") bag) from_h;
      valid_until_h = required-eq (member_of (codes "validUntil") bag) until_h;
      proof_h = refl;
      subject = subject;
      subject_h = object_of-eq (member_of (codes "credentialSubject") bag) subject_h;
      is_listed = to_bitstring_status_list-IsListed subject listed;
    })

pub assert_document_shape-IsShaped :
    (value : JsonValue) {doc : Document}
    → assert_document_shape value ≡ ok doc
    → (bag : Members) × (value ≡ object bag) × IsShaped bag doc
unfolding assert_document_shape
assert_document_shape-IsShaped (object bag) h = (bag, refl, assert_members-IsShaped bag h)
assert_document_shape-IsShaped null h = absurd (err-ne-ok h)
assert_document_shape-IsShaped (boolean b) h = absurd (err-ne-ok h)
assert_document_shape-IsShaped (number n) h = absurd (err-ne-ok h)
assert_document_shape-IsShaped (string text) h = absurd (err-ne-ok h)
assert_document_shape-IsShaped (array values) h = absurd (err-ne-ok h)
