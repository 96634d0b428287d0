-- ===== src/Identity/StatusList/Wire.antt =====
-- What `decodeStatusList` makes of the object that `encodeStatusList` returns
-- (packages/identity/src/status-list.ts).
use native.Mathlib.Nat.{mul-div_cancel}
use stellar_onramp.Base.{
  ℕ, ◌*◌, ◌/◌, ◌≤◌, ◌≡◌, inl, inr, refl, ap, ◌∙◌, arith, Option, ok, length, le→leb, ◌==◌, ◌∷◌,
  Bytes, AreBytes, Text, equal, Bool-cases,
}
use stellar_onramp.Identity.Base64.{base64url_encode}
use stellar_onramp.Identity.Base64.RoundTrip.{multibase_decode-encode}
use stellar_onramp.Identity.Gzip.{GzipStreams, join, max_status_list_bytes}
use stellar_onramp.Identity.Gzip.Bounded.{IsGzip, gunzip-gzip}
use stellar_onramp.Identity.StatusList.Messages.{assert_status_message}
use stellar_onramp.Identity.StatusList.Messages.Accepted.{default_messages-accepted}
use stellar_onramp.Identity.StatusList.Decode.{Asks}
use stellar_onramp.Identity.StatusList.{
  StatusPurpose, revocation, suspension, purpose_name, same_purpose, object, DecodedStatusList,
  normalize_status_size, assert_known_purpose, expect_purpose, decoded, decode_status_list,
  minimum_status_list_entries, wire,
}

wire-purpose : (p : StatusPurpose) → assert_known_purpose (purpose_name p) ≡ ok p
unfolding assert_known_purpose equal
wire-purpose revocation = refl
wire-purpose suspension = refl

Asks-expect :
    (expected : Option StatusPurpose) (p : StatusPurpose)
    → Asks expected p
    → expect_purpose expected p ≡ ok tt
unfolding expect_purpose equal
Asks-expect expected revocation (inl e) = rw e
Asks-expect expected suspension (inl e) = rw e
Asks-expect expected revocation (inr e) = rw e
Asks-expect expected suspension (inr e) = rw e

-- The size that the list carries is the size that was asked for.
wire-size :
    (p : StatusPurpose) (size : ℕ) (text : Text)
    → 1 ≤ size
    → size ≤ 8
    → normalize_status_size (wire p size text).status_size ≡ ok size
unfolding normalize_status_size wire
wire-size p size text low high = elim (Bool-cases (size == 1)) [
  | inl one ↦ rw one (ground arith)
  | inr more ↦ rw more (ground arith)
]

wire-messages :
    (p : StatusPurpose) (size : ℕ) (text : Text)
    → 1 ≤ size
    → size ≤ 8
    → assert_status_message (wire p size text).status_message size ≡ ok tt
unfolding wire
wire-messages p size text low high = elim (Bool-cases (size == 1)) [
  | inl one ↦ rw one (unfold assert_status_message in ground arith)
  | inr more ↦ rw more (default_messages-accepted (same_purpose p suspension) size high)
]

wire-parts :
    (p : StatusPurpose) (size : ℕ) (text : Text)
    → ((wire p size text).status_purpose ≡ purpose_name p)
      × ((wire p size text).encoded_list ≡ text)
unfolding wire
wire-parts p size text = elim (Bool-cases (size == 1)) [
  | inl one ↦ rw one (refl, refl)
  | inr more ↦ rw more (refl, refl)
]

-- What decoding the list of a bitstring gives.
abbrev pub as_decoded : StatusPurpose → ℕ → ℕ → Bytes → DecodedStatusList
as_decoded p size entries bits = record {
  status_purpose = p;
  bitstring = record { status_size = size; bits = bits; bit_length = length bits * 8 };
  entry_count = entries;
}

decoded-as_decoded :
    (p : StatusPurpose) (size entries : ℕ) (bits : Bytes)
    → 1 ≤ size
    → minimum_status_list_entries ≤ entries
    → length bits * 8 ≡ entries * size
    → decoded p size bits ≡ ok (as_decoded p size entries bits)
unfolding decoded
decoded-as_decoded p size entries bits low many exact =
    let quotient : length bits * 8 / size ≡ entries =
      ap (λ (n : ℕ). n / size) exact ∙ mul-div_cancel entries low in
    rw (quotient, le→leb minimum_status_list_entries entries many)

pub decode-wire :
    (streams : GzipStreams) (p : StatusPurpose) (size entries : ℕ) (bits : Bytes)
    (expected : Option StatusPurpose)
    → IsGzip streams
    → (1 ≤ size) × (size ≤ 8)
    → minimum_status_list_entries ≤ entries
    → length bits * 8 ≡ entries * size
    → AreBytes bits
    → length bits ≤ max_status_list_bytes
    → Asks expected p
    → decode_status_list streams
        (object (wire p size (b'u' ∷ base64url_encode (join (streams.compress bits)))))
        expected
      ≡ ok (as_decoded p size entries bits)
unfolding decode_status_list
decode-wire streams p size entries bits expected law sized many exact bytes fits asks =
    let text = b'u' ∷ base64url_encode (join (streams.compress bits)) in
    let (named, carried) = wire-parts p size text in
    rw
      (
        named,
        wire-purpose p,
        Asks-expect expected p asks,
        wire-size p size text sized.0 sized.1,
        wire-messages p size text sized.0 sized.1,
        carried,
        multibase_decode-encode (join (streams.compress bits)) (law.compressed_bytes bits bytes),
        gunzip-gzip streams bits law bytes fits,
      )
      (decoded-as_decoded p size entries bits sized.0 many exact)
