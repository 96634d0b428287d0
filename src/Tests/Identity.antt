-- ===== src/Tests/Identity.antt =====
-- Runs of packages/identity/src.
use mathlib.Core.Path.{subst}
use mathlib.Core.List.{append-nil}
use stellar_onramp.Base.{
  ℕ, ◌*◌, ◌≡◌, refl, sym, ◌∙◌, arith, true, List, [], ◌∷◌, ◌++◌, none, some, replicate, length,
  get_or, ok, Bytes, AreBytes, Text, codes, nat, not, ◌==◌, ◌/◌, equal, all_hex, inl,
}
use stellar_onramp.Identity.Base64.{
  base64url_encode, base64url_decode, multibase_decode, b64url_reverse, push, run, step, finish,
  decoded_length,
}
use stellar_onramp.Identity.Base64.RoundTrip.{decode-encode}
use stellar_onramp.Identity.Base64.Canonical.{decode-canonical}
use stellar_onramp.Identity.Bits.{Bitstring, set_bit, status_at}
use stellar_onramp.Identity.Bits.View.{bit}
use stellar_onramp.Identity.Bits.Status.{any_bit}
use stellar_onramp.Identity.Gzip.{GzipStreams, chunk, join, gunzip, gzip, read_capped}
use stellar_onramp.Identity.Gzip.Bounded.{done, more, IsGzip}
use stellar_onramp.Identity.StatusList.{
  EncodeOptions, StatusList, DecodedStatusList, revocation, object, is_status_set,
  encode_status_list, build_bits, set_entries, set_bits, decode_status_list, normalize_status_size,
  assert_known_purpose, entry_total,
}
use stellar_onramp.Identity.StatusList.Messages.{absent, assert_status_message}
use stellar_onramp.Identity.StatusList.Decode.{IsUsable, decode-IsUsable, decode-status_at}
use stellar_onramp.Identity.Decimal.{digits_of}
use stellar_onramp.Identity.Schema.{
  Claims, ClaimName, ClaimKind, ClaimValue, claim_kind, encode_claims, encode_each, encode_claim,
  encode_value, has_equals, decode_disclosed,
}
use stellar_onramp.Identity.Schema.RoundTrip.{Shows, decode_disclosed-encode_claims}
use stellar_onramp.Identity.StatusList.RoundTrip.{is_status_set-encode}
use stellar_onramp.Identity.StatusList.Build.{is_listed, build_bits-shows}

-- Streams that hand their input over as it is.
abbrev pub plain : GzipStreams
plain = record {
  can_decompress = true;
  can_compress = true;
  decompress = λ c. chunk c ∷ [];
  compress = λ raw. raw ∷ [];
}

pub plain-IsGzip : IsGzip plain
unfolding join
plain-IsGzip = record {
  decompresses = refl;
  compresses = refl;
  compressed_bytes = λ raw h. subst AreBytes (sym (append-nil raw)) h;
  restores = λ raw h. more (raw ++ []) (sym (append-nil (raw ++ []) ∙ append-nil raw)) done;
}

-- A stream that decompresses everything to the least bitstring, all zero.
abbrev pub zeros : GzipStreams
zeros = record plain { decompress = λ c. chunk (replicate 16384 0) ∷ [] }

abbrev pub zero_list : StatusList
zero_list = record {
  status_purpose = codes "revocation";
  encoded_list = codes "u";
  status_size = none;
  status_message = absent;
}

abbrev pub zero_bits : DecodedStatusList
zero_bits = record {
  status_purpose = revocation;
  bitstring = record { status_size = 1; bits = replicate 16384 0; bit_length = 131072 };
  entry_count = 131072;
}

zero_list-decodes : decode_status_list zeros (object zero_list) none ≡ ok zero_bits
unfolding decode_status_list multibase_decode base64url_decode run finish decoded_length gunzip
    read_capped equal assert_status_message
zero_list-decodes = refl

decode-encode_example : base64url_decode (base64url_encode (255 ∷ 0 ∷ [])) ≡ ok (255 ∷ 0 ∷ [])
decode-encode_example = decode-encode (255 ∷ 0 ∷ []) (grind arith)

decode-canonical_example : (base64url_encode (77 ∷ []) ≡ codes "TQ") × AreBytes (77 ∷ [])
unfolding base64url_decode run step b64url_reverse finish decoded_length push
decode-canonical_example = decode-canonical (codes "TQ") refl

abbrev two_bytes : Bitstring
two_bytes = record { status_size = 2; bits = 16 ∷ 0 ∷ []; bit_length = 16 }

abbrev one_two : Bytes
one_two = 1 ∷ 2 ∷ []

abbrev options : EncodeOptions
options = record {
  status_purpose = codes "revocation";
  set = nat 3 ∷ [];
  entries = none;
  status_size = none;
}

-- The bits of that list, with the fourth set.
abbrev fourth_bit : Bytes
fourth_bit = 16 ∷ replicate 16383 0

abbrev encoded : StatusList
encoded = record zero_list { encoded_list = b'u' ∷ base64url_encode (join (fourth_bit ∷ [])) }

options-encode : encode_status_list plain options ≡ ok encoded
unfolding encode_status_list build_bits set_entries set_bits set_bit gzip equal
options-encode = refl

is_status_set-encode_example : is_status_set plain (object encoded) (nat 3) none ≡ ok true
unfolding is_listed normalize_status_size assert_known_purpose entry_total equal
is_status_set-encode_example =
    is_status_set-encode plain options revocation 1 131072 3 none plain-IsGzip
      (record { purpose_chosen = refl; size_chosen = refl; entries_chosen = refl }) options-encode
      (ground arith) (inl refl) (ground arith)

build_bits-shows_example :
    (length fourth_bit * 8 ≡ 131072)
    × AreBytes fourth_bit
    × ((j : ℕ) → (bit fourth_bit j == 1) ≡ is_listed (nat 3 ∷ []) (j / 1))
unfolding build_bits set_entries set_bits set_bit
build_bits-shows_example = build_bits-shows 131072 1 (nat 3 ∷ []) (ground arith) (ground arith) refl

decode-IsUsable_example : IsUsable zero_list none zero_bits
decode-IsUsable_example = decode-IsUsable zeros zero_list none zero_list-decodes

decode-status_at_example :
    (v : ℕ) × (status_at zero_bits.bitstring (nat 7) ≡ ok v)
    × ((v == 0) ≡ not (any_bit zero_bits.bits (7 * 1) 1))
decode-status_at_example = decode-status_at zeros zero_list none 7 zero_list-decodes (ground arith)

-- A claim set with a value for each attribute.
abbrev claims : Claims
claims name = elim (claim_kind name) [
  | ClaimKind.string ↦ some (ClaimValue.text (codes "1"))
  | ClaimKind.hex32 ↦ some (ClaimValue.text (replicate 64 b'0'))
  | ClaimKind.uint ↦ some (ClaimValue.number (nat 10))
  | ClaimKind.bool ↦ some (ClaimValue.boolean true)
]

claims-encode : (messages : List Text) × (encode_claims claims ≡ ok messages)
unfolding encode_claims encode_each encode_claim encode_value has_equals all_hex digits_of
claims-encode = (_, refl)

decode_disclosed-encode_claims_example :
    (out : List (ClaimName × ClaimValue)) × (decode_disclosed
        (4 ∷ 6 ∷ [])
        (get_or claims-encode.0 4 [] ∷ get_or claims-encode.0 6 [] ∷ [])
      ≡ ok out)
    × Shows claims (ClaimName.expires_at ∷ ClaimName.over18 ∷ []) out
decode_disclosed-encode_claims_example =
    decode_disclosed-encode_claims claims (ClaimName.expires_at ∷ ClaimName.over18 ∷ [])
      claims-encode.1
