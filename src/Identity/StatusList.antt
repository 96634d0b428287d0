-- ===== src/Identity/StatusList.antt =====
-- `decodeStatusList`, `isStatusSet` and `encodeStatusList` of packages/identity/src/status-list.ts.
-- A promise that rejects is an error; the sizes and products of indices are taken to be exact.
pub mod Messages
pub mod Build
pub mod Decode
mod Wire
pub mod RoundTrip
use stellar_onramp.Base.{
  ℕ, zero, suc, ◌+◌, ◌*◌, ◌/◌, ◌%◌, ◌^◌, Bool, not, ◌&&◌, ◌||◌, List, [], ◌∷◌, ◌++◌, Option, none,
  some, ltb, leb, ◌==◌, if◌then◌else◌, length, replicate, Result, ok, err, ◌>>=◌, ◌>>◌, guard,
  or_throw, Bytes, Text, codes, equal, Number, nat, negsuc, non_integer, to_nat?,
}
use stellar_onramp.Identity.StatusListError.{
  StatusListError, bad_status_size, status_size_over_maximum, not_an_object, unsupported_purpose,
  purpose_mismatch, too_short, too_few_entries, partial_byte, set_out_of_range,
}
use stellar_onramp.Identity.Base64.{base64url_encode, multibase_decode}
use stellar_onramp.Identity.Bits.{Bitstring, set_bit, status_at}
use stellar_onramp.Identity.Gzip.{GzipStreams, gunzip, gzip}
use Messages.{StatusMessages, absent, assert_status_message, default_messages}

abbrev pub minimum_status_list_entries : ℕ
minimum_status_list_entries = 131072

pub data StatusPurpose : Type 0 where
  revocation suspension : StatusPurpose

abbrev pub purpose_name : StatusPurpose → Text
purpose_name revocation = codes "revocation"
purpose_name suspension = codes "suspension"

-- `===` on the two names.
abbrev pub same_purpose : StatusPurpose → StatusPurpose → Bool
same_purpose p q = equal (purpose_name p) (purpose_name q)

-- The wire object `BitstringStatusList`.
pub record StatusList : Type 0 where
  pub status_purpose : Text
  pub encoded_list : Text
  pub status_size : Option Number
  pub status_message : StatusMessages

pub data StatusListValue : Type 0 where
  not_object : StatusListValue
  object : StatusList → StatusListValue

pub record DecodedStatusList : Type 0 where
  pub status_purpose : StatusPurpose
  pub bitstring : Bitstring
  pub open bitstring use *
  pub entry_count : ℕ

unfoldable pub normalize_status_size : Option Number → Result StatusListError ℕ
normalize_status_size none = ok 1
normalize_status_size (some raw) = do
  size ← or_throw (to_nat? raw) bad_status_size
  guard (leb 1 size) bad_status_size
  guard (leb size 8) status_size_over_maximum
  ok size

unfoldable pub assert_known_purpose : Text → Result StatusListError StatusPurpose
assert_known_purpose purpose =
    if equal purpose (codes "revocation")
    then ok revocation
    else if equal purpose (codes "suspension")
    then ok suspension
    else err unsupported_purpose

-- §3.2 step 5.
expect_purpose : Option StatusPurpose → StatusPurpose → Result StatusListError (Unit {0})
expect_purpose none purpose = ok tt
expect_purpose (some expected) purpose = guard (same_purpose expected purpose) purpose_mismatch

-- The last part of `decodeStatusList`: the floor on the entries, and the result.
decoded : StatusPurpose → ℕ → Bytes → Result StatusListError DecodedStatusList
decoded purpose size bits = do
  let bit_length = length bits * 8
  let entry_count = bit_length / size
  guard (leb minimum_status_list_entries entry_count) too_short
  ok (record {
    status_purpose = purpose;
    bitstring = record { status_size = size; bits = bits; bit_length = bit_length };
    entry_count = entry_count;
  })

unfoldable pub decode_status_list :
    GzipStreams → StatusListValue → Option StatusPurpose → Result StatusListError DecodedStatusList
unfolding normalize_status_size assert_known_purpose expect_purpose decoded
decode_status_list streams not_object expected = err not_an_object
decode_status_list streams (object list) expected = do
  purpose ← assert_known_purpose list.status_purpose
  expect_purpose expected purpose
  size ← normalize_status_size list.status_size
  assert_status_message list.status_message size
  compressed ← multibase_decode list.encoded_list
  bits ← gunzip streams compressed
  decoded purpose size bits

unfoldable pub is_status_set :
    GzipStreams → StatusListValue → Number → Option StatusPurpose → Result StatusListError Bool
is_status_set streams list index expected = do
  decoded ← decode_status_list streams list expected
  status ← status_at decoded.bitstring index
  ok (not (status == 0))

pub record EncodeOptions : Type 0 where
  pub status_purpose : Text
  pub set : List Number
  pub entries : Option Number
  pub status_size : Option Number

-- `entries ?? MINIMUM_STATUS_LIST_ENTRIES`, checked.
unfoldable pub entry_total : Option Number → Result StatusListError ℕ
entry_total none = ok minimum_status_list_entries
entry_total (some raw) = do
  entries ← or_throw (to_nat? raw) too_few_entries
  guard (leb minimum_status_list_entries entries) too_few_entries
  ok entries

-- The inner loop of `encodeStatusList`: the `left` bits from `position` on.
unfoldable pub set_bits : Bytes → ℕ → ℕ → Result StatusListError Bytes
set_bits bits position zero = ok bits
set_bits bits position (suc left) = do
  bits' ← set_bit bits (nat position)
  set_bits bits' (position + 1) left

-- The outer loop: every index of the set.
unfoldable pub set_entries : ℕ → ℕ → Bytes → List Number → Result StatusListError Bytes
set_entries entries size bits [] = ok bits
set_entries entries size bits (raw ∷ rest) = do
  index ← or_throw (to_nat? raw) set_out_of_range
  guard (ltb index entries) set_out_of_range
  bits' ← set_bits bits (index * size) size
  set_entries entries size bits' rest

-- The bitstring of `encodeStatusList`, before it is compressed.
unfoldable pub build_bits : ℕ → ℕ → List Number → Result StatusListError Bytes
build_bits entries size indexes = do
  guard (entries * size % 8 == 0) partial_byte
  set_entries entries size (replicate (entries * size / 8) 0) indexes

-- The object that is returned: no size and no messages at one bit.
pub wire : StatusPurpose → ℕ → Text → StatusList
wire purpose size encoded_list =
    if size == 1
    then record {
      status_purpose = purpose_name purpose;
      encoded_list = encoded_list;
      status_size = none;
      status_message = absent;
    }
    else record {
      status_purpose = purpose_name purpose;
      encoded_list = encoded_list;
      status_size = some (nat size);
      status_message = default_messages (same_purpose purpose suspension) size;
    }

unfoldable pub encode_status_list : GzipStreams → EncodeOptions → Result StatusListError StatusList
unfolding normalize_status_size assert_known_purpose entry_total wire
encode_status_list streams options = do
  purpose ← assert_known_purpose options.status_purpose
  size ← normalize_status_size options.status_size
  entries ← entry_total options.entries
  bits ← build_bits entries size options.set
  compressed ← gzip streams bits
  ok (wire purpose size (b'u' ∷ base64url_encode compressed))
