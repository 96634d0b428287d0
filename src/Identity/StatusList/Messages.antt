-- ===== src/Identity/StatusList/Messages.antt =====
-- `assertStatusMessage` of packages/identity/src/status-list.ts, and the messages that
-- `encodeStatusList` writes above one bit.
pub mod Accepted
use stellar_onramp.Base.{
  ℕ, zero, suc, ◌+◌, ◌-◌, ◌/◌, ◌%◌, ◌^◌, Bool, true, false, ◌&&◌, ◌||◌, List, [], ◌∷◌, ◌++◌, Option,
  none, some, ltb, ◌==◌, if◌then◌else◌, length, Result, ok, err, ◌>>=◌, ◌>>◌, guard, or_throw, Text,
  codes, within,
}
use stellar_onramp.Identity.StatusListError.{
  StatusListError, message_required, message_not_array, message_count, entry_not_object,
  bad_entry_status, bad_entry_message,
}

-- An element of `statusMessage`; none stands for a property that is not a string.
pub data MessageEntry : Type 0 where
  not_object : MessageEntry
  object : Option Text → Option Text → MessageEntry

pub data StatusMessages : Type 0 where
  absent not_array : StatusMessages
  array : List MessageEntry → StatusMessages

is_hex_digit : ℕ → Bool
is_hex_digit c = within b'0' b'9' c || within b'a' b'f' c || within b'A' b'F' c

all_hex : Text → Bool
unfolding is_hex_digit
all_hex [] = true
all_hex (c ∷ cs) = is_hex_digit c && all_hex cs

-- /^0x[0-9a-fA-F]+$/
is_hex_status : Text → Bool
unfolding all_hex
is_hex_status (zero_char ∷ x_char ∷ digit ∷ rest) =
    zero_char == b'0' && x_char == b'x' && all_hex (digit ∷ rest)
is_hex_status _ = false

assert_entry : MessageEntry → Result StatusListError (Unit {0})
unfolding is_hex_status
assert_entry not_object = err entry_not_object
assert_entry (object status message) = do
  s ← or_throw status bad_entry_status
  guard (is_hex_status s) bad_entry_status
  m ← or_throw message bad_entry_message
  ok tt

assert_entries : List MessageEntry → Result StatusListError (Unit {0})
unfolding assert_entry
assert_entries [] = ok tt
assert_entries (entry ∷ entries) = assert_entry entry >> assert_entries entries

unfoldable pub assert_status_message : StatusMessages → ℕ → Result StatusListError (Unit {0})
unfolding assert_entries
assert_status_message absent size = if ltb 1 size then err message_required else ok tt
assert_status_message not_array size = err message_not_array
assert_status_message (array entries) size = do
  guard (length entries == 2 ^ size) message_count
  assert_entries entries

-- A digit of `toString(16)`.
digit : ℕ → ℕ
digit d = if ltb d 10 then b'0' + d else b'a' + (d - 10)

-- `v.toString(base)` for a number of at most `fuel` digits.
digits : ℕ → ℕ → ℕ → Text → Text
unfolding digit
digits zero base v rest = rest
digits (suc fuel) base v rest =
    let more = digits fuel base (v / base) (digit (v % base) ∷ rest) in
    if ltb v base then digit v ∷ rest else more

-- Eight bits have at most two hexadecimal and three decimal digits.
unfoldable pub to_string : ℕ → ℕ → Text
unfolding digits
to_string base v = digits 3 base v []

-- The element at `v` of the default `statusMessage`.
unfoldable pub default_entry : Bool → ℕ → MessageEntry
default_entry suspended v = object (some (codes "0x" ++ to_string 16 v)) (
    some (
      if v == 0
      then codes "valid"
      else (if suspended then codes "suspended" else codes "revoked")
        ++ (codes " (code " ++ (to_string 10 v ++ codes ")"))))

-- `Array.from({ length: n }, (_, v) => …)` from the element `v` on.
unfoldable pub entries_from : Bool → ℕ → ℕ → List MessageEntry
entries_from suspended v zero = []
entries_from suspended v (suc n) = default_entry suspended v ∷ entries_from suspended (v + 1) n

unfoldable pub default_messages : Bool → ℕ → StatusMessages
default_messages suspended size = array (entries_from suspended 0 (2 ^ size))
