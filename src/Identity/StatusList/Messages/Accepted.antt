-- ===== src/Identity/StatusList/Messages/Accepted.antt =====
-- The messages that `encodeStatusList` writes are messages that `decodeStatusList` accepts
-- (packages/identity/src/status-list.ts).
use stellar_onramp.Base.{
  ℕ, zero, suc, ◌+◌, ◌^◌, ◌<◌, ◌≤◌, ◌≡◌, refl, ap, arith, Bool, true, ◌∷◌, ok, length, all_below,
  all_below_sound, leb,
}
use stellar_onramp.Identity.StatusList.Messages.{
  is_hex_status, assert_entry, assert_entries, assert_status_message, to_string, default_entry,
  entries_from, default_messages,
}

hex_table : all_below 256 (λ v. is_hex_status (b'0' ∷ b'x' ∷ to_string 16 v)) ≡ true
unfolding all_below is_hex_status to_string
hex_table = refl

default_entry-accepted :
    (suspended : Bool) (v : ℕ) → v < 256 → assert_entry (default_entry suspended v) ≡ ok tt
unfolding assert_entry default_entry
default_entry-accepted suspended v h =
    ground
      (arith, all_below_sound 256 (λ v. is_hex_status (b'0' ∷ b'x' ∷ to_string 16 v)) v hex_table h)

entries_from-accepted :
    (suspended : Bool) (v n : ℕ) → v + n ≤ 256 → assert_entries (entries_from suspended v n) ≡ ok tt
unfolding assert_entries entries_from
entries_from-accepted suspended v zero h = refl
entries_from-accepted suspended v (suc n) h =
    rw (default_entry-accepted suspended v (omega arith))
      (entries_from-accepted suspended (v + 1) n (omega arith))

length-entries_from : (suspended : Bool) (v n : ℕ) → length (entries_from suspended v n) ≡ n
unfolding entries_from
length-entries_from suspended v zero = refl
length-entries_from suspended v (suc n) = ap suc (length-entries_from suspended (v + 1) n)

power_table : all_below 9 (λ n. leb (2 ^ n) 256) ≡ true
unfolding all_below
power_table = refl

-- The message table that the encoder writes by default, for either purpose, is one that the decoder
-- accepts, for every entry size up to 8.
pub default_messages-accepted :
    (suspended : Bool) (size : ℕ)
    → size ≤ 8
    → assert_status_message (default_messages suspended size) size ≡ ok tt
unfolding assert_status_message default_messages
default_messages-accepted suspended size h =
    let small = all_below_sound 9 _ size power_table (omega arith) in
    let accepted = entries_from-accepted suspended 0 (2 ^ size) (ground (arith, small)) in
    ground (arith, length-entries_from suspended 0 (2 ^ size), accepted)
