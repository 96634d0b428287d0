-- ===== src/Identity/StatusList/Decode.antt =====
-- What `decodeStatusList` (packages/identity/src/status-list.ts) promises of the list it returns.
use stellar_onramp.Base.{
  ℕ, suc, ◌+◌, ◌*◌, ◌/◌, ◌<◌, ◌≤◌, ◌≡◌, ◌⊎◌, inl, inr, refl, arith, not, Option, none, some, ok,
  length, leb, ◌==◌, Bytes, Number, nat, >>=-eq-ok, Text, codes, equal, equal_iff, Bool-cases,
  ok-injective,
}
use mathlib.Core.Path.{subst}
use native.Mathlib.Nat.{div-mul-le_self, le_trans}
use stellar_onramp.Identity.Bits.{status_at}
use stellar_onramp.Identity.Bits.View.{Fits}
use stellar_onramp.Identity.Bits.Status.{any_bit, status_at-zero}
use stellar_onramp.Identity.Base64.{multibase_decode}
use stellar_onramp.Identity.Gzip.{GzipStreams, gunzip, max_status_list_bytes}
use stellar_onramp.Identity.Gzip.Bounded.{gunzip-bounded}
use stellar_onramp.Identity.StatusList.Messages.{assert_status_message}
use stellar_onramp.Identity.StatusList.{
  StatusPurpose, revocation, suspension, purpose_name, StatusList, object, DecodedStatusList,
  normalize_status_size, assert_known_purpose, expect_purpose, decoded, decode_status_list,
  minimum_status_list_entries,
}

-- The caller asks about this purpose, or about none in particular.
abbrev pub Asks : Option StatusPurpose → StatusPurpose → Type 0
Asks expected purpose = (expected ≡ none) ⊎ (expected ≡ some purpose)

pub record IsUsable (list : StatusList) (expected : Option StatusPurpose) (d : DecodedStatusList)
    : Type 0 where
  pub named : list.status_purpose ≡ purpose_name d.status_purpose
  pub asked : Asks expected d.status_purpose
  pub size_positive : 1 ≤ d.status_size
  pub size_at_most : d.status_size ≤ 8
  pub all_bits : d.bit_length ≡ length d.bits * 8
  pub counted : d.entry_count ≡ d.bit_length / d.status_size
  pub private_enough : minimum_status_list_entries ≤ d.entry_count
  pub bounded : length d.bits ≤ max_status_list_bytes

pub normalize-bounds :
    (raw : Option Number) {size : ℕ} → normalize_status_size raw ≡ ok size → (1 ≤ size) × (size ≤ 8)
unfolding normalize_status_size
normalize-bounds none h = ground arith
normalize-bounds (some (nat n)) h = ground arith
normalize-bounds (some _) h = absurd (cc)

known-purpose :
    (name : Text) {p : StatusPurpose} → assert_known_purpose name ≡ ok p → name ≡ purpose_name p
unfolding assert_known_purpose
known-purpose name h =
    ground (arith, equal_iff name (codes "revocation"), equal_iff name (codes "suspension"))

expected-Asks :
    (expected : Option StatusPurpose) (p : StatusPurpose)
    → expect_purpose expected p ≡ ok tt
    → Asks expected p
unfolding expect_purpose equal
expected-Asks none p h = inl refl
expected-Asks (some revocation) revocation h = inr refl
expected-Asks (some revocation) suspension h = absurd (cc)
expected-Asks (some suspension) revocation h = absurd (cc)
expected-Asks (some suspension) suspension h = inr refl

decoded-IsUsable :
    (list : StatusList) (expected : Option StatusPurpose) (p : StatusPurpose) (size : ℕ)
    (bits : Bytes) {d : DecodedStatusList}
    → list.status_purpose ≡ purpose_name p
    → Asks expected p
    → (1 ≤ size) × (size ≤ 8)
    → length bits ≤ max_status_list_bytes
    → decoded p size bits ≡ ok d
    → IsUsable list expected d
unfolding decoded
decoded-IsUsable list expected p size bits named asked sized bounded h =
    elim (Bool-cases (leb minimum_status_list_entries (length bits * 8 / size))) [
      | inl enough ↦ subst (IsUsable list expected) (ok-injective (rw enough at h)) (record {
        named = named;
        asked = asked;
        size_positive = sized.0;
        size_at_most = sized.1;
        all_bits = refl;
        counted = refl;
        private_enough = ground (arith, enough);
        bounded = bounded;
      })
      | inr short ↦ absurd (ground (arith, short))
    ]

-- A list that `decodeStatusList` returns has the purpose that the document names and the caller
-- asked about, an entry size from 1 to 8, at least 131,072 entries, which are what its bits divide
-- into, and a bitstring within the decompression ceiling.
pub decode-IsUsable :
    (streams : GzipStreams) (list : StatusList) (expected : Option StatusPurpose)
    {d : DecodedStatusList}
    → decode_status_list streams (object list) expected ≡ ok d
    → IsUsable list expected d
unfolding decode_status_list
decode-IsUsable streams list expected h =
    let (p, known, h₁) = >>=-eq-ok (assert_known_purpose list.status_purpose) _ h in
    let (_, asked, h₂) = >>=-eq-ok (expect_purpose expected p) _ h₁ in
    let (size, sized, h₃) = >>=-eq-ok (normalize_status_size list.status_size) _ h₂ in
    let (_, accepted, h₄) = >>=-eq-ok (assert_status_message list.status_message size) _ h₃ in
    let (compressed, read, h₅) = >>=-eq-ok (multibase_decode list.encoded_list) _ h₄ in
    let (bits, expanded, h₆) = >>=-eq-ok (gunzip streams compressed) _ h₅ in
    decoded-IsUsable list expected p size bits (known-purpose list.status_purpose known)
      (expected-Asks expected p asked) (normalize-bounds list.status_size sized)
      (gunzip-bounded streams compressed expanded) h₆

entry_inside : (i size n : ℕ) → suc i ≤ n / size → (i + 1) * size ≤ n
entry_inside i size n h = le_trans (mul-le-mul-right' i size (n / size) h) (div-mul-le_self n size)
  where
    mul-le-mul-right' : (i size q : ℕ) → suc i ≤ q → (i + 1) * size ≤ q * size
    mul-le-mul-right' i size q h = grind arith

-- Every entry of a list that `decodeStatusList` returns can be read: `statusAt` does not throw, and
-- answers 0 exactly when no bit of the entry is set.
pub decode-status_at :
    (streams : GzipStreams) (list : StatusList) (expected : Option StatusPurpose)
    {d : DecodedStatusList} (i : ℕ)
    → decode_status_list streams (object list) expected ≡ ok d
    → i < d.entry_count
    → (v : ℕ) × (status_at d.bitstring (nat i) ≡ ok v)
      × ((v == 0) ≡ not (any_bit d.bits (i * d.status_size) d.status_size))
decode-status_at streams list expected {d} i h inside =
    let usable = decode-IsUsable streams list expected h in
    let fits : Fits d.bits = omega (arith, usable.bounded) in
    status_at-zero d.bitstring i fits usable.all_bits usable.size_at_most
      (entry_inside i d.status_size d.bit_length (rw usable.counted at inside))
