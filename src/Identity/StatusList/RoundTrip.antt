-- ===== src/Identity/StatusList/RoundTrip.antt =====
-- A list that `encodeStatusList` builds, read by `isStatusSet` (packages/identity/src/status-list.ts).
use stellar_onramp.Base.{
  ℕ, zero, suc, ◌+◌, ◌*◌, ◌<◌, ◌≤◌, ◌≡◌, inl, inr, refl, sym, ap, ◌∙◌, arith, Bool, true, false,
  not, ◌||◌, Option, none, some, ok, ◌==◌, ◌∷◌, Bytes, Number, nat, Result-cases, err-ne-ok,
  ok-injective,
}
use stellar_onramp.Identity.Bits.View.{bit}
use stellar_onramp.Identity.Bits.Status.{any_bit, status_at-zero}
use stellar_onramp.Identity.Base64.{base64url_encode}
use stellar_onramp.Identity.Gzip.{GzipStreams, gzip, join, max_status_list_bytes}
use stellar_onramp.Identity.Gzip.Bounded.{IsGzip}
use stellar_onramp.Identity.StatusList.Build.{is_listed, build_bits-shows, range_index}
use stellar_onramp.Identity.StatusList.Wire.{as_decoded, decode-wire}
use stellar_onramp.Identity.StatusList.Decode.{Asks, normalize-bounds}
use stellar_onramp.Identity.StatusList.{
  StatusPurpose, StatusList, object, normalize_status_size, assert_known_purpose,
  minimum_status_list_entries, is_status_set, EncodeOptions, entry_total, build_bits, wire,
  encode_status_list,
}

or_false : (b : Bool) → (b || false) ≡ b
or_false true = refl
or_false false = refl

or_self : (b : Bool) → (b || b) ≡ b
or_self true = refl
or_self false = refl

-- All the bits of a range agree, so `any_bit` is what they say.
any_bit-constant :
    (bits : Bytes) (on : Bool) (left position : ℕ)
    → ((j : ℕ) → position ≤ j → j < position + left → (bit bits j == 1) ≡ on)
    → 1 ≤ left
    → any_bit bits position left ≡ on
unfolding any_bit
any_bit-constant bits on zero position same h = elim h [ ]
any_bit-constant bits on (suc zero) position same h =
    rw (same position (omega arith) (omega arith)) (or_false on)
any_bit-constant bits on (suc (suc left)) position same h =
    rw (same position (omega arith) (omega arith)) (
      rw
        (any_bit-constant bits on (suc left) (position + 1)
          (λ j low high. same j (omega arith) (omega arith)) (omega arith))
        (or_self on))

-- The choices that `encodeStatusList` makes of its options.
pub record Chooses (options : EncodeOptions) (p : StatusPurpose) (size entries : ℕ) : Type 0 where
  pub purpose_chosen : assert_known_purpose options.status_purpose ≡ ok p
  pub size_chosen : normalize_status_size options.status_size ≡ ok size
  pub entries_chosen : entry_total options.entries ≡ ok entries

entry_total-many :
    (raw : Option Number) {entries : ℕ}
    → entry_total raw ≡ ok entries
    → minimum_status_list_entries ≤ entries
unfolding entry_total
entry_total-many none h = ground arith
entry_total-many (some (nat n)) h = ground arith
entry_total-many (some _) h = absurd (cc)

encode-parts :
    (streams : GzipStreams) (options : EncodeOptions) (p : StatusPurpose) (size entries : ℕ)
    {list : StatusList}
    → IsGzip streams
    → Chooses options p size entries
    → encode_status_list streams options ≡ ok list
    → (bits : Bytes) × (build_bits entries size options.set ≡ ok bits)
      × (list ≡ wire p size (b'u' ∷ base64url_encode (join (streams.compress bits))))
unfolding encode_status_list gzip
encode-parts streams options p size entries law c h =
    elim (Result-cases (build_bits entries size options.set)) [
      | inl (bits, built) ↦ (
        bits,
        built,
        sym (
            ok-injective
              (rw (c.purpose_chosen, c.size_chosen, c.entries_chosen, built, law.compresses) at h)),
      )
      | inr (e, failed) ↦
          absurd (err-ne-ok (rw (c.purpose_chosen, c.size_chosen, c.entries_chosen, failed) at h))
    ]

not-not : (b : Bool) → not (not b) ≡ b
not-not true = refl
not-not false = refl

entry_inside : (i size entries : ℕ) → i < entries → (i + 1) * size ≤ entries * size
entry_inside i size entries h = grind arith

-- A list that `encodeStatusList` builds is one that `isStatusSet` reads: for every index below the
-- entry count it answers whether the index is in the set that was encoded, whatever the entry size,
-- the purpose asked about being the list's or none. The platform's streams are relied on to give
-- back what they compress, and the bitstring is at most the 16 MiB that the decoder reads.
pub is_status_set-encode :
    (streams : GzipStreams) (options : EncodeOptions) (p : StatusPurpose) (size entries i : ℕ)
    (expected : Option StatusPurpose) {list : StatusList}
    → IsGzip streams
    → Chooses options p size entries
    → encode_status_list streams options ≡ ok list
    → entries * size ≤ max_status_list_bytes * 8
    → Asks expected p
    → i < entries
    → is_status_set streams (object list) (nat i) expected ≡ ok (is_listed options.set i)
unfolding is_status_set
is_status_set-encode streams options p size entries i expected law c h fits asks inside =
    let (bits, built, wired) = encode-parts streams options p size entries law c h in
    let sized = normalize-bounds options.status_size c.size_chosen in
    let (exact, bytes, shows) =
      build_bits-shows entries size options.set sized.0 (omega arith) built in
    let read =
      decode-wire streams p size entries bits expected law sized
        (entry_total-many options.entries c.entries_chosen) exact bytes (omega arith) asks in
    let (v, status, zero_iff) =
      status_at-zero (as_decoded p size entries bits).bitstring i (omega arith) refl sized.1
        (omega (arith, exact, entry_inside i size entries inside)) in
    let listed =
      any_bit-constant bits (is_listed options.set i) size (i * size)
        (λ j low high. shows j ∙ ap (is_listed options.set) (range_index i size j sized.0 low high))
        sized.0 in
    rw (wired, read, status) (ap (λ b. ok (not b)) zero_iff ∙ ap ok (not-not _ ∙ listed))
