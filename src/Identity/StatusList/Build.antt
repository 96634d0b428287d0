-- ===== src/Identity/StatusList/Build.antt =====
-- The bits that `encodeStatusList` (packages/identity/src/status-list.ts) sets.
use mathlib.Core.Path.{subst}
use native.Mathlib.Nat.{div-add-mod', mod-lt}
use stellar_onramp.Base.{
  ℕ, zero, suc, ◌+◌, ◌*◌, ◌/◌, ◌%◌, ◌^◌, ◌<◌, ◌≤◌, ◌≡◌, refl, sym, ◌∙◌, arith, Bool, true, false,
  ◌&&◌, ◌||◌, List, [], ◌∷◌, some, none, ok, length, length-set, ltb, ltb→lt, leb, ◌==◌, Bool-cases,
  inl, inr, if◌then◌else◌, Bytes, AreBytes, Number, nat, to_nat?, length-replicate, All-replicate,
  IsByte, replicate, get_or-replicate,
}
use stellar_onramp.Identity.Bits.View.{bit, Fits}
use stellar_onramp.Identity.Bits.Write.{with_bit, set_bit-with_bit, with_bit-AreBytes, bit-with_bit}
use stellar_onramp.Identity.StatusList.{set_bits, set_entries, build_bits}

-- The number is `index` itself.
abbrev pub is_nat : Number → ℕ → Bool
is_nat raw index = elim (to_nat? raw) [ some i ↦ i == index | none ↦ false ]

-- `set.includes(index)`
unfoldable pub is_listed : List Number → ℕ → Bool
is_listed [] index = false
is_listed (raw ∷ rest) index = is_nat raw index || is_listed rest index

-- A byte array of the same length that has the bits of `bits` and those that `on` names.
pub record Sets (bits : Bytes) (on : ℕ → Bool) (bits' : Bytes) : Type 0 where
  pub same_length : length bits' ≡ length bits
  pub are_bytes : AreBytes bits'
  pub shows : (j : ℕ) → bit bits' j ≡ (if on j then 1 else bit bits j)

in_range : ℕ → ℕ → ℕ → Bool
in_range position left j = leb position j && ltb j (position + left)

length-with_bit : (bits : Bytes) (i : ℕ) → length (with_bit bits i) ≡ length bits
length-with_bit bits i = length-set bits (i / 8) _

set_bits-Sets :
    (bits : Bytes) (position left : ℕ)
    → Fits bits
    → AreBytes bits
    → position + left ≤ length bits * 8
    → (bits' : Bytes) × (set_bits bits position left ≡ ok bits')
      × Sets bits (in_range position left) bits'
unfolding set_bits in_range
set_bits-Sets bits position zero f h n =
    (bits, refl, record { same_length = refl; are_bytes = h; shows = λ j. ground arith })
set_bits-Sets bits position (suc left) f h n =
    let same = length-with_bit bits position in
    let (bits', ran, sets) =
      set_bits-Sets (with_bit bits position) (position + 1) left (omega (arith, same))
        (with_bit-AreBytes bits position h) (omega (arith, same)) in
    (
      bits',
      ground (arith, set_bit-with_bit bits position f, ran),
      record {
        same_length = sets.same_length ∙ same;
        are_bytes = sets.are_bytes;
        shows = λ j. sets.shows j ∙ ground (arith, bit-with_bit bits position j h);
      },
    )

-- The bits of entry `i` are those whose index divided by the size is `i`.
range_below : (i q size m j : ℕ) → j ≡ q * size + m → m < size → i < q → i * size + size ≤ j
range_below i q size m j e h lt = grind arith

range_above : (i q size m j : ℕ) → j ≡ q * size + m → m < size → q < i → j < i * size
range_above i q size m j e h lt = grind arith

in_range-entry :
    (i q size m j : ℕ) → j ≡ q * size + m → m < size → in_range (i * size) size j ≡ (i == q)
unfolding in_range
in_range-entry i q size m j e h = elim (Bool-cases (i == q)) [
  | inl hit ↦ ground (arith, hit)
  | inr miss ↦ ground (arith, miss, range_below i q size m j e h, range_above i q size m j e h)
]

in_range-index : (i size j : ℕ) → 1 ≤ size → in_range (i * size) size j ≡ (i == j / size)
in_range-index i size j h =
    in_range-entry i (j / size) size (j % size) j (sym (div-add-mod' j size)) (mod-lt j h)

-- A bit of the entry `i` has an index that divides to `i`.
pub range_index : (i size j : ℕ) → 1 ≤ size → i * size ≤ j → j < i * size + size → j / size ≡ i
unfolding in_range
range_index i size j h low high = ground (arith, in_range-index i size j h)

entry_fits : (i entries size n : ℕ) → i < entries → entries * size ≤ n → i * size + size ≤ n
entry_fits i entries size n h k = grind arith

module _ (entries size : ℕ) (positive : 1 ≤ size) where
  -- One index of the set, checked and written.
  listed_entry :
      (bits : Bytes) (raw : Number) (rest : List Number) {bits' : Bytes}
      → Fits bits
      → AreBytes bits
      → entries * size ≤ length bits * 8
      → set_entries entries size bits (raw ∷ rest) ≡ ok bits'
      → (next : Bytes) × (set_entries entries size next rest ≡ ok bits')
        × Sets bits (λ j. is_nat raw (j / size)) next
  unfolding set_entries
  listed_entry bits (nat i) rest f h n r = elim (Bool-cases (ltb i entries)) [
    | inl inside ↦
        let (next, ran, sets) =
          set_bits-Sets bits (i * size) size f h
            (entry_fits i entries size (length bits * 8) (ltb→lt i entries inside) n) in
        (
          next,
          ground (arith, inside, ran),
          record {
            same_length = sets.same_length;
            are_bytes = sets.are_bytes;
            shows = λ j. rw (← in_range-index i size j positive) (sets.shows j);
          },
        )
    | inr outside ↦ absurd (ground (arith, outside))
  ]
  listed_entry bits _ rest f h n r = absurd (cc)

  nothing_listed :
      (bits : Bytes) {bits' : Bytes} → set_entries entries size bits [] ≡ ok bits' → bits ≡ bits'
  unfolding set_entries
  nothing_listed bits r = cc

  set_entries-Sets :
      (indexes : List Number) (bits : Bytes) {bits' : Bytes}
      → Fits bits
      → AreBytes bits
      → entries * size ≤ length bits * 8
      → set_entries entries size bits indexes ≡ ok bits'
      → Sets bits (λ j. is_listed indexes (j / size)) bits'
  unfolding is_listed
  set_entries-Sets [] bits f h n r =
      subst (Sets bits (λ j. false)) (nothing_listed bits r)
        (record { same_length = refl; are_bytes = h; shows = λ j. refl })
  set_entries-Sets (raw ∷ rest) bits f h n r =
      let (next, later, first) = listed_entry bits raw rest f h n r in
      let others =
        set_entries-Sets rest next (omega (arith, first.same_length)) first.are_bytes
          (omega (arith, first.same_length)) later in
      record {
        same_length = others.same_length ∙ first.same_length;
        are_bytes = others.are_bytes;
        shows = λ j. others.shows j ∙ ground (arith, first.shows j);
      }

abbrev zeros : ℕ → Bytes
zeros n = replicate n 0

bit-zeros : (n j : ℕ) → bit (zeros n) j ≡ 0
bit-zeros n j = rw (get_or-replicate {A = ℕ} n (j / 8) 0) (omega arith)

length-zeros : (n : ℕ) → length (zeros n) ≡ n
length-zeros n = length-replicate n 0

is_one : (on : Bool) (b : ℕ) → b ≡ 0 → ((if on then 1 else b) == 1) ≡ on
is_one true b h = refl
is_one false b h = rw h

-- Where the entry size is positive and there are at most 2^31 bits, a bitstring that
-- `encodeStatusList` builds has a bit for each part of each entry and holds bytes, and a bit is set
-- exactly where the entry that it belongs to is in the set.
pub build_bits-shows :
    (entries size : ℕ) (indexes : List Number) {bits : Bytes}
    → 1 ≤ size
    → entries * size ≤ 2 ^ 31
    → build_bits entries size indexes ≡ ok bits
    → (length bits * 8 ≡ entries * size)
      × AreBytes bits
      × ((j : ℕ) → (bit bits j == 1) ≡ is_listed indexes (j / size))
unfolding build_bits
build_bits-shows entries size indexes positive small r =
    elim (Bool-cases (entries * size % 8 == 0)) [
      | inl whole ↦
          let n = entries * size / 8 in
          let exact : length (zeros n) * 8 ≡ entries * size =
            ground (arith, whole, length-zeros n) in
          let sets =
            set_entries-Sets entries size positive indexes (zeros n) (omega (arith, exact))
              (All-replicate IsByte n 0 (omega arith)) (omega (arith, exact))
              (ground (arith, whole)) in
          (
            omega (arith, exact, sets.same_length),
            sets.are_bytes,
            λ j.
                rw (sets.shows j)
                  (is_one (is_listed indexes (j / size)) (bit (zeros n) j) (bit-zeros n j)),
          )
      | inr partial ↦ absurd (ground (arith, partial))
    ]
