-- ===== src/Identity/Schema/Indexes.antt =====
-- Disclosed indexes: `normalizeIndexes` of packages/identity/src/schema.ts, and the attributes that
-- stand at them.
use stellar_onramp.Base.{
  ℕ, zero, suc, ◌+◌, ◌<◌, true, not, List, [], ◌∷◌, map, ltb, get_or, ◌≡◌, refl, sym, ap, ◌∙◌,
  arith, ok, Number, nat, to_nat?, to_nat?_sound, guard-eq-ok, or_throw-eq-ok, >>=-eq-ok,
  ok-injective, is_member, sort, is_ascending, are_distinct, are_below, sort-ascending,
  are_below-sort, insert_all, insert_all-insert, insert_all-sort,
}
use stellar_onramp.Identity.Schema.{
  ClaimName, schema_version, claim_index, claim_specs, collect_indexes, normalize_indexes,
  assert_no_pii_disclosed, bad_index, duplicate_index,
}

collect_indexes_sound :
    (seen : List ℕ) (raws : List Number) {found : List ℕ}
    → are_distinct seen ≡ true
    → are_below 12 seen ≡ true
    → collect_indexes seen raws ≡ ok found
    → (want : List ℕ) × (raws ≡ map nat want)
      × (are_below 12 want ≡ true)
      × (insert_all want (sort seen) ≡ sort found)
      × (are_distinct found ≡ true)
      × (are_below 12 found ≡ true)
unfolding collect_indexes are_distinct are_below insert_all sort
collect_indexes_sound seen [] distinct below h =
    let same = ok-injective h in
    (
      [],
      refl,
      refl,
      ap sort same,
      ap are_distinct (sym same) ∙ distinct,
      ap (are_below 12) (sym same) ∙ below,
    )
collect_indexes_sound seen (raw ∷ raws) distinct below h =
    let (i, is, h₁) = or_throw-eq-ok (to_nat? raw) bad_index _ h in
    let (small, h₂) = guard-eq-ok (ltb i 12) bad_index h₁ in
    let (fresh, h₃) = guard-eq-ok (not (is_member i seen)) duplicate_index h₂ in
    let (want, raws_are, want_below, sorted, distinct', below') =
      collect_indexes_sound (i ∷ seen) raws (ground (arith, fresh, distinct))
        (ground (arith, small, below)) h₃ in
    (
      i ∷ want,
      ap (λ r. r ∷ raws) (to_nat?_sound raw is) ∙ ap (λ rs. nat i ∷ rs) raws_are,
      ground (arith, small, want_below),
      sym (insert_all-insert i want (sort seen)) ∙ sorted,
      distinct',
      below',
    )

-- What `normalizeIndexes` returns: the indexes asked for, each below 12, in ascending order.
pub normalize_indexes_sound :
    (raws : List Number) {disclosed : List ℕ}
    → normalize_indexes raws ≡ ok disclosed
    → (want : List ℕ) × (raws ≡ map nat want)
      × (are_below 12 want ≡ true)
      × (sort want ≡ disclosed)
      × (is_ascending disclosed ≡ true)
      × (are_below 12 disclosed ≡ true)
      × (assert_no_pii_disclosed disclosed ≡ ok tt)
unfolding normalize_indexes are_distinct are_below sort
normalize_indexes_sound raws h =
    let (found, collected, h₁) = >>=-eq-ok (collect_indexes [] raws) _ h in
    let (_, clean, h₂) = >>=-eq-ok (assert_no_pii_disclosed (sort found)) _ h₁ in
    let same = ok-injective h₂ in
    let (want, raws_are, want_below, sorted, distinct, below) =
      collect_indexes_sound [] raws refl refl collected in
    (
      want,
      raws_are,
      want_below,
      sym (insert_all-sort want) ∙ sorted ∙ same,
      ap is_ascending (sym same) ∙ sort-ascending found distinct,
      ap (are_below 12) (sym same) ∙ are_below-sort 12 found ∙ below,
      ap assert_no_pii_disclosed (sym same) ∙ clean,
    )

-- The attribute at an index of the schema.
abbrev pub name_at : ℕ → ClaimName
name_at i = get_or claim_specs i schema_version

abbrev count_from : ℕ → ℕ → List ℕ
count_from k zero = []
count_from k (suc n) = k ∷ count_from (suc k) n

get_or-count_from : (k n i : ℕ) → i < n → get_or (count_from k n) i 0 ≡ k + i
get_or-count_from k zero i h = absurd (ground (arith, h))
get_or-count_from k (suc n) zero h = omega arith
get_or-count_from k (suc n) (suc i) h = get_or-count_from (suc k) n i (omega arith) ∙ omega arith

get_or-map_index :
    (names : List ClaimName) (i : ℕ)
    → get_or (map claim_index names) i 0 ≡ claim_index (get_or names i schema_version)
get_or-map_index [] i = refl
get_or-map_index (n ∷ names) zero = refl
get_or-map_index (n ∷ names) (suc i) = get_or-map_index names i

pub claim_index-name_at : (i : ℕ) → i < 12 → claim_index (name_at i) ≡ i
claim_index-name_at i h =
    sym (get_or-map_index claim_specs i) ∙ get_or-count_from 0 12 i h ∙ omega arith

-- The indexes of the attributes that stand at these.
pub indexes_of-names :
    (is : List ℕ) → are_below 12 is ≡ true → map claim_index (map name_at is) ≡ is
unfolding are_below
indexes_of-names [] h = refl
indexes_of-names (i ∷ is) h =
    ap (λ j. j ∷ map claim_index (map name_at is)) (claim_index-name_at i (ground (arith, h)))
    ∙ ap (λ js. i ∷ js) (indexes_of-names is (ground (arith, h)))
