-- ===== src/Base/Sort.antt =====
-- Sets of numbers as lists, and their sorting in ascending order.
use Prim.Native.Nat.{ℕ, suc, ◌<◌}
use mathlib.Core.Path.{◌≡◌, refl, ap, ◌∙◌}
use mathlib.Core.Bool.{Bool, true, false, not, ◌||◌, ◌&&◌}
use mathlib.Core.List.{List, [], ◌∷◌}
use native.Mathlib.Omega.{arith}
use stellar_onramp.Base.Lists.{length}
use stellar_onramp.Base.Tests.{leb, ltb, ◌==◌, if◌then◌else◌}

unfoldable pub is_member : ℕ → List ℕ → Bool
is_member n [] = false
is_member n (m ∷ ms) = m == n || is_member n ms

unfoldable pub insert : ℕ → List ℕ → List ℕ
insert n [] = n ∷ []
insert n (m ∷ ms) = if leb n m then n ∷ m ∷ ms else m ∷ insert n ms

-- `[...list].sort((a, b) => a - b)`
unfoldable pub sort : List ℕ → List ℕ
sort [] = []
sort (n ∷ ns) = insert n (sort ns)

-- Every number is above this one, and each below the next.
unfoldable pub is_above : ℕ → List ℕ → Bool
is_above n [] = true
is_above n (m ∷ ms) = ltb n m && is_above m ms

unfoldable pub is_ascending : List ℕ → Bool
is_ascending [] = true
is_ascending (n ∷ ns) = is_above n ns

pub is_member-insert :
    (k n : ℕ) (ns : List ℕ) → is_member k (insert n ns) ≡ (n == k || is_member k ns)
unfolding is_member insert
is_member-insert k n [] = refl
is_member-insert k n (m ∷ ms) = ground (arith, is_member-insert k n ms)

pub is_member-sort : (k : ℕ) (ns : List ℕ) → is_member k (sort ns) ≡ is_member k ns
unfolding is_member sort
is_member-sort k [] = refl
is_member-sort k (n ∷ ns) =
    is_member-insert k n (sort ns) ∙ ap (λ b. n == k || b) (is_member-sort k ns)

is_above-insert :
    (k n : ℕ) (ns : List ℕ)
    → k < n
    → is_member n ns ≡ false
    → is_above k ns ≡ true
    → is_above k (insert n ns) ≡ true
unfolding is_member insert is_above
is_above-insert k n [] h d a = ground arith
is_above-insert k n (m ∷ ms) h d a = ground (arith, is_above-insert m n ms)

insert-ascending :
    (n : ℕ) (ns : List ℕ)
    → is_member n ns ≡ false
    → is_ascending ns ≡ true
    → is_ascending (insert n ns) ≡ true
unfolding is_member insert is_ascending is_above
insert-ascending n [] d a = refl
insert-ascending n (m ∷ ms) d a = ground (arith, is_above-insert m n ms)

-- No number stands twice in the list.
unfoldable pub are_distinct : List ℕ → Bool
are_distinct [] = true
are_distinct (n ∷ ns) = not (is_member n ns) && are_distinct ns

pub sort-ascending : (ns : List ℕ) → are_distinct ns ≡ true → is_ascending (sort ns) ≡ true
unfolding are_distinct sort is_ascending
sort-ascending [] d = refl
sort-ascending (n ∷ ns) d =
    let alone = is_member-sort n ns in
    insert-ascending n (sort ns) (ground (arith, alone, d)) (sort-ascending ns (ground (arith, d)))

length-insert : (n : ℕ) (ns : List ℕ) → length (insert n ns) ≡ suc (length ns)
unfolding insert
length-insert n [] = refl
length-insert n (m ∷ ms) = ground (arith, length-insert n ms)

pub length-sort : (ns : List ℕ) → length (sort ns) ≡ length ns
unfolding sort
length-sort [] = refl
length-sort (n ∷ ns) = length-insert n (sort ns) ∙ ap suc (length-sort ns)

insert-insert : (a b : ℕ) (ns : List ℕ) → insert a (insert b ns) ≡ insert b (insert a ns)
unfolding insert
insert-insert a b [] = ground arith
insert-insert a b (n ∷ ns) = ground (arith, insert-insert a b ns)

-- `list` is sorted into `into`.
unfoldable pub insert_all : List ℕ → List ℕ → List ℕ
insert_all [] into = into
insert_all (n ∷ ns) into = insert n (insert_all ns into)

pub insert_all-insert :
    (n : ℕ) (ns into : List ℕ) → insert_all ns (insert n into) ≡ insert n (insert_all ns into)
unfolding insert_all
insert_all-insert n [] into = refl
insert_all-insert n (m ∷ ns) into =
    ap (insert m) (insert_all-insert n ns into) ∙ insert-insert m n (insert_all ns into)

pub insert_all-sort : (ns : List ℕ) → insert_all ns [] ≡ sort ns
unfolding insert_all sort
insert_all-sort [] = refl
insert_all-sort (n ∷ ns) = ap (insert n) (insert_all-sort ns)

-- Every number is below the bound.
unfoldable pub are_below : ℕ → List ℕ → Bool
are_below bound [] = true
are_below bound (n ∷ ns) = ltb n bound && are_below bound ns

are_below-insert :
    (bound n : ℕ) (ns : List ℕ)
    → are_below bound (insert n ns) ≡ (ltb n bound && are_below bound ns)
unfolding are_below insert
are_below-insert bound n [] = refl
are_below-insert bound n (m ∷ ms) = ground (arith, are_below-insert bound n ms)

pub are_below-sort : (bound : ℕ) (ns : List ℕ) → are_below bound (sort ns) ≡ are_below bound ns
unfolding are_below sort
are_below-sort bound [] = refl
are_below-sort bound (n ∷ ns) =
    are_below-insert bound n (sort ns) ∙ ap (λ b. ltb n bound && b) (are_below-sort bound ns)
