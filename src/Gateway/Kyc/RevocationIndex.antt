-- ===== src/Gateway/Kyc/RevocationIndex.antt =====
-- packages/gateway/src/kyc/revocation-index.ts. `allocate` reads and writes its counter with no wait
-- between, so that concurrent calls are a sequence of calls.
pub mod Unique
use stellar_onramp.Base.{
  ℕ, zero, suc, ◌+◌, Bool, true, false, List, [], ◌∷◌, Option, none, some, ltb, leb, if◌then◌else◌,
  Result, ok, err, ◌>>=◌, ◌>>◌, guard, or_throw, Number, nat, to_nat?,
}

pub data IndexError : Type 0 where
  bad_start bad_cap exhausted not_a_u32 : IndexError

abbrev pub max_revocation_index : ℕ
max_revocation_index = 4294967295

pub record Allocator : Type 0 where
  pub next : ℕ
  pub max : ℕ

-- `value ?? default`
abbrev pub or_number : Option Number → ℕ → Number
or_number (some value) other = value
or_number none other = nat other

-- The constructor.
unfoldable pub create : Option Number → Option Number → Result IndexError Allocator
create start max = do
  s ← or_throw (to_nat? (or_number start 0)) bad_start
  guard (leb s max_revocation_index) bad_start
  m ← or_throw (to_nat? (or_number max max_revocation_index)) bad_cap
  guard (leb s m) bad_cap
  guard (leb m max_revocation_index) bad_cap
  ok (record { next = s; max = m })

unfoldable pub allocate : Allocator → Allocator × Result IndexError ℕ
allocate a =
    if ltb a.max a.next then (a, err exhausted) else (record a { next = a.next + 1 }, ok a.next)

unfoldable pub assert_usable_revocation_index : Number → Result IndexError ℕ
assert_usable_revocation_index value = do
  n ← or_throw (to_nat? value) not_a_u32
  guard (leb n max_revocation_index) not_a_u32
  ok n

-- The answers to a sequence of calls.
unfoldable pub allocations : ℕ → Allocator → List (Result IndexError ℕ)
allocations zero a = []
allocations (suc n) a = let (a', answer) = allocate a in answer ∷ allocations n a'
