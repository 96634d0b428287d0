-- ===== src/Gateway/Chain/Errors/Decoded.antt =====
-- When packages/gateway/src/chain/errors.ts names a contract error, and when it refuses to.
use mathlib.Core.Path.{subst}
use stellar_onramp.Base.{
  if-cases, ℕ, true, List, [], ◌∷◌, ◌++◌, none, some, ◌==◌, ==_iff, ◌↔◌, ◌≡◌, ◌≢◌, refl, arith, All,
  inl, inr, Bool-cases, Option-cases,
}
use stellar_onramp.Gateway.Chain.Errors.{
  Heap, Value, has_seen, add_all, only, found_codes, decode_contract_error_code, KycGateErrorName,
  kyc_gate_errors, all_names, name_among, kyc_gate_error_name, is_retriable_contract_error,
  is_kyc_gate_error,
}

-- Some code was found, and every one that was found is this.
abbrev pub IsOnly : ℕ → List ℕ → Type 0
IsOnly code found = (found ≢ []) × All (λ n. n ≡ code) found

-- A set of two codes never comes down to one.
add_all-many : (a b : ℕ) (set found : List ℕ) → only (add_all (a ∷ b ∷ set) found) ≡ none
unfolding add_all
add_all-many a b set [] = refl
add_all-many a b set (n ∷ ns) =
    if-cases (λ (set' : List ℕ). only (add_all set' ns) ≡ none) (has_seen (a ∷ b ∷ set) n)
      (a ∷ b ∷ set) (a ∷ b ∷ (set ++ (n ∷ []))) (λ t. add_all-many a b set ns)
      (λ f. add_all-many a b (set ++ (n ∷ [])) ns)

-- Adding to a set of one code leaves one exactly where every further code is that one.
add_all-one :
    (c : ℕ) (found : List ℕ) (code : ℕ)
    → (only (add_all (c ∷ []) found) ≡ some code) ↔ ((c ≡ code) × All (λ n. n ≡ code) found)
unfolding add_all has_seen
add_all-one c [] code = ground arith
add_all-one c (n ∷ ns) code =
    let same = add_all-one c ns code in
    let different = add_all-many c n [] ns in
    elim (Bool-cases (c == n)) [
      | inl t ↦ ground (arith, t, same)
      | inr f ↦ ground (arith, f, different)
    ]

only-found : (found : List ℕ) (code : ℕ) → (only (add_all [] found) ≡ some code) ↔ IsOnly code found
unfolding add_all has_seen
only-found [] code = (λ h. absurd (cc), λ (some_h, _). absurd (some_h refl))
only-found (n ∷ ns) code =
    let (forth, back) = add_all-one n ns code in
    (λ h. (λ e. absurd (cc), forth h), λ (_, h). back h)

-- A contract error code is decoded from what was thrown exactly where one is found in its strings,
-- and no other: two different codes, or none, give nothing.
pub decode_contract_error_code-IsOnly :
    (heap : Heap) (err : Value) (code : ℕ)
    → (decode_contract_error_code heap err ≡ some code) ↔ IsOnly code (found_codes heap err)
unfolding decode_contract_error_code
decode_contract_error_code-IsOnly heap err code = only-found (found_codes heap err) code

-- Exactly one error may be retried, the mismatch of revocation epochs.
pub is_retriable-epoch :
    (heap : Heap) (err : Value)
    → is_retriable_contract_error heap err ≡ true
    → (name : KycGateErrorName)
    → (is_kyc_gate_error heap err name ≡ true) ↔ (name ≡ KycGateErrorName.revocation_epoch_mismatch)
unfolding is_retriable_contract_error is_kyc_gate_error
is_retriable-epoch heap err h name = elim (Option-cases (decode_contract_error_code heap err)) [
  | inl e ↦ absurd (ground (arith, e, h))
  | inr (code, e) ↦ ground (arith, e, h)
]

name_among-code :
    (names : List KycGateErrorName) (code : ℕ) {name : KycGateErrorName}
    → name_among names code ≡ some name
    → kyc_gate_errors name ≡ code
unfolding name_among
name_among-code [] code h = absurd (cc)
name_among-code (n ∷ names) code h = elim (Bool-cases (kyc_gate_errors n == code)) [
  | inl t ↦
      let this : n ≡ _ = ground (arith, t, h) in
      subst (λ name. kyc_gate_errors name ≡ code) this ((==_iff _ _).0 t)
  | inr f ↦ name_among-code names code (ground (arith, f, h))
]

name_of_code : (name : KycGateErrorName) → kyc_gate_error_name (kyc_gate_errors name) ≡ some name
unfolding name_among
name_of_code name = ground arith

-- A code has a name exactly where it is the code of that name; each other code has none.
pub kyc_gate_error_name_iff :
    (code : ℕ) (name : KycGateErrorName)
    → (kyc_gate_error_name code ≡ some name) ↔ (kyc_gate_errors name ≡ code)
kyc_gate_error_name_iff code name = (
  name_among-code all_names code,
  λ e. subst (λ code. kyc_gate_error_name code ≡ some name) e (name_of_code name),
)
