-- ===== src/Gateway/Chain/Errors.antt =====
-- packages/gateway/src/chain/errors.ts. What was thrown is a value over a heap of objects, which may
-- refer to one another and to themselves.
pub mod Decoded
use stellar_onramp.Base.{
  ℕ, zero, suc, ◌+◌, ◌*◌, ◌-◌, Bool, true, false, ◌&&◌, ◌||◌, List, [], ◌∷◌, ◌++◌, Option, none,
  some, ltb, leb, ◌==◌, if◌then◌else◌, Text, codes, within, is_digit,
}

pub data KycGateErrorName : Type 0 where
  already_initialized not_initialized no_claim_record expired nonce_already_used : KycGateErrorName
  invalid_proof untrusted_issuer stale_attestation empty_claims expiry_too_far : KycGateErrorName
  subject_revoked revocation_epoch_mismatch : KycGateErrorName

-- `KYC_GATE_ERRORS`
abbrev pub kyc_gate_errors : KycGateErrorName → ℕ
kyc_gate_errors already_initialized = 1
kyc_gate_errors not_initialized = 2
kyc_gate_errors no_claim_record = 3
kyc_gate_errors expired = 4
kyc_gate_errors nonce_already_used = 5
kyc_gate_errors invalid_proof = 6
kyc_gate_errors untrusted_issuer = 7
kyc_gate_errors stale_attestation = 10
kyc_gate_errors empty_claims = 12
kyc_gate_errors expiry_too_far = 13
kyc_gate_errors subject_revoked = 14
kyc_gate_errors revocation_epoch_mismatch = 15

abbrev pub all_names : List KycGateErrorName
all_names =
    already_initialized ∷ not_initialized ∷ no_claim_record ∷ expired ∷ nonce_already_used
    ∷ invalid_proof ∷ untrusted_issuer ∷ stale_attestation ∷ empty_claims ∷ expiry_too_far
    ∷ subject_revoked ∷ revocation_epoch_mismatch ∷ []

-- `NAME_BY_CODE.get(code)`, of the entries of this list.
unfoldable pub name_among : List KycGateErrorName → ℕ → Option KycGateErrorName
name_among [] code = none
name_among (name ∷ names) code =
    if kyc_gate_errors name == code then some name else name_among names code

abbrev pub kyc_gate_error_name : ℕ → Option KycGateErrorName
kyc_gate_error_name code = name_among all_names code

-- A value that was thrown: null or undefined, a string, another primitive by its `String()` form, or
-- the object at a place of the heap.
pub data Value : Type 0 where
  nothing : Value
  text primitive : Text → Value
  object : ℕ → Value

-- A property that may be null or absent, an array, or something else.
pub data Events : Type 0 where
  missing : Events
  array : List Value → Events
  no_array : Events

-- The properties that are read; `message` and `error` are `none` where they are no strings.
pub record Object : Type 0 where
  pub message : Option Text
  pub error : Option Text
  pub diagnostic_events_xdr : Events
  pub events : Events
  pub cause : Option Value
  pub as_string : Text

abbrev pub Heap : Type 0
Heap = ℕ → Object

-- `rec['diagnosticEventsXdr'] ?? rec['events']`, as the elements that are visited.
abbrev pub event_values : Events → Events → List Value
event_values (array values) other = values
event_values no_array other = []
event_values missing (array values) = values
event_values missing _ = []

abbrev pub pushed : Option Text → List Text
pushed none = []
pushed (some t) = t ∷ []

-- `seen.has(err)`
unfoldable pub has_seen : List ℕ → ℕ → Bool
has_seen [] place = false
has_seen (p ∷ ps) place = p == place || has_seen ps place

abbrev pub Visit : Type 0
Visit = Value → List ℕ → List Text × List ℕ

-- The loop over the events, with the set of the objects seen.
unfoldable pub visit_all : Visit → List Value → List ℕ → List Text × List ℕ
visit_all visit [] seen = ([], seen)
visit_all visit (value ∷ values) seen =
    let (strings, seen₁) = visit value seen in
    let (others, seen₂) = visit_all visit values seen₁ in (strings ++ others, seen₂)

abbrev pub visit_cause : Visit → Option Value → List ℕ → List Text × List ℕ
visit_cause visit none seen = ([], seen)
visit_cause visit (some value) seen = visit value seen

abbrev pub visit_object : Visit → Object → List ℕ → List Text × List ℕ
visit_object visit o seen =
    let (of_events, seen₁) = visit_all visit (event_values o.diagnostic_events_xdr o.events) seen in
    let (of_cause, seen₂) = visit_cause visit o.cause seen₁ in
    (pushed o.message ++ (pushed o.error ++ (of_events ++ (of_cause ++ (o.as_string ∷ [])))), seen₂)

-- `candidateStrings`, `left` levels above the bound on the depth.
unfoldable pub candidate_strings : Heap → ℕ → Visit
candidate_strings heap zero value seen = ([], seen)
candidate_strings heap (suc left) nothing seen = ([], seen)
candidate_strings heap (suc left) (text t) seen = (t ∷ [], seen)
candidate_strings heap (suc left) (primitive t) seen = (t ∷ [], seen)
candidate_strings heap (suc left) (object place) seen =
    let visited = visit_object (candidate_strings heap left) (heap place) (place ∷ seen) in
    if has_seen seen place then ([], seen) else visited

abbrev pub is_space : ℕ → Bool
is_space c =
    within 9 13 c
    || c == 32
    || c == 160
    || c == 5760
    || within 8192 8202 c
    || within 8232 8233 c
    || c == 8239
    || c == 8287
    || c == 12288
    || c == 65279

-- `\d*\)`, after digits of this value.
unfoldable pub digits : ℕ → Text → Option ℕ
digits value [] = none
digits value (c ∷ cs) =
    if is_digit c
    then digits (value * 10 + (c - b'0')) cs
    else if c == b')'
    then some value
    else none

-- `\s*#(\d+)\)`
unfoldable pub number : Text → Option ℕ
number [] = none
number (c ∷ []) = none
number (c ∷ d ∷ cs) =
    if is_space c
    then number (d ∷ cs)
    else if c == b'#' && is_digit d
    then digits (d - b'0') cs
    else none

-- A fixed text, then `\s*#(\d+)\)`.
unfoldable pub after : Text → Text → Option ℕ
after [] t = number t
after (p ∷ ps) [] = none
after (p ∷ ps) (c ∷ cs) = if p == c then after ps cs else none

-- The value of the match of /Error\(Contract,\s*#(\d+)\)/ that begins here, where it is a safe integer.
unfoldable pub code_at : Text → List ℕ
code_at t = elim (after (codes "Error(Contract,") t) [
  | none ↦ []
  | some n ↦ if ltb n 9007199254740992 then n ∷ [] else []
]

-- The matches from left to right; none begins inside another, since each begins with its only `E`.
unfoldable pub codes_in : Text → List ℕ
codes_in [] = []
codes_in (c ∷ cs) = code_at (c ∷ cs) ++ codes_in cs

unfoldable pub codes_in_all : List Text → List ℕ
codes_in_all [] = []
codes_in_all (t ∷ ts) = codes_in t ++ codes_in_all ts

-- Every code that was found, in the order found.
unfoldable pub found_codes : Heap → Value → List ℕ
found_codes heap err = codes_in_all (candidate_strings heap 9 err []).0

-- `codes.add` of each in turn: the set, in the order of insertion.
unfoldable pub add_all : List ℕ → List ℕ → List ℕ
add_all set [] = set
add_all set (n ∷ ns) = add_all (if has_seen set n then set else set ++ (n ∷ [])) ns

-- `codes.size !== 1`
abbrev pub only : List ℕ → Option ℕ
only (n ∷ []) = some n
only _ = none

unfoldable pub decode_contract_error_code : Heap → Value → Option ℕ
decode_contract_error_code heap err = only (add_all [] (found_codes heap err))

unfoldable pub is_kyc_gate_error : Heap → Value → KycGateErrorName → Bool
is_kyc_gate_error heap err name = elim (decode_contract_error_code heap err) [
  | none ↦ false
  | some code ↦ code == kyc_gate_errors name
]

unfoldable pub is_retriable_contract_error : Heap → Value → Bool
is_retriable_contract_error heap err = elim (decode_contract_error_code heap err) [
  | none ↦ false
  | some code ↦ code == kyc_gate_errors revocation_epoch_mismatch
]
