-- ===== src/Gateway/Chain/Epoch/FailClosed.antt =====
-- What an epoch that packages/gateway/src/chain/epoch.ts reads rests on.
use mathlib.Core.Path.{subst}
use stellar_onramp.Base.{
  Bool, true, false, Option, none, some, ==_iff, ◌↔◌, ◌≡◌, refl, arith, ◌⊎◌, inl, inr, Option-cases,
  ap, ◌∙◌, ok, >>=-eq-ok, guard-eq-ok, rethrow_as, rethrow_as-eq-ok, ok-injective, Text,
}
use stellar_onramp.Gateway.Chain.Errors.{Heap, Value, decode_contract_error_code, found_codes}
use stellar_onramp.Gateway.Chain.Errors.Decoded.{IsOnly, decode_contract_error_code-IsOnly}
use stellar_onramp.Gateway.Chain.Epoch.{
  Simulation, resolves, rejects, SubjectChainState, ClaimRecord, RawRecord, undecodable, rejected,
  simulated, decode_claim_record, read_subject_chain_state,
}

-- The contract said that it has no record of the subject: code 3, and no other code.
abbrev pub IsUnrecorded : Simulation → SubjectChainState → Type 0
IsUnrecorded simulation state =
    (heap : Heap) × (thrown : Value) × (simulation ≡ rejects heap thrown)
    × IsOnly 3 (found_codes heap thrown)
    × (state.claim_record ≡ none)
    × (state.revocation_epoch ≡ 0)
    × (state.revoked ≡ false)

-- The contract returned a record that decodes.
abbrev pub IsRecorded : Simulation → SubjectChainState → Type 0
IsRecorded simulation state =
    (raw : Option RawRecord) × (found : ClaimRecord) × (simulation ≡ resolves raw)
    × (decode_claim_record raw ≡ ok found)
    × (state.claim_record ≡ some found)
    × (state.revocation_epoch ≡ found.revocation_epoch)
    × ((state.revoked ≡ true) ↔ (found.claims ≡ 0))

simulated-eq-ok :
    (subject : Text) (simulation : Simulation) {state : SubjectChainState}
    → simulated subject simulation ≡ ok state
    → IsUnrecorded simulation state ⊎ IsRecorded simulation state
unfolding simulated rejected
simulated-eq-ok subject (rejects heap thrown) {state} h =
    elim (Option-cases (decode_contract_error_code heap thrown)) [
      | inl e ↦ absurd (ground (arith, e, h))
      | inr (code, e) ↦
          let three : code ≡ 3 = ground (arith, e, h) in
          inl (
            heap,
            thrown,
            refl,
            (decode_contract_error_code-IsOnly heap thrown 3).0 (e ∙ ap some three),
            ground (arith, e, h),
            ground (arith, e, h),
            ground (arith, e, h),
          )
    ]
simulated-eq-ok subject (resolves raw) {state} h =
    let (found, decodes, h₁) = >>=-eq-ok (rethrow_as (decode_claim_record raw) undecodable) _ h in
    let same : _ ≡ state = ok-injective h₁ in
    inr (
      subst (IsRecorded (resolves raw)) same
        (raw, found, refl, rethrow_as-eq-ok _ _ decodes, refl, refl, ==_iff found.claims 0))

-- Where the state of a subject is read, its address was valid, and either the contract said that it
-- has no record of the subject, the one code among those thrown, and the epoch is 0; or it returned
-- a record that decodes, and the epoch is that record's. In every other case nothing is read.
pub read_subject_chain_state_sound :
    (is_address : Text → Bool) (simulate : Text → Simulation) (subject : Text)
    {state : SubjectChainState}
    → read_subject_chain_state is_address simulate subject ≡ ok state
    → (is_address subject ≡ true)
      × (IsUnrecorded (simulate subject) state ⊎ IsRecorded (simulate subject) state)
unfolding read_subject_chain_state
read_subject_chain_state_sound is_address simulate subject h =
    let (valid, h₁) = guard-eq-ok (is_address subject) _ h in
    (valid, simulated-eq-ok subject (simulate subject) h₁)
