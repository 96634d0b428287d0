-- ===== src/Tests/Chain.antt =====
-- Runs of packages/gateway/src/chain.
use stellar_onramp.Base.{◌≡◌, ◌⊎◌, ◌↔◌, refl, true, false, ◌++◌, none, some, Text, codes, equal}
use stellar_onramp.Gateway.Chain.Errors.{
  Heap, Value, Events, found_codes, decode_contract_error_code, candidate_strings, visit_all,
  has_seen, codes_in_all, codes_in, code_at, after, number, digits, add_all,
}
use stellar_onramp.Gateway.Chain.Errors.Decoded.{IsOnly, decode_contract_error_code-IsOnly}
use stellar_onramp.Gateway.Chain.Epoch.{
  Simulation, SubjectChainState, read_subject_chain_state, simulated, rejected,
}
use stellar_onramp.Gateway.Chain.Epoch.FailClosed.{
  IsUnrecorded, IsRecorded, read_subject_chain_state_sound,
}

-- An error whose cause is itself, at every place of the heap.
abbrev looping : Text → Heap
looping message place = record {
  message = some message;
  error = none;
  diagnostic_events_xdr = Events.missing;
  events = Events.missing;
  cause = some (Value.object place);
  as_string = codes "Error: " ++ message;
}

abbrev mismatch : Heap
mismatch = looping (codes "HostError: Error(Contract, #15)")

abbrev unknown : Heap
unknown = looping (codes "HostError: Error(Contract, #3)")

decode_contract_error_code-IsOnly_example :
    (decode_contract_error_code mismatch (Value.object 0) ≡ some 15)
    ↔ IsOnly 15 (found_codes mismatch (Value.object 0))
decode_contract_error_code-IsOnly_example =
    decode_contract_error_code-IsOnly mismatch (Value.object 0) 15

ambiguous :
    decode_contract_error_code mismatch
      (Value.text (codes "Error(Contract, #3) Error(Contract,#30)"))
    ≡ none
unfolding decode_contract_error_code found_codes candidate_strings codes_in_all codes_in code_at
    after number digits add_all has_seen
ambiguous = refl

abbrev simulate : Text → Simulation
simulate subject = Simulation.rejects unknown (Value.object 0)

abbrev unrecorded : SubjectChainState
unrecorded = record {
  subject = codes "C";
  revocation_epoch = 0;
  claim_record = none;
  revoked = false;
}

read_subject_chain_state_sound_example :
    (equal (codes "C") (codes "C") ≡ true)
    × (IsUnrecorded (simulate (codes "C")) unrecorded
        ⊎ IsRecorded (simulate (codes "C")) unrecorded)
unfolding read_subject_chain_state simulated rejected equal decode_contract_error_code found_codes
    candidate_strings visit_all codes_in_all codes_in code_at after number digits add_all has_seen
read_subject_chain_state_sound_example =
    read_subject_chain_state_sound (λ subject. equal subject (codes "C")) simulate (codes "C") refl
