-- ===== src/Identity/ReplayGuard.antt =====
-- `ReplayGuard` of packages/identity/src/binding.ts: the set of the digests that were consumed.
pub mod FirstUse
use stellar_onramp.Base.{
  ℕ, Bool, true, false, List, [], ◌∷◌, if◌then◌else◌, Result, ok, err, Text, includes, length,
}
use stellar_onramp.Identity.Hashes.{Hashes}
use stellar_onramp.Identity.Binding.{ProofBinding, BindingError, binding_digest_hex}

pub record ReplayGuard : Type 0 where
  pub consumed : List Text

abbrev pub new_guard : ReplayGuard
new_guard = record { consumed = [] }

-- What `consume` does, given the digest.
abbrev pub consume_key :
    ReplayGuard → Result BindingError Text → ReplayGuard × Result BindingError Bool
consume_key guard (err e) = (guard, err e)
consume_key guard (ok key) =
    if includes guard.consumed key
    then (guard, ok false)
    else (record { consumed = key ∷ guard.consumed }, ok true)

unfoldable pub consume :
    Hashes → ProofBinding → ReplayGuard → ReplayGuard × Result BindingError Bool
consume hashes binding guard = consume_key guard (binding_digest_hex hashes binding)

-- `has`
abbrev pub has_consumed : Hashes → ProofBinding → ReplayGuard → Result BindingError Bool
has_consumed hashes binding guard = elim (binding_digest_hex hashes binding) [
  | err e ↦ err e
  | ok key ↦ ok (includes guard.consumed key)
]

abbrev pub size : ReplayGuard → ℕ
size guard = length guard.consumed

abbrev pub clear : ReplayGuard → ReplayGuard
clear guard = record { consumed = [] }

-- The answers to a sequence of calls.
unfoldable pub answers : Hashes → List ProofBinding → ReplayGuard → List (Result BindingError Bool)
answers hashes [] guard = []
answers hashes (binding ∷ bindings) guard =
    let (guard', answer) = consume hashes binding guard in answer ∷ answers hashes bindings guard'
