-- ===== src/Identity/Bbs.antt =====
-- What packages/identity/src/credential.ts calls of @digitalbazaar/bbs-signatures, as parameters; none
-- where a call throws.
use stellar_onramp.Base.{ℕ, ◌≡◌, Bool, true, List, Option, some, map, get_or, [], Bytes}

pub record Bbs : Type 0 where
  pub secret_key_to_public_key : Bytes → Option Bytes
  -- secret key, public key, header, messages
  pub sign : Bytes → Bytes → Bytes → List Bytes → Option Bytes
  -- public key, signature, header, messages
  pub verify_signature : Bytes → Bytes → Bytes → List Bytes → Option Bool
  -- public key, signature, header, messages, presentation header, disclosed indexes
  pub derive_proof : Bytes → Bytes → Bytes → List Bytes → Bytes → List ℕ → Option Bytes
  -- public key, proof, header, presentation header, disclosed messages, their indexes
  pub verify_proof : Bytes → Bytes → Bytes → Bytes → List Bytes → List ℕ → Option Bool

-- Documented behaviour: a proof that is derived from a signature verifies, against the public key of
-- the secret key that signed, for the messages at the disclosed indexes.
pub record IsBbs (bbs : Bbs) : Type 0 where
  pub complete :
      (sk pk header ph : Bytes) (messages : List Bytes) (indexes : List ℕ) {signature proof : Bytes}
      → bbs.secret_key_to_public_key sk ≡ some pk
      → bbs.sign sk pk header messages ≡ some signature
      → bbs.derive_proof pk signature header messages ph indexes ≡ some proof
      → bbs.verify_proof pk proof header ph (map (λ i. get_or messages i []) indexes) indexes
        ≡ some true
