-- ===== src/Identity/Verify/Replay.antt =====
-- The replay guard of `verifyDetailed` (packages/identity/src/credential.ts).
use stellar_onramp.Base.{
  true, false, Option, none, some, ◌≡◌, refl, sym, ap, ◌∙◌, arith, inl, inr, ◌⊎◌, Bool-cases,
  Result, ok, err, Bytes, Text, equal_self, includes,
}
use stellar_onramp.Identity.Hashes.{Hashes}
use stellar_onramp.Identity.Bbs.{Bbs}
use stellar_onramp.Identity.Gzip.{GzipStreams}
use stellar_onramp.Identity.Binding.{ProofBinding, BindingError, binding_digest_hex}
use stellar_onramp.Identity.ReplayGuard.{ReplayGuard, consume_key, consume}
use stellar_onramp.Identity.Credential.{Proof}
use stellar_onramp.Identity.Verify.Policy.{VerifyFailure, Decoded}
use stellar_onramp.Identity.Verify.Accepted.{conclude-ok}
use stellar_onramp.Identity.Verify.{VerifyOptions, burn, answer, conclude, judge, verify_detailed}

consume_key-kept :
    (guard : ReplayGuard) (digest : Result BindingError Text)
    → ((consume_key guard digest).1 ≡ ok true) ⊎ ((consume_key guard digest).0 ≡ guard)
unfolding consume
consume_key-kept guard (err e) = inr refl
consume_key-kept guard (ok key) = elim (Bool-cases (includes guard.consumed key)) [
  | inl t ↦ inr (ground (arith, t))
  | inr f ↦ inl (ground (arith, f))
]

burn-kept :
    (hashes : Hashes) (expected : ProofBinding) (replay : Option ReplayGuard)
    → ((burn hashes expected replay).1 ≡ ok true) ⊎ ((burn hashes expected replay).0 ≡ replay)
unfolding consume
burn-kept hashes expected none = inr refl
burn-kept hashes expected (some guard) =
    elim (consume_key-kept guard (binding_digest_hex hashes expected)) [
      | inl fresh ↦ inl fresh
      | inr same ↦ inr (ap some same)
    ]

conclude-kept :
    (hashes : Hashes) (expected : ProofBinding) (replay : Option ReplayGuard)
    (judged : Result VerifyFailure Decoded) {reason : VerifyFailure}
    → (conclude hashes expected replay judged).1 ≡ err reason
    → (conclude hashes expected replay judged).0 ≡ replay
conclude-kept hashes expected replay (err e) h = refl
conclude-kept hashes expected replay (ok decoded) h = elim (burn-kept hashes expected replay) [
  | inl fresh ↦ absurd (refused fresh)
  | inr same ↦ same
]
  where
    refused : (burn hashes expected replay).1 ≡ ok true → ⊥
    refused fresh =
        let accepted : answer decoded (burn hashes expected replay).1 ≡ ok decoded =
          ap (answer decoded) fresh in
        cc

-- A proof that is refused burns no nonce: the guard is the one that was given.
pub verify_detailed-kept :
    (hashes : Hashes) (bbs : Bbs) (streams : GzipStreams) (proof : Proof) (key : Bytes)
    (expected : ProofBinding) (options : VerifyOptions) {reason : VerifyFailure}
    → (verify_detailed hashes bbs streams proof key expected options).1 ≡ err reason
    → (verify_detailed hashes bbs streams proof key expected options).0 ≡ options.replay_guard
unfolding verify_detailed
verify_detailed-kept hashes bbs streams proof key expected options h =
    conclude-kept hashes expected options.replay_guard
      (judge hashes bbs streams proof key expected options) h

-- A fresh nonce is not fresh again.
consume_key-twice :
    (guard : ReplayGuard) (digest : Result BindingError Text)
    → (consume_key guard digest).1 ≡ ok true
    → (consume_key (consume_key guard digest).0 digest).1 ≡ ok false
unfolding includes
consume_key-twice guard (err e) h = absurd (cc)
consume_key-twice guard (ok key) h = elim (Bool-cases (includes guard.consumed key)) [
  | inl t ↦ absurd (ground (arith, t, h))
  | inr f ↦ let self = equal_self key in ground (arith, f, self)
]

-- A nonce is accepted once: after a proof was accepted under a guard, any proof for the same
-- binding, under any key and any options with the guard that call left, is refused.
pub verify_detailed-once :
    (hashes : Hashes) (bbs : Bbs) (streams : GzipStreams) (proof proof' : Proof) (key key' : Bytes)
    (expected : ProofBinding) (options options' : VerifyOptions) (guard : ReplayGuard)
    {decoded : Decoded}
    → options.replay_guard ≡ some guard
    → (verify_detailed hashes bbs streams proof key expected options).1 ≡ ok decoded
    → options'.replay_guard ≡ (verify_detailed hashes bbs streams proof key expected options).0
    → ¬ (
        (decoded' : Decoded) × ((verify_detailed hashes bbs streams proof' key' expected options').1
          ≡ ok decoded'))
unfolding verify_detailed consume
verify_detailed-once hashes bbs streams proof proof' key key' expected options options' guard given
      accepted left (decoded', again) =
    let (_, fresh, after) =
      conclude-ok hashes expected options.replay_guard
        (judge hashes bbs streams proof key expected options) accepted in
    let (_, fresh', _) =
      conclude-ok hashes expected options'.replay_guard
        (judge hashes bbs streams proof' key' expected options') again in
    let first : (consume hashes expected guard).1 ≡ ok true =
      ap (λ r. (burn hashes expected r).1) (sym given) ∙ fresh in
    let held : options'.replay_guard ≡ some (consume hashes expected guard).0 =
      left ∙ after ∙ ap (λ r. (burn hashes expected r).0) given in
    let second : (consume hashes expected (consume hashes expected guard).0).1 ≡ ok true =
      ap (λ r. (burn hashes expected r).1) (sym held) ∙ fresh' in
    let stale = consume_key-twice guard (binding_digest_hex hashes expected) first in cc
