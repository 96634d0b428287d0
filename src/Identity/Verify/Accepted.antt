-- ===== src/Identity/Verify/Accepted.antt =====
-- What `verifyDetailed` (packages/identity/src/credential.ts) has checked of a proof that it accepts.
use mathlib.Core.Path.{subst}
use stellar_onramp.Base.{
  Bool, true, false, Option, ◌≡◌, refl, ap, Result, ok, err, >>=-eq-ok, Bytes,
}
use stellar_onramp.Identity.Hashes.{Hashes}
use stellar_onramp.Identity.Bbs.{Bbs}
use stellar_onramp.Identity.Gzip.{GzipStreams}
use stellar_onramp.Identity.Binding.{ProofBinding, BindingError}
use stellar_onramp.Identity.ReplayGuard.{ReplayGuard}
use stellar_onramp.Identity.Credential.{Proof, issuer_id_from_public_key}
use stellar_onramp.Identity.Verify.Policy.{VerifyFailure, Decoded}
use stellar_onramp.Identity.Verify.Naturals.{decode_disclosed-AreNatural}
use stellar_onramp.Identity.Verify.Permitted.{IsPermitted, check_policy-IsPermitted}
use stellar_onramp.Identity.Verify.Presented.{IsPresented, check_presentation-IsPresented}
use stellar_onramp.Identity.Verify.{
  VerifyOptions, check_presentation, burn, answer, conclude, judge, verify_detailed,
}

-- The proof is a presentation for the expected binding, and what it discloses is what the options ask.
pub record IsAccepted (hashes : Hashes) (bbs : Bbs) (streams : GzipStreams) (proof : Proof)
    (key : Bytes) (expected : ProofBinding) (options : VerifyOptions) (decoded : Decoded)
    : Type 0 where
  pub is_presented : IsPresented hashes bbs proof key expected options decoded
  pub is_permitted :
      IsPermitted streams
        (issuer_id_from_public_key hashes bbs key)
        options.current_time
        options.expected_subject_binding
        options.expected_claims
        options.status_list
        options.status_purpose
        decoded

pub judge-IsAccepted :
    (hashes : Hashes) (bbs : Bbs) (streams : GzipStreams) (proof : Proof) (key : Bytes)
    (expected : ProofBinding) (options : VerifyOptions) {decoded : Decoded}
    → judge hashes bbs streams proof key expected options ≡ ok decoded
    → IsAccepted hashes bbs streams proof key expected options decoded
unfolding judge
judge-IsAccepted hashes bbs streams proof key expected options h =
    let (shown, presented, h₁) =
      >>=-eq-ok (check_presentation hashes bbs proof key expected options) _ h in
    let is_presented =
      check_presentation-IsPresented hashes bbs proof key expected options presented in
    let natural =
      decode_disclosed-AreNatural is_presented.disclosed proof.disclosed_messages
        is_presented.decodes in
    let (same, permitted) = check_policy-IsPermitted streams _ _ _ _ _ _ shown natural h₁ in
    subst (IsAccepted hashes bbs streams proof key expected options) same
      (record { is_presented = is_presented; is_permitted = permitted })

answer-ok :
    (decoded : Decoded) (fresh : Result BindingError Bool) {result : Decoded}
    → answer decoded fresh ≡ ok result
    → (decoded ≡ result) × (fresh ≡ ok true)
answer-ok decoded (ok true) h = (cc, refl)
answer-ok decoded (ok false) h = absurd (cc)
answer-ok decoded (err e) h = absurd (cc)

-- Accepted after the guard was asked: judged so before, and fresh.
pub conclude-ok :
    (hashes : Hashes) (expected : ProofBinding) (replay : Option ReplayGuard)
    (judged : Result VerifyFailure Decoded) {decoded : Decoded}
    → (conclude hashes expected replay judged).1 ≡ ok decoded
    → (judged ≡ ok decoded)
      × ((burn hashes expected replay).1 ≡ ok true)
      × ((conclude hashes expected replay judged).0 ≡ (burn hashes expected replay).0)
conclude-ok hashes expected replay (err e) h = absurd (cc)
conclude-ok hashes expected replay (ok decoded) h =
    let (same, fresh) = answer-ok decoded (burn hashes expected replay).1 h in
    (ap ok same, fresh, refl)

-- Whatever `verifyDetailed` accepts carries the digest of the binding that is expected, has not
-- passed its ledger, discloses exactly the attributes asked for, in order, and a message for each
-- that a proof verified under the issuer's key covers; the values decoded from those messages are the
-- result, and agree with the issuer, the time, the subject, the expected claims and a status of 0,
-- wherever the options ask for them.
pub verify_detailed-IsAccepted :
    (hashes : Hashes) (bbs : Bbs) (streams : GzipStreams) (proof : Proof) (key : Bytes)
    (expected : ProofBinding) (options : VerifyOptions) {decoded : Decoded}
    → (verify_detailed hashes bbs streams proof key expected options).1 ≡ ok decoded
    → IsAccepted hashes bbs streams proof key expected options decoded
unfolding verify_detailed
verify_detailed-IsAccepted hashes bbs streams proof key expected options h =
    judge-IsAccepted hashes bbs streams proof key expected options
      (conclude-ok hashes expected options.replay_guard
        (judge hashes bbs streams proof key expected options) h).0
