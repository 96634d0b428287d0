-- ===== src/Identity/Predicates/Checked.antt =====
-- `checkPredicate` of packages/identity/src/predicates.ts: what an accepted proof shows of a predicate.
use mathlib.Core.Path.{subst}
use stellar_onramp.Base.{
  ℕ, true, List, [], ◌∷◌, Option, some, map, ◌≡◌, refl, sym, ap, ◌∙◌, arith, inl, inr, Bool-cases,
  All, ok, Number, nat, negsuc, non_integer, Bytes, Text, sort,
}
use stellar_onramp.Identity.Hashes.{Hashes}
use stellar_onramp.Identity.Bbs.{Bbs}
use stellar_onramp.Identity.Gzip.{GzipStreams}
use stellar_onramp.Identity.Schema.{name_text, ClaimValue}
use stellar_onramp.Identity.Binding.{ProofBinding}
use stellar_onramp.Identity.Credential.{Proof}
use stellar_onramp.Identity.Verify.Policy.{entries, Decoded, lookup}
use stellar_onramp.Identity.Verify.Permitted.{IsAsExpected}
use stellar_onramp.Identity.Verify.Accepted.{IsAccepted, verify_detailed-IsAccepted}
use stellar_onramp.Identity.Verify.{VerifyOptions}
use stellar_onramp.Identity.Predicates.{
  Expected, Predicate, discloses, with_predicate, check_predicate,
}

discloses-eq : (want : List ℕ) (got : List Number) → discloses want got ≡ true → got ≡ map nat want
unfolding discloses
discloses-eq [] [] h = refl
discloses-eq [] (n ∷ got) h = absurd (cc)
discloses-eq (v ∷ want) [] h = absurd (cc)
discloses-eq (v ∷ want) (nat i ∷ got) h =
    let same : i ≡ v = ground (arith, h) in
    ap (λ j. nat j ∷ got) same ∙ ap (λ l. nat v ∷ l) (discloses-eq want got (ground (arith, h)))
discloses-eq (v ∷ want) (negsuc i ∷ got) h = absurd (cc)
discloses-eq (v ∷ want) (non_integer ∷ got) h = absurd (cc)

-- Each of the expected values was disclosed.
abbrev pub AllShown : Decoded → Expected → Type 0
AllShown decoded expected = All (λ e. lookup (name_text e.0) decoded ≡ some e.1) expected

as_expected-AllShown :
    (decoded : Decoded) (expected : Expected)
    → All (IsAsExpected decoded) (map (λ e. (name_text e.0, some e.1)) expected)
    → AllShown decoded expected
as_expected-AllShown decoded [] all = tt
as_expected-AllShown decoded ((n, v) ∷ expected) (here, all) =
    (here v refl, as_expected-AllShown decoded expected all)

entries-injective : {a b : List (Text × Option ClaimValue)} → entries a ≡ entries b → a ≡ b
entries-injective h = cc

-- What `checkPredicate` accepts is a proof that `verifyDetailed` accepts, that discloses exactly the
-- indexes of the predicate, in order, and whose values are those that the predicate expects.
pub check_predicate_sound :
    (hashes : Hashes) (bbs : Bbs) (streams : GzipStreams) (proof : Proof) (predicate : Predicate)
    (key : Bytes) (expected : ProofBinding) (options : VerifyOptions) {decoded : Decoded}
    → (check_predicate hashes bbs streams proof predicate key expected options).1 ≡ ok decoded
    → IsAccepted hashes bbs streams proof key expected (with_predicate predicate options) decoded
      × (proof.disclosed_indexes ≡ map nat (sort predicate.disclose))
      × AllShown decoded predicate.expect
unfolding check_predicate
check_predicate_sound hashes bbs streams proof predicate key expected options {decoded} h =
    elim (Bool-cases (discloses (sort predicate.disclose) proof.disclosed_indexes)) [
      | inr f ↦ absurd (ground (arith, f, h))
      | inl t ↦
          let accepted =
            verify_detailed-IsAccepted hashes bbs streams proof key expected
              (with_predicate predicate options) (ground (arith, t, h)) in
          let (list, same, all) = accepted.is_permitted.as_expected _ refl in
          (
            accepted,
            discloses-eq (sort predicate.disclose) proof.disclosed_indexes t,
            as_expected-AllShown decoded predicate.expect
                (subst (All (IsAsExpected decoded)) (sym (entries-injective same)) all),
          )
    ]
