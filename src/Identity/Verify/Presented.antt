-- ===== src/Identity/Verify/Presented.antt =====
-- `check_presentation` of Verify.antt: what an accepted proof satisfies.
use mathlib.Core.Path.{subst}
use stellar_onramp.Base.{
  ℕ, ◌+◌, ◌*◌, ◌-◌, ◌/◌, ◌%◌, true, List, [], ◌∷◌, Option, none, some, map, ltb, leb, ◌==◌, ◌≤◌,
  ◌<◌, ◌≡◌, refl, sym, ap, ◌∙◌, arith, length, ok, rethrow_as, Number, nat, to_nat?, to_nat?_sound,
  Bytes, Text, equal, equal_iff, All, >>=-eq-ok, guard-eq-ok, guard-ok, or_throw-eq-ok,
  rethrow_as-eq-ok, ok-injective, sort, is_above, is_ascending, leb→le, ==_iff,
}
use stellar_onramp.Identity.Hashes.{Hashes}
use stellar_onramp.Identity.Bbs.{Bbs}
use stellar_onramp.Identity.Points.{
  bad_proof_length, too_many_undisclosed, undisclosed_count_from_proof_bytes,
}
use stellar_onramp.Identity.Schema.{decode_disclosed, assert_no_pii_disclosed}
use stellar_onramp.Identity.Binding.{
  ProofBinding, assert_valid_binding, binding_digest_hex, presentation_header_for,
}
use stellar_onramp.Identity.Credential.{Proof, credential_header, schema_version_text}
use stellar_onramp.Identity.Verify.Policy.{
  schema_version, binding_mismatch, binding_invalid, expired, malformed_proof, disclosure_shape,
  unknown_index, message_index_mismatch, bbs_invalid, error, Decoded,
}
use stellar_onramp.Identity.Verify.{
  Disclosure, no_array, indexes, VerifyOptions, check_binding, check_ledger, follows, check_indexes,
  check_shape, asked_indexes, same_indexes, check_asked, check_length, check_proof,
  check_presentation,
}

-- Each index is below 12 and above the one before.
abbrev IsIndexes : Option ℕ → List ℕ → Type 0
IsIndexes none list = (is_ascending list ≡ true) × All (λ i. i < 12) list
IsIndexes (some previous) list = (is_above previous list ≡ true) × All (λ i. i < 12) list

after :
    (previous : Option ℕ) (i : ℕ) (rest : List ℕ)
    → follows previous i ≡ true
    → i < 12
    → IsIndexes (some i) rest
    → IsIndexes previous (i ∷ rest)
unfolding is_ascending is_above
after none i rest h below (a, all) = (a, (below, all))
after (some previous) i rest h below (a, all) = (ground (arith, h, a), (below, all))

no_more : (previous : Option ℕ) → IsIndexes previous []
unfolding is_ascending is_above
no_more none = (refl, tt)
no_more (some previous) = (refl, tt)

check_indexes_sound :
    (previous : Option ℕ) (raws : List Number) {list : List ℕ}
    → check_indexes previous raws ≡ ok list
    → (raws ≡ map nat list) × IsIndexes previous list
unfolding check_indexes
check_indexes_sound previous [] h =
    subst (λ list. ([] ≡ map nat list) × IsIndexes previous list) (ok-injective h)
      (refl, no_more previous)
check_indexes_sound previous (raw ∷ raws) h =
    let (i, is, h₁) = or_throw-eq-ok (to_nat? raw) unknown_index _ h in
    let (below, h₂) = guard-eq-ok (ltb i 12) unknown_index h₁ in
    let (later, h₃) = guard-eq-ok (follows previous i) disclosure_shape h₂ in
    let (rest, checked, h₄) = >>=-eq-ok (check_indexes (some i) raws) _ h₃ in
    let (same, good) = check_indexes_sound (some i) raws checked in
    subst (λ list. ((raw ∷ raws) ≡ map nat list) × IsIndexes previous list) (ok-injective h₄)
      (
        ap (λ r. r ∷ raws) (to_nat?_sound raw is) ∙ ap (λ rs. nat i ∷ rs) same,
        after previous i rest later (ground (arith, below)) good,
      )

asked_indexes_sound :
    (raws : List Number) {want : List ℕ} → asked_indexes raws ≡ ok want → raws ≡ map nat want
unfolding asked_indexes
asked_indexes_sound [] h = ap (map nat) (ok-injective h)
asked_indexes_sound (raw ∷ raws) h =
    let (i, is, h₁) = or_throw-eq-ok (to_nat? raw) error _ h in
    let (_, h₂) = guard-eq-ok (ltb i 12) error h₁ in
    let (rest, checked, h₃) = >>=-eq-ok (asked_indexes raws) _ h₂ in
    ap (λ r. r ∷ raws) (to_nat?_sound raw is)
    ∙ ap (λ rs. nat i ∷ rs) (asked_indexes_sound raws checked)
    ∙ ap (map nat) (ok-injective h₃)

same_indexes-eq : (is js : List ℕ) → same_indexes is js ≡ true → is ≡ js
unfolding same_indexes
same_indexes-eq [] [] h = refl
same_indexes-eq (i ∷ is) (j ∷ js) h =
    let first : i ≡ j = ground (arith, h) in
    let rest = same_indexes-eq is js (ground (arith, h)) in
    ap (λ k. k ∷ is) first ∙ ap (λ ks. j ∷ ks) rest
same_indexes-eq [] (j ∷ js) h = absurd (cc)
same_indexes-eq (i ∷ is) [] h = absurd (cc)

check_asked_sound :
    (d : Disclosure) (disclosed : List ℕ)
    → check_asked (some d) disclosed ≡ ok tt
    → (want : List ℕ) × (d ≡ indexes (map nat want)) × (sort want ≡ disclosed)
unfolding check_asked
check_asked_sound no_array disclosed h = absurd (cc)
check_asked_sound (indexes raws) disclosed h =
    let (want, asked, h₁) = >>=-eq-ok (asked_indexes raws) _ h in
    let same = guard-ok (same_indexes (sort want) disclosed) disclosure_shape h₁ in
    (want, ap indexes (asked_indexes_sound raws asked), same_indexes-eq (sort want) disclosed same)

undisclosed_count_sound :
    (n : ℕ) {u : ℕ} → undisclosed_count_from_proof_bytes n ≡ ok u → n ≡ 272 + 32 * u
unfolding undisclosed_count_from_proof_bytes
undisclosed_count_sound n {u = u} h =
    let (long, h₁) = guard-eq-ok (leb 272 n) bad_proof_length h in
    let (whole, h₂) = guard-eq-ok ((n - 272) % 32 == 0) bad_proof_length h₁ in
    let (_, h₃) = guard-eq-ok (leb ((n - 272) / 32) 39) too_many_undisclosed h₂ in
    let count : (n - 272) / 32 ≡ u = ok-injective h₃ in
    let enough = leb→le 272 n long in let even = (==_iff ((n - 272) % 32) 0).0 whole in omega arith

check_ledger_sound :
    (raw : Number) (expiry : ℕ)
    → check_ledger (some raw) expiry ≡ ok tt
    → (ledger : ℕ) × (raw ≡ nat ledger) × (ledger ≤ expiry)
unfolding check_ledger
check_ledger_sound raw expiry h =
    let (ledger, is, h₁) = or_throw-eq-ok (to_nat? raw) error _ h in
    (ledger, to_nat?_sound raw is, leb→le ledger expiry (guard-ok (leb ledger expiry) expired h₁))

-- The digests of the two bindings are one, and the one that is expected is valid up to this ledger.
abbrev pub IsBound : Hashes → ProofBinding → ProofBinding → ℕ → Type 0
IsBound hashes carried expected expiry =
    (assert_valid_binding expected ≡ ok expiry)
    × ((digest : Text) × (binding_digest_hex hashes carried ≡ ok digest)
        × (binding_digest_hex hashes expected ≡ ok digest))

check_binding-IsBound :
    (hashes : Hashes) (carried expected : ProofBinding) {expiry : ℕ}
    → check_binding hashes carried expected ≡ ok expiry
    → IsBound hashes carried expected expiry
unfolding check_binding
check_binding-IsBound hashes carried expected h =
    let (expiry, valid, h₁) =
      >>=-eq-ok (rethrow_as (assert_valid_binding expected) (λ e. binding_invalid)) _ h in
    let (digest, of_carried, h₂) =
      >>=-eq-ok (rethrow_as (binding_digest_hex hashes carried) (λ e. binding_invalid)) _ h₁ in
    let (wanted, of_expected, h₃) =
      >>=-eq-ok (rethrow_as (binding_digest_hex hashes expected) (λ e. binding_invalid)) _ h₂ in
    let (same, h₄) = guard-eq-ok (equal digest wanted) binding_mismatch h₃ in
    subst (IsBound hashes carried expected) (ok-injective h₄) (
      rethrow_as-eq-ok (assert_valid_binding expected) _ valid,
      (
        digest,
        rethrow_as-eq-ok (binding_digest_hex hashes carried) _ of_carried,
        rethrow_as-eq-ok (binding_digest_hex hashes expected) _ of_expected
            ∙ ap ok (sym ((equal_iff digest wanted).0 same)),
      ),
    )

-- The signature on the disclosed messages verifies under this key, for the binding.
abbrev pub IsProven : Hashes → Bbs → Proof → List ℕ → Bytes → ProofBinding → Type 0
IsProven hashes bbs proof disclosed key expected =
    (header : Bytes) × (presentation_header_for hashes expected ≡ ok header)
    × (bbs.verify_proof key proof.proof (hashes.utf8_to_bytes credential_header) header
          (map hashes.utf8_to_bytes proof.disclosed_messages) disclosed
        ≡ some true)

check_proof-IsProven :
    (hashes : Hashes) (bbs : Bbs) (proof : Proof) (disclosed : List ℕ) (key : Bytes)
    (expected : ProofBinding)
    → check_proof hashes bbs proof disclosed key expected ≡ ok tt
    → IsProven hashes bbs proof disclosed key expected
unfolding check_proof
check_proof-IsProven hashes bbs proof disclosed key expected h =
    let (header, made, h₁) =
      >>=-eq-ok (rethrow_as (presentation_header_for hashes expected) (λ e. malformed_proof)) _ h in
    let (verdict, given, h₂) =
      or_throw-eq-ok (bbs.verify_proof key proof.proof _ header _ disclosed) malformed_proof _ h₁ in
    (
      header,
      rethrow_as-eq-ok (presentation_header_for hashes expected) _ made,
      given ∙ ap some (guard-ok verdict bbs_invalid h₂),
    )

check_shape_sound :
    (proof : Proof) {disclosed : List ℕ}
    → check_shape proof ≡ ok disclosed
    → (proof.total_messages ≡ nat 12)
      × (proof.disclosed_indexes ≡ map nat disclosed)
      × (is_ascending disclosed ≡ true)
      × All (λ i. i < 12) disclosed
unfolding check_shape
check_shape_sound proof h =
    let (total, is, h₁) = or_throw-eq-ok (to_nat? proof.total_messages) disclosure_shape _ h in
    let (twelve, h₂) = guard-eq-ok (total == 12) disclosure_shape h₁ in
    let (_, h₃) =
      guard-eq-ok (length proof.disclosed_indexes == length proof.disclosed_messages)
        disclosure_shape h₂ in
    let (list, checked, h₄) = >>=-eq-ok (check_indexes none proof.disclosed_indexes) _ h₃ in
    let (_, _, h₅) =
      >>=-eq-ok (rethrow_as (assert_no_pii_disclosed list) (λ e. disclosure_shape)) _ h₄ in
    let same = ok-injective h₅ in
    let (raws, (good, below)) = check_indexes_sound none proof.disclosed_indexes checked in
    (
      to_nat?_sound proof.total_messages is ∙ ap nat ((==_iff total 12).0 twelve),
      raws ∙ ap (map nat) same,
      ap is_ascending (sym same) ∙ good,
      subst (All (λ i. i < 12)) same below,
    )

-- What a proof that is accepted shows of a binding, for these options.
pub record IsPresented (hashes : Hashes) (bbs : Bbs) (proof : Proof) (key : Bytes)
    (expected : ProofBinding) (options : VerifyOptions) (decoded : Decoded) : Type 0 where
  pub of_version : proof.schema_version ≡ schema_version_text
  pub expiry : ℕ
  pub is_bound : IsBound hashes proof.binding expected expiry
  pub in_time :
      (raw : Number)
      → options.current_ledger ≡ some raw
      → (ledger : ℕ) × (raw ≡ nat ledger) × (ledger ≤ expiry)
  pub disclosed : List ℕ
  pub total : proof.total_messages ≡ nat 12
  pub carries : proof.disclosed_indexes ≡ map nat disclosed
  pub ascending : is_ascending disclosed ≡ true
  pub in_schema : All (λ i. i < 12) disclosed
  pub as_asked :
      (d : Disclosure)
      → options.expected_disclosed_indexes ≡ some d
      → (want : List ℕ) × (d ≡ indexes (map nat want)) × (sort want ≡ disclosed)
  pub undisclosed : ℕ
  pub proof_length : length proof.proof ≡ 272 + 32 * undisclosed
  pub counted : undisclosed + length disclosed ≡ 12
  pub decodes : decode_disclosed disclosed proof.disclosed_messages ≡ ok decoded
  pub is_proven : IsProven hashes bbs proof disclosed key expected

pub check_presentation-IsPresented :
    (hashes : Hashes) (bbs : Bbs) (proof : Proof) (key : Bytes) (expected : ProofBinding)
    (options : VerifyOptions) {decoded : Decoded}
    → check_presentation hashes bbs proof key expected options ≡ ok decoded
    → IsPresented hashes bbs proof key expected options decoded
unfolding check_presentation check_length
check_presentation-IsPresented hashes bbs proof key expected options h =
    let (version, h₁) =
      guard-eq-ok (equal proof.schema_version schema_version_text) schema_version h in
    let (expiry, bound, h₂) = >>=-eq-ok (check_binding hashes proof.binding expected) _ h₁ in
    let (_, timely, h₃) = >>=-eq-ok (check_ledger options.current_ledger expiry) _ h₂ in
    let (disclosed, shaped, h₄) = >>=-eq-ok (check_shape proof) _ h₃ in
    let (_, asked, h₅) =
      >>=-eq-ok (check_asked options.expected_disclosed_indexes disclosed) _ h₄ in
    let (_, measured, h₆) = >>=-eq-ok (check_length proof.proof disclosed) _ h₅ in
    let (decoded, reads, h₇) =
      >>=-eq-ok
        (rethrow_as (decode_disclosed disclosed proof.disclosed_messages)
          (λ e. message_index_mismatch))
        _ h₆ in
    let (_, proven, h₈) = >>=-eq-ok (check_proof hashes bbs proof disclosed key expected) _ h₇ in
    let (u, counted, h₉) =
      >>=-eq-ok
        (rethrow_as (undisclosed_count_from_proof_bytes (length proof.proof))
          (λ e. malformed_proof))
        _ measured in
    let twelve = guard-ok (u + length disclosed == 12) disclosure_shape h₉ in
    let (total, carries, ascending, in_schema) = check_shape_sound proof shaped in
    subst (IsPresented hashes bbs proof key expected options) (ok-injective h₈) (record {
      of_version = (equal_iff proof.schema_version schema_version_text).0 version;
      expiry = expiry;
      is_bound = check_binding-IsBound hashes proof.binding expected bound;
      in_time = λ raw is.
          check_ledger_sound raw expiry (ap (λ o. check_ledger o expiry) (sym is) ∙ timely);
      disclosed = disclosed;
      total = total;
      carries = carries;
      ascending = ascending;
      in_schema = in_schema;
      as_asked = λ d is.
          check_asked_sound d disclosed (ap (λ o. check_asked o disclosed) (sym is) ∙ asked);
      undisclosed = u;
      proof_length =
          undisclosed_count_sound (length proof.proof)
            (rethrow_as-eq-ok (undisclosed_count_from_proof_bytes (length proof.proof)) _ counted);
      counted = (==_iff (u + length disclosed) 12).0 twelve;
      decodes = rethrow_as-eq-ok (decode_disclosed disclosed proof.disclosed_messages) _ reads;
      is_proven = check_proof-IsProven hashes bbs proof disclosed key expected proven;
    })
