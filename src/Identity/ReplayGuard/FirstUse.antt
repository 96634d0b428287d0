-- ===== src/Identity/ReplayGuard/FirstUse.antt =====
-- `ReplayGuard` of packages/identity/src/binding.ts against the history of its calls.
use mathlib.Core.Path.{subst}
use stellar_onramp.Base.{
  ℕ, zero, suc, Bool, false, not, ◌||◌, List, [], ◌∷◌, Option, some, ◌≡◌, refl, ap, ◌∙◌, arith, inl,
  inr, Bool-cases, Result, ok, err, Text, equal, equal_iff, includes, get_elem?, take,
}
use stellar_onramp.Identity.Hashes.{Hashes}
use stellar_onramp.Identity.Binding.{ProofBinding, BindingError, binding_digest_hex}
use stellar_onramp.Identity.ReplayGuard.{ReplayGuard, new_guard, consume_key, consume, answers}

-- The digest was computed, and is this one.
abbrev pub is_digest : Text → Result BindingError Text → Bool
is_digest key (err e) = false
is_digest key (ok k) = equal k key

-- One of the bindings has this digest.
unfoldable pub occurs : Hashes → Text → List ProofBinding → Bool
occurs hashes key [] = false
occurs hashes key (b ∷ bs) = is_digest key (binding_digest_hex hashes b) || occurs hashes key bs

-- The answer that the calls made before call for.
abbrev pub answer_after :
    Hashes → List ProofBinding → Result BindingError Text → Result BindingError Bool
answer_after hashes earlier (err e) = err e
answer_after hashes earlier (ok key) = ok (not (occurs hashes key earlier))

abbrev answer_from :
    Hashes → ReplayGuard → List ProofBinding → Result BindingError Text → Result BindingError Bool
answer_from hashes guard earlier (err e) = err e
answer_from hashes guard earlier (ok key) =
    ok (not (includes guard.consumed key || occurs hashes key earlier))

-- What one call adds to the set.
consume_key-seen :
    (guard : ReplayGuard) (digest : Result BindingError Text) (key : Text)
    → includes (consume_key guard digest).0.consumed key
      ≡ (includes guard.consumed key || is_digest key digest)
unfolding includes
consume_key-seen guard (err e) key = ground arith
consume_key-seen guard (ok k) key =
    let same = (equal_iff k key).0 in
    elim (Bool-cases (equal k key)) [
      | inl t ↦ let back = ap (includes guard.consumed) (same t) in ground (arith, t, back)
      | inr f ↦ ground (arith, f)
    ]

answers-from :
    (hashes : Hashes) (bs : List ProofBinding) (guard : ReplayGuard) (i : ℕ) {b : ProofBinding}
    → get_elem? bs i ≡ some b
    → get_elem? (answers hashes bs guard) i
      ≡ some (answer_from hashes guard (take i bs) (binding_digest_hex hashes b))
unfolding answers occurs consume
answers-from hashes [] guard i h = absurd (cc)
answers-from hashes (b ∷ bs) guard zero {b = c} h =
    let same : b ≡ c = cc in
    subst
      (λ c.
        ◌≡◌ {A = Option (Result BindingError Bool)} (some (consume hashes b guard).1)
          (some (answer_from hashes guard [] (binding_digest_hex hashes c))))
      same (ap some (first_answer guard (binding_digest_hex hashes b)))
  where
    first_answer :
        (guard : ReplayGuard) (digest : Result BindingError Text)
        → (consume_key guard digest).1 ≡ answer_from hashes guard [] digest
    first_answer guard (err e) = refl
    first_answer guard (ok key) = ground arith
answers-from hashes (b ∷ bs) guard (suc i) {b = c} h =
    answers-from hashes bs (consume hashes b guard).0 i h
    ∙ ap some (later (binding_digest_hex hashes c))
  where
    later :
        (digest : Result BindingError Text)
        → answer_from hashes (consume hashes b guard).0 (take i bs) digest
          ≡ answer_from hashes guard (b ∷ take i bs) digest
    later (err e) = refl
    later (ok key) =
        let seen = consume_key-seen guard (binding_digest_hex hashes b) key in ground (arith, seen)

-- A guard answers, to any sequence of calls, as its history tells: a binding that is no binding is
-- refused, and another is accepted exactly where none of the calls before it had its digest.
pub answers-first_use :
    (hashes : Hashes) (bindings : List ProofBinding) (i : ℕ) {b : ProofBinding}
    → get_elem? bindings i ≡ some b
    → get_elem? (answers hashes bindings new_guard) i
      ≡ some (answer_after hashes (take i bindings) (binding_digest_hex hashes b))
unfolding includes
answers-first_use hashes bindings i {b = b} h =
    answers-from hashes bindings new_guard i h ∙ ap some (fresh (binding_digest_hex hashes b))
  where
    fresh :
        (digest : Result BindingError Text)
        → answer_from hashes new_guard (take i bindings) digest
          ≡ answer_after hashes (take i bindings) digest
    fresh (err e) = refl
    fresh (ok key) = refl
