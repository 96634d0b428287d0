-- ===== src/Base/Results.antt =====
-- Code that may throw: a value, or the error thrown.
use mathlib.Core.Path.{◌≡◌, refl, ap}
use mathlib.Core.Logic.{◌⊎◌, inl, inr}
use mathlib.Core.Bool.{Bool, true, false}
use mathlib.Core.Option.{Option, none, some}

pub data Result {ℓ κ} (E : Type ℓ) (A : Type κ) : Type (ℓ ⊔ κ) where
  ok : A → Result E A
  err : E → Result E A

infixl 5 ◌>>=◌ ◌>>◌
abbrev pub ◌>>=◌ {ℓ κ μ} :
    {E : Type ℓ} {A : Type κ} {B : Type μ} → Result E A → (A → Result E B) → Result E B
ok a >>= f = f a
err e >>= f = err e

abbrev pub ◌>>◌ {ℓ μ} : {E : Type ℓ} {B : Type μ} → Result E (Unit {0}) → Result E B → Result E B
m >> k = m >>= λ _. k

-- `if (!test) throw e`
abbrev pub guard {ℓ} : {E : Type ℓ} → Bool → E → Result E (Unit {0})
guard true e = ok tt
guard false e = err e

abbrev pub or_throw {ℓ κ} : {E : Type ℓ} {A : Type κ} → Option A → E → Result E A
or_throw none e = err e
or_throw (some a) e = ok a

-- `try { … } catch { throw e }`
abbrev pub rethrow_as {ℓ κ μ} :
    {E : Type ℓ} {F : Type κ} {A : Type μ} → Result E A → (E → F) → Result F A
rethrow_as (ok a) f = ok a
rethrow_as (err e) f = err (f e)

module _ {ℓ κ μ} {E : Type ℓ} {A : Type κ} {B : Type μ} where
  pub >>=-eq-ok :
      (first : Result E A) (next : A → Result E B) {result : B}
      → (first >>= next) ≡ ok result
      → (value : A) × (first ≡ ok value) × (next value ≡ ok result)
  >>=-eq-ok (ok value) next returned = (value, refl, returned)
  >>=-eq-ok (err e) next returned = cc

pub guard-ok {ℓ} : {E : Type ℓ} (test : Bool) (e : E) → guard test e ≡ ok tt → test ≡ true
guard-ok true e h = refl
guard-ok false e h = absurd (cc)

module _ {ℓ κ} {E : Type ℓ} {B : Type κ} where
  pub guard-eq-ok :
      (test : Bool) (e : E) {k : Result E B} {b : B}
      → (guard test e >> k) ≡ ok b
      → (test ≡ true) × (k ≡ ok b)
  guard-eq-ok true e h = (refl, h)
  guard-eq-ok false e h = absurd (cc)

  pub or_throw-eq-ok {μ} :
      {A : Type μ} (o : Option A) (e : E) (f : A → Result E B) {b : B}
      → (or_throw o e >>= f) ≡ ok b
      → (a : A) × (o ≡ some a) × (f a ≡ ok b)
  or_throw-eq-ok none e f h = absurd (cc)
  or_throw-eq-ok (some a) e f h = (a, refl, h)

pub ok-injective {ℓ κ} :
    {E : Type ℓ} {A : Type κ} {a b : A} → ◌≡◌ {A = Result E A} (ok a) (ok b) → a ≡ b
ok-injective h = cc

pub rethrow_as-eq-ok {ℓ κ μ} :
    {E : Type ℓ} {F : Type κ} {A : Type μ} (r : Result E A) (f : E → F) {a : A}
    → rethrow_as r f ≡ ok a
    → r ≡ ok a
rethrow_as-eq-ok (ok a) f h = ap ok (ok-injective h)
rethrow_as-eq-ok (err e) f h = absurd (cc)

pub err-ne-ok {ℓ κ} :
    {E : Type ℓ} {A : Type κ} {e : E} {a : A} → ◌≡◌ {A = Result E A} (err e) (ok a) → ⊥
err-ne-ok h = cc

pub Result-cases {ℓ κ} :
    {E : Type ℓ} {A : Type κ} (r : Result E A) → ((a : A) × (r ≡ ok a)) ⊎ ((e : E) × (r ≡ err e))
Result-cases (ok a) = inl (a, refl)
Result-cases (err e) = inr (e, refl)
