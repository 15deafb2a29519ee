-- ===== src/Common/Result.antt =====
-- Go's pair of a value and an `error`: the value where the error is nil, the error elsewhere.
use mathlib.Core.Path.{◌≡◌, refl}
use mathlib.Core.Logic.{◌≢◌, ◌⊎◌, inl, inr}

pub data Result {ℓ κ} (E : Type κ) (A : Type ℓ) : Type (ℓ ⊔ κ) where
  ok : A → Result E A
  err : E → Result E A

infixl 5 ◌>>=◌
-- `if err != nil { return nil, err }`, and the code that follows
abbrev pub ◌>>=◌ {ℓ ℓ' κ} :
    {E : Type κ} {A : Type ℓ} {B : Type ℓ'} → Result E A → (A → Result E B) → Result E B
err problem >>= next = err problem
ok value >>= next = next value

pub Result-cases {ℓ κ} :
    {E : Type κ} {A : Type ℓ} (r : Result E A) → ((a : A) × (r ≡ ok a)) ⊎ ((e : E) × (r ≡ err e))
Result-cases (ok a) = inl (a, refl)
Result-cases (err e) = inr (e, refl)

-- Code that returns a value got one from its first call.
pub bind_inv {ℓ ℓ' κ} :
    {E : Type κ} {A : Type ℓ} {B : Type ℓ'} (first : Result E A) (next : A → Result E B) {out : B}
    → (first >>= next) ≡ ok out
    → (value : A) × (first ≡ ok value) × (next value ≡ ok out)
bind_inv (err problem) next h = cc
bind_inv (ok value) next h = (value, refl, h)

pub bind-cong {ℓ ℓ' κ} :
    {E : Type κ} {A : Type ℓ} {B : Type ℓ'} (first : Result E A) {next next' : A → Result E B}
    → ((value : A) → next value ≡ next' value)
    → (first >>= next) ≡ (first >>= next')
bind-cong (err problem) same = refl
bind-cong (ok value) same = same value

pub ok-injective {ℓ κ} :
    {E : Type κ} {A : Type ℓ} {a b : A} → ◌≡◌ {A = Result E A} (ok a) (ok b) → a ≡ b
ok-injective h = cc

-- The outcome of a loop that runs on fuel.
pub data Run {ℓ κ} (E : Type κ) (A : Type ℓ) : Type (ℓ ⊔ κ) where
  done : A → Run E A
  failed : E → Run E A
  out_of_fuel : Run E A

-- the rest of a loop's body after a step that may fail
abbrev pub on_ok {ℓ ℓ' κ} :
    {E : Type κ} {A : Type ℓ} {B : Type ℓ'} → Result E A → (A → Run E B) → Run E B
on_ok (ok a) f = f a
on_ok (err e) f = failed e

pub done-injective {ℓ κ} :
    {E : Type κ} {A : Type ℓ} {a b : A} → ◌≡◌ {A = Run E A} (done a) (done b) → a ≡ b
done-injective h = cc

pub on_ok-eq-done {ℓ ℓ' κ} :
    {E : Type κ} {A : Type ℓ} {B : Type ℓ'} (first : Result E A) (next : A → Run E B) {out : B}
    → on_ok first next ≡ done out
    → (value : A) × (first ≡ ok value) × (next value ≡ done out)
on_ok-eq-done (err problem) next h = cc
on_ok-eq-done (ok value) next h = (value, refl, h)

-- A step that may fail adds no way to run out of fuel.
pub on_ok-ne-out_of_fuel {ℓ ℓ' κ} :
    {E : Type κ} {A : Type ℓ} {B : Type ℓ'} (m : Result E A) (f : A → Run E B)
    → ((a : A) → f a ≢ out_of_fuel)
    → on_ok m f ≢ out_of_fuel
on_ok-ne-out_of_fuel (ok a) f h = h a
on_ok-ne-out_of_fuel (err e) f h = λ p. cc
