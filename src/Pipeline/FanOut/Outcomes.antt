-- ===== src/Pipeline/FanOut/Outcomes.antt =====
-- index/pipeline/index.go: the outcomes of fanOut.
use amoxtli.Common.{◌↔◌, ◌≡◌, refl, ap, List, [], ◌∷◌, map, ◌∙◌, inl, inr, true, Bool-cases}
use amoxtli.Common.Result.{ok, err, ok-injective}
use amoxtli.Pipeline.FanOut.{Call, errors_of, values_of, fan_out}
use amoxtli.Search.{is_empty}

-- What a leg that succeeds ends with.
abbrev pub success {ℓ κ} : {E : Type κ} {A : Type ℓ} → A → Call E A
success value = Call.returned (ok value)

values_of-success {ℓ κ} :
    (E : Type κ) {A : Type ℓ} (values : List A) → values_of {E = E} (map success values) ≡ values
values_of-success E [] = refl
values_of-success E (value ∷ values) = ap (value ∷◌) (values_of-success E values)

errors_of-success {ℓ κ} :
    (E : Type κ) {A : Type ℓ} (values : List A) → errors_of {E = E} (map success values) ≡ []
errors_of-success E [] = refl
errors_of-success E (value ∷ values) = errors_of-success E values

module _ {ℓ κ} {E : Type κ} {A : Type ℓ} where
  all_succeed :
      (calls : List (Call E A))
      → is_empty (errors_of calls) ≡ true
      → calls ≡ map success (values_of calls)
  all_succeed [] h = refl
  all_succeed (Call.returned (ok value) ∷ calls) h = ap (success value ∷◌) (all_succeed calls h)
  all_succeed (Call.returned (err problem) ∷ calls) h = cc
  all_succeed (Call.panicked problem ∷ calls) h = cc

  module _ {ι} {Leg : Type ι} (fn : Leg → Call E A) (legs : List Leg) where
    -- A fan-out returns values exactly where every leg has returned one, and then these, in the order
    -- of the legs: a single leg that fails or panics makes it fail.
    pub fan_out-ok :
        (values : List A) → (fan_out fn legs ≡ ok values) ↔ (map fn legs ≡ map success values)
    unfolding fan_out
    fan_out-ok values =
        (succeeded, λ e. rw (e, errors_of-success E values, values_of-success E values) refl)
      where
        succeeded : fan_out fn legs ≡ ok values → map fn legs ≡ map success values
        succeeded e = elim (Bool-cases (is_empty (errors_of (map fn legs)))) [
          | inl h ↦ (all_succeed (map fn legs) h ∙ ap (map success) (ok-injective (rw h at e)))
          | inr h ↦ cc (rw h at e)
        ]
