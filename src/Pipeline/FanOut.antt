-- ===== src/Pipeline/FanOut.antt =====
-- fanOut of index/pipeline/index.go and AggregatedError of error.go. A leg is called once; the calls
-- are concurrent and share nothing but their slots, so that they are taken one by one here.
pub mod Outcomes
use amoxtli.Common.{List, [], ◌∷◌, map, if◌then◌else◌}
use amoxtli.Common.Result.{Result, ok, err}
use amoxtli.Search.{is_empty}

-- What a call in a goroutine of fanOut ends with.
pub data Call {ℓ κ} (E : Type κ) (A : Type ℓ) : Type (ℓ ⊔ κ) where
  returned : Result E A → Call E A
  panicked : E → Call E A

-- What fanOut reports: the one error, or the aggregation of all.
pub data FanError {κ} (E : Type κ) : Type κ where
  only_one : E → FanError E
  aggregated : List E → FanError E

-- `outcomes[slot].err`, nil where there is none
abbrev pub errors_of {ℓ κ} : {E : Type κ} {A : Type ℓ} → List (Call E A) → List E
errors_of [] = []
errors_of (Call.returned (ok value) ∷ calls) = errors_of calls
errors_of (Call.returned (err problem) ∷ calls) = problem ∷ errors_of calls
errors_of (Call.panicked problem ∷ calls) = problem ∷ errors_of calls

abbrev pub values_of {ℓ κ} : {E : Type κ} {A : Type ℓ} → List (Call E A) → List A
values_of [] = []
values_of (Call.returned (ok value) ∷ calls) = value ∷ values_of calls
values_of (Call.returned (err problem) ∷ calls) = values_of calls
values_of (Call.panicked problem ∷ calls) = values_of calls

-- AggregatedError.OrOnlyOne
abbrev pub or_only_one {κ} : {E : Type κ} → List E → FanError E
or_only_one (problem ∷ []) = FanError.only_one problem
or_only_one problems = FanError.aggregated problems

unfoldable pub fan_out {ℓ κ ι} :
    {E : Type κ} {A : Type ℓ} {Leg : Type ι}
    → (Leg → Call E A)
    → List Leg
    → Result (FanError E) (List A)
fan_out fn legs =
    let calls = map fn legs in
    if is_empty (errors_of calls) then ok (values_of calls) else err (or_only_one (errors_of calls))
