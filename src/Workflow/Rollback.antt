-- ===== src/Workflow/Rollback.antt =====
-- internal/workflow: workflows whose steps undo themselves.
use amoxtli.Common.{
  ◌≡◌, refl, sym, ap, ◌++◌, subst, ◌∙◌, inl, inr, Option, none, some, List, [], ◌∷◌, Option-cases,
}
use amoxtli.Common.Lists.{All}
use amoxtli.Workflow.{WorkflowError, Step, run, compensate_all, failure, execute_from, execute}

module _ {S E : Type 0} where
  -- The compensation of a step undoes its execution, also one that failed, and does not fail itself.
  abbrev pub Undoes : Step S E → Type 0
  Undoes step = (s : S) → run step.compensate (run step.execute s).1 ≡ (none, s)

  -- The executions alone, up to the first that fails.
  abbrev pub sequence : List (Step S E) → S → Option S
  sequence [] s = some s
  sequence (step ∷ rest) s =
      let (problem, s') = run step.execute s in
      let onward = sequence rest s' in elim problem [ none ↦ onward | some e ↦ none ]

  -- What a workflow may leave of the state s: with no error, all its steps executed; stopped by its
  -- context, the steps before some step executed, none of them undone, and the error that the context
  -- gives then; with a step's error, the state origin, where the steps before that one were
  -- executed without error and it returned this error.
  abbrev pub AllOrNothing :
      (S → Option E) → List (Step S E) → S → S → Option (WorkflowError E) × S → Type 0
  AllOrNothing done steps s origin (none, s') = sequence steps s ≡ some s'
  AllOrNothing done steps s origin (some (WorkflowError.stopped e), s') =
      (front : List (Step S E)) × (step : Step S E) × (back : List (Step S E)) × (steps
        ≡ front ++ (step ∷ back))
      × (sequence front s ≡ some s')
      × (done s' ≡ some e)
  AllOrNothing done steps s origin (some (WorkflowError.execution e), s') =
      (s' ≡ origin)
      × ((front : List (Step S E)) × (step : Step S E) × (back : List (Step S E)) × (m : S) × (steps
            ≡ front ++ (step ∷ back))
          × (sequence front s ≡ some m)
          × (done m ≡ none)
          × ((run step.execute m).0 ≡ some e))
  AllOrNothing done steps s origin (some (WorkflowError.compensation e errs), s') = ⊥

  sequence_onward :
      (step : Step S E) (steps : List (Step S E)) (s : S)
      → (run step.execute s).0 ≡ none
      → sequence (step ∷ steps) s ≡ sequence steps (run step.execute s).1
  sequence_onward step steps s p = rw (p, sequence) refl

  AllOrNothing-onward :
      (done : S → Option E) (step : Step S E) (rest : List (Step S E)) (s origin : S)
      (out : Option (WorkflowError E) × S)
      → (run step.execute s).0 ≡ none
      → AllOrNothing done rest (run step.execute s).1 origin out
      → AllOrNothing done (step ∷ rest) s origin out
  AllOrNothing-onward done step rest s origin (none, end) p h = sequence_onward step rest s p ∙ h
  AllOrNothing-onward done step rest s origin (some (WorkflowError.stopped x), end) p h =
      let (front, next, back, e, f, d) = h in
      (step ∷ front, next, back, ap (λ xs. step ∷ xs) e, sequence_onward step front s p ∙ f, d)
  AllOrNothing-onward done step rest s origin (some (WorkflowError.execution x), end) p h =
      let (same, (front, next, back, m, e, f, d, b)) = h in
      (
        same,
        (
          step ∷ front,
          next,
          back,
          m,
          ap (λ xs. step ∷ xs) e,
          sequence_onward step front s p ∙ f,
          d,
          b,
        ),
      )
  AllOrNothing-onward done step rest s origin (some (WorkflowError.compensation x xs), end) p h = h

  undone :
      (past : List (Step S E)) (step : Step S E) (origin s : S)
      → Undoes step
      → compensate_all past s ≡ ([], origin)
      → compensate_all (step ∷ past) (run step.execute s).1 ≡ ([], origin)
  unfolding compensate_all
  undone past step origin s u c = rw (u s, c) refl

  module _ (done : S → Option E) where
    execute_from-AllOrNothing :
        (past steps : List (Step S E)) (origin s : S)
        → All Undoes steps
        → compensate_all past s ≡ ([], origin)
        → AllOrNothing done steps s origin (execute_from done past steps s)
    unfolding execute_from
    execute_from-AllOrNothing past [] origin s h c = refl
    execute_from-AllOrNothing past (step ∷ rest) origin s h c =
        let u = undone past step origin s h.0 c in
        let later =
          execute_from-AllOrNothing (step ∷ past) rest origin (run step.execute s).1 h.1 u in
        elim (Option-cases (done s)) [
          | inr (e, d) ↦ rw (d, execute_from) ([], step, rest, refl, refl, d)
          | inl d ↦ elim (Option-cases (run step.execute s).0) [
            | inl p ↦
                rw (d, p, execute_from) (AllOrNothing-onward done step rest s origin _ p later)
            | inr (e, p) ↦
                rw (d, p, execute_from)
                  (subst (λ x. AllOrNothing done (step ∷ rest) s origin (some (failure e x.0), x.1))
                    (sym u) (refl, ([], step, rest, s, refl, refl, d, p)))
          ]
        ]

    -- Where the compensation of each step undoes its execution, a workflow that returns no error has
    -- executed every step; one that fails has left the state it started with and reports the error
    -- that a step returned after the steps before it were executed without error, and there are no
    -- errors of compensations; one that its context stops returns the context's error, and leaves the
    -- steps before some step executed.
    pub execute-AllOrNothing :
        (steps : List (Step S E)) (s : S)
        → All Undoes steps
        → AllOrNothing done steps s s (execute done steps s)
    unfolding execute compensate_all
    execute-AllOrNothing steps s h = execute_from-AllOrNothing [] steps s s h refl
