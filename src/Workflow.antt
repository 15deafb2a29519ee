-- ===== src/Workflow.antt =====
-- internal/workflow: steps that are executed in order, and compensated in the reverse order when one
-- fails. What the steps act on, the context with it, is a state of the type S; a compensation is given
-- a context that cannot be cancelled, so that its function is one of the rest of the state.
pub mod Rollback
use amoxtli.Common.{Option, none, some, List, [], ◌∷◌}

-- What Execute returns: the error of the context, that of a step, or a CompensationError.
pub data WorkflowError (E : Type 0) : Type 0 where
  stopped : E → WorkflowError E
  execution : E → WorkflowError E
  compensation : E → List E → WorkflowError E

-- A step; a nil function is `none`, and an error that a function returns leaves what it has done.
pub record Step (S E : Type 0) : Type 0 where
  pub execute : Option (S → Option E × S)
  pub compensate : Option (S → Option E × S)

abbrev pub add_error : {E : Type 0} → Option E → List E → List E
add_error none errs = errs
add_error (some e) errs = e ∷ errs

abbrev pub failure : {E : Type 0} → E → List E → WorkflowError E
failure problem [] = WorkflowError.execution problem
failure problem (e ∷ errs) = WorkflowError.compensation problem (e ∷ errs)

module _ {S E : Type 0} where
  -- the methods Execute and Compensate of a step
  abbrev pub run : Option (S → Option E × S) → S → Option E × S
  run none s = (none, s)
  run (some f) s = f s

  -- the method compensate, from the last of the steps that were executed on
  unfoldable pub compensate_all : List (Step S E) → S → List E × S
  compensate_all [] s = ([], s)
  compensate_all (act ∷ acts) s =
      let (problem, s') = run act.compensate s in
      let (errs, s'') = compensate_all acts s' in (add_error problem errs, s'')

  -- `ctx.Err()`, where the context is done
  module _ (done : S → Option E) where
    -- the loop of Execute, after the steps that were executed, the last of them first
    unfoldable pub execute_from :
        List (Step S E) → List (Step S E) → S → Option (WorkflowError E) × S
    unfolding compensate_all
    execute_from past [] s = (none, s)
    execute_from past (step ∷ rest) s =
        let (problem, s') = run step.execute s in
        let onward = execute_from (step ∷ past) rest s' in
        let (errs, s'') = compensate_all (step ∷ past) s' in
        elim (done s) [
          | some e ↦ (some (WorkflowError.stopped e), s)
          | none ↦ elim problem [ none ↦ onward | some e ↦ (some (failure e errs), s'') ]
        ]

    -- Execute
    unfoldable pub execute : List (Step S E) → S → Option (WorkflowError E) × S
    unfolding execute_from
    execute steps s = execute_from [] steps s
