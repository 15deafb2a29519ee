-- ===== src/Queue/Execution.antt =====
-- task/gorm/task_runner.go: executeTask, with the goroutine that writes the progress of a handler.
use Prim.Native.String.{◌++◌ as cat}
use amoxtli.Common.{
  ℕ, suc, ◌+◌, String, Bool, true, false, ◌&&◌, Option, none, some, List, [], ◌∷◌, if◌then◌else◌,
  leb,
}
use amoxtli.Common.Keyed.{remove}
use amoxtli.Common.Lists.{length}
use amoxtli.Common.Result.{Result}
use amoxtli.Tasks.{Task, Event}
use amoxtli.Tasks.Steps.{has_handler}
use amoxtli.Queue.{Database, QueueError, finish_owned}
use amoxtli.Queue.Statements.{Statement, perform, status_of}
use amoxtli.Queue.Runner.{Runner, World, reached}

-- how a handler's call ends
pub data HandlerOutcome : Type 0 where
  returned_nil : HandlerOutcome
  returned_canceled : HandlerOutcome
  returned_error : String → HandlerOutcome
  panicked : String → HandlerOutcome

-- the text of the error that is written
abbrev pub cause : HandlerOutcome → Option String
cause HandlerOutcome.returned_nil = none
cause HandlerOutcome.returned_canceled = some "canceled"
cause (HandlerOutcome.returned_error problem) = some problem
cause (HandlerOutcome.panicked problem) = some problem

-- Only a handler that returns has its events closed, and what the throttle skipped written.
abbrev pub returns : HandlerOutcome → Bool
returns (HandlerOutcome.panicked problem) = false
returns outcome = true

-- the variables of the goroutine; `last_persist` is the zero time at first
pub record Progress (F : Type 0) : Type 0 where
  pub last_persist : Option ℕ
  pub progress : F
  pub message : String
  pub dirty : Bool

module _ {F : Type 0} (clamp : F → F) where
  -- one event; `clamp` is `float32(max(min(p, 1), 0))`
  abbrev pub note_progress : Option F → Progress F → Progress F
  note_progress none p = p
  note_progress (some f) p = record p { progress = clamp f; dirty = true }

  abbrev pub note_message : Option String → Progress F → Progress F
  note_message none p = p
  note_message (some m) p = record p { message = m; dirty = true }

  abbrev pub note : Event F → Progress F → Progress F
  note e p = note_message e.message (note_progress e.progress p)

-- time.Since(lastPersist) >= progressPersistInterval
abbrev pub interval_over : ℕ → Option ℕ → Bool
interval_over now none = true
interval_over now (some t) = leb (t + 1000) now

module _ {F : Type 0} (clamp : F → F) where
  -- what flush writes
  abbrev pub written : Progress F → F × String
  written p = (p.progress, p.message)

  -- the goroutine's writes for its events, each with the time at which it is read
  unfoldable pub writes : Bool → Progress F → List (Event F × ℕ) → List (F × String)
  writes closed p [] = if closed && p.dirty then written p ∷ [] else []
  writes closed p ((e, now) ∷ events) =
      let p' = note clamp e p in
      (elim (p'.dirty && interval_over now p'.last_persist) [
        | true ↦
            written p' ∷ writes closed (record p' { last_persist = some now; dirty = false }) events
        | false ↦ writes closed p' events
      ])

  abbrev pub progress_statements : String → String → List (F × String) → List (Statement F)
  progress_statements owner id [] = []
  progress_statements owner id ((progress, message) ∷ rest) =
      Statement.progressed owner id progress message ∷ progress_statements owner id rest

-- the variables as they are declared
abbrev pub no_progress : {F : Type 0} → F → Progress F
no_progress zero = record { last_persist = none; progress = zero; message = ""; dirty = false }

module _ {F S : Type 0} (db : Database F S) (zero one : F) (w : World F) where
  -- the statements of an execution, with those of others before each
  abbrev pub send_all : ℕ → List (Statement F) → S → S
  send_all n [] s = s
  send_all n (st ∷ sts) s =
      send_all (suc n) sts (perform db zero one st (reached db zero one w n s))

  module _ (clamp : F → F) (r : Runner) (task : Task) where
    -- the deferred calls
    abbrev pub forget : Runner
    forget = record r {
      cancel_funcs = remove task.id r.cancel_funcs;
      local = remove task.id r.local;
    }

    abbrev pub reports : List (Event F × ℕ) → HandlerOutcome → List (Statement F)
    reports events outcome =
        progress_statements clamp r.owner task.id
          (writes clamp (returns outcome) (no_progress zero) events)

    -- the terminal write, which comes last; its error is logged
    unfoldable pub write_outcome : ℕ → Option String → S → Result QueueError (Unit {0}) × S
    unfolding finish_owned
    write_outcome n problem s =
        finish_owned db one r.owner task.id (w.clock n) (status_of problem) problem
          (reached db zero one w n s)

    -- the state of the database when the handler's events have been written
    unfoldable pub handled : List (Event F × ℕ) → HandlerOutcome → S → S
    unfolding writes
    handled events outcome s = send_all 0 (reports events outcome) s

    -- executeTask
    unfoldable pub execute_task : List (Event F × ℕ) → HandlerOutcome → S → Runner × S
    unfolding write_outcome handled writes
    execute_task events outcome s =
        if has_handler r.handlers task.kind
        then (
          forget,
          (write_outcome (length (reports events outcome)) (cause outcome)
              (handled events outcome s)).1,
        )
        else (
          forget,
          (write_outcome 0 (some (cat "no handler registered for task type '" (cat task.kind "'")))
              s).1,
        )
