-- ===== src/Queue/Records.antt =====
-- task/gorm/task_runner.go: what an execution leaves in the row of its task.
use amoxtli.Common.{
  ◌≡◌, refl, ap, ◌∙◌, inl, inr, Bool, true, false, not, ◌&&◌, ℕ, String, Option, none, some,
  is_some, List, [], ◌∷◌, if◌then◌else◌, Bool-cases, arith,
}
use amoxtli.Common.Lists.{All, length}
use amoxtli.Tasks.{Status, Task, Event}
use amoxtli.Tasks.Steps.{has_handler}
use amoxtli.Queue.{Row, Database, finish_row, set_progress}
use amoxtli.Queue.Table.{Unique}
use amoxtli.Queue.Statements.{IsDatabase, view, status_of}
use amoxtli.Queue.Runner.{Runner, World}
use amoxtli.Queue.Throttle.{latest, latest-writes, last_progress, last_message}
use amoxtli.Queue.Execution.{
  HandlerOutcome, Progress, cause, returns, no_progress, note, note_progress, note_message,
  interval_over, writes, reports, execute_task,
}
use amoxtli.Queue.Working.{Working, OwnRow, Reliable, execute_task_ends}

module _ {F : Type 0} (clamp : F → F) where
  -- whether the events tell nothing
  abbrev pub silent : List (Event F × ℕ) → Bool
  silent [] = true
  silent ((e, now) ∷ events) =
      not (is_some e.message) && (not (is_some e.progress) && silent events)

  dirty_when :
      (f : Option F) (m : Option String) (p : Progress F)
      → not (note_message clamp m (note_progress clamp f p)).dirty
        ≡ (not p.dirty && (not (is_some m) && not (is_some f)))
  dirty_when none none p = ground arith
  dirty_when none (some m) p = ground arith
  dirty_when (some f) none p = ground arith
  dirty_when (some f) (some m) p = ground arith

  abbrev no_writes : List (F × String) → Bool
  no_writes [] = true
  no_writes (x ∷ xs) = false

  no_writes-silent :
      (events : List (Event F × ℕ)) (p : Progress F)
      → no_writes (writes clamp true p events) ≡ (not p.dirty && silent events)
  unfolding writes
  no_writes-silent [] p = elim (Bool-cases p.dirty) [ inl d ↦ rw d refl | inr d ↦ rw d refl ]
  no_writes-silent ((e, now) ∷ events) p =
      let p' = note clamp e p in
      let said = dirty_when e.progress e.message p in
      elim (Bool-cases (p'.dirty && interval_over now p'.last_persist)) [
        | inl d ↦ rw (d, no_writes) (ground (arith, d, said))
        | inr d ↦ rw (d, no_writes) (no_writes-silent events p' ∙ ground (arith, said))
      ]

  latest-either :
      (old other : F × String) (ws : List (F × String))
      → latest old ws ≡ (if no_writes ws then old else latest other ws)
  latest-either old other [] = refl
  latest-either old other (x ∷ xs) = refl

  module _ (zero one : F) where
    -- The progress and the message of a row after the events of a handler that returns: what the events
    -- say last, from no progress and no message on, unless they tell nothing.
    abbrev pub told : Row F → List (Event F × ℕ) → F × String
    told row events =
        if silent events
        then (row.progress, row.message)
        else (last_progress clamp zero events, last_message clamp "" events)

    told-writes :
        (row : Row F) (events : List (Event F × ℕ))
        → latest (row.progress, row.message) (writes clamp true (no_progress zero) events)
          ≡ told row events
    told-writes row events =
        let ws = writes clamp true (no_progress zero) events in
        latest-either (row.progress, row.message) (zero, "") ws
        ∙ rw
            (
              no_writes-silent events (no_progress zero),
              latest-writes clamp events (no_progress zero) (zero, "") (λ q. refl),
            )
            refl

    -- The row is ended at a time, and no longer leased; what the task is has not changed.
    abbrev pub Ended : ℕ → Row F → Row F → Type 0
    Ended now row end =
        (end.id ≡ row.id)
        × (end.kind ≡ row.kind)
        × (end.payload ≡ row.payload)
        × (end.scheduled_at ≡ row.scheduled_at)
        × (end.finished_at ≡ some now)
        × (end.lease_owner ≡ "")
        × (end.lease_until ≡ none)

    -- What a row says of the way its handler ended.
    abbrev pub Recorded : HandlerOutcome → List (Event F × ℕ) → Row F → Row F → Type 0
    Recorded HandlerOutcome.returned_nil events row end =
        (end.status ≡ Status.succeeded)
        × (end.error ≡ row.error)
        × (end.progress ≡ one)
        × (end.message ≡ (told row events).1)
    Recorded HandlerOutcome.returned_canceled events row end =
        (end.status ≡ Status.failed)
        × (end.error ≡ "canceled")
        × (end.progress ≡ (told row events).0)
        × (end.message ≡ (told row events).1)
    Recorded (HandlerOutcome.returned_error problem) events row end =
        (end.status ≡ Status.failed)
        × (end.error ≡ problem)
        × (end.progress ≡ (told row events).0)
        × (end.message ≡ (told row events).1)
    Recorded (HandlerOutcome.panicked problem) events row end =
        (end.status ≡ Status.failed) × (end.error ≡ problem)

    finished :
        (outcome : HandlerOutcome) (events : List (Event F × ℕ)) (now : ℕ) (row : Row F)
        → let x =
            latest
              (row.progress, row.message)
              (writes clamp (returns outcome) (no_progress zero) events) in
          let end =
            finish_row one now
              (status_of (cause outcome))
              (cause outcome)
              (set_progress x.0 x.1 row) in
          Ended now row end × Recorded outcome events row end
    finished HandlerOutcome.returned_nil events now row =
        let t = told-writes row events in
        ((refl, refl, refl, refl, refl, refl, refl), (refl, refl, refl, ap (λ x. x.1) t))
    finished HandlerOutcome.returned_canceled events now row =
        let t = told-writes row events in
        ((refl, refl, refl, refl, refl, refl, refl), (refl, refl, ap (λ x. x.0) t, ap (λ x. x.1) t))
    finished (HandlerOutcome.returned_error problem) events now row =
        let t = told-writes row events in
        ((refl, refl, refl, refl, refl, refl, refl), (refl, refl, ap (λ x. x.0) t, ap (λ x. x.1) t))
    finished (HandlerOutcome.panicked problem) events now row =
        ((refl, refl, refl, refl, refl, refl, refl), (refl, refl))

module _ {F S : Type 0} (db : Database F S) (zero one : F) (laws : IsDatabase db)
    (sure : Reliable db) (w : World F) (clamp : F → F) where
  -- While the lease of a running task holds (heartbeats extend it, no reclaim comes after its end,
  -- the task is not cancelled or scheduled again, other runners have other owners) and the database
  -- does not fail, executing it leaves its row ended at the time of the last statement and without a
  -- lease: succeeded with full progress and the error as it was where the handler returns no
  -- error, failed with "canceled" where it returns the cancellation, failed with the text of the
  -- error or the panic where it returns an error or panics. The message that a handler which returns
  -- has told last is kept, and its last progress where it failed.
  pub execute_task_records :
      (r : Runner) (task : Task) (until : ℕ) (row : Row F) (events : List (Event F × ℕ))
      (outcome : HandlerOutcome) (s : S)
      → Unique (db.rows s)
      → view db task.id s ≡ some row
      → OwnRow r.owner task.id row
      → row.lease_until ≡ some until
      → ((n : ℕ) → All (Working r.owner task.id until) (w.others n))
      → has_handler r.handlers task.kind ≡ true
      → (end : Row F) × (view db task.id
            (execute_task db zero one w clamp r task events outcome s).1
          ≡ some end)
        × Ended clamp zero one
            (w.clock (length (reports db zero one w clamp r task events outcome)))
            row
            end
        × Recorded clamp zero one outcome events row end
  execute_task_records r task until row events outcome s u e own l calm kind =
      let now = w.clock (length (reports db zero one w clamp r task events outcome)) in
      let (ended, recorded) = finished clamp zero one outcome events now row in
      (
        _,
        execute_task_ends db zero one laws sure w clamp r task until row events outcome s u e own l
            calm kind,
        ended,
        recorded,
      )
