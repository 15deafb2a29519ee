-- ===== src/Tasks/Cancel.antt =====
-- task/memory/task_runner.go: what a successful CancelTask leaves.
use amoxtli.Common.{
  ◌≡◌, refl, sym, ap, ◌∙◌, inl, inr, true, false, ℕ, String, some, List, ◌∷◌, Option-cases,
  Bool-cases, ◌⊎◌, eq_iff, ◌==◌, arith, ltb,
}
use amoxtli.Common.Keyed.{lookup, lookup-insert}
use amoxtli.Common.Lists.{length}
use amoxtli.Common.Result.{ok, err}
use amoxtli.Tasks.{
  TaskId, Status, TaskError, State, Task, TaskEntry, QueuedTask, TaskRunner, set_failed, is_live,
  update_state,
}
use amoxtli.Tasks.Steps.{cancel_task, take_task, start_task, has_handler}
use amoxtli.Tasks.Invariant.{WellFormed}

abbrev set_running : {F : Type 0} → State F → State F
set_running s = record s { status = Status.running }

-- the entry of a cancelled task that is started
abbrev restarted : {F : Type 0} → ℕ → TaskEntry F → TaskEntry F
restarted now entry = record entry {
  state = set_running (set_failed TaskError.canceled now entry.state);
}

-- the entry of a cancelled task
abbrev canceled_entry : {F : Type 0} → ℕ → TaskEntry F → TaskEntry F
canceled_entry now entry = record entry { state = set_failed TaskError.canceled now entry.state }

module _ {F : Type 0} (zero : F) where
  -- What a call of CancelTask that returns no error tells of its two lookups.
  cancel_task-ok :
      (now : ℕ) (id : TaskId) (r r' : TaskRunner F)
      → cancel_task zero now id r ≡ (ok tt, r')
      → (entry : TaskEntry F) × (ctx : ℕ) × (lookup id r.tasks ≡ some entry)
        × (is_live entry.state.status ≡ true)
        × (lookup id r.cancel_funcs ≡ some ctx)
  unfolding cancel_task
  cancel_task-ok now id r r' e = elim (Option-cases (lookup id r.tasks)) [
    | inl p ↦ cc (rw (p, cancel_task) at e)
    | inr (entry, p) ↦ elim (Bool-cases (is_live entry.state.status)) [
      | inr l ↦ cc (rw (p, l, cancel_task) at e)
      | inl l ↦ elim (Option-cases (lookup id r.cancel_funcs)) [
        | inl c ↦ cc (rw (p, l, c, cancel_task) at e)
        | inr (ctx, c) ↦ (entry, ctx, p, l, c)
      ]
    ]
  ]

  eq_self : (s : String) → (s == s) ≡ true
  eq_self s = ground (arith, eq_iff s s)

  lookup-update_state :
      (id : TaskId) (task : Task) (fn : State F → State F) (r : TaskRunner F) (entry : TaskEntry F)
      → task.id ≡ id
      → lookup id r.tasks ≡ some entry
      → lookup id (update_state zero task fn r).tasks
        ≡ some (record entry { state = fn entry.state })
  unfolding update_state
  lookup-update_state id task fn r entry s p =
      rw (s, p)
        (rw (lookup-insert id id (record entry { state = fn entry.state }) r.tasks, eq_self id)
          refl)

  cancel_task_again :
      (later : ℕ) (id : TaskId) (r : TaskRunner F) (entry : TaskEntry F)
      → lookup id r.tasks ≡ some entry
      → is_live entry.state.status ≡ false
      → cancel_task zero later id r ≡ (err TaskError.canceled, r)
  unfolding cancel_task
  cancel_task_again later id r entry p l = rw (p, l, cancel_task) refl

  canceled_at :
      (now later : ℕ) (id : TaskId) (r r' : TaskRunner F)
      → WellFormed r
      → cancel_task zero now id r ≡ (ok tt, r')
      → ((entry : TaskEntry F) × (lookup id r.tasks ≡ some entry)
          × (is_live entry.state.status ≡ true)
          × (lookup id r'.tasks ≡ some (canceled_entry now entry)))
        × (cancel_task zero later id r' ≡ (err TaskError.canceled, r'))
  unfolding cancel_task
  canceled_at now later id r r' w e =
      let (entry, ctx, p, l, c) = cancel_task-ok now id r r' e in
      let same = ap (λ out. out.1.tasks) (rw (p, l, c, cancel_task) at e) in
      let found =
        ap (lookup id) (sym same)
        ∙ lookup-update_state id entry.task (set_failed TaskError.canceled now) r entry
            (w.tracked id entry p).0 p in
      ((entry, p, l, found), cancel_task_again later id r' _ found refl)

  -- The task of the entry was pending or running, and it is failed with ErrCanceled at the time now,
  -- with nothing else of the entry changed.
  abbrev pub CanceledAt : ℕ → TaskEntry F → TaskEntry F → Type 0
  CanceledAt now entry after =
      ((entry.state.status ≡ Status.pending) ⊎ (entry.state.status ≡ Status.running))
      × (after.state.status ≡ Status.failed)
      × (after.state.error ≡ some TaskError.canceled)
      × (after.state.finished_at ≡ some now)
      × (after.task ≡ entry.task)
      × (after.state.id ≡ entry.state.id)
      × (after.state.kind ≡ entry.state.kind)
      × (after.state.scheduled_at ≡ entry.state.scheduled_at)
      × (after.state.progress ≡ entry.state.progress)
      × (after.state.message ≡ entry.state.message)

  live_or :
      (status : Status)
      → is_live status ≡ true
      → (status ≡ Status.pending) ⊎ (status ≡ Status.running)
  live_or Status.pending e = inl refl
  live_or Status.running e = inr refl
  live_or Status.unset e = cc
  live_or Status.succeeded e = cc
  live_or Status.failed e = cc

  -- In a runner that is well formed, a call of CancelTask that returns no error finds the task pending
  -- or running and leaves it failed, with the error ErrCanceled and the time of the call, and with
  -- nothing else of its entry changed; calling it again, at any time, returns ErrCanceled and
  -- changes nothing.
  pub cancel_task_once :
      (now later : ℕ) (id : TaskId) (r r' : TaskRunner F)
      → WellFormed r
      → cancel_task zero now id r ≡ (ok tt, r')
      → ((entry : TaskEntry F) × (lookup id r.tasks ≡ some entry)
          × ((after : TaskEntry F) × (lookup id r'.tasks ≡ some after)
              × CanceledAt now entry after))
        × (cancel_task zero later id r' ≡ (err TaskError.canceled, r'))
  cancel_task_once now later id r r' w e =
      let ((entry, p, l, found), again) = canceled_at now later id r r' w e in
      let kept : CanceledAt now entry (canceled_entry now entry) =
        (live_or entry.state.status l, refl, refl, refl, refl, refl, refl, refl, refl, refl) in
      ((entry, p, (canceled_entry now entry, found, kept)), again)

  cancel_task-keeps :
      (now : ℕ) (id : TaskId) (r r' : TaskRunner F)
      → cancel_task zero now id r ≡ (ok tt, r')
      → (r'.queue ≡ r.queue)
        × (r'.handlers ≡ r.handlers)
        × (r'.active ≡ r.active)
        × (r'.parallelism ≡ r.parallelism)
  unfolding cancel_task update_state
  cancel_task-keeps now id r r' e =
      let (entry, ctx, p, l, c) = cancel_task-ok now id r r' e in
      let same = ap (λ out. out.1) (rw (p, l, c, cancel_task) at e) in
      (
        ap (λ x. x.queue) (sym same),
        ap (λ x. x.handlers) (sym same),
        ap (λ x. x.active) (sym same),
        ap (λ x. x.parallelism) (sym same),
      )

  -- In a runner that is well formed, the cancellation of the task at the head of the queue, whose type
  -- has a handler, does not take it out of the queue: the next free worker that receives it sets it
  -- running again, with the error and the time of the cancellation still in its state.
  pub cancel_task-take_task :
      (now later : ℕ) (r r' : TaskRunner F) (qt : QueuedTask) (rest : List QueuedTask)
      → WellFormed r
      → r.queue ≡ qt ∷ rest
      → has_handler r.handlers qt.task.kind ≡ true
      → ltb (length r.active) r.parallelism ≡ true
      → cancel_task zero now qt.task.id r ≡ (ok tt, r')
      → (entry : TaskEntry F) × (lookup qt.task.id (take_task zero later r').tasks ≡ some entry)
        × (entry.state.status ≡ Status.running)
        × (entry.state.error ≡ some TaskError.canceled)
        × (entry.state.finished_at ≡ some now)
  unfolding take_task start_task
  cancel_task-take_task now later r r' qt rest w q h l e =
      let (queue, handlers, active, parallelism) = cancel_task-keeps now qt.task.id r r' e in
      let ((entry, p, l', found), again) = canceled_at now later qt.task.id r r' w e in
      (
        restarted now entry,
        rw (queue, q, active, parallelism, l, handlers, h, take_task)
            (lookup-update_state qt.task.id qt.task set_running r' (canceled_entry now entry) refl
              found),
        refl,
        refl,
        refl,
      )
