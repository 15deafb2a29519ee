-- ===== src/Tasks/Steps.antt =====
-- task/memory/task_runner.go: the operations of the runner, as the steps that interleave. What other
-- goroutines do between a read and a write of one CancelTask or ScheduleTask is not modelled.
use amoxtli.Common.{
  ◌+◌, Bool, false, not, ◌||◌, ℕ, suc, String, Option, none, some, List, [], ◌∷◌, if◌then◌else◌,
  ltb, ◌=?◌, ◌==◌, ◌++◌,
}
use amoxtli.Common.Keyed.{Keyed, lookup, insert, remove}
use amoxtli.Common.Lists.{length}
use amoxtli.Common.Result.{Result, ok, err}
use amoxtli.Tasks.{
  TaskId, Status, TaskError, State, Task, TaskEntry, QueuedTask, TaskRunner, Event, set_failed,
  is_live, update_state,
}

abbrev pub has_handler : List String → String → Bool
has_handler [] kind = false
has_handler (h ∷ hs) kind = h == kind || has_handler hs kind

module _ {F : Type 0} where
  -- the send of the scheduler that has waited longest, where there is room
  unfoldable pub admit : TaskRunner F → TaskRunner F
  admit r = elim r.waiting [
    | [] ↦ r
    | qt ∷ rest ↦
        if ltb (length r.queue) r.capacity
        then record r { waiting = rest; queue = r.queue ++ (qt ∷ []) }
        else r
  ]

abbrev pub or_else : {A : Type 0} → A → Option A → A
or_else old none = old
or_else old (some new) = new

module _ {F : Type 0} where
  -- what ends a handler's call: no error, an error, or a panic
  abbrev pub end_state : F → ℕ → Option TaskError → State F → State F
  end_state one now none s = record s {
    status = Status.succeeded;
    finished_at = some now;
    progress = one;
  }
  end_state one now (some problem) s = set_failed problem now s

abbrev pub without : QueuedTask → List QueuedTask → List QueuedTask
without qt [] = []
without qt (a ∷ rest) = let after = without qt rest in if a.ctx =? qt.ctx then rest else a ∷ after

module _ {F : Type 0} where
  abbrev pub expired : ℕ → ℕ → State F → Bool
  expired delay now s = elim s.finished_at [ none ↦ false | some t ↦ ltb (t + delay) now ]

  abbrev pub expired_ids : ℕ → ℕ → Keyed (TaskEntry F) → List TaskId
  expired_ids delay now [] = []
  expired_ids delay now ((id, entry) ∷ rest) =
      let others = expired_ids delay now rest in
      if expired delay now entry.state then id ∷ others else others

  unfoldable pub delete_tasks : List TaskId → TaskRunner F → TaskRunner F
  delete_tasks [] r = r
  delete_tasks (id ∷ ids) r =
      delete_tasks ids
        (record r { tasks = remove id r.tasks; cancel_funcs = remove id r.cancel_funcs })

  -- a tick of the cleaner
  unfoldable pub clean_up : ℕ → TaskRunner F → TaskRunner F
  unfolding delete_tasks
  clean_up now r = delete_tasks (expired_ids r.cleanup_delay now r.tasks) r

  -- RegisterTask
  unfoldable pub register_task : String → TaskRunner F → TaskRunner F
  register_task kind r = record r { handlers = kind ∷ r.handlers }

  -- NewTaskRunnerWithQueue
  abbrev pub new_task_runner : ℕ → ℕ → Bool → ℕ → TaskRunner F
  new_task_runner parallelism queue_size err_on_full cleanup_delay = record {
    tasks = [];
    handlers = [];
    queue = [];
    capacity = queue_size;
    err_on_full = err_on_full;
    cancel_funcs = [];
    parallelism = parallelism;
    cleanup_delay = cleanup_delay;
    waiting = [];
    active = [];
    cancelled = [];
    contexts = 0;
  }

-- one event in the state; `clamp` is `float32(max(min(p, 1), 0))`
abbrev pub apply_event : {F : Type 0} → (F → F) → Event F → State F → State F
apply_event clamp e s = record s {
  progress = elim e.progress [ none ↦ s.progress | some p ↦ clamp p ];
  message = or_else s.message e.message;
}

-- what ScheduleTask sends
abbrev pub queued : Task → ℕ → QueuedTask
queued task ctx = record { task = task; ctx = ctx }

abbrev pub set_pending : {F : Type 0} → ℕ → Task → State F → State F
set_pending now task s = record s {
  id = task.id;
  scheduled_at = some now;
  status = Status.pending;
  kind = task.kind;
}

module _ {F : Type 0} (zero : F) where
  -- CancelTask
  unfoldable pub cancel_task :
      ℕ → TaskId → TaskRunner F → Result TaskError (Unit {0}) × TaskRunner F
  unfolding update_state
  cancel_task now id r = elim (lookup id r.tasks) [
    | none ↦ (err TaskError.not_found, r)
    | some entry ↦
        if not (is_live entry.state.status)
        then (err TaskError.canceled, r)
        else (elim (lookup id r.cancel_funcs) [
          | none ↦ (err TaskError.canceled, r)
          | some ctx ↦
              let r' = update_state zero entry.task (set_failed TaskError.canceled now) r in
              (
                ok tt,
                record r' {
                  cancelled = ctx ∷ r.cancelled;
                  cancel_funcs = remove id r.cancel_funcs;
                },
              )
        ])
  ]

  -- the first updateState of ScheduleTask, and context.WithCancel
  unfoldable pub announce : ℕ → Task → TaskRunner F → TaskRunner F
  unfolding update_state
  announce now task r =
      let r' = update_state zero task (set_pending now task) r in
      record r' {
        cancel_funcs = insert task.id r.contexts r.cancel_funcs;
        contexts = suc r.contexts;
      }

  -- ScheduleTask: `none` while it waits for room in the queue
  unfoldable pub schedule_task :
      ℕ → Task → TaskRunner F → Option (Result TaskError (Unit {0})) × TaskRunner F
  unfolding announce update_state
  schedule_task now task r =
      let qt = queued task r.contexts in
      let r' = announce now task r in
      if ltb (length r.queue) r.capacity
      then (some (ok tt), record r' { queue = r.queue ++ (qt ∷ []) })
      else (if r.err_on_full
          then (
            some (err TaskError.queue_full),
            update_state zero task (set_failed TaskError.queue_full now) (record r' {
              cancelled = r.contexts ∷ r.cancelled;
              cancel_funcs = remove task.id r'.cancel_funcs;
            }),
          )
          else (none, record r' { waiting = r.waiting ++ (qt ∷ []) }))

  -- executeTask up to the call of the handler
  unfoldable pub start_task : ℕ → QueuedTask → TaskRunner F → TaskRunner F
  unfolding update_state
  start_task now qt r =
      if has_handler r.handlers qt.task.kind
      then (let r' = update_state zero qt.task (λ s. record s { status = Status.running }) r in
          record r' { active = qt ∷ r.active })
      else (let r' = update_state zero qt.task (set_failed TaskError.no_handler now) r in
          record r' { cancel_funcs = remove qt.task.id r.cancel_funcs })

  -- a free worker's receive from the queue
  unfoldable pub take_task : ℕ → TaskRunner F → TaskRunner F
  unfolding start_task
  take_task now r = elim r.queue [
    | [] ↦ r
    | qt ∷ rest ↦
        if ltb (length r.active) r.parallelism
        then start_task now qt (record r { queue = rest })
        else r
  ]

  -- the goroutine that reads a handler's events
  unfoldable pub report : (F → F) → Task → Event F → TaskRunner F → TaskRunner F
  unfolding update_state
  report clamp task e r = update_state zero task (apply_event clamp e) r

  -- executeTask from the end of the handler's call
  unfoldable pub end_task : F → ℕ → QueuedTask → Option TaskError → TaskRunner F → TaskRunner F
  unfolding update_state
  end_task one now qt outcome r =
      let r' = update_state zero qt.task (end_state one now outcome) r in
      record r' { cancel_funcs = remove qt.task.id r.cancel_funcs; active = without qt r.active }
