-- ===== src/Tasks/Runs.antt =====
-- task/memory/task_runner.go: the runs of the runner, as sequences of the steps of its goroutines and
-- of its callers in any order.
use amoxtli.Common.{◌≡◌, Bool, ℕ, String, Option, List, ◌∷◌, ◌++◌, arith}
use amoxtli.Tasks.{TaskId, TaskError, Task, QueuedTask, TaskRunner, Event}
use amoxtli.Tasks.Steps.{
  cancel_task, schedule_task, admit, take_task, report, end_task, clean_up, expired_ids,
  register_task, new_task_runner,
}
use amoxtli.Tasks.Invariant.{WellFormed}
use amoxtli.Tasks.WellFormed.{
  cancel_task-WellFormed, schedule_task-WellFormed, admit-WellFormed, take_task-WellFormed,
  report-WellFormed, end_task-WellFormed, delete_tasks-WellFormed,
}

module _ {F : Type 0} (zero one : F) (clamp : F → F) where
  -- One step: of a caller, of a worker whose handler reports or ends, or of the cleaner.
  pub data Step : TaskRunner F → TaskRunner F → Type 0 where
    registered : {r : TaskRunner F} (kind : String) → Step r (register_task kind r)
    scheduled :
        {r : TaskRunner F} (now : ℕ) (task : Task) → Step r (schedule_task zero now task r).1
    admitted : {r : TaskRunner F} → Step r (admit r)
    taken : {r : TaskRunner F} (now : ℕ) → Step r (take_task zero now r)
    reported :
        {r : TaskRunner F} (front back : List QueuedTask) (qt : QueuedTask) (e : Event F)
        → r.active ≡ front ++ (qt ∷ back)
        → Step r (report zero clamp qt.task e r)
    ended :
        {r : TaskRunner F} (front back : List QueuedTask) (qt : QueuedTask) (now : ℕ)
        (outcome : Option TaskError)
        → r.active ≡ front ++ (qt ∷ back)
        → Step r (end_task zero one now qt outcome r)
    cancelled : {r : TaskRunner F} (now : ℕ) (id : TaskId) → Step r (cancel_task zero now id r).1
    cleaned : {r : TaskRunner F} (now : ℕ) → Step r (clean_up now r)

  -- What a new runner reaches.
  pub data Reachable : TaskRunner F → Type 0 where
    fresh :
        (parallelism queue_size : ℕ) (err_on_full : Bool) (cleanup_delay : ℕ)
        → Reachable (new_task_runner parallelism queue_size err_on_full cleanup_delay)
    next : {r r' : TaskRunner F} → Reachable r → Step r r' → Reachable r'

  Step-WellFormed : {r r' : TaskRunner F} → Step r r' → WellFormed r → WellFormed r'
  unfolding register_task clean_up
  Step-WellFormed (registered kind) w = record {
    tracked = w.tracked;
    covers = w.covers;
    queue_le = w.queue_le;
    active_le = w.active_le;
  }
  Step-WellFormed {r} (scheduled now task) w = schedule_task-WellFormed zero now task r w
  Step-WellFormed {r} admitted w = admit-WellFormed zero r w
  Step-WellFormed {r} (taken now) w = take_task-WellFormed zero now r w
  Step-WellFormed {r} (reported front back qt e a) w = report-WellFormed zero clamp qt.task e r w
  Step-WellFormed {r} (ended front back qt now outcome a) w =
      end_task-WellFormed zero one now qt outcome r w
  Step-WellFormed {r} (cancelled now id) w = cancel_task-WellFormed zero now id r w
  Step-WellFormed {r} (cleaned now) w =
      delete_tasks-WellFormed zero (expired_ids r.cleanup_delay now r.tasks) r w

  -- Whatever the steps of a run and their order are, each entry is about the task of its key, a
  -- finished one has its time and a failed one its error, every cancel function is that of a task
  -- with an entry, and neither the queue nor the workers hold more tasks than they may.
  pub Reachable-WellFormed : {r : TaskRunner F} → Reachable r → WellFormed r
  Reachable-WellFormed (fresh parallelism queue_size err_on_full cleanup_delay) = record {
    tracked = λ id e p. cc;
    covers = λ id p. cc;
    queue_le = omega arith;
    active_le = omega arith;
  }
  Reachable-WellFormed (next run step) = Step-WellFormed step (Reachable-WellFormed run)
