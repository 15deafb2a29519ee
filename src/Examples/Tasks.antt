-- ===== src/Examples/Tasks.antt =====
-- A runner with one worker and room for one task.
use amoxtli.Common.{◌≡◌, refl, true, ℕ, some, [], ◌∷◌, ltb}
use amoxtli.Common.Keyed.{lookup}
use amoxtli.Common.Lists.{length}
use amoxtli.Common.Result.{ok, err}
use amoxtli.Tasks.{Status, TaskError, Task, TaskEntry, TaskRunner}
use amoxtli.Tasks.Steps.{
  cancel_task, schedule_task, take_task, register_task, new_task_runner, queued, has_handler,
}
use amoxtli.Tasks.Invariant.{WellFormed}
use amoxtli.Tasks.Runs.{Reachable, Step, Reachable-WellFormed}
use amoxtli.Tasks.Cancel.{CanceledAt, cancel_task_once, cancel_task-take_task}

abbrev import_task : Task
import_task = record { id = "t1"; kind = "import" }

abbrev with_handler : TaskRunner ℕ
with_handler = register_task "import" (new_task_runner 1 1 true 60)

abbrev scheduled : TaskRunner ℕ
scheduled = (schedule_task 0 5 import_task with_handler).1

abbrev to_unit : ℕ → ℕ
to_unit n = n

scheduled-Reachable : Reachable 0 100 to_unit scheduled
scheduled-Reachable =
    Reachable.next (Reachable.next (Reachable.fresh 1 1 true 60) (Step.registered "import"))
      (Step.scheduled 5 import_task)

Reachable-WellFormed_example : WellFormed scheduled
Reachable-WellFormed_example = Reachable-WellFormed 0 100 to_unit scheduled-Reachable

abbrev cancelled : TaskRunner ℕ
cancelled = (cancel_task 0 7 "t1" scheduled).1

cancels : cancel_task 0 7 "t1" scheduled ≡ (ok tt, cancelled)
unfolding cancel_task schedule_task register_task
cancels = refl

cancel_task_once_example :
    ((entry : TaskEntry ℕ) × (lookup "t1" scheduled.tasks ≡ some entry)
      × ((after : TaskEntry ℕ) × (lookup "t1" cancelled.tasks ≡ some after)
          × CanceledAt 0 7 entry after))
    × (cancel_task 0 9 "t1" cancelled ≡ (err TaskError.canceled, cancelled))
cancel_task_once_example =
    cancel_task_once 0 7 9 "t1" scheduled cancelled
      (Reachable-WellFormed 0 100 to_unit scheduled-Reachable) cancels

queue_is : scheduled.queue ≡ queued import_task 0 ∷ []
unfolding schedule_task register_task
queue_is = refl

handler_is : has_handler scheduled.handlers "import" ≡ true
unfolding schedule_task register_task
handler_is = refl

worker_is : ltb (length scheduled.active) scheduled.parallelism ≡ true
unfolding schedule_task register_task
worker_is = refl

cancel_task-take_task_example :
    (entry : TaskEntry ℕ) × (lookup "t1" (take_task 0 9 cancelled).tasks ≡ some entry)
    × (entry.state.status ≡ Status.running)
    × (entry.state.error ≡ some TaskError.canceled)
    × (entry.state.finished_at ≡ some 7)
cancel_task-take_task_example =
    cancel_task-take_task 0 7 9 scheduled cancelled (queued import_task 0) []
      (Reachable-WellFormed 0 100 to_unit scheduled-Reachable) queue_is handler_is worker_is cancels
