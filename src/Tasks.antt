-- ===== src/Tasks.antt =====
-- task and task/memory/task_runner.go: the in-memory runner of tasks. Its maps are key lists, the
-- channel is a list of bounded length, and each step of a worker, a canceller or the cleaner that the
-- code makes without interruption is one function. A time is a number; a context is named by the
-- order in which it was made. The payload of a task and its logging are left out.
pub mod Steps
pub mod Invariant
pub mod WellFormed
pub mod Runs
pub mod Cancel
use amoxtli.Common.{
  ◌+◌, Bool, true, false, not, ◌&&◌, ◌||◌, ℕ, suc, String, Option, none, some, List, [], ◌∷◌,
  if◌then◌else◌, ltb, ◌=?◌, ◌==◌, ◌++◌,
}
use amoxtli.Common.Keyed.{Keyed, lookup, insert, remove}
use amoxtli.Common.Lists.{length, keep}
use amoxtli.Common.Result.{Result, ok, err}

abbrev pub TaskId : Type 0
TaskId = String

-- The status of a state; that of a new one is the empty string.
pub data Status : Type 0 where
  unset : Status
  pending : Status
  running : Status
  succeeded : Status
  failed : Status

-- The errors of the package, and those of the handlers.
pub data TaskError : Type 0 where
  not_found : TaskError
  canceled : TaskError
  queue_full : TaskError
  no_handler : TaskError
  handler_error : String → TaskError

-- The zero time is `none`.
pub record State (F : Type 0) : Type 0 where
  pub id : TaskId
  pub kind : String
  pub scheduled_at : Option ℕ
  pub status : Status
  pub finished_at : Option ℕ
  pub progress : F
  pub error : Option TaskError
  pub message : String

pub record Task : Type 0 where
  pub id : TaskId
  pub kind : String

pub record TaskEntry (F : Type 0) : Type 0 where
  pub task : Task
  pub state : State F

pub record QueuedTask : Type 0 where
  pub task : Task
  pub ctx : ℕ

-- `waiting` holds the tasks of the schedulers that are blocked on the full queue, `active` those that
-- the workers are executing, and `cancelled` the contexts that were cancelled.
pub record TaskRunner (F : Type 0) : Type 0 where
  pub tasks : Keyed (TaskEntry F)
  pub handlers : List String
  pub queue : List QueuedTask
  pub capacity : ℕ
  pub err_on_full : Bool
  pub cancel_funcs : Keyed ℕ
  pub parallelism : ℕ
  pub cleanup_delay : ℕ
  pub waiting : List QueuedTask
  pub active : List QueuedTask
  pub cancelled : List ℕ
  pub contexts : ℕ

-- Event: what a handler reports
pub record Event (F : Type 0) : Type 0 where
  pub message : Option String
  pub progress : Option F

abbrev pub set_failed : {F : Type 0} → TaskError → ℕ → State F → State F
set_failed problem now s = record s {
  error = some problem;
  status = Status.failed;
  finished_at = some now;
}

abbrev pub is_live : Status → Bool
is_live Status.pending = true
is_live Status.running = true
is_live _ = false

module _ {F : Type 0} (zero : F) where
  -- the entry that LoadOrStore makes
  abbrev pub new_entry : Task → TaskEntry F
  new_entry task = record {
    task = task;
    state = record {
      id = task.id;
      kind = "";
      scheduled_at = none;
      status = Status.unset;
      finished_at = none;
      progress = zero;
      error = none;
      message = "";
    };
  }

  abbrev pub entry_of : Task → Option (TaskEntry F) → TaskEntry F
  entry_of task none = new_entry task
  entry_of task (some entry) = entry

  -- updateState
  unfoldable pub update_state : Task → (State F → State F) → TaskRunner F → TaskRunner F
  update_state task fn r =
      let entry = entry_of task (lookup task.id r.tasks) in
      record r { tasks = insert task.id (record entry { state = fn entry.state }) r.tasks }
