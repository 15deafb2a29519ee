-- ===== src/Queue/Runner.antt =====
-- task/gorm/task_runner.go: the methods of the runner. What the other goroutines and runners send to
-- the database before each of a method's statements, and the times that the method reads, are its
-- parameters.
use Prim.Native.String.{◌++◌ as cat}
use amoxtli.Common.{
  ℕ, suc, ◌+◌, ◌*◌, String, Bool, true, false, not, ◌&&◌, Option, none, some, List, [], ◌∷◌,
  if◌then◌else◌, ltb, ◌==◌, map,
}
use amoxtli.Common.Int.{ℤ, at_least}
use amoxtli.Common.Keyed.{Keyed, lookup, insert, remove}
use amoxtli.Common.Result.{Result, ok, err}
use amoxtli.Tasks.{Status, TaskError, State, Task, is_live}
use amoxtli.Tasks.Steps.{has_handler}
use amoxtli.Queue.{
  Row, Database, QueueError, is_pending, schedule_as, save_row, count_pending, claim, finish_owned,
  mark_canceled, purge, get_row,
}
use amoxtli.Queue.Statements.{Statement, perform_all}

pub record LocalTask : Type 0 where
  pub task : Task
  pub scheduled_at : ℕ

-- `stopped` holds the contexts of executions that CancelTask cancelled.
pub record Runner : Type 0 where
  pub handlers : List String
  pub factories : Keyed (String → String → Result String Task)
  pub local : Keyed LocalTask
  pub queue_size : ℤ
  pub err_on_full : Bool
  pub cancel_funcs : Keyed ℕ
  pub owner : String
  pub parallelism : ℕ
  pub lease_duration : ℕ
  pub cleanup_delay : ℕ
  pub stopped : List ℕ

-- the statements of others before the n-th statement of a method, and the time of that statement
pub record World (F : Type 0) : Type 0 where
  pub others : ℕ → List (Statement F)
  pub clock : ℕ → ℕ

abbrev pub error_text : Result String Task → Option String
error_text (ok task) = none
error_text (err problem) = some problem

-- rebuild
unfoldable pub rebuild : Runner → String → String → String → Result String Task
rebuild r id kind payload = elim (lookup id r.local) [
  | some entry ↦ ok entry.task
  | none ↦ (elim (lookup kind r.factories) [
    | none ↦ err (cat "no factory registered for task type '" (cat kind "'"))
    | some factory ↦ (elim (factory id payload) [
      | ok task ↦ ok task
      | err problem ↦ err (cat "could not rebuild persisted task: " problem)
    ])
  ])
]

-- the LIMIT of claimNext
abbrev pub batch : ℕ → ℕ
batch parallelism = if ltb 8 (parallelism * 2) then parallelism * 2 else 8

abbrev pub is_candidate : {F : Type 0} → List String → Row F → Bool
is_candidate handlers row = is_pending row.status && has_handler handlers row.kind

abbrev pub drop_locals : ℕ → ℕ → Keyed LocalTask → Keyed LocalTask
drop_locals now delay [] = []
drop_locals now delay ((id, entry) ∷ rest) =
    let others = drop_locals now delay rest in
    if ltb (entry.scheduled_at + delay) now then others else (id, entry) ∷ others

abbrev pub local_after : Runner → ℕ → Task → Result QueueError (Unit {0}) → Runner
local_after r now task (ok tt) = record r {
  local = insert task.id (record { task = task; scheduled_at = now }) r.local;
}
local_after r now task (err e) = r

-- the branches of claimNext's loop: after the claim, and after the rebuild
abbrev pub if_claimed :
    {S A : Type 0}
    → Result QueueError Bool
    → S
    → (S → Result QueueError A × S)
    → (S → Result QueueError A × S)
    → Result QueueError A × S
if_claimed (err e) s lost won = (err e, s)
if_claimed (ok false) s lost won = lost s
if_claimed (ok true) s lost won = won s

abbrev pub if_rebuilt :
    {S : Type 0}
    → Result String Task
    → S
    → (String → Result QueueError (Option Task) × S)
    → Result QueueError (Option Task) × S
if_rebuilt (ok task) s failed = (ok (some task), s)
if_rebuilt (err problem) s failed = failed problem

module _ {F S : Type 0} (db : Database F S) (zero one : F) (w : World F) where
  -- the database when the n-th statement of a method comes
  abbrev pub reached : ℕ → S → S
  reached n s = perform_all db zero one (w.others n) s

  -- the rest of ScheduleTask once there is room
  unfoldable pub store_task :
      ℕ → ℕ → Task → String → Runner → S → Result QueueError (Unit {0}) × Runner × S
  unfolding save_row
  store_task n now task payload r s =
      let x = save_row db (schedule_as zero now task payload false) (reached n s) in
      (x.0, local_after r now task x.0, x.1)

  -- the branch of a full queue: an error of the Save is logged
  unfoldable pub refuse_task :
      ℕ → Task → String → Runner → S → Result QueueError (Unit {0}) × Runner × S
  unfolding save_row
  refuse_task now task payload r s = (
    err QueueError.queue_full,
    r,
    (save_row db (schedule_as zero now task payload true) (reached 1 s)).1,
  )

  unfoldable pub admit_task :
      ℕ
      → Task
      → String
      → Runner
      → S
      → Result QueueError ℕ
      → Result QueueError (Unit {0}) × Runner × S
  unfolding store_task refuse_task
  admit_task now task payload r s (err e) = (err e, r, s)
  admit_task now task payload r s (ok pending) =
      if at_least pending r.queue_size
      then refuse_task now task payload r s
      else store_task 1 now task payload r s

  -- ScheduleTask once the task is serialized, by `errOnFull`
  unfoldable pub schedule_when :
      Bool → Task → String → Runner → S → Result QueueError (Unit {0}) × Runner × S
  unfolding admit_task store_task count_pending
  schedule_when true task payload r s =
      admit_task (w.clock 0) task payload r (reached 0 s) (count_pending db (reached 0 s))
  schedule_when false task payload r s = store_task 0 (w.clock 0) task payload r s

  -- ScheduleTask, of a task and what its MarshalJSON returns
  unfoldable pub schedule_persistent :
      Task → Result String String → Runner → S → Result QueueError (Unit {0}) × Runner × S
  unfolding schedule_when
  schedule_persistent task (err e) r s = (err (QueueError.marshal_error e), r, s)
  schedule_persistent task (ok payload) r s = schedule_when r.err_on_full task payload r s

  -- the loop of claimNext over its candidates
  unfoldable pub claim_loop : Runner → ℕ → List (Row F) → S → Result QueueError (Option Task) × S
  unfolding claim rebuild finish_owned
  claim_loop r n [] s = (ok none, s)
  claim_loop r n (row ∷ rows) s =
      let x = claim db r.owner (w.clock n + r.lease_duration) row.id (reached n s) in
      if_claimed x.0 x.1 (λ s'. claim_loop r (suc n) rows s')
        (λ s'. if_rebuilt (rebuild r row.id row.kind row.payload) s' (λ problem.
          claim_loop r (suc (suc n)) rows
            (finish_owned db one r.owner row.id (w.clock (suc n)) Status.failed (some problem)
              (reached (suc n) s')).1))

  abbrev pub claim_from :
      Runner → Result String (List (Row F)) → S → Result QueueError (Option Task) × S
  claim_from r (err e) s = (err (QueueError.database_error e), s)
  claim_from r (ok rows) s = claim_loop r 1 rows s

  -- claimNext, by the types that have a handler
  unfoldable pub claim_by : List String → Runner → S → Result QueueError (Option Task) × S
  unfolding claim_loop
  claim_by [] r s = (ok none, s)
  claim_by (kind ∷ kinds) r s =
      claim_from r
        (db.oldest (is_candidate (kind ∷ kinds)) (some (batch r.parallelism)) (reached 0 s))
        (reached 0 s)

  unfoldable pub claim_next : Runner → S → Result QueueError (Option Task) × S
  unfolding claim_by
  claim_next r s = claim_by r.handlers r s

  -- CancelTask from its update
  abbrev pub after_cancel :
      String → Runner → Result QueueError (Unit {0}) × S → Result QueueError (Unit {0}) × Runner × S
  after_cancel id r (err e, s) = (err e, r, s)
  after_cancel id r (ok tt, s) = (
    ok tt,
    record r {
      stopped = elim (lookup id r.cancel_funcs) [ none ↦ r.stopped | some ctx ↦ ctx ∷ r.stopped ];
      local = remove id r.local;
    },
    s,
  )

  abbrev pub cancel_found :
      String → Runner → Result QueueError (Row F) → S → Result QueueError (Unit {0}) × Runner × S
  cancel_found id r (err e) s = (err e, r, s)
  cancel_found id r (ok row) s =
      if not (is_live row.status)
      then (err QueueError.canceled, r, s)
      else after_cancel id r (mark_canceled db (w.clock 1) id (reached 1 s))

  -- CancelTask
  unfoldable pub cancel_persistent : String → Runner → S → Result QueueError (Unit {0}) × Runner × S
  unfolding get_row mark_canceled
  cancel_persistent id r s = cancel_found id r (get_row db id (reached 0 s)) (reached 0 s)

  abbrev pub after_purge :
      ℕ → Runner → Result QueueError (Unit {0}) × S → Result QueueError (Unit {0}) × Runner × S
  after_purge now r (err e, s) = (err e, r, s)
  after_purge now r (ok tt, s) =
      (ok tt, record r { local = drop_locals now r.cleanup_delay r.local }, s)

  -- cleanupExpired
  unfoldable pub cleanup_expired : Runner → S → Result QueueError (Unit {0}) × Runner × S
  unfolding purge
  cleanup_expired r s =
      after_purge (w.clock 0) r (purge db (w.clock 0) r.cleanup_delay (reached 0 s))

-- rowToState: the zero time and a nil error are `none`
abbrev pub row_to_state : {F : Type 0} → Row F → State F
row_to_state row = record {
  id = row.id;
  kind = row.kind;
  scheduled_at = some row.scheduled_at;
  status = row.status;
  finished_at = row.finished_at;
  progress = row.progress;
  error = if row.error == "" then none else some (TaskError.handler_error row.error);
  message = row.message;
}

abbrev pub state_result : {F : Type 0} → Result QueueError (Row F) → Result QueueError (State F)
state_result (err e) = err e
state_result (ok row) = ok (row_to_state row)

abbrev pub task_result :
    {F : Type 0}
    → Keyed (String → String → Result String Task)
    → Result QueueError (Row F)
    → Result QueueError Task
task_result factories (err e) = err e
task_result factories (ok row) = elim (lookup row.kind factories) [
  | none ↦ err (QueueError.no_factory row.kind)
  | some factory ↦ (elim (factory row.id row.payload) [
    | ok task ↦ ok task
    | err problem ↦ err (QueueError.factory_error problem)
  ])
]

module _ {F S : Type 0} (db : Database F S) where
  -- GetTaskState
  unfoldable pub get_task_state : String → S → Result QueueError (State F)
  unfolding get_row
  get_task_state id s = state_result (get_row db id s)

  -- GetTask
  unfoldable pub get_task : Runner → String → S → Result QueueError Task
  unfolding get_row
  get_task r id s = task_result r.factories (get_row db id s)

  -- ListTasks, whose headers are a part of the states
  unfoldable pub list_tasks : S → Result QueueError (List (State F))
  list_tasks s = elim (db.oldest (λ row. true) none s) [
    | err e ↦ err (QueueError.database_error e)
    | ok rows ↦ ok (map row_to_state rows)
  ]

-- NewTaskRunnerWithQueue, with what the options set
abbrev pub new_runner : String → ℕ → ℤ → Bool → ℕ → ℕ → Runner
new_runner owner parallelism queue_size err_on_full lease_duration cleanup_delay = record {
  handlers = [];
  factories = [];
  local = [];
  queue_size = queue_size;
  err_on_full = err_on_full;
  cancel_funcs = [];
  owner = owner;
  parallelism = if ltb 1 parallelism then parallelism else 1;
  lease_duration = lease_duration;
  cleanup_delay = cleanup_delay;
  stopped = [];
}
