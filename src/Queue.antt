-- ===== src/Queue.antt =====
-- task/gorm/task.go and task_runner.go: the rows of the persistent runner, the table that holds them,
-- and each SQL statement of the runner as one function. The database is a parameter; times and
-- durations are numbers of milliseconds.
pub mod Table
pub mod Statements
pub mod Effects
pub mod Rows
pub mod Claims
pub mod Lifecycle
pub mod Moves
pub mod Leases
pub mod Runner
pub mod Execution
pub mod Throttle
pub mod Working
pub mod Records
pub mod Methods
pub mod Cancel
pub mod Admission
use amoxtli.Common.{
  ◌≡◌, ℕ, suc, ◌+◌, String, Bool, true, false, not, ◌&&◌, ◌||◌, Option, none, some, List, [], ◌∷◌,
  if◌then◌else◌, ltb, ◌=?◌, ◌==◌,
}
use amoxtli.Common.Lists.{keep}
use amoxtli.Common.Result.{Result, ok, err}
use amoxtli.Tasks.{Status, Task}
use amoxtli.Tasks.Steps.{or_else}

-- Task, a row of amoxtli_tasks: the empty text stands for no error and for no owner
pub record Row (F : Type 0) : Type 0 where
  pub id : String
  pub kind : String
  pub payload : String
  pub status : Status
  pub scheduled_at : ℕ
  pub finished_at : Option ℕ
  pub progress : F
  pub message : String
  pub error : String
  pub lease_owner : String
  pub lease_until : Option ℕ

pub data QueueError : Type 0 where
  not_found : QueueError
  canceled : QueueError
  queue_full : QueueError
  no_factory : String → QueueError
  factory_error : String → QueueError
  marshal_error : String → QueueError
  database_error : String → QueueError

module _ {F : Type 0} where
  -- the rows that ScheduleTask saves: that of a pending task, and that of one it has no room for
  abbrev pub new_row : F → ℕ → Task → String → Row F
  new_row zero now task payload = record {
    id = task.id;
    kind = task.kind;
    payload = payload;
    status = Status.pending;
    scheduled_at = now;
    finished_at = none;
    progress = zero;
    message = "";
    error = "";
    lease_owner = "";
    lease_until = none;
  }

  abbrev pub full_row : ℕ → Row F → Row F
  full_row now row = record row {
    status = Status.failed;
    finished_at = some now;
    error = "queue full";
  }

  abbrev pub schedule_as : F → ℕ → Task → String → Bool → Row F
  schedule_as zero now task payload full =
      if full then full_row now (new_row zero now task payload) else new_row zero now task payload

  -- UPDATE … SET … WHERE
  abbrev pub update_where : (Row F → Bool) → (Row F → Row F) → List (Row F) → List (Row F)
  update_where p f [] = []
  update_where p f (r ∷ rs) = (if p r then f r else r) ∷ update_where p f rs

  abbrev pub count_where : (Row F → Bool) → List (Row F) → ℕ
  count_where p [] = 0
  count_where p (r ∷ rs) = if p r then suc (count_where p rs) else count_where p rs

  abbrev pub find_row : String → List (Row F) → Option (Row F)
  find_row id [] = none
  find_row id (r ∷ rs) = if r.id == id then some r else find_row id rs

  -- Save: the row of its primary key is replaced, or it is added
  abbrev pub upsert : Row F → List (Row F) → List (Row F)
  upsert row [] = row ∷ []
  upsert row (r ∷ rs) = if r.id == row.id then row ∷ rs else r ∷ upsert row rs

-- What the runner calls of gorm, on a database in state S. An error of getDatabase is that of the
-- statement that follows it.
pub record Database (F S : Type 0) : Type 0 where
  pub rows : S → List (Row F)
  pub update : (Row F → Bool) → (Row F → Row F) → S → Result String ℕ × S
  pub delete : (Row F → Bool) → S → Result String ℕ × S
  pub save : Row F → S → Result String ℕ × S
  pub count : (Row F → Bool) → S → Result String ℕ
  pub query : (Row F → Bool) → S → Result String (List (Row F))
  -- ORDER BY scheduled_at ASC, with a LIMIT where there is one
  pub oldest : (Row F → Bool) → Option ℕ → S → Result String (List (Row F))

abbrev pub is_pending : Status → Bool
is_pending Status.pending = true
is_pending _ = false

abbrev pub is_running : Status → Bool
is_running Status.running = true
is_running _ = false

abbrev pub is_succeeded : Status → Bool
is_succeeded Status.succeeded = true
is_succeeded _ = false

abbrev pub lease_expired : ℕ → Option ℕ → Bool
lease_expired now none = true
lease_expired now (some until) = ltb until now

abbrev pub finished_before : ℕ → ℕ → Option ℕ → Bool
finished_before now delay none = false
finished_before now delay (some t) = ltb (t + delay) now

module _ {F : Type 0} where
  abbrev pub has_id : String → Row F → Bool
  has_id id row = row.id == id

  -- the conditions of the statements
  abbrev pub is_expired : ℕ → Row F → Bool
  is_expired now row = is_running row.status && lease_expired now row.lease_until

  abbrev pub is_claimable : String → Row F → Bool
  is_claimable id row = has_id id row && is_pending row.status

  abbrev pub is_owned : String → String → Row F → Bool
  is_owned owner id row = has_id id row && (is_running row.status && row.lease_owner == owner)

  abbrev pub is_cancellable : String → Row F → Bool
  is_cancellable id row = has_id id row && (is_pending row.status || is_running row.status)

  abbrev pub is_old : ℕ → ℕ → Row F → Bool
  is_old now delay row = finished_before now delay row.finished_at

  -- what the statements write
  abbrev pub release : Row F → Row F
  release row = record row { status = Status.pending; lease_owner = ""; lease_until = none }

  abbrev pub lease : String → ℕ → Row F → Row F
  lease owner until row = record row {
    status = Status.running;
    lease_owner = owner;
    lease_until = some until;
  }

  abbrev pub finish_row : F → ℕ → Status → Option String → Row F → Row F
  finish_row one now status cause row = record row {
    status = status;
    finished_at = some now;
    lease_owner = "";
    lease_until = none;
    progress = if is_succeeded status then one else row.progress;
    error = or_else row.error cause;
  }

  abbrev pub set_progress : F → String → Row F → Row F
  set_progress progress message row = record row { progress = progress; message = message }

  abbrev pub cancel_row : ℕ → Row F → Row F
  cancel_row now row = record row {
    status = Status.failed;
    finished_at = some now;
    error = "canceled";
    lease_owner = "";
    lease_until = none;
  }

abbrev pub unit_result : {A S : Type 0} → Result String A × S → Result QueueError (Unit {0}) × S
unit_result (ok a, s) = (ok tt, s)
unit_result (err e, s) = (err (QueueError.database_error e), s)

abbrev pub one_affected : {S : Type 0} → Result String ℕ × S → Result QueueError Bool × S
one_affected (ok n, s) = (ok (n =? 1), s)
one_affected (err e, s) = (err (QueueError.database_error e), s)

abbrev pub found_row : {F : Type 0} → Option (Row F) → Result QueueError (Row F)
found_row none = err QueueError.not_found
found_row (some row) = ok row

abbrev pub first_row : {F : Type 0} → Result String (List (Row F)) → Result QueueError (Row F)
first_row (err e) = err (QueueError.database_error e)
first_row (ok []) = err QueueError.not_found
first_row (ok (row ∷ rows)) = ok row

abbrev pub read_result : {A : Type 0} → Result String A → Result QueueError A
read_result (ok a) = ok a
read_result (err e) = err (QueueError.database_error e)

module _ {F S : Type 0} (db : Database F S) where
  unfoldable pub save_row : Row F → S → Result QueueError (Unit {0}) × S
  save_row row s = unit_result (db.save row s)

  unfoldable pub count_pending : S → Result QueueError ℕ
  count_pending s = read_result (db.count (λ row. is_pending row.status) s)

  unfoldable pub reclaim_expired : ℕ → S → Result QueueError (Unit {0}) × S
  reclaim_expired now s = unit_result (db.update (is_expired now) release s)

  unfoldable pub claim : String → ℕ → String → S → Result QueueError Bool × S
  claim owner until id s = one_affected (db.update (is_claimable id) (lease owner until) s)

  unfoldable pub update_owned :
      String → String → (Row F → Row F) → S → Result QueueError (Unit {0}) × S
  update_owned owner id fields s = unit_result (db.update (is_owned owner id) fields s)

  unfoldable pub finish_owned :
      F → String → String → ℕ → Status → Option String → S → Result QueueError (Unit {0}) × S
  unfolding update_owned
  finish_owned one owner id now status cause s =
      update_owned owner id (finish_row one now status cause) s

  -- a tick of heartbeat: how many rows the lease was extended on
  unfoldable pub extend_lease : String → ℕ → String → S → Result String ℕ × S
  extend_lease owner until id s =
      db.update (is_owned owner id) (λ row. record row { lease_until = some until }) s

  -- the update of CancelTask
  unfoldable pub mark_canceled : ℕ → String → S → Result QueueError (Unit {0}) × S
  mark_canceled now id s = unit_result (db.update (is_cancellable id) (cancel_row now) s)

  -- the DELETE of cleanupExpired
  unfoldable pub purge : ℕ → ℕ → S → Result QueueError (Unit {0}) × S
  purge now delay s = unit_result (db.delete (is_old now delay) s)

  unfoldable pub get_row : String → S → Result QueueError (Row F)
  get_row id s = first_row (db.query (has_id id) s)
