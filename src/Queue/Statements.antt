-- ===== src/Queue/Statements.antt =====
-- task/gorm/task_runner.go: the statements that the runners of a database interleave, and what each
-- does to the row of one task. The laws of the database are those of SQL: a statement that fails
-- changes nothing, and one that succeeds changes the rows of its condition at once.
use amoxtli.Common.{
  ◌≡◌, refl, ◌⊎◌, inl, inr, ◌≤◌, suc, ℕ, String, Bool, true, not, Option, none, some, List, [], ◌∷◌,
  if◌then◌else◌, ◌==◌,
}
use amoxtli.Common.Lists.{All, keep}
use amoxtli.Common.Result.{Result, ok, err}
use amoxtli.Tasks.{Status, Task}
use amoxtli.Queue.{
  Row, Database, schedule_as, update_where, count_where, find_row, upsert, has_id, is_expired,
  is_claimable, is_owned, is_cancellable, is_old, release, lease, finish_row, set_progress,
  cancel_row, unit_result, one_affected, save_row, reclaim_expired, claim, update_owned,
  finish_owned, extend_lease, mark_canceled, purge,
}
use amoxtli.Queue.Table.{Unique, map_row, drop_row}

-- `outcome` is the text of the error that a task ended with, or `none` where it succeeded.
pub data Statement (F : Type 0) : Type 0 where
  saved : (now : ℕ) (task : Task) (payload : String) (full : Bool) → Statement F
  reclaimed : ℕ → Statement F
  claimed : (owner : String) (until : ℕ) (id : String) → Statement F
  progressed : (owner id : String) (progress : F) (message : String) → Statement F
  finished : (owner id : String) (now : ℕ) (outcome : Option String) → Statement F
  extended : (owner : String) (until : ℕ) (id : String) → Statement F
  cancelled : (now : ℕ) (id : String) → Statement F
  purged : (now delay : ℕ) → Statement F

abbrev pub status_of : Option String → Status
status_of none = Status.succeeded
status_of (some problem) = Status.failed

module _ {F S : Type 0} (db : Database F S) where
  abbrev pub Written : List (Row F) → List (Row F) → ℕ → Result String ℕ × S → Type 0
  Written before after n (ok m, s) = (m ≡ n) × (db.rows s ≡ after)
  Written before after n (err e, s) = db.rows s ≡ before

  -- the first of the selected rows is the oldest of all
  abbrev pub OldestFirst : List (Row F) → List (Row F) → Type 0
  OldestFirst all [] = all ≡ []
  OldestFirst all (r ∷ rs) = All (λ o. r.scheduled_at ≤ o.scheduled_at) all

  pub record IsDatabase : Type 0 where
    pub updates :
        (p : Row F → Bool) (f : Row F → Row F) (s : S)
        → Written
            (db.rows s)
            (update_where p f (db.rows s))
            (count_where p (db.rows s))
            (db.update p f s)
    pub deletes :
        (p : Row F → Bool) (s : S)
        → Written
            (db.rows s)
            (keep (λ r. not (p r)) (db.rows s))
            (count_where p (db.rows s))
            (db.delete p s)
    pub saves :
        (row : Row F) (s : S) → Written (db.rows s) (upsert row (db.rows s)) 1 (db.save row s)
    pub counts :
        (p : Row F → Bool) (s : S) (n : ℕ) → db.count p s ≡ ok n → n ≡ count_where p (db.rows s)
    pub queries :
        (p : Row F → Bool) (s : S) (found : List (Row F))
        → db.query p s ≡ ok found
        → found ≡ keep p (db.rows s)
    pub oldests :
        (p : Row F → Bool) (limit : ℕ) (s : S) (found : List (Row F))
        → Unique (db.rows s)
        → db.oldest p (some (suc limit)) s ≡ ok found
        → All (λ r. (p r ≡ true) × (find_row r.id (db.rows s) ≡ some r)) found
          × OldestFirst (keep p (db.rows s)) found

  module _ (zero one : F) where
    -- what a runner sends, whatever it does with the result
    unfoldable pub perform : Statement F → S → S
    unfolding save_row reclaim_expired claim update_owned finish_owned extend_lease mark_canceled
        purge
    perform (Statement.saved now task payload full) s =
        (save_row db (schedule_as zero now task payload full) s).1
    perform (Statement.reclaimed now) s = (reclaim_expired db now s).1
    perform (Statement.claimed owner until id) s = (claim db owner until id s).1
    perform (Statement.progressed owner id progress message) s =
        (update_owned db owner id (set_progress progress message) s).1
    perform (Statement.finished owner id now outcome) s =
        (finish_owned db one owner id now (status_of outcome) outcome s).1
    perform (Statement.extended owner until id) s = (extend_lease db owner until id s).1
    perform (Statement.cancelled now id) s = (mark_canceled db now id s).1
    perform (Statement.purged now delay) s = (purge db now delay s).1

    -- the statements of all runners, in the order in which the database runs them
    abbrev pub perform_all : List (Statement F) → S → S
    perform_all [] s = s
    perform_all (st ∷ sts) s = perform_all sts (perform st s)

module _ {F : Type 0} (zero one : F) where
  -- The rows of an UPDATE, and what it writes in them.
  abbrev pub condition : Statement F → Row F → Bool
  condition (Statement.saved now task payload full) r = has_id task.id r
  condition (Statement.reclaimed now) r = is_expired now r
  condition (Statement.claimed owner until id) r = is_claimable id r
  condition (Statement.progressed owner id progress message) r = is_owned owner id r
  condition (Statement.finished owner id now outcome) r = is_owned owner id r
  condition (Statement.extended owner until id) r = is_owned owner id r
  condition (Statement.cancelled now id) r = is_cancellable id r
  condition (Statement.purged now delay) r = is_old now delay r

  abbrev pub change : Statement F → Row F → Row F
  change (Statement.saved now task payload full) r = schedule_as zero now task payload full
  change (Statement.reclaimed now) r = release r
  change (Statement.claimed owner until id) r = lease owner until r
  change (Statement.progressed owner id progress message) r = set_progress progress message r
  change (Statement.finished owner id now outcome) r =
      finish_row one now (status_of outcome) outcome r
  change (Statement.extended owner until id) r = record r { lease_until = some until }
  change (Statement.cancelled now id) r = cancel_row now r
  change (Statement.purged now delay) r = r

  -- What a statement that succeeds does to the row of one task, or to its absence.
  abbrev pub effect : Statement F → String → Option (Row F) → Option (Row F)
  effect (Statement.saved now task payload full) id v =
      if task.id == id then some (schedule_as zero now task payload full) else v
  effect (Statement.purged now delay) id v = drop_row (is_old now delay) v
  effect st id v = map_row (λ r. if condition st r then change st r else r) v

pub unit_result-state : {A S : Type 0} (x : Result String A × S) → (unit_result x).1 ≡ x.1
unit_result-state (ok a, s) = refl
unit_result-state (err e, s) = refl

pub one_affected-state : {S : Type 0} (x : Result String ℕ × S) → (one_affected x).1 ≡ x.1
one_affected-state (ok a, s) = refl
one_affected-state (err e, s) = refl

module _ {F S : Type 0} (db : Database F S) where
  abbrev pub view : String → S → Option (Row F)
  view id s = find_row id (db.rows s)

  rows_cases :
      (before after : List (Row F)) (n : ℕ) (x : Result String ℕ × S)
      → Written db before after n x
      → (db.rows x.1 ≡ before) ⊎ (db.rows x.1 ≡ after)
  rows_cases before after n (ok m, s) h = inr h.1
  rows_cases before after n (err e, s) h = inl h

  -- the rows after a statement: as before, or those that it is to leave
  abbrev pub rows_after : F → F → Statement F → List (Row F) → List (Row F)
  rows_after zero one (Statement.saved now task payload full) rows =
      upsert (schedule_as zero now task payload full) rows
  rows_after zero one (Statement.purged now delay) rows = keep (λ r. not (is_old now delay r)) rows
  rows_after zero one st rows = update_where (condition zero one st) (change zero one st) rows

  module _ (zero one : F) (laws : IsDatabase db) where
    updated :
        (p : Row F → Bool) (f : Row F → Row F) (s s' : S)
        → s' ≡ (db.update p f s).1
        → (db.rows s' ≡ db.rows s) ⊎ (db.rows s' ≡ update_where p f (db.rows s))
    updated p f s s' e = rw e (rows_cases _ _ _ (db.update p f s) (laws.updates p f s))

    pub perform-rows :
        (st : Statement F) (s : S)
        → (db.rows (perform db zero one st s) ≡ db.rows s)
          ⊎ (db.rows (perform db zero one st s) ≡ rows_after zero one st (db.rows s))
    unfolding perform save_row reclaim_expired claim update_owned finish_owned extend_lease
        mark_canceled purge
    perform-rows (Statement.saved now task payload full) s =
        let row = schedule_as zero now task payload full in
        rw (unit_result-state (db.save row s)) (rows_cases _ _ _ (db.save row s) (laws.saves row s))
    perform-rows (Statement.reclaimed now) s = updated _ _ s _ (unit_result-state _)
    perform-rows (Statement.claimed owner until id) s = updated _ _ s _ (one_affected-state _)
    perform-rows (Statement.progressed owner id progress message) s =
        updated _ _ s _ (unit_result-state _)
    perform-rows (Statement.finished owner id now outcome) s = updated _ _ s _ (unit_result-state _)
    perform-rows (Statement.extended owner until id) s = updated _ _ s _ refl
    perform-rows (Statement.cancelled now id) s = updated _ _ s _ (unit_result-state _)
    perform-rows (Statement.purged now delay) s =
        rw (unit_result-state (db.delete (is_old now delay) s))
          (rows_cases _ _ _ (db.delete (is_old now delay) s) (laws.deletes (is_old now delay) s))
