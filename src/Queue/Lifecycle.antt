-- ===== src/Queue/Lifecycle.antt =====
-- task/gorm/task_runner.go: the well-formedness of the rows, after every statement of every
-- runner of a database.
use amoxtli.Common.{
  ◌≡◌, refl, sym, ◌∙◌, inl, inr, ℕ, String, Bool, true, false, ◌||◌, Option, none, some, List, [],
  ◌∷◌, if◌then◌else◌, ◌==◌, arith, Bool-cases, eq_iff, is_some,
}
use amoxtli.Common.Lists.{All}
use amoxtli.Tasks.{Status, Task}
use amoxtli.Tasks.Invariant.{is_finished}
use amoxtli.Queue.{Row, Database, is_pending, is_running, schedule_as, is_old, is_owned, finish_row}
use amoxtli.Queue.Table.{Unique}
use amoxtli.Queue.Statements.{Statement, IsDatabase, perform_all, effect, view, status_of}
use amoxtli.Queue.Effects.{perform_all-Unique, perform_all-keeps}

module _ {F : Type 0} where
  -- A lease exactly while the task runs, an owner only then, and an end exactly once it has ended.
  abbrev pub SoundRow : String → Row F → Type 0
  SoundRow id row =
      (row.id ≡ id)
      × (is_some row.lease_until ≡ is_running row.status)
      × (is_some row.finished_at ≡ is_finished row.status)
      × (is_running row.status ≡ false → row.lease_owner ≡ "")

  abbrev pub SoundView : String → Option (Row F) → Type 0
  SoundView id none = Unit
  SoundView id (some row) = SoundRow id row

module _ {F : Type 0} where
  if-SoundRow :
      (id : String) (b : Bool) (new row : Row F)
      → (b ≡ true → SoundRow id new)
      → SoundRow id row
      → SoundRow id (if b then new else row)
  if-SoundRow id true new row f h = f refl
  if-SoundRow id false new row f h = h

  pub owned-is_running :
      (owner id : String) (row : Row F)
      → is_owned owner id row ≡ true
      → is_running row.status ≡ true
  owned-is_running owner id row h = ground (arith, h)

  schedule_as-SoundRow :
      (zero : F) (now : ℕ) (task : Task) (payload id : String) (full : Bool)
      → task.id ≡ id
      → SoundRow id (schedule_as zero now task payload full)
  schedule_as-SoundRow zero now task payload id true e = (e, refl, refl, λ p. refl)
  schedule_as-SoundRow zero now task payload id false e = (e, refl, refl, λ p. refl)

  finish_row-SoundRow :
      (one : F) (id : String) (now : ℕ) (outcome : Option String) (row : Row F)
      → row.id ≡ id
      → SoundRow id (finish_row one now (status_of outcome) outcome row)
  finish_row-SoundRow one id now none row e = (e, refl, refl, λ p. refl)
  finish_row-SoundRow one id now (some problem) row e = (e, refl, refl, λ p. refl)

  unended :
      (id : String) (row : Row F)
      → SoundRow id row
      → is_finished row.status ≡ false
      → is_some row.finished_at ≡ false
  unended id row h p = h.2 ∙ p

pub live-unended :
    (status : Status) → (is_pending status || is_running status) ≡ true → is_finished status ≡ false
live-unended Status.pending h = refl
live-unended Status.running h = refl
live-unended Status.succeeded h = cc
live-unended Status.failed h = cc
live-unended Status.unset h = cc

module _ {F : Type 0} (zero one : F) where
  pub effect-SoundView :
      (id : String) (st : Statement F) (v : Option (Row F))
      → SoundView id v
      → SoundView id (effect zero one st id v)
  effect-SoundView id (Statement.saved now task payload full) none h =
      elim (Bool-cases (task.id == id)) [
        | inl same ↦ rw same (
            schedule_as-SoundRow zero now task payload id full
              (ground (arith, same, eq_iff task.id id)))
        | inr other ↦ rw other tt
      ]
  effect-SoundView id (Statement.saved now task payload full) (some row) h =
      elim (Bool-cases (task.id == id)) [
        | inl same ↦ rw same (
            schedule_as-SoundRow zero now task payload id full
              (ground (arith, same, eq_iff task.id id)))
        | inr other ↦ rw other h
      ]
  effect-SoundView id (Statement.purged now delay) none h = tt
  effect-SoundView id (Statement.purged now delay) (some row) h =
      elim (Bool-cases (is_old now delay row)) [ inl b ↦ rw b tt | inr b ↦ rw b h ]
  effect-SoundView id (Statement.reclaimed now) none h = tt
  effect-SoundView id (Statement.claimed owner until i) none h = tt
  effect-SoundView id (Statement.progressed owner i progress message) none h = tt
  effect-SoundView id (Statement.finished owner i now outcome) none h = tt
  effect-SoundView id (Statement.extended owner until i) none h = tt
  effect-SoundView id (Statement.cancelled now i) none h = tt
  effect-SoundView id (Statement.reclaimed now) (some row) h =
      if-SoundRow id _ _ row
        (λ b.
          (h.0, refl, unended id row h (live-unended row.status (ground (arith, b))), λ p. refl))
        h
  effect-SoundView id (Statement.claimed owner until i) (some row) h =
      if-SoundRow id _ _ row
        (λ b. (h.0, refl, unended id row h (live-unended row.status (ground (arith, b))), λ p. cc))
        h
  effect-SoundView id (Statement.progressed owner i progress message) (some row) h =
      if-SoundRow id _ _ row (λ b. h) h
  effect-SoundView id (Statement.finished owner i now outcome) (some row) h =
      if-SoundRow id _ _ row (λ b. finish_row-SoundRow one id now outcome row h.0) h
  effect-SoundView id (Statement.extended owner until i) (some row) h =
      if-SoundRow id _ _ row (λ b. (h.0, sym (owned-is_running owner i row b), h.2, h.3)) h
  effect-SoundView id (Statement.cancelled now i) (some row) h =
      if-SoundRow id _ _ row (λ b. (h.0, refl, refl, λ p. refl)) h

module _ {F S : Type 0} (db : Database F S) (zero one : F) (laws : IsDatabase db) where
  abbrev pub SoundTable : S → Type 0
  SoundTable s = Unique (db.rows s) × ((id : String) → SoundView id (view db id s))

  pub perform_all-SoundTable :
      (sts : List (Statement F)) (s : S) → SoundTable s → SoundTable (perform_all db zero one sts s)
  perform_all-SoundTable sts s h = (
    perform_all-Unique db zero one laws sts s h.0,
    λ id.
        perform_all-keeps db zero one laws id (SoundView id) (λ st. Unit {0})
          (λ st v f q. effect-SoundView zero one id st v q) sts s h.0 (anything sts) (h.1 id),
  )
    where
      anything : (sts : List (Statement F)) → All (λ st. Unit {0}) sts
      anything [] = tt
      anything (st ∷ sts) = (tt, anything sts)

  -- Whatever the runners that share an empty table send to it, in any order, and whichever
  -- statements fail: no two rows have the same identifier; a task has a lease exactly while it is
  -- running, an owner only then, and a time of its end exactly once it has succeeded or failed.
  pub perform_all-Sound :
      (sts : List (Statement F)) (s : S)
      → db.rows s ≡ []
      → SoundTable (perform_all db zero one sts s)
  perform_all-Sound sts s h = perform_all-SoundTable sts s (rw h tt, λ id. rw h tt)
