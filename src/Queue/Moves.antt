-- ===== src/Queue/Moves.antt =====
-- task/gorm/task_runner.go: the states of a persisted task and the moves between them, for every
-- statement of every runner of a database.
use amoxtli.Common.{
  ◌≡◌, refl, ap, sym, ◌∙◌, ◌⊎◌, inl, inr, ℕ, String, Bool, true, false, ◌||◌, Option, none, some,
  List, if◌then◌else◌, ◌==◌, arith, subst, Bool-cases, eq_iff, is_some,
}
use amoxtli.Tasks.{Status, Task}
use amoxtli.Tasks.Invariant.{is_finished}
use amoxtli.Queue.{
  Row, Database, is_pending, is_running, lease, schedule_as, is_old, is_owned, is_expired,
  is_claimable, is_cancellable, release, cancel_row, finish_row, finished_before,
}
use amoxtli.Queue.Statements.{Statement, IsDatabase, perform, perform_all, effect, view, status_of}
use amoxtli.Queue.Effects.{perform-view}
use amoxtli.Queue.Lifecycle.{SoundView, SoundTable, perform_all-SoundTable}

-- The states of a task: `absent` has no row.
pub data Phase : Type 0 where
  absent : Phase
  pending : Phase
  running : String → Phase
  succeeded : Phase
  failed : Phase
  unknown : Phase

abbrev pub phase_of : Status → String → Phase
phase_of Status.unset owner = Phase.unknown
phase_of Status.pending owner = Phase.pending
phase_of Status.running owner = Phase.running owner
phase_of Status.succeeded owner = Phase.succeeded
phase_of Status.failed owner = Phase.failed

abbrev pub phase : {F : Type 0} → Option (Row F) → Phase
phase none = Phase.absent
phase (some row) = phase_of row.status row.lease_owner

-- The moves of a task's state, with the statement that makes each.
pub data Move (F : Type 0) (id : String) : Statement F → Phase → Phase → Type 0 where
  submitted :
      {from : Phase} (now : ℕ) (task : Task) (payload : String)
      → task.id ≡ id
      → Move F id (Statement.saved now task payload false) from Phase.pending
  refused :
      {from : Phase} (now : ℕ) (task : Task) (payload : String)
      → task.id ≡ id
      → Move F id (Statement.saved now task payload true) from Phase.failed
  taken :
      (owner : String) (until : ℕ)
      → Move F id (Statement.claimed owner until id) Phase.pending (Phase.running owner)
  ended_well :
      (owner : String) (now : ℕ)
      → Move F id (Statement.finished owner id now none) (Phase.running owner) Phase.succeeded
  ended_badly :
      (owner : String) (now : ℕ) (problem : String)
      → Move F id
          (Statement.finished owner id now (some problem))
          (Phase.running owner)
          Phase.failed
  expired :
      (owner : String) (now : ℕ)
      → Move F id (Statement.reclaimed now) (Phase.running owner) Phase.pending
  stopped :
      (owner : String) (now : ℕ)
      → Move F id (Statement.cancelled now id) (Phase.running owner) Phase.failed
  dropped : (now : ℕ) → Move F id (Statement.cancelled now id) Phase.pending Phase.failed
  deleted_success :
      (now delay : ℕ) → Move F id (Statement.purged now delay) Phase.succeeded Phase.absent
  deleted_failure :
      (now delay : ℕ) → Move F id (Statement.purged now delay) Phase.failed Phase.absent

module _ {F : Type 0} (zero one : F) where
  -- a statement leaves the state of a task, or makes a move of it
  abbrev pub Moves : String → Statement F → Option (Row F) → Option (Row F) → Type 0
  Moves id st v v' = (phase v' ≡ phase v) ⊎ Move F id st (phase v) (phase v')

  saved-Moves :
      (id : String) (now : ℕ) (task : Task) (payload : String) (full : Bool) (v : Option (Row F))
      → task.id ≡ id
      → Moves id
          (Statement.saved now task payload full)
          v
          (some (schedule_as zero now task payload full))
  saved-Moves id now task payload true v e = inr (Move.refused now task payload e)
  saved-Moves id now task payload false v e = inr (Move.submitted now task payload e)

  purged-Moves :
      (id : String) (now delay : ℕ) (status : Status) (owner : String)
      → is_finished status ≡ true
      → Move F id (Statement.purged now delay) (phase_of status owner) Phase.absent
  purged-Moves id now delay Status.succeeded owner h = Move.deleted_success now delay
  purged-Moves id now delay Status.failed owner h = Move.deleted_failure now delay
  purged-Moves id now delay Status.unset owner h = cc
  purged-Moves id now delay Status.pending owner h = cc
  purged-Moves id now delay Status.running owner h = cc

  cancelled-Moves :
      (id : String) (now : ℕ) (status : Status) (owner : String)
      → (is_pending status || is_running status) ≡ true
      → Move F id (Statement.cancelled now id) (phase_of status owner) Phase.failed
  cancelled-Moves id now Status.pending owner h = Move.dropped now
  cancelled-Moves id now Status.running owner h = Move.stopped owner now
  cancelled-Moves id now Status.unset owner h = cc
  cancelled-Moves id now Status.succeeded owner h = cc
  cancelled-Moves id now Status.failed owner h = cc

  reclaimed-Moves :
      (id : String) (now : ℕ) (status : Status) (owner : String)
      → is_running status ≡ true
      → Move F id (Statement.reclaimed now) (phase_of status owner) Phase.pending
  reclaimed-Moves id now Status.running owner h = Move.expired owner now
  reclaimed-Moves id now Status.unset owner h = cc
  reclaimed-Moves id now Status.pending owner h = cc
  reclaimed-Moves id now Status.succeeded owner h = cc
  reclaimed-Moves id now Status.failed owner h = cc

  claimed-Moves :
      (id owner old : String) (until : ℕ) (status : Status)
      → is_pending status ≡ true
      → Move F id (Statement.claimed owner until id) (phase_of status old) (Phase.running owner)
  claimed-Moves id owner old until Status.pending h = Move.taken owner until
  claimed-Moves id owner old until Status.unset h = cc
  claimed-Moves id owner old until Status.running h = cc
  claimed-Moves id owner old until Status.succeeded h = cc
  claimed-Moves id owner old until Status.failed h = cc

  finished-Moves :
      (id owner : String) (now : ℕ) (outcome : Option String) (status : Status)
      → is_running status ≡ true
      → Move F id
          (Statement.finished owner id now outcome)
          (phase_of status owner)
          (phase_of (status_of outcome) "")
  finished-Moves id owner now none Status.running h = Move.ended_well owner now
  finished-Moves id owner now (some problem) Status.running h = Move.ended_badly owner now problem
  finished-Moves id owner now outcome Status.unset h = cc
  finished-Moves id owner now outcome Status.pending h = cc
  finished-Moves id owner now outcome Status.succeeded h = cc
  finished-Moves id owner now outcome Status.failed h = cc

  if-Moves :
      (id : String) (st : Statement F) (b : Bool) (new row : Row F)
      → (b ≡ true → Moves id st (some row) (some new))
      → Moves id st (some row) (some (if b then new else row))
  if-Moves id st true new row f = f refl
  if-Moves id st false new row f = inl refl

  pub effect-Moves :
      (id : String) (st : Statement F) (v : Option (Row F))
      → SoundView id v
      → Moves id st v (effect zero one st id v)
  effect-Moves id (Statement.saved now task payload full) v h = elim (Bool-cases (task.id == id)) [
    | inl same ↦
        rw same (saved-Moves id now task payload full v (ground (arith, same, eq_iff task.id id)))
    | inr other ↦ rw other (inl refl)
  ]
  effect-Moves id (Statement.purged now delay) none h = inl refl
  effect-Moves id (Statement.purged now delay) (some row) h =
      elim (Bool-cases (is_old now delay row)) [
        | inl b ↦ rw b (
            inr (
              purged-Moves id now delay row.status row.lease_owner
                (sym h.2 ∙ old_ended row.finished_at b)))
        | inr b ↦ rw b (inl refl)
      ]
    where
      old_ended : (t : Option ℕ) → finished_before now delay t ≡ true → is_some t ≡ true
      old_ended none b = cc
      old_ended (some t) b = refl
  effect-Moves id (Statement.reclaimed now) none h = inl refl
  effect-Moves id (Statement.claimed owner until i) none h = inl refl
  effect-Moves id (Statement.progressed owner i progress message) none h = inl refl
  effect-Moves id (Statement.finished owner i now outcome) none h = inl refl
  effect-Moves id (Statement.extended owner until i) none h = inl refl
  effect-Moves id (Statement.cancelled now i) none h = inl refl
  effect-Moves id (Statement.progressed owner i progress message) (some row) h =
      if-Moves id _ _ _ row (λ b. inl refl)
  effect-Moves id (Statement.extended owner until i) (some row) h =
      if-Moves id _ _ _ row (λ b. inl refl)
  effect-Moves id (Statement.reclaimed now) (some row) h =
      if-Moves id _ (is_expired now row) (release row) row
        (λ b. inr (reclaimed-Moves id now row.status row.lease_owner (ground (arith, b))))
  effect-Moves id (Statement.claimed owner until i) (some row) h =
      if-Moves id _ (is_claimable i row) (lease owner until row) row (λ b.
        let e : i ≡ id = ground (arith, b, h.0, eq_iff row.id i) in
        rw e (inr (claimed-Moves id owner row.lease_owner until row.status (ground (arith, b)))))
  effect-Moves id (Statement.cancelled now i) (some row) h =
      if-Moves id _ (is_cancellable i row) (cancel_row now row) row (λ b.
        let e : i ≡ id = ground (arith, b, h.0, eq_iff row.id i) in
        rw e (inr (cancelled-Moves id now row.status row.lease_owner (ground (arith, b)))))
  effect-Moves id (Statement.finished owner i now outcome) (some row) h =
      if-Moves id _ (is_owned owner i row) (finish_row one now (status_of outcome) outcome row) row
        (λ b.
          let e : i ≡ id = ground (arith, b, h.0, eq_iff row.id i) in
          let o : row.lease_owner ≡ owner = ground (arith, b, eq_iff row.lease_owner owner) in
          rw (e, o) (inr (finished-Moves id owner now outcome row.status (ground (arith, b)))))

module _ {F S : Type 0} (db : Database F S) (zero one : F) (laws : IsDatabase db) where
  -- Whatever statements the runners that share a well-formed table have sent, in any order, the
  -- next statement of any runner leaves the state of each task as it is or makes one of the moves of
  -- the life of a task: pending or refused by ScheduleTask, running by a claim of a pending task,
  -- ended by the runner that has its lease, pending again by a reclaim of a running one, failed by a
  -- CancelTask of a live one, deleted once it has ended.
  pub perform-Moves :
      (sts : List (Statement F)) (st : Statement F) (id : String) (s : S)
      → SoundTable db zero one laws s
      → Moves zero one id st
          (view db id (perform_all db zero one sts s))
          (view db id (perform db zero one st (perform_all db zero one sts s)))
  perform-Moves sts st id s sound =
      let now = perform_all db zero one sts s in
      let h = perform_all-SoundTable db zero one laws sts s sound in
      elim (perform-view db zero one laws st now id h.0) [
        | inl same ↦ inl (ap phase same)
        | inr e ↦
            subst (Moves zero one id st (view db id now)) (sym e)
              (effect-Moves zero one id st _ (h.1 id))
      ]
