-- ===== src/Queue/Rows.antt =====
-- task/gorm/task_runner.go: what a statement does to the row of one task, by the state of the row.
use amoxtli.Common.{
  ◌≡◌, refl, ◌⊎◌, inl, inr, ℕ, String, Bool, true, false, not, ◌||◌, Option, none, some, ◌==◌, ltb,
  arith, Bool-cases, eq_iff,
}
use amoxtli.Tasks.{Status}
use amoxtli.Tasks.Invariant.{is_finished}
use amoxtli.Queue.{Row, is_pending, is_running, finished_before}
use amoxtli.Queue.Statements.{Statement, effect}

module _ {F : Type 0} where
  -- whether a statement is the Save of ScheduleTask for the task of an identifier
  abbrev pub schedules : String → Statement F → Bool
  schedules id (Statement.saved now task payload full) = task.id == id
  schedules id st = false

  abbrev pub reclaims : Statement F → Bool
  reclaims (Statement.reclaimed now) = true
  reclaims st = false

  -- whether a statement is not one of a runner's own lease, and comes before the lease's end
  abbrev pub foreign : String → String → ℕ → Statement F → Bool
  foreign owner id until (Statement.saved now task payload full) = not (task.id == id)
  foreign owner id until (Statement.reclaimed now) = not (ltb until now)
  foreign owner id until (Statement.claimed other t i) = true
  foreign owner id until (Statement.progressed other i progress message) =
      not (other == owner) || not (i == id)
  foreign owner id until (Statement.finished other i now outcome) =
      not (other == owner) || not (i == id)
  foreign owner id until (Statement.extended other t i) = not (other == owner) || not (i == id)
  foreign owner id until (Statement.cancelled now i) = not (i == id)
  foreign owner id until (Statement.purged now delay) = true

  abbrev pub KeptOrGone : Row F → Option (Row F) → Type 0
  KeptOrGone row v = (v ≡ some row) ⊎ (v ≡ none)

  abbrev pub has_status : (Status → Bool) → Option (Row F) → Bool
  has_status p none = false
  has_status p (some row) = p row.status

pub finished-idle :
    (status : Status)
    → is_finished status ≡ true
    → (is_pending status ≡ false) × (is_running status ≡ false)
finished-idle Status.succeeded h = (refl, refl)
finished-idle Status.failed h = (refl, refl)
finished-idle Status.unset h = cc
finished-idle Status.pending h = cc
finished-idle Status.running h = cc

running-not_pending : (status : Status) → is_running status ≡ true → is_pending status ≡ false
running-not_pending Status.running h = refl
running-not_pending Status.succeeded h = cc
running-not_pending Status.failed h = cc
running-not_pending Status.unset h = cc
running-not_pending Status.pending h = cc

module _ {F : Type 0} (zero one : F) where
  pub effect_ended :
      (id : String) (row : Row F) (st : Statement F)
      → is_finished row.status ≡ true
      → schedules id st ≡ false
      → KeptOrGone row (effect zero one st id (some row))
  effect_ended id row (Statement.saved now task payload full) h a = inl (ground (arith, a))
  effect_ended id row (Statement.purged now delay) h a =
      elim (Bool-cases (finished_before now delay row.finished_at)) [
        | inl b ↦ inr (rw b refl)
        | inr b ↦ inl (rw b refl)
      ]
  effect_ended id row (Statement.reclaimed now) h a =
      inl (ground (arith, (finished-idle row.status h).1))
  effect_ended id row (Statement.claimed owner until i) h a =
      inl (ground (arith, (finished-idle row.status h).0))
  effect_ended id row (Statement.progressed owner i progress message) h a =
      inl (ground (arith, (finished-idle row.status h).1))
  effect_ended id row (Statement.finished owner i now outcome) h a =
      inl (ground (arith, (finished-idle row.status h).1))
  effect_ended id row (Statement.extended owner until i) h a =
      inl (ground (arith, (finished-idle row.status h).1))
  effect_ended id row (Statement.cancelled now i) h a =
      inl (ground (arith, (finished-idle row.status h)))

  pub effect_absent :
      (id : String) (st : Statement F) → schedules id st ≡ false → effect zero one st id none ≡ none
  effect_absent id (Statement.saved now task payload full) a = ground (arith, a)
  effect_absent id (Statement.purged now delay) a = refl
  effect_absent id (Statement.reclaimed now) a = refl
  effect_absent id (Statement.claimed owner until i) a = refl
  effect_absent id (Statement.progressed owner i progress message) a = refl
  effect_absent id (Statement.finished owner i now outcome) a = refl
  effect_absent id (Statement.extended owner until i) a = refl
  effect_absent id (Statement.cancelled now i) a = refl

  -- a row that is not pending stays so without a reclaim
  pub effect_claimed :
      (id : String) (st : Statement F) (v : Option (Row F))
      → (schedules id st ≡ false) × (reclaims st ≡ false)
      → has_status is_pending v ≡ false
      → has_status is_pending (effect zero one st id v) ≡ false
  effect_claimed id st none a h = rw (effect_absent id st a.0) refl
  effect_claimed id (Statement.saved now task payload full) (some row) a h = ground (arith, a.0, h)
  effect_claimed id (Statement.purged now delay) (some row) a h = ground (arith, h)
  effect_claimed id (Statement.reclaimed now) (some row) a h = cc
  effect_claimed id (Statement.claimed owner until i) (some row) a h = ground (arith, h)
  effect_claimed id (Statement.progressed owner i progress message) (some row) a h =
      ground (arith, h)
  effect_claimed id (Statement.finished owner i now none) (some row) a h = ground (arith, h)
  effect_claimed id (Statement.finished owner i now (some problem)) (some row) a h =
      ground (arith, h)
  effect_claimed id (Statement.extended owner until i) (some row) a h = ground (arith, h)
  effect_claimed id (Statement.cancelled now i) (some row) a h = ground (arith, h)

  -- the row under a lease is its owner's until the lease ends
  pub effect-foreign :
      (id : String) (row : Row F) (until : ℕ) (st : Statement F)
      → row.id ≡ id
      → row.status ≡ Status.running
      → row.finished_at ≡ none
      → row.lease_until ≡ some until
      → foreign row.lease_owner id until st ≡ true
      → effect zero one st id (some row) ≡ some row
  effect-foreign id row until (Statement.saved now task payload full) i r n l a = ground (arith, a)
  effect-foreign id row until (Statement.purged now delay) i r n l a = rw n refl
  effect-foreign id row until (Statement.reclaimed now) i r n l a = rw (r, l) (ground (arith, a))
  effect-foreign id row until (Statement.claimed owner t k) i r n l a = rw r (ground arith)
  effect-foreign id row until (Statement.progressed owner k progress message) i r n l a = rw r (
      ground (
        arith,
        a,
        i,
        eq_iff row.lease_owner owner,
        eq_iff owner row.lease_owner,
        eq_iff row.id k,
        eq_iff k id,
      ))
  effect-foreign id row until (Statement.finished owner k now outcome) i r n l a = rw r (
      ground (
        arith,
        a,
        i,
        eq_iff row.lease_owner owner,
        eq_iff owner row.lease_owner,
        eq_iff row.id k,
        eq_iff k id,
      ))
  effect-foreign id row until (Statement.extended owner t k) i r n l a = rw r (
      ground (
        arith,
        a,
        i,
        eq_iff row.lease_owner owner,
        eq_iff owner row.lease_owner,
        eq_iff row.id k,
        eq_iff k id,
      ))
  effect-foreign id row until (Statement.cancelled now k) i r n l a =
      ground (arith, a, i, eq_iff row.id k, eq_iff k id)
