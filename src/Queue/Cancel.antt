-- ===== src/Queue/Cancel.antt =====
-- task/gorm/task_runner.go: a task that CancelTask has cancelled.
use amoxtli.Common.{
  ◌≡◌, ◌≢◌, refl, ap, inl, inr, ℕ, String, Bool, true, false, ◌||◌, Option, none, some, List,
  if◌then◌else◌, arith, subst, Bool-cases, eq_iff,
}
use amoxtli.Common.Lists.{All}
use amoxtli.Common.Result.{Result, ok, err}
use amoxtli.Tasks.{Status, is_live}
use amoxtli.Queue.{
  Row, Database, QueueError, is_pending, is_running, is_cancellable, cancel_row, claim,
  mark_canceled, find_row, count_where, update_where, unit_result, get_row,
}
use amoxtli.Queue.Table.{Unique, find-update_where, find_row-id, map_row}
use amoxtli.Queue.Statements.{Statement, IsDatabase, Written, perform, perform_all, effect, view}
use amoxtli.Queue.Effects.{perform-Unique, perform_all-Unique, perform_all-keeps}
use amoxtli.Queue.Rows.{schedules, has_status, effect_absent}
use amoxtli.Queue.Claims.{claim-Won}
use amoxtli.Queue.Runner.{Runner, World, reached, cancel_found, after_cancel, cancel_persistent}

-- whether a row is one that a worker may still start or finish
abbrev pub live_view : {F : Type 0} → Option (Row F) → Bool
live_view v = has_status is_live v

idle :
    (status : Status)
    → is_live status ≡ false
    → (is_pending status ≡ false) × (is_running status ≡ false)
idle Status.unset h = (refl, refl)
idle Status.succeeded h = (refl, refl)
idle Status.failed h = (refl, refl)
idle Status.pending h = cc
idle Status.running h = cc

live_split : (status : Status) → is_live status ≡ (is_pending status || is_running status)
live_split Status.unset = refl
live_split Status.succeeded = refl
live_split Status.failed = refl
live_split Status.pending = refl
live_split Status.running = refl

module _ {F : Type 0} (zero one : F) where
  -- without a ScheduleTask of it, a task that is not live stays so
  effect_not_live :
      (id : String) (st : Statement F) (v : Option (Row F))
      → schedules id st ≡ false
      → live_view v ≡ false
      → live_view (effect zero one st id v) ≡ false
  effect_not_live id st none a h = rw (effect_absent zero one id st a) refl
  effect_not_live id (Statement.saved now task payload full) (some row) a h = ground (arith, a, h)
  effect_not_live id (Statement.purged now delay) (some row) a h = ground (arith, h)
  effect_not_live id (Statement.reclaimed now) (some row) a h =
      ground (arith, h, (idle row.status h).1)
  effect_not_live id (Statement.claimed owner until i) (some row) a h =
      ground (arith, h, (idle row.status h).0)
  effect_not_live id (Statement.progressed owner i progress message) (some row) a h =
      ground (arith, h)
  effect_not_live id (Statement.finished owner i now none) (some row) a h = ground (arith, h)
  effect_not_live id (Statement.finished owner i now (some problem)) (some row) a h =
      ground (arith, h)
  effect_not_live id (Statement.extended owner until i) (some row) a h = ground (arith, h)
  effect_not_live id (Statement.cancelled now i) (some row) a h = ground (arith, h)

  cancelled_view :
      (now : ℕ) (id : String) (v : Option (Row F))
      → ((row : Row F) → v ≡ some row → row.id ≡ id)
      → live_view (map_row (λ r. if is_cancellable id r then cancel_row now r else r) v) ≡ false
  cancelled_view now id none i = refl
  cancelled_view now id (some row) i =
      ground (arith, i row refl, eq_iff row.id id, live_split row.status)

module _ {F S : Type 0} (db : Database F S) (zero one : F) (laws : IsDatabase db)
    (w : World F) where
  mark_result :
      (now : ℕ) (id : String) (s : S) (x : Result String ℕ × S)
      → Written db
          (db.rows s)
          (update_where (is_cancellable id) (cancel_row now) (db.rows s))
          (count_where (is_cancellable id) (db.rows s))
          x
      → (unit_result x).0 ≡ ok tt
      → live_view (view db id (unit_result x).1) ≡ false
  mark_result now id s (err e, s') h p = cc
  mark_result now id s (ok n, s') h p =
      rw
        (
          ap (find_row id) h.1,
          find-update_where (is_cancellable id) (cancel_row now) (db.rows s) id (λ r. refl),
        )
        (cancelled_view zero one now id (view db id s) (λ row e. find_row-id id (db.rows s) row e))

  marked :
      (now : ℕ) (id : String) (s : S)
      → (mark_canceled db now id s).0 ≡ ok tt
      → live_view (view db id (mark_canceled db now id s).1) ≡ false
  unfolding mark_canceled
  marked now id s h = mark_result now id s _ (laws.updates _ _ s) h

  after_ok :
      (id : String) (r : Runner) (x : Result QueueError (Unit {0}) × S)
      → (after_cancel db zero one w id r x).0 ≡ ok tt
      → (x.0 ≡ ok tt) × ((after_cancel db zero one w id r x).2 ≡ x.1)
  after_ok id r (err e, s) h = cc
  after_ok id r (ok tt, s) h = (refl, refl)

  after_state :
      (id : String) (r : Runner) (x : Result QueueError (Unit {0}) × S)
      → (after_cancel db zero one w id r x).2 ≡ x.1
  after_state id r (err e, s) = refl
  after_state id r (ok tt, s) = refl

  found_result :
      (id : String) (r : Runner) (s : S) (x : Result QueueError (Row F))
      → (cancel_found db zero one w id r x s).0 ≡ ok tt
      → live_view (view db id (cancel_found db zero one w id r x s).2) ≡ false
  found_result id r s (err e) h = cc
  found_result id r s (ok row) h = elim (Bool-cases (is_live row.status)) [
    | inl live ↦
        let x = mark_canceled db (w.clock 1) id (reached db zero one w 1 s) in
        let p : (after_cancel db zero one w id r x).0 ≡ ok tt = rw live at h in
        let (q, e) = after_ok id r x p in
        rw (live, e) (marked (w.clock 1) id (reached db zero one w 1 s) q)
    | inr over ↦
        let p : ◌≡◌ {A = Result QueueError (Unit {0})} (err QueueError.canceled) (ok tt) =
          rw over at h in
        cc
  ]

  cancel_result :
      (id : String) (r : Runner) (s : S)
      → (cancel_persistent db zero one w id r s).0 ≡ ok tt
      → live_view (view db id (cancel_persistent db zero one w id r s).2) ≡ false
  unfolding cancel_persistent
  cancel_result id r s h =
      found_result id r (reached db zero one w 0 s) (get_row db id (reached db zero one w 0 s)) h

  cancel_found-Unique :
      (id : String) (r : Runner) (s : S) (x : Result QueueError (Row F))
      → Unique (db.rows s)
      → Unique (db.rows (cancel_found db zero one w id r x s).2)
  unfolding perform
  cancel_found-Unique id r s (err e) u = u
  cancel_found-Unique id r s (ok row) u = elim (Bool-cases (is_live row.status)) [
    | inl live ↦
        let x = mark_canceled db (w.clock 1) id (reached db zero one w 1 s) in
        rw (live, after_state id r x)
          (perform-Unique db zero one laws (Statement.cancelled (w.clock 1) id) _
            (perform_all-Unique db zero one laws (w.others 1) s u))
    | inr over ↦ rw over u
  ]

  cancel-Unique :
      (id : String) (r : Runner) (s : S)
      → Unique (db.rows s)
      → Unique (db.rows (cancel_persistent db zero one w id r s).2)
  unfolding cancel_persistent
  cancel-Unique id r s u =
      cancel_found-Unique id r _ (get_row db id (reached db zero one w 0 s))
        (perform_all-Unique db zero one laws (w.others 0) s u)

  -- After a CancelTask that returned no error, whatever other runners sent between its read and its
  -- update, the task is neither pending nor running, and stays so whatever statements come, until a
  -- ScheduleTask of that identifier: no claim of it wins.
  pub cancel_final :
      (id owner : String) (until : ℕ) (r : Runner) (s : S) (sts : List (Statement F))
      → Unique (db.rows s)
      → (cancel_persistent db zero one w id r s).0 ≡ ok tt
      → All (λ st. schedules id st ≡ false) sts
      → (live_view
            (view db id (perform_all db zero one sts (cancel_persistent db zero one w id r s).2))
          ≡ false)
        × ((claim db owner until id
              (perform_all db zero one sts (cancel_persistent db zero one w id r s).2)).0
            ≢ ok true)
  cancel_final id owner until r s sts u h fit =
      let u1 = cancel-Unique id r s u in
      let after =
        perform_all-keeps db zero one laws id (λ v. live_view v ≡ false)
          (λ st. schedules id st ≡ false) (λ st v f q. effect_not_live zero one id st v f q) sts _
          u1 fit (cancel_result id r s h) in
      (
        after,
        λ won.
            let (row, e, p, e') =
              claim-Won db laws owner until id _ (perform_all-Unique db zero one laws sts _ u1)
                won in
            let q : is_live row.status ≡ false = subst (λ v. live_view v ≡ false) e after in
            cc ((idle row.status q).0),
      )
