-- ===== src/Queue/Leases.antt =====
-- task/gorm/task_runner.go: leases, and the tasks of runners that crashed.
use amoxtli.Common.{
  ◌≡◌, refl, ap, ◌∙◌, ◌⊎◌, ℕ, String, Bool, true, false, not, Option, none, some, List, [], ◌∷◌,
  if◌then◌else◌, ◌==◌, ltb, arith, subst, eq_iff, is_some,
}
use amoxtli.Common.Lists.{All}
use amoxtli.Common.Result.{Result, ok, err}
use amoxtli.Tasks.{Status}
use amoxtli.Tasks.Invariant.{is_finished}
use amoxtli.Queue.{
  Row, Database, is_pending, is_running, lease, release, claim, count_where, update_where,
  QueueError, find_row, reclaim_expired, is_expired, unit_result,
}
use amoxtli.Queue.Table.{map_row, find-update_where}
use amoxtli.Queue.Statements.{Statement, IsDatabase, Written, perform, perform_all, effect, view}
use amoxtli.Queue.Effects.{perform_all-Unique, perform_all-keeps}
use amoxtli.Queue.Rows.{foreign, has_status, effect-foreign}
use amoxtli.Queue.Claims.{claim-Won, claim-Unique, claim_pending}
use amoxtli.Queue.Lifecycle.{
  SoundView, SoundTable, effect-SoundView, live-unended, perform_all-SoundTable,
}

module _ {F : Type 0} where
  -- whether a statement leaves a pending task of that identifier pending: it is not a claim, a
  -- CancelTask or a ScheduleTask of it
  abbrev pub leaves_pending : String → Statement F → Bool
  leaves_pending id (Statement.saved now task payload full) = not (task.id == id)
  leaves_pending id (Statement.claimed owner until i) = not (i == id)
  leaves_pending id (Statement.cancelled now i) = not (i == id)
  leaves_pending id st = true

  abbrev pub PendingView : String → Option (Row F) → Type 0
  PendingView id v = (has_status is_pending v ≡ true) × SoundView id v

none_of : {A : Type 0} (v : Option A) → is_some v ≡ false → v ≡ none
none_of none h = refl
none_of (some a) h = cc

running_of : (status : Status) → is_running status ≡ true → status ≡ Status.running
running_of Status.running h = refl
running_of Status.unset h = cc
running_of Status.pending h = cc
running_of Status.succeeded h = cc
running_of Status.failed h = cc

pending-unended : (status : Status) → is_pending status ≡ true → is_finished status ≡ false
pending-unended status h = live-unended status (ground (arith, h))

pending-not_running : (status : Status) → is_pending status ≡ true → is_running status ≡ false
pending-not_running Status.pending h = refl
pending-not_running Status.unset h = cc
pending-not_running Status.running h = cc
pending-not_running Status.succeeded h = cc
pending-not_running Status.failed h = cc

module _ {F : Type 0} (zero one : F) where
  effect_pending :
      (id : String) (st : Statement F) (v : Option (Row F))
      → leaves_pending id st ≡ true
      → PendingView id v
      → has_status is_pending (effect zero one st id v) ≡ true
  effect_pending id st none f h = cc
  effect_pending id (Statement.saved now task payload full) (some row) f h = ground (arith, f, h.0)
  effect_pending id (Statement.purged now delay) (some row) f h =
      let e : row.finished_at ≡ none =
        none_of row.finished_at (h.1.2 ∙ pending-unended row.status h.0) in
      rw e h.0
  effect_pending id (Statement.reclaimed now) (some row) f h = ground (arith, h.0)
  effect_pending id (Statement.claimed owner until i) (some row) f h =
      ground (arith, f, h.0, h.1, eq_iff row.id i, eq_iff i id)
  effect_pending id (Statement.progressed owner i progress message) (some row) f h =
      ground (arith, h.0)
  effect_pending id (Statement.finished owner i now outcome) (some row) f h =
      ground (arith, h.0, pending-not_running row.status h.0)
  effect_pending id (Statement.extended owner until i) (some row) f h = ground (arith, h.0)
  effect_pending id (Statement.cancelled now i) (some row) f h =
      ground (arith, f, h.0, h.1, eq_iff row.id i, eq_iff i id)

module _ {F S : Type 0} (db : Database F S) (zero one : F) (laws : IsDatabase db) where
  -- A runner that has claimed a task of a well-formed table has it to itself while the lease lasts:
  -- as long as no reclaim comes after the lease's end, the task is not cancelled or scheduled again,
  -- and other runners have other owners, its row is what the claim wrote, whatever they send.
  pub lease_exclusive :
      (owner id : String) (until : ℕ) (s : S) (sts : List (Statement F))
      → SoundTable db zero one laws s
      → (claim db owner until id s).0 ≡ ok true
      → All (λ st. foreign owner id until st ≡ true) sts
      → (row : Row F) × (view db id s ≡ some row)
        × (is_pending row.status ≡ true)
        × (view db id (perform_all db zero one sts (claim db owner until id s).1)
            ≡ some (lease owner until row))
  lease_exclusive owner id until s sts sound h fit =
      let (row, e, p, e') = claim-Won db laws owner until id s sound.0 h in
      let ours : Row F = lease owner until row in
      let row_sound : SoundView id (some row) = subst (SoundView id) e (sound.1 id) in
      let unended : row.finished_at ≡ none =
        none_of row.finished_at (row_sound.2 ∙ pending-unended row.status p) in
      (
        row,
        e,
        p,
        perform_all-keeps db zero one laws id (λ v. v ≡ some ours)
            (λ st. foreign owner id until st ≡ true)
            (λ st v f q.
              ap (effect zero one st id) q
              ∙ effect-foreign zero one id ours until st row_sound.0 refl unended refl f)
            sts _ (claim-Unique db laws zero one owner until id s sound.0) fit e',
      )

  update_result :
      (p : Row F → Bool) (f : Row F → Row F) (id : String) (s : S) (x : Result String ℕ × S)
      → ((r : Row F) → (f r).id ≡ r.id)
      → Written db (db.rows s) (update_where p f (db.rows s)) (count_where p (db.rows s)) x
      → (unit_result x).0 ≡ ok tt
      → view db id (unit_result x).1 ≡ map_row (λ r. if p r then f r else r) (view db id s)
  update_result p f id s (err e, s') keeps w h = cc
  update_result p f id s (ok n, s') keeps w h =
      ap (find_row id) w.1 ∙ find-update_where p f (db.rows s) id keeps

  pub reclaim-view :
      (now : ℕ) (id : String) (s : S)
      → (reclaim_expired db now s).0 ≡ ok tt
      → view db id (reclaim_expired db now s).1
        ≡ map_row (λ r. if is_expired now r then release r else r) (view db id s)
  unfolding reclaim_expired
  reclaim-view now id s h =
      update_result (is_expired now) release id s (db.update (is_expired now) release s) (λ r. refl)
        (laws.updates _ _ s) h

  reclaim-SoundTable :
      (now : ℕ) (s : S)
      → SoundTable db zero one laws s
      → SoundTable db zero one laws (reclaim_expired db now s).1
  unfolding perform
  reclaim-SoundTable now s h =
      perform_all-SoundTable db zero one laws (Statement.reclaimed now ∷ []) s h

  -- The task of a runner that crashed is run again. In a well-formed table, once the lease of a
  -- running task has ended and a runner's reclaim has succeeded, the task is pending, and it stays so
  -- whatever statements come, the crashed runner's late ones among them, but for a claim, a
  -- CancelTask or a ScheduleTask of it; the next claim of it wins, unless the database fails.
  pub crash_recovers :
      (owner id : String) (until now deadline : ℕ) (row : Row F) (s : S) (sts : List (Statement F))
      → SoundTable db zero one laws s
      → view db id s ≡ some row
      → is_running row.status ≡ true
      → row.lease_until ≡ some deadline
      → ltb deadline now ≡ true
      → (reclaim_expired db now s).0 ≡ ok tt
      → All (λ st. leaves_pending id st ≡ true) sts
      → (has_status is_pending
            (view db id (perform_all db zero one sts (reclaim_expired db now s).1))
          ≡ true)
        × (((problem : QueueError) × ((claim db owner until id
                  (perform_all db zero one sts (reclaim_expired db now s).1)).0
                ≡ err problem))
            ⊎ ((claim db owner until id
                  (perform_all db zero one sts (reclaim_expired db now s).1)).0
                ≡ ok true))
  crash_recovers owner id until now deadline row s sts sound e r l late h fit =
      let s' = (reclaim_expired db now s).1 in
      let sound' = reclaim-SoundTable now s sound in
      let x : is_expired now row ≡ true = rw (r, l) late in
      let back : has_status is_pending (view db id s') ≡ true =
        rw (reclaim-view now id s h, e, x) refl in
      let (after, still) =
        perform_all-keeps db zero one laws id (PendingView id) (λ st. leaves_pending id st ≡ true)
          (λ st v f q. (effect_pending zero one id st v f q, effect-SoundView zero one id st v q.1))
          sts s' sound'.0 fit (back, sound'.1 id) in
      (
        after,
        claim_pending db laws owner until id _ (perform_all-Unique db zero one laws sts s' sound'.0)
            after,
      )
