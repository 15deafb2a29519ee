-- ===== src/Queue/Admission.antt =====
-- task/gorm/task_runner.go: the room that ScheduleTask leaves in the queue, and the reads of a
-- task's state.
use amoxtli.Common.{
  ◌≡◌, refl, ap, ◌∙◌, ◌⊎◌, inl, inr, ◌≤◌, ◌<◌, ℕ, suc, String, Bool, true, false, List, [], ◌∷◌,
  arith, Bool-cases,
}
use amoxtli.Common.Int.{pos, at_least}
use amoxtli.Common.Lists.{keep}
use amoxtli.Common.Result.{Result, ok, err, ok-injective}
use amoxtli.Tasks.{Task}
use amoxtli.Queue.{
  Row, Database, QueueError, is_pending, find_row, found_row, has_id, count_where, unit_result,
  get_row, first_row, read_result, count_pending, save_row, schedule_as, upsert,
}
use amoxtli.Queue.Statements.{IsDatabase, Written, view}
use amoxtli.Queue.Runner.{
  Runner, World, reached, schedule_persistent, get_task_state, state_result, admit_task, store_task,
  refuse_task, schedule_when,
}

module _ {F : Type 0} where
  count_where-upsert :
      (p : Row F → Bool) (row : Row F) (rs : List (Row F))
      → count_where p (upsert row rs) ≤ suc (count_where p rs)
  count_where-upsert p row [] = ground arith
  count_where-upsert p row (r ∷ rs) = ground (arith, count_where-upsert p row rs)

  keep-find :
      (id : String) (rs : List (Row F))
      → first_row (ok (keep (has_id id) rs)) ≡ found_row (find_row id rs)
  keep-find id [] = refl
  keep-find id (r ∷ rs) = ground (arith, keep-find id rs)

read_ok : {A : Type 0} (x : Result String A) (a : A) → read_result x ≡ ok a → x ≡ ok a
read_ok (ok b) a h = ap ok (ok-injective h)
read_ok (err e) a h = cc

module _ {F S : Type 0} (db : Database F S) (zero one : F) (laws : IsDatabase db)
    (w : World F) where
  saved_count :
      (row : Row F) (s : S) (m : ℕ) (x : Result String ℕ × S)
      → Written db (db.rows s) (upsert row (db.rows s)) 1 x
      → count_where (λ r. is_pending r.status) (db.rows s) < m
      → count_where (λ r. is_pending r.status) (db.rows (unit_result x).1) ≤ m
  saved_count row s m (ok n, s') h lt =
      rw (h.1) (omega (arith, lt, count_where-upsert (λ r. is_pending r.status) row (db.rows s)))
  saved_count row s m (err e, s') h lt = rw h (omega (arith, lt))

  admitted_count :
      (now m : ℕ) (task : Task) (payload : String) (r : Runner) (s : S) (y : Result QueueError ℕ)
      → r.queue_size ≡ pos m
      → w.others 1 ≡ []
      → ((n : ℕ) → y ≡ ok n → n ≡ count_where (λ r. is_pending r.status) (db.rows s))
      → (admit_task db zero one w now task payload r s y).0 ≡ ok tt
      → count_where
          (λ r. is_pending r.status)
          (db.rows (admit_task db zero one w now task payload r s y).2)
        ≤ m
  unfolding admit_task store_task refuse_task save_row
  admitted_count now m task payload r s (err e) size quiet counted h = cc
  admitted_count now m task payload r s (ok n) size quiet counted h =
      elim (Bool-cases (at_least n r.queue_size)) [
        | inl full ↦
            let p : ◌≡◌ {A = Result QueueError (Unit {0})} (err QueueError.queue_full) (ok tt) =
              rw full at h in
            cc
        | inr room ↦
            let lt : n < m = ground (arith, room, size) in
            let row = schedule_as zero now task payload false in
            rw (room, quiet)
              (saved_count row s m (db.save row s) (laws.saves row s)
                (omega (arith, lt, counted n refl)))
      ]

  count_pending_read :
      (s : S) (n : ℕ)
      → count_pending db s ≡ ok n
      → n ≡ count_where (λ r. is_pending r.status) (db.rows s)
  unfolding count_pending
  count_pending_read s n h =
      laws.counts (λ r. is_pending r.status) s n
        (read_ok (db.count (λ r. is_pending r.status) s) n h)

  -- Where the runner is told to fail on a full queue, a ScheduleTask that returns no error leaves at
  -- most as many pending tasks as the size of the queue, provided that nothing else is sent between
  -- its count and its Save.
  pub schedule_bound :
      (task : Task) (payload : Result String String) (m : ℕ) (r : Runner) (s : S)
      → r.err_on_full ≡ true
      → r.queue_size ≡ pos m
      → w.others 1 ≡ []
      → (schedule_persistent db zero one w task payload r s).0 ≡ ok tt
      → count_where
          (λ row. is_pending row.status)
          (db.rows (schedule_persistent db zero one w task payload r s).2)
        ≤ m
  unfolding schedule_persistent schedule_when
  schedule_bound task (err e) m r s full size quiet h = cc
  schedule_bound task (ok payload) m r s full size quiet h = go r.err_on_full full h
    where
      s0 : S
      s0 = reached db zero one w 0 s

      go :
          (b : Bool)
          → b ≡ true
          → (schedule_when db zero one w b task payload r s).0 ≡ ok tt
          → count_where
              (λ row. is_pending row.status)
              (db.rows (schedule_when db zero one w b task payload r s).2)
            ≤ m
      go false e k = cc
      go true e k =
          admitted_count (w.clock 0) m task payload r s0 (count_pending db s0) size quiet
            (λ n c. count_pending_read s0 n c) k

  row_read :
      (id : String) (s : S) (y : Result String (List (Row F)))
      → ((found : List (Row F)) → y ≡ ok found → found ≡ keep (has_id id) (db.rows s))
      → (first_row y ≡ found_row (view db id s))
        ⊎ ((problem : String) × (first_row y ≡ err (QueueError.database_error problem)))
  row_read id s (err e) h = inr (e, refl)
  row_read id s (ok found) h =
      inl (ap (λ rs. first_row (ok rs)) (h found refl) ∙ keep-find id (db.rows s))

  -- GetTaskState returns the state of the task's row, or not found where it has none, unless the
  -- database fails.
  pub get_task_state_reads :
      (id : String) (s : S)
      → (get_task_state db id s ≡ state_result (found_row (view db id s)))
        ⊎ ((problem : String) × (get_task_state db id s ≡ err (QueueError.database_error problem)))
  unfolding get_task_state get_row
  get_task_state_reads id s =
      elim (row_read id s (db.query (has_id id) s)
        (λ found e. laws.queries (has_id id) s found e)) [
          | inl e ↦ inl (ap state_result e)
          | inr (problem, e) ↦ inr (problem, ap state_result e)
        ]
