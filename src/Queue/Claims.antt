-- ===== src/Queue/Claims.antt =====
-- task/gorm/task_runner.go: claims and terminal states, whatever the runners that share the
-- database do and in whatever order.
use amoxtli.Common.{
  ◌≡◌, ◌≢◌, refl, ap, sym, ◌∙◌, ◌⊎◌, inl, inr, ℕ, String, true, false, Option, none, some, List,
  if◌then◌else◌, ◌=?◌, arith, subst, eq_iff,
}
use amoxtli.Common.Lists.{All}
use amoxtli.Common.Result.{Result, ok, err, ok-injective}
use amoxtli.Tasks.Invariant.{is_finished}
use amoxtli.Queue.{
  Row, Database, is_pending, is_claimable, lease, one_affected, claim, count_where, update_where,
  QueueError, find_row,
}
use amoxtli.Queue.Table.{
  Unique, find_row-id, map_row, one_where, count_where-find, find-update_where,
}
use amoxtli.Queue.Statements.{
  Statement, IsDatabase, Written, perform, perform_all, effect, view, one_affected-state,
}
use amoxtli.Queue.Effects.{perform-Unique, perform_all-Unique, perform_all-keeps}
use amoxtli.Queue.Rows.{
  schedules, reclaims, KeptOrGone, has_status, effect_ended, effect_absent, effect_claimed,
}

one_affected-true :
    {S : Type 0} (n : ℕ) (s : S) → (one_affected (ok n, s)).0 ≡ ok true → (n =? 1) ≡ true
one_affected-true n s h = ok-injective h

module _ {F : Type 0} where
  -- The row of a task that a claim by `owner` moves from one state to another.
  abbrev pub Won : String → ℕ → Option (Row F) → Option (Row F) → Type 0
  Won owner until v v' =
      (row : Row F) × (v ≡ some row)
      × (is_pending row.status ≡ true)
      × (v' ≡ some (lease owner until row))

  won :
      (owner : String) (until : ℕ) (id : String) (v v' : Option (Row F))
      → ((row : Row F) → v ≡ some row → row.id ≡ id)
      → one_where (λ r. is_pending r.status) v ≡ 1
      → v' ≡ map_row (λ r. if is_claimable id r then lease owner until r else r) v
      → Won owner until v v'
  won owner until id none v' i c e = absurd (omega (arith, c))
  won owner until id (some row) v' i c e =
      let p : is_pending row.status ≡ true = ground (arith, c) in
      (row, refl, p, ground (arith, e, p, i row refl, eq_iff row.id id))

module _ {F S : Type 0} (db : Database F S) (laws : IsDatabase db) where
  claim_result :
      (owner : String) (until : ℕ) (id : String) (s : S) (x : Result String ℕ × S)
      → Unique (db.rows s)
      → Written db
          (db.rows s)
          (update_where (is_claimable id) (lease owner until) (db.rows s))
          (count_where (is_claimable id) (db.rows s))
          x
      → (one_affected x).0 ≡ ok true
      → Won owner until (view db id s) (view db id x.1)
  claim_result owner until id s (err e, s') u w h = cc
  claim_result owner until id s (ok n, s') u w h =
      let c : n ≡ 1 = ground (arith, one_affected-true n s' h) in
      won owner until id (view db id s) (view db id s') (λ row e. find_row-id id (db.rows s) row e)
        (sym (count_where-find _ (db.rows s) id u) ∙ (sym w.0 ∙ c))
        (ap (find_row id) w.1 ∙ find-update_where _ _ (db.rows s) id (λ r. refl))

  pub claim-Won :
      (owner : String) (until : ℕ) (id : String) (s : S)
      → Unique (db.rows s)
      → (claim db owner until id s).0 ≡ ok true
      → Won owner until (view db id s) (view db id (claim db owner until id s).1)
  unfolding claim
  claim-Won owner until id s u h =
      let x = db.update (is_claimable id) (lease owner until) s in
      rw (one_affected-state x) (claim_result owner until id s x u (laws.updates _ _ s) h)

  module _ (zero one : F) where
    pub claim-Unique :
        (owner : String) (until : ℕ) (id : String) (s : S)
        → Unique (db.rows s)
        → Unique (db.rows (claim db owner until id s).1)
    unfolding perform
    claim-Unique owner until id s u =
        perform-Unique db zero one laws (Statement.claimed owner until id) s u

    -- Of two claims of a task that both win, a reclaim of expired leases or a new ScheduleTask of
    -- that task stands between: a run of other statements, of any runners, leaves it to the first.
    pub claim_once :
        (owner other id : String) (until until' : ℕ) (s : S) (sts : List (Statement F))
        → Unique (db.rows s)
        → (claim db owner until id s).0 ≡ ok true
        → All (λ st. (schedules id st ≡ false) × (reclaims st ≡ false)) sts
        → (claim db other until' id (perform_all db zero one sts (claim db owner until id s).1)).0
          ≢ ok true
    claim_once owner other id until until' s sts u h fit again =
        let u' = claim-Unique owner until id s u in
        let (row, e, p, e') = claim-Won owner until id s u h in
        let idle =
          perform_all-keeps db zero one laws id (λ v. has_status is_pending v ≡ false) _
            (λ st v f q. effect_claimed zero one id st v f q) sts _ u' fit (rw e' refl) in
        let (row', r, p', r') =
          claim-Won other until' id _ (perform_all-Unique db zero one laws sts _ u') again in
        let q : has_status is_pending (some row') ≡ false =
          subst (λ v. has_status is_pending v ≡ false) r idle in
        cc

    -- A task that has ended keeps its row as it is, whatever statements all the runners send, until
    -- the row is deleted or ScheduleTask saves a task of that identifier again.
    pub ended_stays :
        (id : String) (row : Row F) (s : S) (sts : List (Statement F))
        → Unique (db.rows s)
        → view db id s ≡ some row
        → is_finished row.status ≡ true
        → All (λ st. schedules id st ≡ false) sts
        → KeptOrGone row (view db id (perform_all db zero one sts s))
    ended_stays id row s sts u e h fit =
        perform_all-keeps db zero one laws id (KeptOrGone row) (λ st. schedules id st ≡ false)
          (λ st v f q. elim q [
            | inl a ↦
                subst (λ v. KeptOrGone row (effect zero one st id v)) (sym a)
                  (effect_ended zero one id row st h f)
            | inr a ↦ inr (ap (effect zero one st id) a ∙ effect_absent zero one id st f)
          ])
          sts s u fit (inl e)

  claim_value :
      (id : String) (s : S) (n : ℕ) (s' : S) (v : Option (Row F))
      → has_status is_pending v ≡ true
      → n ≡ one_where (λ r. is_pending r.status) v
      → (one_affected (ok n, s')).0 ≡ ok true
  claim_value id s n s' none p c = cc
  claim_value id s n s' (some row) p c = ap ok (ground (arith, p, c))

  claim_of_pending :
      (owner : String) (until : ℕ) (id : String) (s : S) (x : Result String ℕ × S)
      → Unique (db.rows s)
      → has_status is_pending (view db id s) ≡ true
      → Written db
          (db.rows s)
          (update_where (is_claimable id) (lease owner until) (db.rows s))
          (count_where (is_claimable id) (db.rows s))
          x
      → ((problem : QueueError) × ((one_affected x).0 ≡ err problem))
        ⊎ ((one_affected x).0 ≡ ok true)
  claim_of_pending owner until id s (err e, s') u p w = inl (QueueError.database_error e, refl)
  claim_of_pending owner until id s (ok n, s') u p w = inr (
      claim_value id s n s' (view db id s) p
        (w.0 ∙ count_where-find (λ r. is_pending r.status) (db.rows s) id u))

  -- The claim of a pending task wins, unless the database fails.
  pub claim_pending :
      (owner : String) (until : ℕ) (id : String) (s : S)
      → Unique (db.rows s)
      → has_status is_pending (view db id s) ≡ true
      → ((problem : QueueError) × ((claim db owner until id s).0 ≡ err problem))
        ⊎ ((claim db owner until id s).0 ≡ ok true)
  unfolding claim
  claim_pending owner until id s u p =
      claim_of_pending owner until id s (db.update (is_claimable id) (lease owner until) s) u p
        (laws.updates _ _ s)
