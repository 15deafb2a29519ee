-- ===== src/Queue/Methods.antt =====
-- task/gorm/task_runner.go: what claimNext does to the table, with the statements of others
-- between its own.
use amoxtli.Common.{
  ◌≡◌, refl, ap, sym, ◌∙◌, ◌⊎◌, inl, inr, ◌≤◌, ℕ, suc, ◌+◌, ◌-◌, String, Bool, true, false, Option,
  some, List, [], ◌∷◌, arith, subst,
}
use amoxtli.Common.Lists.{All, All-map_of, keep}
use amoxtli.Common.Result.{Result, ok, err, ok-injective}
use amoxtli.Tasks.{Task, Status}
use amoxtli.Queue.{Row, Database, QueueError, is_pending, lease, claim, find_row}
use amoxtli.Queue.Table.{Unique, find_row-All}
use amoxtli.Queue.Statements.{Statement, OldestFirst, IsDatabase, perform, view}
use amoxtli.Queue.Effects.{perform_all-Unique}
use amoxtli.Queue.Rows.{has_status}
use amoxtli.Queue.Claims.{claim-Won, claim-Unique, claim_pending}
use amoxtli.Queue.Runner.{
  batch, Runner, World, reached, rebuild, claim_loop, claim_from, claim_by, claim_next, if_claimed,
  if_rebuilt, is_candidate,
}

batch_positive : (parallelism : ℕ) → suc (batch parallelism - 1) ≡ batch parallelism
batch_positive parallelism = ground arith

option_injective : {A : Type 0} {a b : A} → ◌≡◌ {A = Option A} (some a) (some b) → a ≡ b
option_injective h = cc

module _ {F S : Type 0} (db : Database F S) (zero one : F) (laws : IsDatabase db)
    (w : World F) where
  -- A row that is running under the lease of a claim, and as before in all else that a task is.
  abbrev pub LeasedFrom : Runner → ℕ → Row F → Row F → Type 0
  LeasedFrom r n held after =
      (after.status ≡ Status.running)
      × (after.lease_owner ≡ r.owner)
      × (after.lease_until ≡ some (w.clock n + r.lease_duration))
      × (after.id ≡ held.id)
      × (after.kind ≡ held.kind)
      × (after.payload ≡ held.payload)
      × (after.scheduled_at ≡ held.scheduled_at)

  -- The task of a row that meets a condition and that a runner holds, with the lease that its claim
  -- wrote on the pending row.
  abbrev pub Taken : (Row F → Type 0) → Runner → Task → S → Type 0
  Taken P r task s =
      (row : Row F) × P row
      × (rebuild r row.id row.kind row.payload ≡ ok task)
      × ((held : Row F) × (after : Row F) × (n : ℕ) × (is_pending held.status ≡ true)
          × (view db row.id s ≡ some after)
          × LeasedFrom r n held after)

  after_claim :
      (P : Row F → Type 0) (r : Runner) (y : Result QueueError Bool) (s : S)
      (lost won : S → Result QueueError (Option Task) × S) (task : Task)
      {x : Result QueueError Bool}
      → (x ≡ ok false → (lost s).0 ≡ ok (some task) → Taken P r task (lost s).1)
      → (x ≡ ok true → (won s).0 ≡ ok (some task) → Taken P r task (won s).1)
      → x ≡ y
      → (if_claimed y s lost won).0 ≡ ok (some task)
      → Taken P r task (if_claimed y s lost won).1
  after_claim P r (err e) s lost won task f g p h = cc
  after_claim P r (ok false) s lost won task f g p h = f p h
  after_claim P r (ok true) s lost won task f g p h = g p h

  after_rebuild :
      (P : Row F → Type 0) (r : Runner) (y : Result String Task) (s : S)
      (failed : String → Result QueueError (Option Task) × S) (task : Task)
      → (y ≡ ok task → Taken P r task s)
      → ((problem : String)
          → (failed problem).0 ≡ ok (some task)
          → Taken P r task (failed problem).1)
      → (if_rebuilt y s failed).0 ≡ ok (some task)
      → Taken P r task (if_rebuilt y s failed).1
  after_rebuild P r (ok t) s failed task f g h = f (ap ok (option_injective (ok-injective h)))
  after_rebuild P r (err problem) s failed task f g h = g problem h

  pub claim_loop_owned :
      (P : Row F → Type 0) (r : Runner) (n : ℕ) (rows : List (Row F)) (s : S) (task : Task)
      → Unique (db.rows s)
      → All P rows
      → (claim_loop db zero one w r n rows s).0 ≡ ok (some task)
      → Taken P r task (claim_loop db zero one w r n rows s).1
  unfolding claim_loop perform
  claim_loop_owned P r n [] s task u all h = cc
  claim_loop_owned P r n (row ∷ rows) s task u all h =
      let s0 = reached db zero one w n s in
      let u0 = perform_all-Unique db zero one laws (w.others n) s u in
      let until = w.clock n + r.lease_duration in
      let x = claim db r.owner until row.id s0 in
      let u1 = claim-Unique db laws zero one r.owner until row.id s0 u0 in
      after_claim P r x.0 x.1 _ _ task
        (λ p q. claim_loop_owned P r (suc n) rows x.1 task u1 all.1 q)
        (λ p q.
          after_rebuild P r (rebuild r row.id row.kind row.payload) x.1 _ task
            (λ e.
              let (held, a, b, c) = claim-Won db laws r.owner until row.id s0 u0 p in
              (
                row,
                all.0,
                e,
                (
                  held,
                  lease r.owner until held,
                  n,
                  b,
                  c,
                  (refl, refl, refl, refl, refl, refl, refl),
                ),
              ))
            (λ problem q'.
              claim_loop_owned P r (suc (suc n)) rows _ task
                (perform_all-Unique db zero one laws
                  (Statement.finished r.owner row.id (w.clock (suc n)) (some problem) ∷ []) _
                  (perform_all-Unique db zero one laws (w.others (suc n)) x.1 u1))
                all.1 q')
            q)
        refl h

  -- A row of the table as it is given, pending and of a type with a handler.
  abbrev pub Selected : Runner → S → Row F → Type 0
  Selected r s row = (view db row.id s ≡ some row) × (is_candidate r.handlers row ≡ true)

  -- Whatever other runners send between the statements of a claimNext, where it returns a task, that
  -- is the task that rebuild gives for the identifier, the type and the payload of a row that was
  -- pending and of a type with a handler in the table that claimNext queried, and the table ends with
  -- that row as a claim of this runner has written it: running under its lease, pending before.
  pub claim_next_owned :
      (r : Runner) (s : S) (task : Task)
      → Unique (db.rows s)
      → (claim_next db zero one w r s).0 ≡ ok (some task)
      → Taken (Selected r (reached db zero one w 0 s)) r task (claim_next db zero one w r s).1
  unfolding claim_next claim_by
  claim_next_owned r s task u h = go r.handlers h
    where
      s0 : S
      s0 = reached db zero one w 0 s

      u0 : Unique (db.rows s0)
      u0 = perform_all-Unique db zero one laws (w.others 0) s u

      Picked : List String → Row F → Type 0
      Picked kinds row = (view db row.id s0 ≡ some row) × (is_candidate kinds row ≡ true)

      from :
          (kinds : List String) (found : Result String (List (Row F)))
          → ((rows : List (Row F)) → found ≡ ok rows → All (Picked kinds) rows)
          → (claim_from db zero one w r found s0).0 ≡ ok (some task)
          → Taken (Picked kinds) r task (claim_from db zero one w r found s0).1
      from kinds (err e) good h = cc
      from kinds (ok rows) good h =
          claim_loop_owned (Picked kinds) r 1 rows _ task u0 (good rows refl) h

      picked :
          (kinds : List String) (rows : List (Row F))
          → db.oldest (is_candidate kinds) (some (batch r.parallelism)) s0 ≡ ok rows
          → All (Picked kinds) rows
      picked kinds rows e =
          All-map_of _ (Picked kinds) rows (λ row p. (p.1, p.0))
            (laws.oldests (is_candidate kinds) (batch r.parallelism - 1) s0 rows u0 (
              ap (λ n. db.oldest (is_candidate kinds) (some n) s0) (batch_positive r.parallelism)
              ∙ e)).0

      go :
          (kinds : List String)
          → (claim_by db zero one w kinds r s).0 ≡ ok (some task)
          → Taken (Picked kinds) r task (claim_by db zero one w kinds r s).1
      go [] h = cc
      go (kind ∷ kinds) h = from (kind ∷ kinds) _ (picked (kind ∷ kinds)) h

module _ {F S : Type 0} (db : Database F S) (zero one : F) (laws : IsDatabase db)
    (w : World F) where
  rebuilt :
      (r : Runner) (y : Result String Task) (s : S)
      (failed : String → Result QueueError (Option Task) × S) (task task' : Task)
      → y ≡ ok task'
      → (if_rebuilt y s failed).0 ≡ ok (some task)
      → task' ≡ task
  rebuilt r (ok t) s failed task task' e h =
      sym (ok-injective e) ∙ option_injective (ok-injective h)
  rebuilt r (err problem) s failed task task' e h = cc

  first_claimed :
      (r : Runner) (y : Result QueueError Bool) (s : S)
      (lost won : S → Result QueueError (Option Task) × S) (task : Task)
      → ((problem : QueueError) × (y ≡ err problem)) ⊎ (y ≡ ok true)
      → (if_claimed y s lost won).0 ≡ ok (some task)
      → (won s).0 ≡ ok (some task)
  first_claimed r (err e) s lost won task c h = cc
  first_claimed r (ok true) s lost won task c h = h
  first_claimed r (ok false) s lost won task (inl (problem, e)) h = cc
  first_claimed r (ok false) s lost won task (inr e) h = absurd (not_won e)
    where
      not_won : ◌≡◌ {A = Result QueueError Bool} (ok false) (ok true) → ⊥
      not_won e = cc (ok-injective e)

  abbrev pub FirstInLine : List String → Runner → Task → S → Type 0
  FirstInLine kinds r task s =
      (row : Row F) × (view db row.id s ≡ some row)
      × (is_candidate kinds row ≡ true)
      × (rebuild r row.id row.kind row.payload ≡ ok task)
      × All (λ o. row.scheduled_at ≤ o.scheduled_at) (keep (is_candidate kinds) (db.rows s))

  -- the runner can rebuild the task of a row that it may claim
  abbrev pub Able : List String → Runner → Row F → Type 0
  Able kinds r row =
      is_candidate kinds row ≡ true → (t : Task) × (rebuild r row.id row.kind row.payload ≡ ok t)

  -- Where nobody else sends anything meanwhile and the runner can rebuild the task of each
  -- pending row of a type with a handler, the task that
  -- claimNext returns is that of a pending row of a type with a handler, and no such row was
  -- scheduled before it.
  pub claim_next_oldest :
      (r : Runner) (s : S) (task : Task)
      → Unique (db.rows s)
      → ((n : ℕ) → w.others n ≡ [])
      → All (Able r.handlers r) (db.rows s)
      → (claim_next db zero one w r s).0 ≡ ok (some task)
      → FirstInLine r.handlers r task s
  unfolding claim_next claim_by claim_loop
  claim_next_oldest r s task u quiet able h = go r.handlers able h
    where
      same : (n : ℕ) (t : S) → reached db zero one w n t ≡ t
      same n t = rw (quiet n) refl

      from :
          (kinds : List String) (found : Result String (List (Row F)))
          → All (Able kinds r) (db.rows s)
          → ((rows : List (Row F))
              → found ≡ ok rows
              → All (λ o. (is_candidate kinds o ≡ true) × (find_row o.id (db.rows s) ≡ some o)) rows
                × OldestFirst db (keep (is_candidate kinds) (db.rows s)) rows)
          → (claim_from db zero one w r found (reached db zero one w 0 s)).0 ≡ ok (some task)
          → FirstInLine kinds r task s
      from kinds (err e) able good k = cc
      from kinds (ok []) able good k = cc
      from kinds (ok (row ∷ rows)) able good k =
          let (all, oldest) = good (row ∷ rows) refl in
          let (t, e) = find_row-All (Able kinds r) row.id (db.rows s) row able all.0.1 all.0.0 in
          let s1 = reached db zero one w 1 (reached db zero one w 0 s) in
          let s1_is : s1 ≡ s = same 1 (reached db zero one w 0 s) ∙ same 0 s in
          let found : view db row.id s1 ≡ some row = ap (view db row.id) s1_is ∙ all.0.1 in
          let pending : has_status is_pending (view db row.id s1) ≡ true =
            rw found (ground (arith, all.0.0)) in
          let claims =
            claim_pending db laws r.owner (w.clock 1 + r.lease_duration) row.id s1
              (subst (λ t. Unique (db.rows t)) (sym s1_is) u) pending in
          let won = first_claimed r _ _ _ _ task claims k in
          (row, all.0.1, all.0.0, e ∙ ap ok (rebuilt r _ _ _ task t e won), oldest)

      selected :
          (kinds : List String) (rows : List (Row F))
          → db.oldest (is_candidate kinds) (some (batch r.parallelism)) (reached db zero one w 0 s)
            ≡ ok rows
          → All (λ o. (is_candidate kinds o ≡ true) × (find_row o.id (db.rows s) ≡ some o)) rows
            × OldestFirst db (keep (is_candidate kinds) (db.rows s)) rows
      selected kinds rows e = laws.oldests (is_candidate kinds) (batch r.parallelism - 1) s rows u (
          ap (λ n. db.oldest (is_candidate kinds) (some n) s) (batch_positive r.parallelism)
          ∙ (ap (λ t. db.oldest (is_candidate kinds) (some (batch r.parallelism)) t)
                (sym (same 0 s))
              ∙ e))

      go :
          (kinds : List String)
          → All (Able kinds r) (db.rows s)
          → (claim_by db zero one w kinds r s).0 ≡ ok (some task)
          → FirstInLine kinds r task s
      go [] able k = cc
      go (kind ∷ kinds) able k =
          from (kind ∷ kinds) _ able (λ rows e. selected (kind ∷ kinds) rows e) k
