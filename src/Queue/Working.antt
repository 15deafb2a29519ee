-- ===== src/Queue/Working.antt =====
-- task/gorm/task_runner.go: what an execution writes while its lease holds.
use amoxtli.Common.{
  ◌≡◌, refl, ap, sym, ◌∙◌, ◌⊎◌, inl, inr, ℕ, suc, String, Bool, true, false, Option, none, some,
  List, [], ◌∷◌, if◌then◌else◌, ltb, arith, subst, eq_iff,
}
use amoxtli.Common.Lists.{All, length}
use amoxtli.Common.Result.{ok}
use amoxtli.Tasks.{Status, Task, Event}
use amoxtli.Tasks.Steps.{has_handler}
use amoxtli.Queue.{
  Row, Database, is_owned, finish_row, set_progress, update_where, find_row, unit_result,
  finish_owned, update_owned, count_where,
}
use amoxtli.Queue.Table.{Unique, find-update_where, map_row}
use amoxtli.Queue.Statements.{Statement, IsDatabase, Written, perform, effect, view, status_of}
use amoxtli.Queue.Effects.{perform-Unique, perform_all-Unique, perform_all-keeps}
use amoxtli.Queue.Rows.{foreign, effect-foreign}
use amoxtli.Queue.Runner.{Runner, World, reached}
use amoxtli.Queue.Throttle.{latest}
use amoxtli.Queue.Execution.{
  HandlerOutcome, cause, returns, no_progress, writes, progress_statements, send_all, reports,
  write_outcome, handled, execute_task,
}

module _ {F : Type 0} where
  -- whether a statement is foreign to a lease, or a heartbeat that does not shorten it
  abbrev pub Working : String → String → ℕ → Statement F → Type 0
  Working owner id until st =
      (foreign owner id until st ≡ true)
      ⊎ ((t : ℕ) × (st ≡ Statement.extended owner t id) × (ltb t until ≡ false))

  -- The row as it was, but for the end of its lease.
  abbrev pub Held : Row F → ℕ → Option (Row F) → Type 0
  Held row until v =
      (t : ℕ) × (ltb t until ≡ false) × (v ≡ some (record row { lease_until = some t }))

  abbrev pub OwnRow : String → String → Row F → Type 0
  OwnRow owner id row =
      (row.id ≡ id)
      × (row.status ≡ Status.running)
      × (row.lease_owner ≡ owner)
      × (row.finished_at ≡ none)

  later :
      (owner id : String) (until t : ℕ) (st : Statement F)
      → ltb t until ≡ false
      → foreign owner id until st ≡ true
      → foreign owner id t st ≡ true
  later owner id until t (Statement.saved now task payload full) h f = f
  later owner id until t (Statement.reclaimed now) h f = ground (arith, h, f)
  later owner id until t (Statement.claimed other u i) h f = f
  later owner id until t (Statement.progressed other i progress message) h f = f
  later owner id until t (Statement.finished other i now outcome) h f = f
  later owner id until t (Statement.extended other u i) h f = f
  later owner id until t (Statement.cancelled now i) h f = f
  later owner id until t (Statement.purged now delay) h f = f

module _ {F : Type 0} (zero one : F) where
  own-is_owned :
      (owner id : String) (row : Row F) → OwnRow owner id row → is_owned owner id row ≡ true
  own-is_owned owner id row h =
      rw h.1 (ground (arith, h.0, h.2, eq_iff row.id id, eq_iff row.lease_owner owner))

  effect-Working :
      (owner id : String) (row : Row F) (until : ℕ) (st : Statement F) (v : Option (Row F))
      → OwnRow owner id row
      → Working owner id until st
      → Held row until v
      → Held row until (effect zero one st id v)
  effect-Working owner id row until st v own (inl f) (t, h, e) =
      let now : Row F = record row { lease_until = some t } in
      (
        t,
        h,
        ap (effect zero one st id) e
            ∙ effect-foreign zero one id now t st own.0 own.1 own.3 refl
                (subst (λ o. foreign o id t st ≡ true) (sym own.2) (later owner id until t st h f)),
      )
  effect-Working owner id row until st v own (inr (u, s, g)) (t, h, e) =
      let now : Row F = record row { lease_until = some t } in
      let o : is_owned owner id now ≡ true = own-is_owned owner id now own in
      (u, g, rw (s, e, o) refl)

module _ {F S : Type 0} (db : Database F S) where
  -- a database whose updates do not fail
  abbrev pub Reliable : Type 0
  Reliable =
      (p : Row F → Bool) (f : Row F → Row F) (s : S)
      → (n : ℕ) × (s' : S) × (db.update p f s ≡ (ok n, s'))

  update-view :
      (p : Row F → Bool) (f : Row F → Row F) (id : String) (s : S)
      → IsDatabase db
      → Reliable
      → ((r : Row F) → (f r).id ≡ r.id)
      → view db id (unit_result (db.update p f s)).1
        ≡ map_row (λ r. if p r then f r else r) (view db id s)
  update-view p f id s laws sure keeps =
      let (n, s', e) = sure p f s in
      let wrote : Written db (db.rows s) (update_where p f (db.rows s)) (count_where p (db.rows s))
          (ok n, s') =
        subst (Written db (db.rows s) (update_where p f (db.rows s)) (count_where p (db.rows s))) e
          (laws.updates p f s) in
      rw e (ap (find_row id) wrote.1 ∙ find-update_where p f (db.rows s) id keeps)

module _ {F S : Type 0} (db : Database F S) (zero one : F) (laws : IsDatabase db)
    (sure : Reliable db) (w : World F) (owner id : String) (until : ℕ)
    (calm : (n : ℕ) → All (Working owner id until) (w.others n)) (row : Row F)
    (own : OwnRow owner id row) where
  abbrev pub with_progress : F × String → Row F
  with_progress x = set_progress x.0 x.1 row

  abbrev HeldTable : F × String → S → Type 0
  HeldTable x s = Unique (db.rows s) × Held (with_progress x) until (view db id s)

  waited :
      (n : ℕ) (x : F × String) (s : S) → HeldTable x s → HeldTable x (reached db zero one w n s)
  waited n x s h = (
    perform_all-Unique db zero one laws (w.others n) s h.0,
    perform_all-keeps db zero one laws id (Held (with_progress x) until) (Working owner id until)
        (λ st v f q. effect-Working zero one owner id (with_progress x) until st v own f q)
        (w.others n) s h.0 (calm n) h.1,
  )

  reported :
      (x y : F × String) (s : S)
      → HeldTable x s
      → HeldTable y (perform db zero one (Statement.progressed owner id y.0 y.1) s)
  unfolding perform
  reported x y s (u, held) =
      let (t, h, e) = held in
      let now : Row F = record (with_progress x) { lease_until = some t } in
      let o : is_owned owner id now ≡ true = own-is_owned zero one owner id now own in
      (
        perform-Unique db zero one laws (Statement.progressed owner id y.0 y.1) s u,
        (
          t,
          h,
          update-view db (is_owned owner id) (set_progress y.0 y.1) id s laws sure (λ r. refl)
              ∙ rw (e, o) refl,
        ),
      )

  pub sent :
      (clamp : F → F) (ws : List (F × String)) (n : ℕ) (x : F × String) (s : S)
      → HeldTable x s
      → HeldTable (latest x ws) (send_all db zero one w n (progress_statements clamp owner id ws) s)
  sent clamp [] n x s h = h
  sent clamp (y ∷ ws) n x s h = sent clamp ws (suc n) y _ (reported x y _ (waited n x s h))

  pub concluded :
      (n : ℕ) (problem : Option String) (x : F × String) (s : S)
      → HeldTable x s
      → view db id
          (finish_owned db one owner id
            (w.clock n)
            (status_of problem)
            problem
            (reached db zero one w n s)).1
        ≡ some (finish_row one (w.clock n) (status_of problem) problem (with_progress x))
  unfolding finish_owned update_owned
  concluded n problem x s h =
      let (t, g, e) = (waited n x s h).1 in
      let now : Row F = record (with_progress x) { lease_until = some t } in
      let o : is_owned owner id now ≡ true = own-is_owned zero one owner id now own in
      update-view db (is_owned owner id) (finish_row one (w.clock n) (status_of problem) problem) id
        _ laws sure (λ r. refl)
      ∙ rw (e, o) refl

module _ {F S : Type 0} (db : Database F S) (zero one : F) (laws : IsDatabase db)
    (sure : Reliable db) (w : World F) (clamp : F → F) where
  -- The row of a task whose lease holds, when its execution is over.
  pub execute_task_ends :
      (r : Runner) (task : Task) (until : ℕ) (row : Row F) (events : List (Event F × ℕ))
      (outcome : HandlerOutcome) (s : S)
      → Unique (db.rows s)
      → view db task.id s ≡ some row
      → OwnRow r.owner task.id row
      → row.lease_until ≡ some until
      → ((n : ℕ) → All (Working r.owner task.id until) (w.others n))
      → has_handler r.handlers task.kind ≡ true
      → view db task.id (execute_task db zero one w clamp r task events outcome s).1
        ≡ some (
            finish_row one
              (w.clock (length (reports db zero one w clamp r task events outcome)))
              (status_of (cause outcome))
              (cause outcome)
              (set_progress
                (latest
                  (row.progress, row.message)
                  (writes clamp (returns outcome) (no_progress zero) events)).0
                (latest
                  (row.progress, row.message)
                  (writes clamp (returns outcome) (no_progress zero) events)).1
                row))
  unfolding execute_task write_outcome handled
  execute_task_ends r task until row events outcome s u e own l calm kind =
      let ws = writes clamp (returns outcome) (no_progress zero) events in
      let n = length (reports db zero one w clamp r task events outcome) in
      let x : F × String = (row.progress, row.message) in
      let start : Held row until (view db task.id s) =
        (until, ground arith, e ∙ ap (λ t. some (record row { lease_until = t })) l) in
      let s' = handled db zero one w clamp r task events outcome s in
      let h =
        sent db zero one laws sure w r.owner task.id until calm row own clamp ws 0 x s (u, start) in
      rw kind (
        concluded db zero one laws sure w r.owner task.id until calm row own n (cause outcome)
          (latest x ws) s' h)
