-- ===== src/Queue/Effects.antt =====
-- task/gorm/task_runner.go: what a run of statements, of all runners in any order, does to the row of
-- one task.
use amoxtli.Common.{
  ◌≡◌, refl, ap, sym, ◌∙◌, ◌⊎◌, inl, inr, ℕ, String, Bool, true, false, Option, List, [], ◌∷◌,
  subst,
}
use amoxtli.Common.Lists.{All}
use amoxtli.Tasks.{Task}
use amoxtli.Queue.{Row, Database, find_row, schedule_as, is_old}
use amoxtli.Queue.Table.{
  Unique, find-update_where, find-upsert, find-keep, update_where-Unique, upsert-Unique,
  keep-Unique,
}
use amoxtli.Queue.Statements.{
  Statement, IsDatabase, perform, perform_all, effect, view, rows_after, perform-rows,
}

module _ {F : Type 0} (zero : F) where
  schedule_as-id :
      (now : ℕ) (task : Task) (payload : String) (full : Bool)
      → (schedule_as zero now task payload full).id ≡ task.id
  schedule_as-id now task payload true = refl
  schedule_as-id now task payload false = refl

module _ {F S : Type 0} (db : Database F S) (zero one : F) where
  rows_after-view :
      (st : Statement F) (rows : List (Row F)) (id : String)
      → Unique rows
      → find_row id (rows_after db zero one st rows) ≡ effect zero one st id (find_row id rows)
  rows_after-view (Statement.saved now task payload full) rows id u =
      rw
        (
          find-upsert (schedule_as zero now task payload full) rows id,
          schedule_as-id zero now task payload full,
        )
        refl
  rows_after-view (Statement.purged now delay) rows id u = find-keep (is_old now delay) rows id u
  rows_after-view (Statement.reclaimed now) rows id u = find-update_where _ _ rows id (λ r. refl)
  rows_after-view (Statement.claimed owner until i) rows id u =
      find-update_where _ _ rows id (λ r. refl)
  rows_after-view (Statement.progressed owner i progress message) rows id u =
      find-update_where _ _ rows id (λ r. refl)
  rows_after-view (Statement.finished owner i now outcome) rows id u =
      find-update_where _ _ rows id (λ r. refl)
  rows_after-view (Statement.extended owner until i) rows id u =
      find-update_where _ _ rows id (λ r. refl)
  rows_after-view (Statement.cancelled now i) rows id u = find-update_where _ _ rows id (λ r. refl)

  rows_after-Unique :
      (st : Statement F) (rows : List (Row F))
      → Unique rows
      → Unique (rows_after db zero one st rows)
  rows_after-Unique (Statement.saved now task payload full) rows u = upsert-Unique _ rows u
  rows_after-Unique (Statement.purged now delay) rows u = keep-Unique _ rows u
  rows_after-Unique (Statement.reclaimed now) rows u = update_where-Unique _ _ rows (λ r. refl) u
  rows_after-Unique (Statement.claimed owner until i) rows u =
      update_where-Unique _ _ rows (λ r. refl) u
  rows_after-Unique (Statement.progressed owner i progress message) rows u =
      update_where-Unique _ _ rows (λ r. refl) u
  rows_after-Unique (Statement.finished owner i now outcome) rows u =
      update_where-Unique _ _ rows (λ r. refl) u
  rows_after-Unique (Statement.extended owner until i) rows u =
      update_where-Unique _ _ rows (λ r. refl) u
  rows_after-Unique (Statement.cancelled now i) rows u = update_where-Unique _ _ rows (λ r. refl) u

  module _ (laws : IsDatabase db) where
    pub perform-Unique :
        (st : Statement F) (s : S)
        → Unique (db.rows s)
        → Unique (db.rows (perform db zero one st s))
    perform-Unique st s u = elim (perform-rows db zero one laws st s) [
      | inl same ↦ subst Unique (sym same) u
      | inr e ↦ subst Unique (sym e) (rows_after-Unique st (db.rows s) u)
    ]

    -- A statement leaves the row of a task as it was, or has its effect on it.
    pub perform-view :
        (st : Statement F) (s : S) (id : String)
        → Unique (db.rows s)
        → (view db id (perform db zero one st s) ≡ view db id s)
          ⊎ (view db id (perform db zero one st s) ≡ effect zero one st id (view db id s))
    perform-view st s id u = elim (perform-rows db zero one laws st s) [
      | inl same ↦ inl (ap (find_row id) same)
      | inr e ↦ inr (ap (find_row id) e ∙ rows_after-view st (db.rows s) id u)
    ]

    pub perform_all-Unique :
        (sts : List (Statement F)) (s : S)
        → Unique (db.rows s)
        → Unique (db.rows (perform_all db zero one sts s))
    perform_all-Unique [] s u = u
    perform_all-Unique (st ∷ sts) s u = perform_all-Unique sts _ (perform-Unique st s u)

    -- What each statement of a run keeps true of a task's row holds after the run.
    pub perform_all-keeps :
        (id : String) (P : Option (Row F) → Type 0) (Fits : Statement F → Type 0)
        → ((st : Statement F) (v : Option (Row F)) → Fits st → P v → P (effect zero one st id v))
        → (sts : List (Statement F)) (s : S) → Unique (db.rows s)
        → All Fits sts
        → P (view db id s)
        → P (view db id (perform_all db zero one sts s))
    perform_all-keeps id P Fits step [] s u fit h = h
    perform_all-keeps id P Fits step (st ∷ sts) s u fit h =
        perform_all-keeps id P Fits step sts _ (perform-Unique st s u) fit.1
          (elim (perform-view st s id u) [
            | inl same ↦ subst P (sym same) h
            | inr e ↦ subst P (sym e) (step st (view db id s) fit.0 h)
          ])
