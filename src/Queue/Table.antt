-- ===== src/Queue/Table.antt =====
-- task/gorm/task_runner.go: what the statements do to the rows of a table with a primary key.
use amoxtli.Common.{
  ◌≡◌, refl, ap, sym, subst, ◌∙◌, inl, inr, ℕ, String, Bool, true, false, not, ◌&&◌, Option, none,
  some, List, [], ◌∷◌, if◌then◌else◌, ◌==◌, eq_iff, arith, Bool-cases,
}
use amoxtli.Common.Lists.{All, keep, All-map_of, All-keep}
use amoxtli.Queue.{Row, update_where, count_where, find_row, upsert, has_id}

abbrev pub map_row : {F : Type 0} → (Row F → Row F) → Option (Row F) → Option (Row F)
map_row f none = none
map_row f (some row) = some (f row)

abbrev pub drop_row : {F : Type 0} → (Row F → Bool) → Option (Row F) → Option (Row F)
drop_row p none = none
drop_row p (some row) = if p row then none else some row

abbrev pub one_where : {F : Type 0} → (Row F → Bool) → Option (Row F) → ℕ
one_where p none = 0
one_where p (some row) = if p row then 1 else 0

module _ {F : Type 0} where
  -- The rows have different identifiers: the primary key.
  abbrev pub Unique : List (Row F) → Type 0
  Unique [] = Unit
  Unique (r ∷ rs) = All (λ o. o.id == r.id ≡ false) rs × Unique rs

  pub find-update_where :
      (p : Row F → Bool) (f : Row F → Row F) (rs : List (Row F)) (id : String)
      → ((r : Row F) → (f r).id ≡ r.id)
      → find_row id (update_where p f rs) ≡ map_row (λ r. if p r then f r else r) (find_row id rs)
  find-update_where p f [] id keeps = refl
  find-update_where p f (r ∷ rs) id keeps =
      ground (arith, keeps r, find-update_where p f rs id keeps)

  pub find-upsert :
      (row : Row F) (rs : List (Row F)) (id : String)
      → find_row id (upsert row rs) ≡ (if row.id == id then some row else find_row id rs)
  find-upsert row [] id = refl
  find-upsert row (r ∷ rs) id =
      ground (arith, find-upsert row rs id, eq_iff r.id row.id, eq_iff r.id id, eq_iff row.id id)

  pub find_row-id :
      (id : String) (rs : List (Row F)) (row : Row F) → find_row id rs ≡ some row → row.id ≡ id
  find_row-id id [] row h = cc
  find_row-id id (r ∷ rs) row h = elim (Bool-cases (r.id == id)) [
    | inl same ↦
        (let e : r ≡ row = ground (arith, same, h) in
          sym (ap (λ o. o.id) e) ∙ ground (arith, same, eq_iff r.id id))
    | inr other ↦ find_row-id id rs row (ground (arith, other, h))
  ]

  other_id :
      (id : String) (rs : List (Row F)) (r : Row F)
      → All (λ o. o.id == r.id ≡ false) rs
      → r.id == id ≡ true
      → find_row id rs ≡ none
  other_id id [] r h e = refl
  other_id id (o ∷ rs) r h e =
      ground
        (arith, h.0, other_id id rs r h.1 e, e, eq_iff r.id id, eq_iff o.id r.id, eq_iff o.id id)

  pub find-keep :
      (p : Row F → Bool) (rs : List (Row F)) (id : String)
      → Unique rs
      → find_row id (keep (λ r. not (p r)) rs) ≡ drop_row p (find_row id rs)
  find-keep p [] id u = refl
  find-keep p (r ∷ rs) id u = elim (Bool-cases (r.id == id)) [
    | inl same ↦ ground (arith, same, find-keep p rs id u.1, other_id id rs r u.0 same)
    | inr other ↦ ground (arith, other, find-keep p rs id u.1)
  ]

  pub count_where-find :
      (q : Row F → Bool) (rs : List (Row F)) (id : String)
      → Unique rs
      → count_where (λ r. has_id id r && q r) rs ≡ one_where q (find_row id rs)
  count_where-find q [] id u = refl
  count_where-find q (r ∷ rs) id u = elim (Bool-cases (r.id == id)) [
    | inl same ↦ ground (arith, same, count_where-find q rs id u.1, other_id id rs r u.0 same)
    | inr other ↦ ground (arith, other, count_where-find q rs id u.1)
  ]

  All-update_where :
      (p : Row F → Bool) (f : Row F → Row F) (rs : List (Row F)) (id : String)
      → ((r : Row F) → (f r).id ≡ r.id)
      → All (λ o. o.id == id ≡ false) rs
      → All (λ o. o.id == id ≡ false) (update_where p f rs)
  All-update_where p f [] id keeps h = tt
  All-update_where p f (r ∷ rs) id keeps h =
      (ground (arith, keeps r, h.0), All-update_where p f rs id keeps h.1)

  pub update_where-Unique :
      (p : Row F → Bool) (f : Row F → Row F) (rs : List (Row F))
      → ((r : Row F) → (f r).id ≡ r.id)
      → Unique rs
      → Unique (update_where p f rs)
  update_where-Unique p f [] keeps u = tt
  update_where-Unique p f (r ∷ rs) keeps u = elim (Bool-cases (p r)) [
    | inl h ↦
        rw (h, keeps r)
          (All-update_where p f rs r.id keeps u.0, update_where-Unique p f rs keeps u.1)
    | inr h ↦ rw h (All-update_where p f rs r.id keeps u.0, update_where-Unique p f rs keeps u.1)
  ]

  All-upsert :
      (row : Row F) (rs : List (Row F)) (id : String)
      → row.id == id ≡ false
      → All (λ o. o.id == id ≡ false) rs
      → All (λ o. o.id == id ≡ false) (upsert row rs)
  All-upsert row [] id n h = (n, tt)
  All-upsert row (r ∷ rs) id n h = elim (Bool-cases (r.id == row.id)) [
    | inl same ↦ rw same (n, h.1)
    | inr other ↦ rw other (h.0, All-upsert row rs id n h.1)
  ]

  pub upsert-Unique : (row : Row F) (rs : List (Row F)) → Unique rs → Unique (upsert row rs)
  upsert-Unique row [] u = (tt, tt)
  upsert-Unique row (r ∷ rs) u = elim (Bool-cases (r.id == row.id)) [
    | inl same ↦ rw same (
      All-map_of _ (λ o. o.id == row.id ≡ false) rs
          (λ o n. ground (arith, n, same, eq_iff r.id row.id, eq_iff o.id row.id, eq_iff o.id r.id))
          u.0,
      u.1,
    )
    | inr other ↦ rw other (
      All-upsert row rs r.id (ground (arith, other, eq_iff r.id row.id, eq_iff row.id r.id)) u.0,
      upsert-Unique row rs u.1,
    )
  ]

  pub keep-Unique : (p : Row F → Bool) (rs : List (Row F)) → Unique rs → Unique (keep p rs)
  keep-Unique p [] u = tt
  keep-Unique p (r ∷ rs) u = elim (Bool-cases (p r)) [
    | inl h ↦ rw h (All-keep _ p rs u.0, keep-Unique p rs u.1)
    | inr h ↦ rw h (keep-Unique p rs u.1)
  ]

  found_after :
      (r : Row F) (rs all : List (Row F))
      → All (λ o. o.id == r.id ≡ false) all
      → All (λ o. find_row o.id rs ≡ some o) all
      → All (λ o. find_row o.id (r ∷ rs) ≡ some o) all
  found_after r rs [] n h = tt
  found_after r rs (o ∷ all) n h =
      (ground (arith, n.0, h.0, eq_iff o.id r.id, eq_iff r.id o.id), found_after r rs all n.1 h.1)

  -- Each row of the table is found under its identifier.
  pub find_row_self : (rs : List (Row F)) → Unique rs → All (λ r. find_row r.id rs ≡ some r) rs
  find_row_self [] u = tt
  find_row_self (r ∷ rs) u =
      (ground (arith, eq_iff r.id r.id), found_after r rs rs u.0 (find_row_self rs u.1))

  pub find_row-All {κ} :
      (P : Row F → Type κ) (id : String) (rs : List (Row F)) (row : Row F)
      → All P rs
      → find_row id rs ≡ some row
      → P row
  find_row-All P id [] row h e = cc
  find_row-All P id (r ∷ rs) row h e = elim (Bool-cases (r.id == id)) [
    | inl same ↦ subst P (ground (arith, same, e)) h.0
    | inr other ↦ find_row-All P id rs row h.1 (ground (arith, other, e))
  ]
