-- ===== src/Tasks/Invariant.antt =====
-- task/memory/task_runner.go: the well-formedness of the runner, and the changes of its entries.
use amoxtli.Common.{
  ◌≡◌, refl, sym, ◌≤◌, inl, inr, Bool, true, false, ℕ, Option, none, some, Bool-cases, is_some,
  ◌==◌, eq_iff, arith,
}
use amoxtli.Common.Keyed.{Keyed, lookup, insert, remove, lookup-insert, lookup-remove}
use amoxtli.Common.Lists.{length}
use amoxtli.Tasks.{TaskId, Status, TaskError, State, Task, TaskEntry, TaskRunner, set_failed}
use amoxtli.Tasks.Steps.{set_pending, end_state}

abbrev pub is_finished : Status → Bool
is_finished Status.succeeded = true
is_finished Status.failed = true
is_finished _ = false

abbrev pub is_failed : Status → Bool
is_failed Status.failed = true
is_failed _ = false

-- every cancel function is that of a task that the runner knows
abbrev pub Covers {ℓ} : {V : Type ℓ} → Keyed ℕ → Keyed V → Type 0
Covers cancels tasks =
    (id : TaskId) → is_some (lookup id cancels) ≡ true → is_some (lookup id tasks) ≡ true

module _ {V : Type 0} where
  pub Covers-insert :
      (c : Keyed ℕ) (m : Keyed V) (k : TaskId) (e : V) → Covers c m → Covers c (insert k e m)
  Covers-insert c m k e h id p = ground (arith, p, lookup-insert k id e m, h id)

  pub Covers-announce :
      (c : Keyed ℕ) (m : Keyed V) (k : TaskId) (e : V) (x : ℕ)
      → Covers c m
      → Covers (insert k x c) (insert k e m)
  Covers-announce c m k e x h id p =
      ground (arith, p, lookup-insert k id e m, lookup-insert k id x c, h id)

  pub Covers-remove : (c : Keyed ℕ) (m : Keyed V) (k : TaskId) → Covers c m → Covers (remove k c) m
  Covers-remove c m k h id p = ground (arith, p, lookup-remove k id c, h id)

  pub Covers-delete :
      (c : Keyed ℕ) (m : Keyed V) (k : TaskId) → Covers c m → Covers (remove k c) (remove k m)
  Covers-delete c m k h id p = ground (arith, p, lookup-remove k id c, lookup-remove k id m, h id)

module _ {F : Type 0} where
  -- A finished task has its time, and a failed one its error.
  abbrev pub SoundState : State F → Type 0
  SoundState s =
      (is_finished s.status ≡ true → is_some s.finished_at ≡ true)
      × (is_failed s.status ≡ true → is_some s.error ≡ true)

  -- What is kept under an identifier is about the task of that identifier.
  abbrev pub Sound : TaskId → TaskEntry F → Type 0
  Sound id e = (e.task.id ≡ id) × (e.state.id ≡ id) × SoundState e.state

  abbrev pub Tracked : Keyed (TaskEntry F) → Type 0
  Tracked tasks = (id : TaskId) (e : TaskEntry F) → lookup id tasks ≡ some e → Sound id e

  pub record WellFormed (r : TaskRunner F) : Type 0 where
    pub tracked : Tracked r.tasks
    pub covers : Covers r.cancel_funcs r.tasks
    pub queue_le : length r.queue ≤ r.capacity
    pub active_le : length r.active ≤ r.parallelism

  Sound-same : (k id : TaskId) (new e : TaskEntry F) → k ≡ id → new ≡ e → Sound k new → Sound id e
  Sound-same k id new e p q s = rw (sym p, sym q) s

  pub Tracked-insert :
      (m : Keyed (TaskEntry F)) (k : TaskId) (new : TaskEntry F)
      → Tracked m
      → Sound k new
      → Tracked (insert k new m)
  Tracked-insert m k new h s id e p = elim (Bool-cases (k == id)) [
    | inl same ↦
        Sound-same k id new e (ground (arith, same, eq_iff k id))
          (ground (arith, same, p, lookup-insert k id new m)) s
    | inr other ↦ h id e (ground (arith, other, p, lookup-insert k id new m))
  ]

  pub Tracked-remove : (m : Keyed (TaskEntry F)) (k : TaskId) → Tracked m → Tracked (remove k m)
  Tracked-remove m k h id e p = h id e (ground (arith, p, lookup-remove k id m))

  -- A change of a state that keeps it sound and about the same task.
  abbrev pub Keeps : Task → (State F → State F) → Type 0
  Keeps task fn =
      (s : State F) → (s.id ≡ task.id) × SoundState s → ((fn s).id ≡ task.id) × SoundState (fn s)

  pub set_failed-Keeps :
      (task : Task) (problem : TaskError) (now : ℕ) → Keeps task (set_failed problem now)
  set_failed-Keeps task problem now s h = (h.0, (λ p. refl, λ p. refl))

  pub set_pending-Keeps : (task : Task) (now : ℕ) → Keeps task (set_pending now task)
  set_pending-Keeps task now s h = (refl, (λ p. cc, λ p. cc))

  pub end_state-Keeps :
      (one : F) (task : Task) (now : ℕ) (outcome : Option TaskError)
      → Keeps task (end_state one now outcome)
  end_state-Keeps one task now none s h = (h.0, (λ p. refl, λ p. cc))
  end_state-Keeps one task now (some problem) s h = set_failed-Keeps task problem now s h
