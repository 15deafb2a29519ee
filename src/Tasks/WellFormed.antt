-- ===== src/Tasks/WellFormed.antt =====
-- task/memory/task_runner.go: the operations of the runner, on a runner that is well formed.
use amoxtli.Common.{
  ◌≡◌, refl, ap, ◌≤◌, inl, inr, true, ℕ, Option, List, [], ◌∷◌, ◌++◌, Bool-cases, Option-cases, ltb,
  ltb→lt, ◌<◌, arith,
}
use amoxtli.Common.Keyed.{lookup}
use amoxtli.Common.Lists.{length, length-append, List-cases}
use amoxtli.Tasks.{
  TaskId, Status, TaskError, State, Task, QueuedTask, TaskRunner, Event, set_failed, update_state,
  new_entry, is_live,
}
use amoxtli.Tasks.Steps.{
  cancel_task, announce, schedule_task, set_pending, queued, admit, start_task, take_task, report,
  end_state, end_task, without, delete_tasks, has_handler, apply_event,
}
use amoxtli.Tasks.Invariant.{
  Covers-insert, Covers-announce, Covers-remove, Covers-delete, WellFormed, Tracked-insert,
  Tracked-remove, Keeps, set_failed-Keeps, set_pending-Keeps, end_state-Keeps,
}

module _ {F : Type 0} where
  module _ (zero : F) where
    update_state-WellFormed :
        (r : TaskRunner F) (task : Task) (fn : State F → State F)
        → Keeps task fn
        → WellFormed r
        → WellFormed (update_state zero task fn r)
    unfolding update_state
    update_state-WellFormed r task fn keeps w = record {
      tracked = elim (Option-cases (lookup task.id r.tasks)) [
        | inl e ↦ rw e (
            let k = keeps (new_entry zero task).state (refl, (λ p. cc, λ p. cc)) in
            Tracked-insert r.tasks task.id _ w.tracked (refl, k.0, k.1))
        | inr (entry, e) ↦ rw e (
            let s = w.tracked task.id entry e in
            let k = keeps entry.state (s.1, s.2) in
            Tracked-insert r.tasks task.id _ w.tracked (s.0, k.0, k.1))
      ];
      covers = Covers-insert r.cancel_funcs r.tasks task.id _ w.covers;
      queue_le = w.queue_le;
      active_le = w.active_le;
    }

    pub cancel_task-WellFormed :
        (now : ℕ) (id : TaskId) (r : TaskRunner F)
        → WellFormed r
        → WellFormed (cancel_task zero now id r).1
    unfolding cancel_task
    cancel_task-WellFormed now id r w = elim (Option-cases (lookup id r.tasks)) [
      | inl e ↦ rw (e, cancel_task) w
      | inr (entry, e) ↦ elim (Bool-cases (is_live entry.state.status)) [
        | inr l ↦ rw (e, l, cancel_task) w
        | inl l ↦ elim (Option-cases (lookup id r.cancel_funcs)) [
          | inl c ↦ rw (e, l, c, cancel_task) w
          | inr (ctx, c) ↦
              rw (e, l, c, cancel_task)
                (let u =
                    update_state-WellFormed r entry.task (set_failed TaskError.canceled now)
                      (set_failed-Keeps entry.task TaskError.canceled now) w in
                  record {
                    tracked = u.tracked;
                    covers = Covers-remove _ _ id u.covers;
                    queue_le = u.queue_le;
                    active_le = u.active_le;
                  })
        ]
      ]
    ]

    announce-WellFormed :
        (now : ℕ) (task : Task) (r : TaskRunner F)
        → WellFormed r
        → WellFormed (announce zero now task r)
    unfolding announce update_state
    announce-WellFormed now task r w =
        let u =
          update_state-WellFormed r task (set_pending now task) (set_pending-Keeps task now) w in
        record {
          tracked = u.tracked;
          covers = Covers-announce r.cancel_funcs r.tasks task.id _ r.contexts w.covers;
          queue_le = w.queue_le;
          active_le = w.active_le;
        }

    room :
        (qt : QueuedTask) (q : List QueuedTask) (n : ℕ)
        → ltb (length q) n ≡ true
        → length (q ++ (qt ∷ [])) ≤ n
    room qt q n h = omega (arith, ltb→lt (length q) n h, length-append q (qt ∷ []))

    pub schedule_task-WellFormed :
        (now : ℕ) (task : Task) (r : TaskRunner F)
        → WellFormed r
        → WellFormed (schedule_task zero now task r).1
    unfolding schedule_task
    schedule_task-WellFormed now task r w =
        let u = announce-WellFormed now task r w in
        elim (Bool-cases (ltb (length r.queue) r.capacity)) [
          | inl l ↦ rw l (record {
            tracked = u.tracked;
            covers = u.covers;
            queue_le = room (queued task r.contexts) r.queue r.capacity l;
            active_le = w.active_le;
          })
          | inr l ↦ elim (Bool-cases r.err_on_full) [
            | inl b ↦
                rw (l, b)
                  (update_state-WellFormed _ task (set_failed TaskError.queue_full now)
                    (set_failed-Keeps task TaskError.queue_full now)
                    (record {
                      tracked = u.tracked;
                      covers = Covers-remove _ _ task.id u.covers;
                      queue_le = w.queue_le;
                      active_le = w.active_le;
                    }))
            | inr b ↦
                rw (l, b)
                  (record {
                    tracked = u.tracked;
                    covers = u.covers;
                    queue_le = w.queue_le;
                    active_le = w.active_le;
                  })
          ]
        ]

    start_task-WellFormed :
        (now : ℕ) (qt : QueuedTask) (r : TaskRunner F)
        → length r.active < r.parallelism
        → WellFormed r
        → WellFormed (start_task zero now qt r)
    unfolding start_task
    start_task-WellFormed now qt r l w = elim (Bool-cases (has_handler r.handlers qt.task.kind)) [
      | inl h ↦ rw h (
          let u =
            update_state-WellFormed r qt.task (λ s. record s { status = Status.running })
              (λ s k. (k.0, (λ p. cc, λ p. cc))) w in
          record {
            tracked = u.tracked;
            covers = u.covers;
            queue_le = u.queue_le;
            active_le = omega (arith, l);
          })
      | inr h ↦ rw h (
          let u =
            update_state-WellFormed r qt.task (set_failed TaskError.no_handler now)
              (set_failed-Keeps qt.task TaskError.no_handler now) w in
          record {
            tracked = u.tracked;
            covers = Covers-remove _ _ qt.task.id u.covers;
            queue_le = u.queue_le;
            active_le = u.active_le;
          })
    ]

    pub report-WellFormed :
        (clamp : F → F) (task : Task) (e : Event F) (r : TaskRunner F)
        → WellFormed r
        → WellFormed (report zero clamp task e r)
    unfolding report
    report-WellFormed clamp task e r w =
        update_state-WellFormed r task (apply_event clamp e) (λ s k. k) w

    without_le : (qt : QueuedTask) (a : List QueuedTask) → length (without qt a) ≤ length a
    without_le qt [] = omega arith
    without_le qt (x ∷ xs) = ground (arith, without_le qt xs)

    pub end_task-WellFormed :
        (one : F) (now : ℕ) (qt : QueuedTask) (outcome : Option TaskError) (r : TaskRunner F)
        → WellFormed r
        → WellFormed (end_task zero one now qt outcome r)
    unfolding end_task
    end_task-WellFormed one now qt outcome r w =
        let u =
          update_state-WellFormed r qt.task (end_state one now outcome)
            (end_state-Keeps one qt.task now outcome) w in
        record {
          tracked = u.tracked;
          covers = Covers-remove _ _ qt.task.id u.covers;
          queue_le = u.queue_le;
          active_le = omega (arith, w.active_le, without_le qt r.active);
        }

    pub admit-WellFormed : (r : TaskRunner F) → WellFormed r → WellFormed (admit r)
    unfolding admit
    admit-WellFormed r w = elim (List-cases r.waiting) [
      | inl e ↦ rw (e, admit) w
      | inr (qt, rest, e) ↦ elim (Bool-cases (ltb (length r.queue) r.capacity)) [
        | inr l ↦ rw (e, l, admit) w
        | inl l ↦
            rw (e, l, admit)
              (record {
                tracked = w.tracked;
                covers = w.covers;
                queue_le = room qt r.queue r.capacity l;
                active_le = w.active_le;
              })
      ]
    ]

    pub take_task-WellFormed :
        (now : ℕ) (r : TaskRunner F) → WellFormed r → WellFormed (take_task zero now r)
    unfolding take_task
    take_task-WellFormed now r w = elim (List-cases r.queue) [
      | inl e ↦ rw (e, take_task) w
      | inr (qt, rest, e) ↦ elim (Bool-cases (ltb (length r.active) r.parallelism)) [
        | inr l ↦ rw (e, l, take_task) w
        | inl l ↦
            rw (e, l, take_task)
              (start_task-WellFormed now qt (record r { queue = rest })
                (ltb→lt (length r.active) r.parallelism l)
                (record {
                  tracked = w.tracked;
                  covers = w.covers;
                  queue_le = omega (arith, w.queue_le, ap length e);
                  active_le = w.active_le;
                }))
      ]
    ]

    pub delete_tasks-WellFormed :
        (ids : List TaskId) (r : TaskRunner F) → WellFormed r → WellFormed (delete_tasks ids r)
    unfolding delete_tasks
    delete_tasks-WellFormed [] r w = w
    delete_tasks-WellFormed (id ∷ ids) r w = delete_tasks-WellFormed ids _ (record {
      tracked = Tracked-remove r.tasks id w.tracked;
      covers = Covers-delete r.cancel_funcs r.tasks id w.covers;
      queue_le = w.queue_le;
      active_le = w.active_le;
    })
