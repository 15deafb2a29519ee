-- ===== src/Queue/Throttle.antt =====
-- task/gorm/task_runner.go: the throttled writes of a handler's progress.
use amoxtli.Common.{
  ◌≡◌, refl, ap, ◌∙◌, inl, inr, ℕ, String, true, false, ◌&&◌, Option, none, some, List, [], ◌∷◌,
  Bool-cases,
}
use amoxtli.Tasks.{Event}
use amoxtli.Tasks.Steps.{or_else}
use amoxtli.Queue.Execution.{
  Progress, note_progress, note_message, note, interval_over, written, writes,
}

abbrev pub latest {ℓ} : {A : Type ℓ} → A → List A → A
latest old [] = old
latest old (x ∷ xs) = latest x xs

module _ {F : Type 0} (clamp : F → F) where
  -- what the events say last
  abbrev pub last_progress : F → List (Event F × ℕ) → F
  last_progress old [] = old
  last_progress old ((e, now) ∷ events) =
      last_progress (elim e.progress [ none ↦ old | some f ↦ clamp f ]) events

  abbrev pub last_message : String → List (Event F × ℕ) → String
  last_message old [] = old
  last_message old ((e, now) ∷ events) = last_message (or_else old e.message) events

  quiet_parts :
      (f : Option F) (m : Option String) (p : Progress F) (old : F × String)
      → (p.dirty ≡ false → old ≡ written clamp p)
      → (note_message clamp m (note_progress clamp f p)).dirty ≡ false
      → old ≡ written clamp (note_message clamp m (note_progress clamp f p))
  quiet_parts none none p old h d = h d
  quiet_parts none (some m) p old h d = cc
  quiet_parts (some f) none p old h d = cc
  quiet_parts (some f) (some m) p old h d = cc

  noted :
      (f : Option F) (m : Option String) (p : Progress F)
      → written clamp (note_message clamp m (note_progress clamp f p))
        ≡ (elim f [ none ↦ p.progress | some g ↦ clamp g ], or_else p.message m)
  noted none none p = refl
  noted none (some m) p = refl
  noted (some f) none p = refl
  noted (some f) (some m) p = refl

  -- Where `old` is what was written last, unless the variables have changed since, the writes of a
  -- handler that returns end with the progress and the message that its events say last: the
  -- throttle delays writes, and loses none of the final state.
  pub latest-writes :
      (events : List (Event F × ℕ)) (p : Progress F) (old : F × String)
      → (p.dirty ≡ false → old ≡ written clamp p)
      → latest old (writes clamp true p events)
        ≡ (last_progress p.progress events, last_message p.message events)
  unfolding writes
  latest-writes [] p old h = elim (Bool-cases p.dirty) [ inl d ↦ rw d refl | inr d ↦ rw d (h d) ]
  latest-writes ((e, now) ∷ events) p old h =
      let p' = note clamp e p in
      let said = noted e.progress e.message p in
      let from : F × String → F × String =
        λ x. (last_progress x.0 events, last_message x.1 events) in
      elim (Bool-cases (p'.dirty && interval_over now p'.last_persist)) [
        | inl d ↦
            rw (latest, d)
              (latest-writes events (record p' { last_persist = some now; dirty = false })
                  (written clamp p') (λ q. refl)
                ∙ ap from said)
        | inr d ↦
            rw (latest, d)
              (latest-writes events p' old (quiet_parts e.progress e.message p old h)
                ∙ ap from said)
      ]
