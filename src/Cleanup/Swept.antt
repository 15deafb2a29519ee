-- ===== src/Cleanup/Swept.antt =====
-- ingest/cleanup.go: the blobs that a sweep over the listed ones deletes.
use amoxtli.Common.{
  ◌≡◌, refl, eq_iff, subst, ap, sym, ◌∙◌, inl, inr, String, true, false, not, Option, none, some,
  List, [], ◌∷◌, ◌++◌, leb, arith, Bool-cases,
}
use amoxtli.Common.Keyed.{contains}
use amoxtli.Common.Lists.{All, All-append, keep, length}
use amoxtli.Cleanup.{flush, after_flush, sweep, delete_batch_size}

module _ {E : Type 0} (delete : List String → Option E) (referenced : List String) where
  abbrev pub Unreferenced : String → Type 0
  Unreferenced hash = contains referenced hash ≡ false

  sent_by : (hashes : List String) → (flush delete hashes).1 ≡ hashes
  unfolding flush
  sent_by [] = refl
  sent_by (hash ∷ hashes) = refl

  flushed_All :
      (x y : Option E × List String)
      → All Unreferenced x.1
      → All Unreferenced y.1
      → All Unreferenced (after_flush delete x y).1
  flushed_All (some e, sent) y p q = p
  flushed_All (none, sent) (e, later) p q = All-append Unreferenced sent later p q

  -- no hash that is referenced is passed to Delete
  pub sweep-All :
      (listed : Option E) (hashes pending : List String)
      → All Unreferenced pending
      → All Unreferenced (sweep delete referenced listed hashes pending).1
  unfolding sweep
  sweep-All (some e) [] pending p = tt
  sweep-All none [] pending p = subst (All Unreferenced) (sym (sent_by pending)) p
  sweep-All listed (hash ∷ hashes) pending p = elim (Bool-cases (contains referenced hash)) [
    | inl used ↦
        let step : sweep delete referenced listed (hash ∷ hashes) pending
            ≡ sweep delete referenced listed hashes pending =
          rw (sweep, used) refl in
        subst (λ x. All Unreferenced x.1) (sym step) (sweep-All listed hashes pending p)
    | inr free ↦
        let now = pending ++ (hash ∷ []) in
        let q = All-append Unreferenced pending (hash ∷ []) p (free, tt) in
        (elim (Bool-cases (leb delete_batch_size (length now))) [
          | inl full ↦
              let step : sweep delete referenced listed (hash ∷ hashes) pending
                  ≡ after_flush delete (flush delete now)
                      (sweep delete referenced listed hashes []) =
                rw (sweep, free, full) refl in
              subst (λ x. All Unreferenced x.1) (sym step)
                (flushed_All (flush delete now) (sweep delete referenced listed hashes [])
                  (subst (All Unreferenced) (sym (sent_by now)) q) (sweep-All listed hashes [] tt))
          | inr room ↦
              let step : sweep delete referenced listed (hash ∷ hashes) pending
                  ≡ sweep delete referenced listed hashes now =
                rw (sweep, free, room) refl in
              subst (λ x. All Unreferenced x.1) (sym step) (sweep-All listed hashes now q)
        ])
  ]

append_nil : (xs : List String) → xs ++ [] ≡ xs
append_nil [] = refl
append_nil (x ∷ xs) = ap (λ l. x ∷ l) (append_nil xs)

snoc_append :
    (xs : List String) (y : String) (ys : List String) → (xs ++ (y ∷ [])) ++ ys ≡ xs ++ (y ∷ ys)
snoc_append [] y ys = refl
snoc_append (x ∷ xs) y ys = ap (λ l. x ∷ l) (snoc_append xs y ys)

pub never_sent :
    (referenced sent : List String) (hash : String)
    → All (λ s. contains referenced s ≡ false) sent
    → contains referenced hash ≡ true
    → contains sent hash ≡ false
never_sent referenced [] hash a c = refl
never_sent referenced (s ∷ sent) hash a c =
    ground (arith, a.0, c, eq_iff s hash, never_sent referenced sent hash a.1 c)

module _ {E : Type 0} (delete : List String → Option E) (referenced : List String) where
  flushed_none :
      (x y : Option E × List String)
      → (after_flush delete x y).0 ≡ none
      → (y.0 ≡ none) × ((after_flush delete x y).1 ≡ x.1 ++ y.1)
  flushed_none (some e, sent) y h = cc
  flushed_none (none, sent) (e, more) h = (h, refl)

  -- A collection that succeeds asks to delete the listed blobs that are not referenced, each in its
  -- place and no others.
  pub sweep_complete :
      (listed : Option E) (hashes pending : List String)
      → (sweep delete referenced listed hashes pending).0 ≡ none
      → (sweep delete referenced listed hashes pending).1
        ≡ pending ++ keep (λ hash. not (contains referenced hash)) hashes
  unfolding sweep
  sweep_complete (some e) [] pending h = cc
  sweep_complete none [] pending h = sent_by delete referenced pending ∙ sym (append_nil pending)
  sweep_complete listed (hash ∷ hashes) pending h = elim (Bool-cases (contains referenced hash)) [
    | inl used ↦
        let step : sweep delete referenced listed (hash ∷ hashes) pending
            ≡ sweep delete referenced listed hashes pending =
          rw (sweep, used) refl in
        ap (λ x. x.1) step
        ∙ (sweep_complete listed hashes pending (ap (λ x. x.0) (sym step) ∙ h) ∙ rw used refl)
    | inr free ↦
        let now = pending ++ (hash ∷ []) in
        (elim (Bool-cases (leb delete_batch_size (length now))) [
          | inl full ↦
              let rest = sweep delete referenced listed hashes [] in
              let step : sweep delete referenced listed (hash ∷ hashes) pending
                  ≡ after_flush delete (flush delete now) rest =
                rw (sweep, free, full) refl in
              let (ended, sent) =
                flushed_none (flush delete now) rest (ap (λ x. x.0) (sym step) ∙ h) in
              ap (λ x. x.1) step
              ∙ (sent
                  ∙ rw (sent_by delete referenced now, sweep_complete listed hashes [] ended, free)
                      (snoc_append pending hash _))
          | inr room ↦
              let step : sweep delete referenced listed (hash ∷ hashes) pending
                  ≡ sweep delete referenced listed hashes now =
                rw (sweep, free, room) refl in
              ap (λ x. x.1) step
              ∙ (sweep_complete listed hashes now (ap (λ x. x.0) (sym step) ∙ h)
                  ∙ rw free (snoc_append pending hash _))
        ])
  ]
