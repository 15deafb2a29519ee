-- ===== src/Manager/Candidates/Gather.antt =====
-- ingest/manager.go: the widening loop of searchCandidates, and what it settles for.
use Prim.Native.Nat.{min}
use amoxtli.Common.{
  ◌≡◌, ◌≢◌, ◌≤◌, inl, inr, Bool, ℕ, zero, suc, ◌*◌, String, Option, none, some, List, [], arith,
  Bool-cases, Option-cases,
}
use amoxtli.Common.Int.{ℤ, pos, negsuc}
use amoxtli.Common.Keyed.{Keyed}
use amoxtli.Common.Result.{
  Result, ok, err, done, failed, out_of_fuel, on_ok-ne-out_of_fuel, Result-cases,
}
use amoxtli.Filter.Match.{Filter}
use amoxtli.Filter.Norm.{Host, Metadata}
use amoxtli.Filter.Value.{no_conditions, add_condition}
use amoxtli.Manager.{Manager}
use amoxtli.Manager.Candidates.{
  CandidateError, called, fetch, gather, gather_round, settled, candidate_window,
  filtered_candidates, local_candidates, search_candidates, is_unfiltered, is_positive,
}
use amoxtli.Manager.Judge.{apply_filter}

pub called-ok : {E A : Type 0} (r : Result E A) {value : A} → called r ≡ ok value → r ≡ ok value
called-ok (ok value) h = cc
called-ok (err problem) h = cc

-- the window after some rounds
abbrev widened : ℕ → ℕ → ℕ
widened zero window = window
widened (suc k) window = widened k (min (window * 3) 500)

widen_le : (a b window : ℕ) → a ≤ window → b ≤ a * 3 → b ≤ 500 → b ≤ min (window * 3) 500
widen_le a b window h k l = omega (arith, h, k, l)

widened_enough : (window : ℕ) → 1 ≤ window → 500 ≤ widened 6 window
widened_enough window h =
    widen_le 243 500 _
      (widen_le 81 243 _
        (widen_le 27 81 _
          (widen_le 9 27 _
            (widen_le 3 9 _ (widen_le 1 3 window h (omega arith) (omega arith)) (omega arith)
              (omega arith))
            (omega arith) (omega arith))
          (omega arith) (omega arith))
        (omega arith) (omega arith))
      (omega arith) (omega arith)

module _ {h : Host} {E : Type 0} (m : Manager h E) (query : String)
    (collections : List String) where
  gather_ends :
      (provider : List String → Result E (String → Metadata h)) (filter : Filter h) (target : ℤ)
      (k window : ℕ) (verdicts : Keyed Bool)
      → 500 ≤ widened k window
      → gather m query collections provider filter target (suc k) window verdicts ≢ out_of_fuel
  unfolding gather
  gather_ends provider filter target zero window verdicts l =
      elim (Result-cases (gather_round m query collections provider filter window verdicts)) [
        | inr (e, p) ↦ rw (p, gather) (λ q. cc)
        | inl ((results, (kept, v')), p) ↦
            rw (p, gather)
              (elim (Bool-cases (settled m query collections target window results kept)) [
                | inl s ↦ rw s (λ q. cc)
                | inr s ↦ absurd (ground (arith, s, l))
              ])
      ]
  gather_ends provider filter target (suc k) window verdicts l =
      elim (Result-cases (gather_round m query collections provider filter window verdicts)) [
        | inr (e, p) ↦ rw (p, gather) (λ q. cc)
        | inl ((results, (kept, v')), p) ↦
            rw (p, gather)
              (elim (Bool-cases (settled m query collections target window results kept)) [
                | inl s ↦ rw s (λ q. cc)
                | inr s ↦ rw s (gather_ends provider filter target k (min (window * 3) 500) v' l)
              ])
      ]

  candidate_window_enough :
      (provider : List String → Result E (String → Metadata h)) (filter : Filter h) (target : ℤ)
      → gather m query collections provider filter target 7 (candidate_window target 3) []
        ≢ out_of_fuel
  unfolding candidate_window gather
  candidate_window_enough provider filter (pos (suc n)) =
      gather_ends provider filter (pos (suc n)) 6 (candidate_window (pos (suc n)) 3) []
        (widened_enough _ (ground arith))
  candidate_window_enough provider filter (pos zero) =
      elim (Result-cases (gather_round m query collections provider filter 0 [])) [
        | inr (e, p) ↦ rw (p, gather) (λ q. cc)
        | inl ((results, (kept, v')), p) ↦ rw (p, gather) (λ q. ground (arith, q))
      ]
  candidate_window_enough provider filter (negsuc n) =
      elim (Result-cases (gather_round m query collections provider filter 0 [])) [
        | inr (e, p) ↦ rw (p, gather) (λ q. cc)
        | inl ((results, (kept, v')), p) ↦ rw (p, gather) (λ q. cc)
      ]

  filtered_candidates_ends :
      (provider : Option (List String → Result E (String → Metadata h))) (filter : Filter h)
      (pool target : ℤ)
      → filtered_candidates m query collections provider filter pool target ≢ out_of_fuel
  unfolding filtered_candidates
  filtered_candidates_ends none filter pool target = elim (Bool-cases (is_positive pool)) [
    | inl e ↦ rw e (
        on_ok-ne-out_of_fuel (fetch m query collections pool)
          (λ results. failed CandidateError.no_metadata) (λ results q. cc))
    | inr e ↦ rw e (λ q. cc)
  ]
  filtered_candidates_ends (some provider) filter pool target =
      elim (Bool-cases (is_positive pool)) [
        | inl e ↦ rw e (
            on_ok-ne-out_of_fuel (fetch m query collections pool) _ (λ results.
              on_ok-ne-out_of_fuel (called (apply_filter m filter provider results []))
                (λ judged. done judged.0) (λ judged q. cc)))
        | inr e ↦ rw e (candidate_window_enough provider filter target)
      ]

  local_candidates_ends :
      (filter : Filter h) (pool target : ℤ)
      → local_candidates m query collections filter pool target ≢ out_of_fuel
  unfolding local_candidates
  local_candidates_ends no_conditions pool target = on_ok-ne-out_of_fuel _ done (λ results q. cc)
  local_candidates_ends (add_condition c cs) pool target =
      filtered_candidates_ends m.metadata_by_sources (add_condition c cs) pool target

  -- The widening of the fetch ends, whatever the index and the store answer: seven rounds, growing
  -- to the bound of 500, are enough for every page that can be asked for.
  pub search_candidates_ends :
      (filter : Filter h) (pool target : ℤ)
      → search_candidates m query collections filter pool target ≢ out_of_fuel
  unfolding search_candidates
  search_candidates_ends filter pool target = elim (Option-cases m.search_filtered) [
    | inl e ↦ rw (e, search_candidates) (local_candidates_ends filter pool target)
    | inr (filtered, e) ↦ elim (Bool-cases (is_unfiltered filter)) [
      | inl u ↦ rw (e, u, search_candidates) (local_candidates_ends filter pool target)
      | inr u ↦ rw (e, u, search_candidates) (on_ok-ne-out_of_fuel _ done (λ results q. cc))
    ]
  ]
