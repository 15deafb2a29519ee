-- ===== src/Rerank/Ranks.antt =====
-- retrieval/rerank.go: the ranks that the responses of the model give to the sections.
use amoxtli.Common.{
  ◌≡◌, refl, sym, ap, ◌∙◌, inl, inr, ℕ, suc, String, Option, none, some, List, [], ◌∷◌, ◌++◌,
  if◌then◌else◌, ◌==◌, is_some, arith, Option-cases, eq_iff,
}
use amoxtli.Common.Distinct.{firsts}
use amoxtli.Common.Keyed.{Keyed, lookup, insert, lookup-insert, contains}
use amoxtli.Rerank.{rank_ids, rank_responses}

-- the place of a text in a list, counted from a number
abbrev pub place : ℕ → String → List String → Option ℕ
place n k [] = none
place n k (x ∷ xs) = if x == k then some n else place (suc n) k xs

-- all the identifiers, in the order of the responses
abbrev pub ids_of : List (List String) → List String
ids_of [] = []
ids_of (ids ∷ rest) = ids ++ ids_of rest

rank_ids-append :
    (xs ys : List String) (state : Keyed ℕ × ℕ)
    → rank_ids (xs ++ ys) state ≡ rank_ids ys (rank_ids xs state)
unfolding rank_ids
rank_ids-append [] ys (rank, next) = refl
rank_ids-append (x ∷ xs) ys (rank, next) = elim (Option-cases (lookup x rank)) [
  | inl e ↦ rw (e, rank_ids) (rank_ids-append xs ys (insert x next rank, suc next))
  | inr (n, e) ↦ rw (e, rank_ids) (rank_ids-append xs ys (rank, next))
]

rank_responses-eq-rank_ids :
    (responses : List (List String)) (state : Keyed ℕ × ℕ)
    → rank_responses responses state ≡ rank_ids (ids_of responses) state
unfolding rank_responses
rank_responses-eq-rank_ids [] state = refl
rank_responses-eq-rank_ids (ids ∷ rest) state =
    rank_responses-eq-rank_ids rest (rank_ids ids state)
    ∙ sym (rank_ids-append ids (ids_of rest) state)

lookup-rank_ids :
    (ids seen : List String) (rank : Keyed ℕ) (next : ℕ) (k : String)
    → ((i : String) → is_some (lookup i rank) ≡ contains seen i)
    → lookup k (rank_ids ids (rank, next)).0
      ≡ (if contains seen k then lookup k rank else place next k (firsts seen ids))
unfolding rank_ids
lookup-rank_ids [] seen rank next k h = ground (arith, h k)
lookup-rank_ids (id ∷ ids) seen rank next k h = elim (Option-cases (lookup id rank)) [
  | inr (n, e) ↦ rw (e, rank_ids) (ground (arith, e, h id, lookup-rank_ids ids seen rank next k h))
  | inl e ↦
      rw (e, rank_ids)
        (ground (
          arith,
          e,
          h id,
          h k,
          eq_iff id k,
          lookup-insert id k next rank,
          lookup-rank_ids ids (id ∷ seen) (insert id next rank) (suc next) k
              (λ i. ground (arith, h i, lookup-insert id i next rank, eq_iff id i)),
        ))
]

-- The rank of an identifier is its place among the distinct identifiers of all responses, in their
-- order; one that stands in no response has none.
pub lookup-rank_responses :
    (responses : List (List String)) (k : String)
    → lookup k (rank_responses responses ([], 0)).0 ≡ place 0 k (firsts [] (ids_of responses))
lookup-rank_responses responses k =
    ap (λ s. lookup k s.0) (rank_responses-eq-rank_ids responses ([], 0))
    ∙ lookup-rank_ids (ids_of responses) [] [] 0 k (λ i. refl)
