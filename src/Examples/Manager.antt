-- ===== src/Examples/Manager.antt =====
-- Searches of the manager over three small documents, on an index that cannot filter.
mod Cursors
mod Iterative
use amoxtli.Common.{
  ◌≡◌, ◌≢◌, refl, sym, ap, subst, ◌∙◌, Option, true, ℕ, ◌≤◌, String, some, none, List, [], ◌∷◌,
  if◌then◌else◌, ◌==◌,
}
use amoxtli.Common.Int.{pos, plus}
use amoxtli.Common.Lists.{All, length}
use amoxtli.Common.Result.{Result, ok, ok-injective, done, out_of_fuel}
use amoxtli.Filter.Norm.{Metadata, equal}
use amoxtli.Filter.Match.{Filter, matches, matches_condition}
use amoxtli.Filter.Value.{no_conditions, to_conditions, add_condition}
use amoxtli.Filter.Build.{eq}
use amoxtli.Filter.Value.{str}
use amoxtli.Filter.Validate.{valid_key}
use amoxtli.Manager.{Manager, ManagerOptions}
use amoxtli.Manager.Judge.Verdicts.{Consistent}
use amoxtli.Manager.Candidates.{search_candidates}
use amoxtli.Manager.Candidates.Found.{Found, search_candidates-Found}
use amoxtli.Manager.Search.{manager_search}
use amoxtli.Manager.Search.Answers.{Chooses, Matches, manager_search_ends, manager_search-Matches}
use amoxtli.Search.{SearchResult}
use amoxtli.Examples.Filters.{host, stored, printer}
use amoxtli.Examples.Manager.Cursors.{three, texts}

abbrev pub truth : String → Metadata host
truth source = if source == "b" then none else stored

abbrev pub all_known : List String → Result String (String → Metadata host)
all_known keys = ok truth

-- An index without filters, a store that knows the three documents, and a reranker that keeps the
-- order.
abbrev pub manager : Manager host String
manager = record {
  search = λ query opts. ok three;
  search_filtered = none;
  metadata_by_sources = some (all_known);
  reranker = some (λ query results. ok results);
  collection_id = λ name. ok name;
  fragment = λ source. "";
  without_fragment = λ source. source;
}

abbrev pub by_ada : Filter host
by_ada = add_condition (eq "author" (str "ada")) (to_conditions [])

pub store_answers : Consistent manager by_ada all_known truth
store_answers keys metadata e k p = ap (λ f. f k) (sym (ok-injective e))

abbrev options : ManagerOptions host
options = record {
  max_results = pos 1;
  collections = "docs" ∷ [];
  filter = by_ada;
  cursor = "";
  candidate_pool_size = pos 0;
}

abbrev pub a : SearchResult ℕ
a = record { source = "a"; sections = []; score = 1; section_scores = none }

abbrev pub c : SearchResult ℕ
c = record { source = "c"; sections = []; score = 1; section_scores = none }

gathered : search_candidates manager "q" ("docs" ∷ []) by_ada (pos 0) (pos 2) ≡ done (a ∷ c ∷ [])
unfolding search_candidates eq to_conditions matches matches_condition equal
gathered = refl

searched : manager_search manager texts printer (λ s. "f") "q" options ≡ done (a ∷ [], "caecepef")
unfolding manager_search eq to_conditions valid_key plus matches matches_condition equal
searched = refl

abbrev apply_some :
    String
    → List (SearchResult ℕ)
    → Option (String → List (SearchResult ℕ) → Result String (List (SearchResult ℕ)))
    → Result String (List (SearchResult ℕ))
apply_some query results none = ok []
apply_some query results (some rerank) = rerank query results

pub keeps_all :
    (rerank : String → List (SearchResult ℕ) → Result String (List (SearchResult ℕ)))
    → manager.reranker ≡ some rerank
    → Chooses (Matches manager texts printer (λ s. "f") by_ada all_known truth store_answers) rerank
keeps_all rerank e query results out p h =
    subst (All (Matches manager texts printer (λ s. "f") by_ada all_known truth store_answers))
      (ok-injective (ap (apply_some query results) e ∙ p)) h

manager_search-Matches_example :
    All (Matches manager texts printer (λ s. "f") by_ada all_known truth store_answers) (a ∷ [])
    × (length (a ∷ []) ≤ 1)
unfolding to_conditions
manager_search-Matches_example =
    manager_search-Matches manager texts printer (λ s. "f") by_ada all_known truth store_answers "q"
      options (a ∷ []) "caecepef" (eq "author" (str "ada")) no_conditions refl refl refl refl
      keeps_all searched
