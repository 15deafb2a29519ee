-- ===== src/Manager.antt =====
-- ingest/manager.go: the search of the manager, from the caller's options to a page of results. The
-- index, the store's metadata, the reranker and the functions of net/url are parameters.
pub mod Cursor
pub mod Judge
pub mod Candidates
pub mod Search
use amoxtli.Common.{String, Option, List, ◌==◌, if◌then◌else◌}
use amoxtli.Common.Int.{ℤ}
use amoxtli.Common.Result.{Result}
use amoxtli.Filter.Match.{Filter}
use amoxtli.Filter.Norm.{Host, Metadata}
use amoxtli.Search.{SearchResult}
use amoxtli.Pipeline.Transformers.{SearchOptions as IndexOptions}

-- SearchOptions of the manager
pub record ManagerOptions (h : Host) : Type 0 where
  pub max_results : ℤ
  pub collections : List String
  pub filter : Filter h
  pub cursor : String
  pub candidate_pool_size : ℤ

-- What a search takes from the manager. `search_filtered` is the capability that index.AsFilterable
-- finds on the index, and `metadata_by_sources` the MetadataProvider that the store may be: it answers
-- all the sources asked for at once, with the nil map for one that it does not know. `fragment` and
-- `without_fragment` read and clear the fragment of a URL.
pub record Manager (h : Host) (E : Type 0) : Type 0 where
  pub search : String → IndexOptions → Result E (List (SearchResult h.floats.Float))
  pub search_filtered :
      Option (String → Filter h → IndexOptions → Result E (List (SearchResult h.floats.Float)))
  pub metadata_by_sources : Option (List String → Result E (String → Metadata h))
  pub reranker :
      Option (
        String → List (SearchResult h.floats.Float) → Result E (List (SearchResult h.floats.Float)))
  pub collection_id : String → Result E String
  pub fragment : String → String
  pub without_fragment : String → String

-- sourceKey
unfoldable pub source_key : {h : Host} {E : Type 0} → Manager h E → String → String
source_key m source = if m.fragment source == "" then source else m.without_fragment source
