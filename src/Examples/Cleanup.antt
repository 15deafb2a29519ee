-- ===== src/Examples/Cleanup.antt =====
-- A store with one page of two documents.
use amoxtli.Common.{
  ◌≡◌, refl, inl, false, ℕ, zero, suc, String, Option, none, List, [], ◌∷◌, if◌then◌else◌, ◌==◌,
}
use amoxtli.Common.Keyed.{contains}
use amoxtli.Common.Result.{Result, ok, done}
use amoxtli.Cleanup.{
  DocumentStore, cleanup_orphaned_blobs, scan_referenced_blobs, scan_page, sweep, flush,
}
use amoxtli.Cleanup.Scanned.{Referenced}
use amoxtli.Cleanup.Collected.{cleanup_keeps_referenced}

abbrev one_page : ℕ → Result String (List String)
one_page zero = ok ("d1" ∷ "d2" ∷ [])
one_page (suc n) = ok []

abbrev small_store : DocumentStore String
small_store = record {
  query_page = one_page;
  content_hashes = λ id. ok (if id == "d1" then "aa" ∷ [] else []);
}

abbrev deletes : List String → Option String
deletes hashes = none

collects :
    cleanup_orphaned_blobs small_store deletes 2 none ("bb" ∷ "aa" ∷ "cc" ∷ [])
    ≡ done (none, "bb" ∷ "cc" ∷ [])
unfolding cleanup_orphaned_blobs scan_referenced_blobs scan_page sweep flush
collects = refl

cleanup_keeps_referenced_example : contains ("bb" ∷ "cc" ∷ []) "aa" ≡ false
cleanup_keeps_referenced_example =
    cleanup_keeps_referenced small_store deletes 2 none ("bb" ∷ "aa" ∷ "cc" ∷ []) ("bb" ∷ "cc" ∷ [])
      none "aa" collects (Referenced.on_page ("d1" ∷ "d2" ∷ []) refl (inl ("aa" ∷ [], refl, refl)))
