-- ===== src/Cleanup/Collected.antt =====
-- ingest/cleanup.go: which blobs the garbage collection deletes.
use amoxtli.Common.{◌≡◌, refl, subst, ℕ, String, false, Option, List, []}
use amoxtli.Common.Keyed.{contains}
use amoxtli.Common.Lists.{All}
use amoxtli.Common.Result.{Run, done, failed, out_of_fuel, done-injective}
use amoxtli.Cleanup.{DocumentStore, scan_referenced_blobs, swept, cleanup_orphaned_blobs}
use amoxtli.Cleanup.Swept.{sweep-All, never_sent}
use amoxtli.Cleanup.Scanned.{Referenced, scan_finds}

module _ {E : Type 0} (store : DocumentStore E) (delete : List String → Option E) where
  -- Where the collection of orphaned blobs has scanned the documents, whatever it then returns, it
  -- has never asked to delete a blob that one of these documents references.
  pub cleanup_keeps_referenced :
      (fuel : ℕ) (listed : Option E) (hashes sent : List String) (problem : Option E)
      (hash : String)
      → cleanup_orphaned_blobs store delete fuel listed hashes ≡ done (problem, sent)
      → Referenced store hash 0
      → contains sent hash ≡ false
  unfolding cleanup_orphaned_blobs
  cleanup_keeps_referenced fuel listed hashes sent problem hash e c =
      go (scan_referenced_blobs store fuel 0 []) refl e
    where
      go :
          (run : Run E (List String))
          → scan_referenced_blobs store fuel 0 [] ≡ run
          → swept store delete run listed hashes ≡ done (problem, sent)
          → contains sent hash ≡ false
      go (failed p) r h = cc
      go out_of_fuel r h = cc
      go (done referenced) r h =
          never_sent referenced sent hash
            (subst (λ x. All (λ s. contains referenced s ≡ false) x.1) (done-injective h)
              (sweep-All delete referenced listed hashes [] tt))
            (scan_finds store hash fuel 0 [] referenced r c)
