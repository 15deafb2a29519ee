-- ===== src/Cleanup.antt =====
-- ingest/cleanup.go: the garbage collection of blobs. A store that lists its references, and what
-- Delete answers, are parameters; the second component of an outcome holds the hashes that were
-- passed to Delete, in order.
pub mod Swept
pub mod Scanned
pub mod Collected
use amoxtli.Common.{
  ℕ, zero, suc, String, Bool, true, false, Option, none, some, List, [], ◌∷◌, ◌++◌, if◌then◌else◌,
  leb,
}
use amoxtli.Common.Keyed.{contains}
use amoxtli.Common.Lists.{length}
use amoxtli.Common.Result.{Result, ok, err, ◌>>=◌, Run, done, failed, out_of_fuel, on_ok}

-- deleteBatchSize
abbrev pub delete_batch_size : ℕ
delete_batch_size = 100

-- What the store answers: a page of the headers of documents, and the hashes in the content of one.
pub record DocumentStore (E : Type 0) : Type 0 where
  pub query_page : ℕ → Result E (List String)
  pub content_hashes : String → Result E (List String)

-- `if len(documents) == 0`
abbrev pub if_any : {A : Type 0} → List String → A → A → A
if_any [] empty more = empty
if_any (id ∷ ids) empty more = more

module _ {E : Type 0} (store : DocumentStore E) where
  -- the loop over the documents of a page
  unfoldable pub scan_page : List String → List String → Result E (List String)
  scan_page [] referenced = ok referenced
  scan_page (id ∷ ids) referenced = do
    hashes ← store.content_hashes id
    scan_page ids (hashes ++ referenced)

  -- scanReferencedBlobs, on fuel
  unfoldable pub scan_referenced_blobs : ℕ → ℕ → List String → Run E (List String)
  unfolding scan_page
  scan_referenced_blobs zero page referenced = out_of_fuel
  scan_referenced_blobs (suc fuel) page referenced = on_ok (store.query_page page) (λ ids.
      if_any ids (done referenced)
        (on_ok (scan_page ids referenced) (λ more. scan_referenced_blobs fuel (suc page) more)))

module _ {E : Type 0} (delete : List String → Option E) where
  -- flush: the hashes that it passes to Delete, and its error
  unfoldable pub flush : List String → Option E × List String
  flush [] = (none, [])
  flush (hash ∷ hashes) = (delete (hash ∷ hashes), hash ∷ hashes)

  abbrev pub after_flush : Option E × List String → Option E × List String → Option E × List String
  after_flush (some e, sent) rest = (some e, sent)
  after_flush (none, sent) (e, later) = (e, sent ++ later)

  -- the callback of List on the hashes that it lists, and the last flush; `listed` is the error of
  -- List itself
  unfoldable pub sweep : List String → Option E → List String → List String → Option E × List String
  unfolding flush
  sweep referenced listed [] pending = elim listed [ some e ↦ (some e, []) | none ↦ flush pending ]
  sweep referenced listed (hash ∷ hashes) pending =
      let now = pending ++ (hash ∷ []) in
      (elim (contains referenced hash) [
        | true ↦ sweep referenced listed hashes pending
        | false ↦ (elim (leb delete_batch_size (length now)) [
          | false ↦ sweep referenced listed hashes now
          | true ↦ after_flush (flush now) (sweep referenced listed hashes [])
        ])
      ])

module _ {E : Type 0} (store : DocumentStore E) (delete : List String → Option E) where
  abbrev pub swept : Run E (List String) → Option E → List String → Run E (Option E × List String)
  swept (done referenced) listed hashes = done (sweep delete referenced listed hashes [])
  swept (failed e) listed hashes = failed e
  swept out_of_fuel listed hashes = out_of_fuel

  -- cleanupOrphanedBlobs where the store does not list its references
  unfoldable pub cleanup_orphaned_blobs :
      ℕ → Option E → List String → Run E (Option E × List String)
  unfolding scan_referenced_blobs sweep
  cleanup_orphaned_blobs fuel listed hashes =
      swept (scan_referenced_blobs store fuel 0 []) listed hashes
