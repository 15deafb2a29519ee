-- ===== src/Lib.antt =====
-- Verification of the retrieval core of amoxtli, a library that indexes documents and answers
-- searches over them: what happens to a query and to the results between the indexes and the caller,
-- the search of the manager with its filters and pages, the reranking, the cutting of source files,
-- the runner of background tasks, and the workflows of indexing.
--
-- A search goes through these parts. Orchestrator.Search (retrieval/orchestrator.go) retrieves
-- candidates, for the query or for the sub-queries that a decomposer makes of it, and fuses them; an
-- evidence evaluator (retrieval/evaluate.go) asks a language model which sections bear on the query,
-- and the orchestrator filters or demotes the others, and may reformulate the query and search again.
-- A retrieval is served by the pipeline index (index/pipeline/index.go), which transforms the query
-- for each kind of index, asks all its indexes at once, merges their ranked results by Reciprocal Rank
-- Fusion and passes them through transformers of results. Filters on document metadata
-- (index/filter.go, internal/filternorm) are evaluated by every index, or on the stored metadata.
-- The manager (ingest/manager.go) serves searches page by page: its Search fetches candidates from the
-- index, filters them on stored metadata where the index cannot, has the head of them reranked
-- (retrieval/rerank.go) and cuts a page, with a cursor for the next. Filters are typed as expressions
-- (index/filterexpr). The sections that indexes hold come from converters (convert) and parsers;
-- sourcecode/parser.go nests those of a source file by its declarations, and split.go cuts the large
-- ones. SearchIterative (amoxtli.go) runs the orchestrator over the search of the manager.
-- Independently, indexing runs as tasks, of a runner in memory (task/memory/task_runner.go)
-- or of runners that share a database (task/gorm/task_runner.go).
--
--   Common        lists, maps as key lists, sorting by a total order, results of fallible code
--   Floats        float64, its operators and cmp.Compare, as an interface with laws
--   Search        SearchResult of index/index.go
--   Filter        index/filter.go and internal/filternorm/filternorm.go: Value is the type of operands
--                 and metadata, Norm the normal form and the comparisons, Match the evaluation, Build
--                 the builders, Validate and Canonical the methods of these names
--   SqliteFilter  index/sqlitevec/filter.go: the filter as SQL; Text prints it, Engine is what SQLite
--                 makes of it
--   Evidence      FilterRelevant and DemoteIrrelevant of retrieval/evaluate.go
--   Evaluator     LLMEvidenceEvaluator; Prompt is getUserPrompt
--   Orchestrator  retrieval/orchestrator.go; Fusion is fuseResults, judge_loop the loop of Search
--   Pipeline      index/pipeline: Fusion is mergeResults, Transformers transformQuery, FanOut fanOut,
--                 Legs search and SearchFiltered, Dedup the duplicate content transformer
--   Tasks         task/memory/task_runner.go; Steps are its operations, Runs their sequences
--   Queue         task/gorm: the persistent runner; Statements are the SQL statements of all runners and
--                 what they do to the row of a task, Runner the methods, Execution is executeTask
--   Cleanup       ingest/cleanup.go: cleanupOrphanedBlobs; Swept is about its loop, Scanned about the
--                 scan of the documents
--   Workflow      internal/workflow: steps with compensations
--   Manager       ingest/manager.go: Search of the manager; Cursor is paginate with its cursors, Judge
--                 the metadataFilter, Candidates searchCandidates
--   Codex         amoxtli.go: SearchIterative, the orchestrator over the search of the manager
--   Rerank        retrieval/rerank.go; user_prompt of Evaluator is its getUserPrompt
--   FilterExpr    index/filterexpr/filterexpr.go
--   Convert       convert/retry.go and convert/routed.go
--   Source        sourcecode/split.go and parser.go, and SplitByWords of internal/text/word.go
--   Examples      concrete runs
--
-- A fallible function returns Result with the source's errors as values; their texts and wrapping are
-- left out. What another process or package answers (language models, stores, url.Parse, most
-- functions of the package strings, time and number formatting, the order of ranges over maps) is a
-- parameter; the texts of filter expressions are cut by definitions of their own. An int is ℤ where
-- the source reads its sign, and a number otherwise; the sums and products that can leave 64 bits (the
-- limits of the legs, the offsets of cursors, the wait of Retry) keep their wrap-around.
--
-- Loops are structural recursion, but for the loop of Search over rounds of judgement, which runs on
-- fuel: max_rounds and one more pass are given, which is enough because each pass that goes on counts
-- a round. The loop of the manager over growing windows of candidates has fuel for seven rounds: the
-- window triples in each round and is bounded by 500, so that six growths end it. The loop over the
-- chunks of a section has as much fuel as there are words, and one more; that of Retry has an attempt
-- for each retry, and one more; that of the scan of documents a round for each page, the empty one
-- included.
--
-- The legs of a fan-out share nothing but their slots, and are run one by one. The goroutines of the
-- task runner are steps in any order; one call of CancelTask or ScheduleTask is one step, except for
-- the wait for room in the queue. The runners of a shared database are sequences of SQL statements
-- in any order, each of which the database makes at once or not at all; a method has the statements
-- of others as a parameter, and the ticks of Run and of heartbeat, which send statements by the
-- clock, are statements like the others. The indexes themselves, the stores, the converters behind
-- Retry and Routed, the syntax trees of source files, the command line and the other handlers of
-- ingestion are not modelled: they are mostly calls of databases, external programs and services.
pub mod Common
pub mod Floats
pub mod Search
pub mod Rerank
pub mod Source
pub mod FilterExpr
pub mod Convert
pub mod Filter
pub mod Evidence
pub mod Evaluator
pub mod Orchestrator
pub mod Pipeline
pub mod Tasks
pub mod Workflow
pub mod Manager
pub mod Queue
pub mod SqliteFilter
pub mod Cleanup
pub mod Codex
mod Examples
