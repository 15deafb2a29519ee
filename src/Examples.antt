-- ===== src/Examples.antt =====
-- Concrete runs of each component, and its theorems at inputs that meet their hypotheses.
mod Scores
mod Evidence
mod Filters
mod Manager
mod Pipeline
mod Search
mod Rerank
mod Source
mod FilterExpr
mod SqliteFilter
mod Convert
mod Tasks
mod Queue
mod Workflow
mod Cleanup
