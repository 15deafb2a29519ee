-- ===== src/Pipeline.antt =====
-- index/pipeline: the search over several weighted indexes.
pub mod Fusion
pub mod Dedup
pub mod FanOut
pub mod Transformers
pub mod Legs
