-- ===== src/Filter.antt =====
-- index/filter.go and internal/filternorm.
pub mod Value
pub mod Norm
pub mod Match
pub mod Metadata
pub mod Build
pub mod Laws
pub mod Validate
pub mod Canonical
