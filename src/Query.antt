-- ===== src/Query.antt =====
-- The query language of internal/domain/query: filters, sorting, pages and aggregations.
pub mod Value
pub mod Builders
pub mod FieldNames
pub mod Compare
pub mod Match
pub mod Semantics
pub mod Sort
pub mod OwnerKey
pub mod Aggregation
pub mod Grouping
pub mod Histogram
pub mod Aggregator
