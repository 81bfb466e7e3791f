-- ===== src/Query.antt =====
-- resotocore/core/query/model.py: the queries of the graph, how they are put together and rewritten.
pub mod Names
pub mod Data
pub mod Variables
pub mod Rewrite
pub mod Print
pub mod Analytics
pub mod FromJson
pub mod Property
pub mod Build
pub mod Predicates
pub mod Meaning
pub mod Bounds
pub mod Examples
