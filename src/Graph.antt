-- ===== src/Graph.antt =====
-- db/graph.go: the graph view of the edge collections.
pub mod Adjacency
pub mod Traverse
pub mod Path
mod Tests
