-- ===== src/Graph.antt =====
-- components/index_server/src/graph: the graph of capacities and the search in it.
pub mod Bfs
pub mod Capacity
mod Tests
