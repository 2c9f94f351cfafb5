-- ===== src/Vamana.antt =====
-- shard/index/vamana: the graph index for approximate nearest neighbours.
pub mod DistSet
pub mod Prune
pub mod Node
