-- ===== src/Cluster.antt =====
-- The parts of the cluster node, one for each child: cluster/.
pub mod Placement
pub mod Failed
pub mod Hashing
pub mod Route
pub mod Collections
