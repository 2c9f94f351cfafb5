-- ===== src/Shard.antt =====
-- The parts of a shard, one for each child: shard/.
pub mod IdCounter
pub mod Points
pub mod ItemCache
pub mod Writes
pub mod Manager
pub mod Reads
