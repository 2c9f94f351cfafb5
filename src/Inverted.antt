-- ===== src/Inverted.antt =====
-- The inverted indexes, one child for each part: shard/index/inverted/.
pub mod Sortable
pub mod Terms
pub mod Index
pub mod Search
pub mod Arrays
pub mod Numbers
mod Tests
