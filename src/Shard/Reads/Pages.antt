-- ===== src/Shard/Reads/Pages.antt =====
-- The pages of the results.
