-- ===== src/Indexing.antt =====
-- The outbox indexer: context_cache/indexing.py. Indexing/Defs.antt has its state and methods,
-- Indexing/Claims.antt the row and the event of a claim, Indexing/Work.antt what a worker does to the
-- store, Indexing/Scans.antt what a scan does.
pub mod Defs
pub mod Claims
pub mod Work
pub mod Scans
