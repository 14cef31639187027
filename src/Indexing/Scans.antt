-- ===== src/Indexing/Scans.antt =====
-- A scan of the outbox: what it claims has a place in the queue.
use library_of_context.Queue
use library_of_context.Store.{Store}
use library_of_context.Indexing.Defs.{claim_eq}
