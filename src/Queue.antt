-- ===== src/Queue.antt =====
-- `UniqueWorkQueue` of context_cache/rings.py.
pub mod Defs
pub mod Run
pub use Defs.{UniqueWorkQueue, QueueStats}
unfoldable pub use Defs.{init, offer, get, discard_pending, task_done, complete, available, stats}
