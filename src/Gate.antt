-- ===== src/Gate.antt =====
-- `ReadWriteGate` of context_cache/concurrency.py: record operations enter together, a bulk mutation
-- alone. Gate/Defs.antt has what each thread does under the condition's lock, where `none` is a
-- thread that waits; Gate/Exclusion.antt has all interleavings of the threads, and
-- Gate/Wakeups.antt the waits and the notifications.
pub mod Defs
pub mod Exclusion
pub mod Wakeups
pub use Defs.{Gate}
unfoldable pub use Defs.*
