-- ===== src/Registry.antt =====
-- `ThreadStateRegistry` of context_cache/thread_state.py: the recent events of the threads that are
-- in use, in a bounded number of slots. Registry/Defs.antt has the methods, Registry/Trims.antt
-- and Registry/Slots.antt what they do to the slots.
pub mod Defs
pub mod Trims
pub mod Slots
pub use Defs.{Entry, Registry}
unfoldable pub use Defs.*
