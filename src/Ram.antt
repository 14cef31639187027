-- ===== src/Ram.antt =====
-- `ByteLRU` of context_cache/ram.py.
pub mod Defs
pub mod Invariant
pub mod Puts
pub mod Reads
pub use Defs.{Entry, ByteLru, RamStats}
unfoldable pub use Defs.{init, is_expired, delete, get, evict, put, clear, stats}
