-- ===== src/Ring.antt =====
-- `RecentEventRing` of context_cache/rings.py.
pub mod Defs
pub mod Fitting
pub mod Methods
pub mod Protection
unfoldable pub use Defs.{
  init, projection, evict, append, snapshot, protect_in, set_protected, stats,
}
pub use Defs.{RecentEventRing, RingStats}
