-- ===== src/Dict.antt =====
-- Python's `dict`, `OrderedDict` and `set`, with what `dict` iteration shows: insertion order.
-- The operations are in Dict/Defs.antt, their laws in Dict/Laws.antt and Dict/Sums.antt.
mod Defs
mod Laws
mod Sums
unfoldable pub use Defs.{Dict, keys, get, contains, pop, put, put_last, elem, discard, Unique}
pub use Laws.*
pub use Sums.*
