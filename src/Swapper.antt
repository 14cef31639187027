-- ===== src/Swapper.antt =====
-- The reading desks of context_cache/swapper.py: Swapper/Hits.antt has the search hits and the
-- working sets, Swapper/Packing.antt fills a desk, Swapper/Longest.antt and Swapper/Packed.antt are
-- about the books on it. Swapper/Desks.antt keeps the desks of all threads, Swapper/Refresh.antt has a
-- whole refresh, Swapper/Steps.antt the steps of the threads, and the other files are about these.
pub mod Hits
pub mod Packing
pub mod Longest
pub mod Packed
pub mod Desks
pub mod Refresh
pub mod Steps
pub mod Trims
pub mod Stepwise
pub mod Generations
pub mod Validity
pub mod Bounded
pub mod Recall
pub use Hits.{SearchHit, WorkingSet}
