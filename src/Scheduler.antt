-- ===== src/Scheduler.antt =====
-- `DeskScheduler` of context_cache/scheduler.py: periodic refreshes of reading desks on a bounded pool
-- of workers. Scheduler/Defs.antt has what each thread does under the condition's lock, and
-- Scheduler/Steps.antt the threads as a step relation. Flights, Landings and Runs are about what is
-- in flight, Keys, Ages, Outdated and Generations about the keys and the generations of the tasks.
pub mod Defs
pub mod Steps
pub mod Flights
pub mod Landings
pub mod Runs
pub mod Ages
pub mod Keys
pub mod Outdated
pub mod Generations
pub use Defs.{Task, Scheduler, Item}
unfoldable pub use Defs.*
