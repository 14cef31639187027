-- ===== src/Store.antt =====
-- The SQLite store: context_cache/store.py. A table is the list of its rows in the order in which
-- they were inserted; Store/Rows.antt has what the SQL statements do to rows. A method that runs
-- one transaction is one step, and a method that raises rolls its transaction back, so a result
-- that is an exception leaves the caller's state as it was.
pub mod Rows
pub mod Tables
pub mod Records
pub mod Events
pub mod Leasing
pub mod Outbox
pub mod Positions
pub mod Serial
pub mod Leases
pub mod Claims
pub mod Invariant
pub mod Completion
pub mod Appends
pub mod Steps
pub mod OutboxValidity
pub mod CompletionValidity
pub mod Validity
pub mod Pages
pub mod Order
pub mod Fencing
pub mod Retries
pub mod Visibility
pub mod Sources
pub mod SourceCounts
pub use Tables.{ContextRecord, OutboxRow, OutboxClaim, ContextWatermarks, Store}
unfoldable pub use Tables.{in_thread, is_event, is_row, is_record, is_active, is_claimed}
unfoldable pub use Records.*
unfoldable pub use Events.*
unfoldable pub use Leasing.*
unfoldable pub use Outbox.*
unfoldable pub use Sources.*
