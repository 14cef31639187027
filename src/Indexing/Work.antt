-- ===== src/Indexing/Work.antt =====
-- A worker with one claim: what it does to the store, by how the work on the claim ends.
use library_of_context.Models.{str_eq}
use library_of_context.Store.{Store}
