-- ===== src/Scopes.antt =====
-- Identity and visibility: context_cache/scopes.py, and `_scope_predicate` of
-- context_cache/store.py, by which SQLite filters records.
pub mod Defs
pub mod Predicate
pub mod Records
pub use Defs.{
  ContextScope, ThreadKey, ScopeSelection, thread, project, team, scope_eq, thread_key_eq,
}
unfoldable pub use Defs.{
  scope_beq, strip, validate_identifier, validate_all, check_session, has_duplicates, thread_key,
  context_scope, is_empty, to_set, selection, resolve, for_thread, allows, validate_record_scope,
  is_blank,
}
