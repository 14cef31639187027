-- ===== src/Text.antt =====
-- Token estimates and truncation: `estimate_tokens` of context_cache/embeddings.py and
-- context_cache/text_budget.py. A token budget is a natural number: the source treats every budget
-- below zero as zero, which is what subtraction on ℕ gives.
pub mod Defs
pub mod Bounds
pub mod Tail
pub use Defs.{Message}
unfoldable pub use Defs.{
  estimate_tokens, is_space, rstrip, truncate_text, message_token_count, codes,
  event_truncation_marker, message_truncation_marker, select_newest, select_event_tail,
}
