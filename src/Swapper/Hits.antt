-- ===== src/Swapper/Hits.antt =====
-- `SearchHit` and `WorkingSet` of context_cache/models.py. A score is a number of thousandths, the
-- digits that a book shows of it; `shown` is how `:.3f` prints it.
use library_of_context.Prelude.{ℕ, List}
use library_of_context.Models.{Str}
use library_of_context.Store.Tables.{ContextRecord}

pub record SearchHit : Type 0 where
  pub context_record : ContextRecord
  pub score : ℕ
  pub vector_score : ℕ
  pub lexical_score : ℕ
  pub importance_score : ℕ
  pub recency_score : ℕ

pub record WorkingSet : Type 0 where
  pub session_id : Str
  pub namespace : Str
  pub focus : Str
  pub hits : List SearchHit
  pub context : Str
  pub token_count : ℕ
  pub token_budget : ℕ
  pub refreshed_at : ℕ
  pub swapped_in : List Str
  pub swapped_out : List Str
  pub retained : List Str
