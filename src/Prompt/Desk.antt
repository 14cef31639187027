-- ===== src/Prompt/Desk.antt =====
-- The desk that a governor hands to its prompt builder: `self.desk.refresh` of `_retrieve_context`
-- is `ContextSwapper.refresh`, under the key of the thread.
use library_of_context.Prelude.{
  ℕ, ◌≤◌, ◌≡◌, refl, true, Option, none, ltb, false, ◌||◌, ◌==◌, List, [], arith, Result, ok, ◌>>=◌,
}
use library_of_context.Models.{Str}
use library_of_context.Scopes.{ThreadKey}
use library_of_context.Store.{ContextRecord}
use library_of_context.Swapper.{SearchHit, WorkingSet}
use library_of_context.Swapper.Desks.{Desks, begin_refresh, get}
use library_of_context.Swapper.Refresh.{Request, check_request, refreshed, refresh}
use library_of_context.Prompt.Defs.{PromptBudget}

module _ (shown : ℕ → Str) (retrieve : ThreadKey → Request → ℕ → List SearchHit)
    (lookup : ThreadKey → Request → Str → Option ContextRecord) where
  -- The working set of a refresh on the given desks. A build asks for one at most.
  unfoldable pub desk_refresh :
      ℕ → ℕ → Desks → ThreadKey → Str → ℕ → ℕ → List Str → Result WorkingSet
  unfolding refresh
  desk_refresh now wall desks key focus token_budget top_k exclude_record_ids =
      let request : Request = record {
        focus = focus;
        token_budget = token_budget;
        top_k = top_k;
        filters = none;
        pinned_record_ids = [];
        exclude_record_ids = exclude_record_ids;
        team_ids = [];
      } in
      refresh shown retrieve lookup now wall desks key request true >>= λ refreshed. ok refreshed.1

  pub desk_refresh-answers :
      (budget : PromptBudget) (now wall : ℕ) (desks t : Desks) (key : ThreadKey) (generation : ℕ)
      → begin_refresh now desks key ≡ ok (t, generation)
      → budget.total_tokens ≤ 128000
      → 1 ≤ budget.max_books
      → budget.max_books ≤ 100
      → (focus : Str) (token_budget : ℕ) (excluded : List Str) → 8 ≤ token_budget
      → token_budget ≤ budget.total_tokens
      → (working : WorkingSet) × (desk_refresh now wall desks key focus token_budget
            budget.max_books excluded
          ≡ ok working)
  unfolding desk_refresh check_request refresh
  desk_refresh-answers budget now wall desks t key generation begun small some_books few focus
        token_budget excluded enough bounded =
      let limits : ((token_budget == 0) ≡ false)
          × (ltb 128000 token_budget ≡ false)
          × ((ltb budget.max_books 1 || ltb 100 budget.max_books) ≡ false) =
        ground (arith, small, some_books, few, enough, bounded) in
      let request : Request = record {
        focus = focus;
        token_budget = token_budget;
        top_k = budget.max_books;
        filters = none;
        pinned_record_ids = [];
        exclude_record_ids = excluded;
        team_ids = [];
      } in
      (
        refreshed shown retrieve lookup wall key request (get now wall t key).1,
        rw (limits.0, limits.1, limits.2, begun) refl,
      )
