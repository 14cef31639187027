-- ===== src/Swapper/Refresh.antt =====
-- `refresh` and the periodic refreshes. The cache is a section parameter: `retrieve` and `lookup`
-- are what `ContextCache.retrieve` and `ContextCache.get` answer, `shown` is how `:.3f` prints.
-- Redis has no part in a refresh but to be told of it.
use library_of_context.Prelude.{
  ℕ, ◌*◌, Bool, not, ◌||◌, Option, none, some, List, [], ◌∷◌, ◌++◌, ◌==◌, ltb, if◌then◌else◌, max,
  min, keep, Result, ok, raise, ◌>>=◌, value_error,
}
use library_of_context.Models.{Str, str_eq, Metadata}
use library_of_context.Dict
use library_of_context.Dict.{Dict, elem}
use library_of_context.Text.{estimate_tokens}
use library_of_context.Scopes.{ThreadKey, thread_key_eq}
use library_of_context.Store.Tables.{ContextRecord}
use library_of_context.Swapper.Hits.{SearchHit, WorkingSet}
use library_of_context.Swapper.Packing.{pack_hits, swap_diff}
use library_of_context.Swapper.Desks.{Desks, begin_refresh, finish_refresh, publish, get}

-- The arguments that a refresh and a periodic task share.
pub record Request : Type 0 where
  pub focus : Str
  pub token_budget : ℕ
  pub top_k : ℕ
  pub filters : Option Metadata
  pub pinned_record_ids : List Str
  pub exclude_record_ids : List Str
  pub team_ids : List Str

-- `{hit.record.id: hit for hit in hits}`
unfoldable pub by_id : List SearchHit → Dict Str SearchHit → Dict Str SearchHit
by_id [] d = d
by_id (hit ∷ hits) d = by_id hits (Dict.put hit.context_record.id hit d)

-- `SearchHit(record, 1.0, 1.0, 0.0, 1.0, 1.0)`
unfoldable pub pinned_hit : ContextRecord → SearchHit
pinned_hit r = record {
  context_record = r;
  score = 1000;
  vector_score = 1000;
  lexical_score = 0;
  importance_score = 1000;
  recency_score = 1000;
}

module _ (lookup : Str → Option ContextRecord) where
  -- The loop over the pinned identifiers, with the hits that it leaves.
  unfoldable pub take_pinned : List Str → Dict Str SearchHit → List SearchHit × Dict Str SearchHit
  unfolding pinned_hit
  take_pinned [] found = ([], found)
  take_pinned (id ∷ ids) found =
      let (ordered, rest) = take_pinned ids (Dict.pop id found) in
      let fetched : List SearchHit = elim (lookup id) [
        | none ↦ ordered
        | some r ↦ pinned_hit r ∷ ordered
      ] in
      (elim (Dict.get id found) [ none ↦ fetched | some hit ↦ hit ∷ ordered ], rest)

  unfoldable pub order_hits : List SearchHit → List Str → List Str → List SearchHit
  unfolding by_id take_pinned
  order_hits retrieved pinned_record_ids exclude_record_ids =
      let hits =
        keep (λ (hit : SearchHit). not (elem hit.context_record.id exclude_record_ids)) retrieved in
      let (ordered, rest) = take_pinned pinned_record_ids (by_id hits []) in
      ordered ++ keep (λ (hit : SearchHit). Dict.contains hit.context_record.id rest) hits

-- `min(MAX_RESULT_BOOKS, max(top_k, top_k * 3))`
unfoldable pub retrieved_count : ℕ → ℕ
retrieved_count top_k = min 100 (max top_k (top_k * 3))

module _ (shown : ℕ → Str) (retrieve : ThreadKey → Request → ℕ → List SearchHit)
    (lookup : ThreadKey → Request → Str → Option ContextRecord) where
  unfoldable pub retrieve_and_order_hits : ThreadKey → Request → List SearchHit
  unfolding order_hits retrieved_count
  retrieve_and_order_hits key request =
      order_hits (lookup key request) (retrieve key request (retrieved_count request.top_k))
        request.pinned_record_ids request.exclude_record_ids

  -- The working set of a refresh, from the one before it.
  unfoldable pub refreshed : ℕ → ThreadKey → Request → Option WorkingSet → WorkingSet
  unfolding retrieve_and_order_hits pack_hits swap_diff
  refreshed wall key request previous =
      let ordered = retrieve_and_order_hits key request in
      let (selected, context) = pack_hits shown request.token_budget ordered request.top_k in
      let (swapped_in, swapped_out, retained) = swap_diff previous selected in
      record {
        session_id = key.session_id;
        namespace = key.collection;
        focus = request.focus;
        hits = selected;
        context = context;
        token_count = estimate_tokens context;
        token_budget = request.token_budget;
        refreshed_at = wall;
        swapped_in = swapped_in;
        swapped_out = swapped_out;
        retained = retained;
      }

  unfoldable pub check_request : Request → Result (Unit {0})
  check_request request =
      if request.token_budget == 0
      then raise value_error
      else if ltb 128000 request.token_budget
      then raise value_error
      else if ltb request.top_k 1 || ltb 100 request.top_k
      then raise value_error
      else ok tt

  -- `refresh` without another thread in between, and without Redis.
  unfoldable pub refresh : ℕ → ℕ → Desks → ThreadKey → Request → Bool → Result (Desks × WorkingSet)
  unfolding check_request refreshed begin_refresh get publish finish_refresh
  refresh now wall s key request permitted = check_request request >>= λ _.
      begin_refresh now s key >>= λ begun.
      let (t, generation) = begun in
      let (u, previous) = get now wall t key in
      let working_set = refreshed wall key request previous in
      ok (finish_refresh (publish now u key generation permitted working_set) key, working_set)
