-- ===== src/Ring/Defs.antt =====
-- The state and the methods of `RecentEventRing`. Every method runs under the ring's one lock, so a
-- method is one step.
use library_of_context.Prelude.{
  ℕ, ◌+◌, ◌-◌, Bool, true, false, ◌||◌, List, [], ◌∷◌, ◌++◌, ltb, leb, if◌then◌else◌, length, max,
  Result, ok, raise, index_error,
}
use library_of_context.Models.{Str, str_eq, ContextEvent}
use library_of_context.Dict.{elem, discard}
use library_of_context.Text.{estimate_tokens, truncate_text, event_truncation_marker}

pub record RecentEventRing : Type 0 where
  pub max_events : ℕ
  pub max_tokens : ℕ
  pub events : List ContextEvent
  pub ids : List Str
  pub tokens : ℕ
  pub highest_sequence : ℕ

unfoldable pub init : ℕ → ℕ → RecentEventRing
init max_events max_tokens = record {
  max_events = max 1 max_events;
  max_tokens = max 64 max_tokens;
  events = [];
  ids = [];
  tokens = 0;
  highest_sequence = 0;
}

-- The copy of an event that the ring keeps: the event itself, or, where it alone would not fit, the
-- event with its content cut and its tokens counted again.
unfoldable pub projection : ℕ → ContextEvent → ContextEvent
projection max_tokens event =
    let content = truncate_text event.content (max_tokens - 4) event_truncation_marker in
    if ltb max_tokens (event.token_count + 4)
    then record event { content = content; token_count = estimate_tokens content }
    else event

-- The `while` loop of `append`: `popleft` of an empty deque raises.
unfoldable pub evict :
    ℕ → ℕ → List ContextEvent → List Str → ℕ → Result (List ContextEvent × List Str × ℕ)
evict max_events max_tokens [] ids tokens =
    if ltb max_events 0 || ltb max_tokens tokens then raise index_error else ok ([], ids, tokens)
evict max_events max_tokens (removed ∷ events) ids tokens =
    let rest =
      evict max_events max_tokens events (discard removed.event_id ids)
        (tokens - (removed.token_count + 4)) in
    if ltb max_events (length (removed ∷ events)) || ltb max_tokens tokens
    then rest
    else ok (removed ∷ events, ids, tokens)

unfoldable pub append : RecentEventRing → ContextEvent → Result RecentEventRing
append r event =
    let projected = projection r.max_tokens event in
    let appended =
      evict r.max_events r.max_tokens (r.events ++ projected ∷ [])
        (if elem projected.event_id r.ids then r.ids else r.ids ++ projected.event_id ∷ [])
        (r.tokens + (projected.token_count + 4)) in
    if elem event.event_id r.ids || leb event.sequence r.highest_sequence
    then ok r
    else elim appended [
      | ok (events, ids, tokens) ↦ ok (record r {
        events = events;
        ids = ids;
        tokens = tokens;
        highest_sequence = event.sequence;
      })
      | raise e ↦ raise e
    ]

unfoldable pub snapshot : RecentEventRing → List ContextEvent
snapshot r = r.events

-- The loop of `set_protected`: the first event with the identifier changes.
unfoldable pub protect_in : Str → Bool → List ContextEvent → List ContextEvent × Bool
protect_in event_id flag [] = ([], false)
protect_in event_id flag (event ∷ events) =
    let (rest, found) = protect_in event_id flag events in
    if str_eq.beq event.event_id event_id
    then (record event { is_protected = flag } ∷ events, true)
    else (event ∷ rest, found)

unfoldable pub set_protected : RecentEventRing → Str → Bool → RecentEventRing × Bool
set_protected r event_id flag =
    let (events, found) = protect_in event_id flag r.events in (record r { events = events }, found)

pub record RingStats : Type 0 where
  pub events : ℕ
  pub estimated_tokens : ℕ
  pub event_capacity : ℕ
  pub token_capacity : ℕ

unfoldable pub stats : RecentEventRing → RingStats
stats r = record {
  events = length r.events;
  estimated_tokens = r.tokens;
  event_capacity = r.max_events;
  token_capacity = r.max_tokens;
}
