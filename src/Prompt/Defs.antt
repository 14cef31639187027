-- ===== src/Prompt/Defs.antt =====
-- `GovernedPromptBuilder`. The messages, once they are built, hold the system message first, if
-- there is one. The ratio `native_context_pressure` of the token count and the budget is left out.
use library_of_context.Prelude.{
  ℕ, ◌+◌, ◌-◌, ◌/◌, false, not, ◌&&◌, Option, none, some, List, [], ◌∷◌, ◌++◌, ◌==◌, leb, ltb,
  if◌then◌else◌, length, max, min, map, drop, reverse, Result, ok, raise, ◌>>=◌, value_error,
  runtime_error,
}
use library_of_context.Models.{Str, str_eq, ContextEvent}
use library_of_context.Dict.{elem}
use library_of_context.Text.{
  codes, estimate_tokens, Message, message_token_count, select_newest, select_event_tail,
}
use library_of_context.Scopes.{strip, is_empty, to_set}
use library_of_context.Markup.{format_library_context}
use library_of_context.Store.{Store, ContextWatermarks, list_thread_events, thread_watermarks}
use library_of_context.Swapper.{WorkingSet}
use library_of_context.Swapper.Packing.{pack_hits}

pub record PromptBudget : Type 0 where
  pub total_tokens : ℕ
  pub recent_tokens : ℕ
  pub protected_tokens : ℕ
  pub max_books : ℕ

pub record GovernedPrompt : Type 0 where
  pub session_id : Str
  pub collection : Str
  pub messages : List Message
  pub token_count : ℕ
  pub token_budget : ℕ
  pub event_count : ℕ
  pub recent_event_ids : List Str
  pub protected_event_ids : List Str
  pub desk : WorkingSet
  pub watermarks : ContextWatermarks
  pub paged_out_events : ℕ

abbrev pub system_message : Str → Message
system_message content = record { role = codes "system"; content = content }

unfoldable pub empty_desk : ℕ → Str → Str → Str → WorkingSet
empty_desk wall session_id namespace focus = record {
  session_id = session_id;
  namespace = namespace;
  focus = focus;
  hits = [];
  context = [];
  token_count = 0;
  token_budget = 0;
  refreshed_at = wall;
  swapped_in = [];
  swapped_out = [];
  retained = [];
}

unfoldable pub base_messages : Str → List Message
base_messages system_prompt =
    if is_empty system_prompt then [] else system_message system_prompt ∷ []

-- What is available, what is kept of it for protected events, and the caps of the two selections.
unfoldable pub available : PromptBudget → ℕ → ℕ
available budget base_tokens = budget.total_tokens - base_tokens - 32

unfoldable pub protected_reserve : PromptBudget → ℕ → ℕ
protected_reserve budget room =
    min budget.protected_tokens (room - min budget.recent_tokens (max 64 (room / 2)))

unfoldable pub recent_cap : PromptBudget → ℕ → ℕ
unfolding protected_reserve
recent_cap budget room = min budget.recent_tokens (room - protected_reserve budget room)

unfoldable pub protected_cap : PromptBudget → ℕ → ℕ → ℕ
protected_cap budget room recent_tokens = min budget.protected_tokens (room - recent_tokens)

unfoldable pub event_ids : List (ContextEvent × Str) → List Str
event_ids selected = map (λ (p : ContextEvent × Str). p.0.event_id) selected

-- `{"role": event.role, "content": content}` for each
unfoldable pub event_messages : List (ContextEvent × Str) → List Message
event_messages selected =
    map (λ (p : ContextEvent × Str). record { role = p.0.role; content = p.1 }) selected

-- The newest content of a user, or of anyone if there is none; of the events, newest first.
unfoldable pub newest_of_user : List ContextEvent → Option Str
newest_of_user [] = none
newest_of_user (event ∷ events) =
    let rest = newest_of_user events in
    if str_eq.beq event.role (codes "user") then some event.content else rest

unfoldable pub subject_of : Option Str → List ContextEvent → Str
unfolding newest_of_user
subject_of (some focus) recent_events = focus
subject_of none recent_events = elim (newest_of_user (reverse recent_events)) [
  | some content ↦ content
  | none ↦ elim (reverse recent_events) [ [] ↦ [] | event ∷ older ↦ event.content ]
]

-- `protected_ids.extend(...)`, which looks at the list as it grows.
unfoldable pub extend_protected : List Str → List (ContextEvent × Str) → List Str
extend_protected ids [] = ids
extend_protected ids ((event, content) ∷ selected) =
    extend_protected
      (if event.is_protected && not (elem event.event_id ids)
        then ids ++ event.event_id ∷ []
        else ids)
      selected

-- `messages[0] = message`
unfoldable pub replace_first : Message → List Message → List Message
replace_first message [] = []
replace_first message (m ∷ messages) = message ∷ messages

-- The records of the selected events, those without one left out.
unfoldable pub excluded_records : List (ContextEvent × Str) → List Str
excluded_records [] = []
excluded_records ((event, content) ∷ selected) =
    let rest = excluded_records selected in
    if is_empty event.record_id then rest else event.record_id ∷ rest

-- `printed` is how `:.6f` prints a time, `shown` how `:.3f` prints a score.
module _ (printed shown : ℕ → Str) (session_id collection : Str) (budget : PromptBudget) where
  unfoldable pub library_block : Str → ℕ → Str
  library_block context refreshed_at =
      format_library_context context session_id (some (printed refreshed_at))
        (some (codes "semantic-paging"))

  -- The content of the system message that carries the context.
  unfoldable pub framed : Str → WorkingSet → Str
  unfolding library_block
  framed system_prompt working =
      let block = library_block working.context working.refreshed_at in
      if is_empty system_prompt then block else system_prompt ++ codes "\n\n" ++ block

  unfoldable pub attach_context : List Message → Str → WorkingSet → List Message
  unfolding framed replace_first
  attach_context messages system_prompt working =
      let message = system_message (framed system_prompt working) in
      if is_empty working.context
      then messages
      else if is_empty system_prompt
      then message ∷ messages
      else replace_first message messages

  -- The last test of `_enforce_budget`.
  unfoldable pub checked : List Message → WorkingSet → Result (List Message × WorkingSet × ℕ)
  checked messages working =
      if ltb budget.total_tokens (message_token_count messages)
      then raise runtime_error
      else ok (messages, working, message_token_count messages)

  -- The working set that is packed again for the tokens that are left.
  unfoldable pub repacked : ℕ → WorkingSet → WorkingSet
  repacked token_count working =
      let overflow = token_count - budget.total_tokens in
      let target = estimate_tokens working.context - overflow - 8 in
      let (selected, context) = pack_hits shown target working.hits (max 1 (length working.hits)) in
      record working { hits = selected; context = context; token_count = estimate_tokens context }

  unfoldable pub reattach : List Message → Str → WorkingSet → List Message
  unfolding framed replace_first
  reattach messages system_prompt working =
      if not (is_empty working.context)
      then replace_first (system_message (framed system_prompt working)) messages
      else if not (is_empty system_prompt)
      then replace_first (system_message system_prompt) messages
      else drop 1 messages

  unfoldable pub enforce_budget :
      List Message → Str → WorkingSet → Result (List Message × WorkingSet × ℕ)
  unfolding checked repacked reattach
  enforce_budget messages system_prompt working =
      let token_count = message_token_count messages in
      let smaller = repacked token_count working in
      if ltb budget.total_tokens token_count && not (is_empty working.context)
      then checked (reattach messages system_prompt smaller) smaller
      else checked messages working

  -- The events of the ring, or the last of the store if it has none.
  unfoldable pub recent_events_of : Store → List ContextEvent → List ContextEvent
  recent_events_of s snapshot =
      let stored = list_thread_events s collection session_id (some 256) false in
      if length snapshot == 0 then stored else snapshot

  -- The prompt that `build` returns.
  unfoldable pub assembled :
      Store
      → List (ContextEvent × Str)
      → List (ContextEvent × Str)
      → List Message × WorkingSet × ℕ
      → GovernedPrompt
  unfolding event_ids extend_protected
  assembled s selected_recent selected_protected (messages, working, token_count) =
      let recent_ids = event_ids selected_recent in
      let protected_ids = event_ids selected_protected in
      let watermarks = thread_watermarks s collection session_id in
      record {
        session_id = session_id;
        collection = collection;
        messages = messages;
        token_count = token_count;
        token_budget = budget.total_tokens;
        event_count = watermarks.recorded_through;
        recent_event_ids = recent_ids;
        protected_event_ids = extend_protected protected_ids selected_recent;
        desk = working;
        watermarks = watermarks;
        paged_out_events =
            watermarks.recorded_through - length (to_set (recent_ids ++ protected_ids));
      }

  -- The recent and the protected events that go into the prompt.
  unfoldable pub selected_of :
      List ContextEvent
      → List ContextEvent
      → ℕ
      → List (ContextEvent × Str) × List (ContextEvent × Str)
  unfolding available recent_cap protected_cap event_ids
  selected_of recent_events protected_events base_tokens =
      let room = available budget base_tokens in
      let (selected_recent, recent_tokens) =
        select_event_tail recent_events (recent_cap budget room) [] in
      let (selected_protected, protected_tokens) =
        select_newest protected_events (protected_cap budget room recent_tokens)
          (event_ids selected_recent) [] 0 in
      (selected_recent, selected_protected)

  -- `refresh` is what `ContextSwapper.refresh` answers for a focus, a budget, a number of books and
  -- the records to leave out.
  module _ (refresh : Str → ℕ → ℕ → List Str → Result WorkingSet) where
    unfoldable pub retrieve_context :
        ℕ → Str → List Message → List (ContextEvent × Str) → Result WorkingSet
    unfolding library_block empty_desk excluded_records
    retrieve_context wall subject messages selected_events =
        let desk_budget =
          budget.total_tokens
          - message_token_count messages
          - estimate_tokens (library_block [] wall)
          - 4 in
        if not (is_empty (strip subject)) && leb 8 desk_budget
        then refresh subject desk_budget budget.max_books (excluded_records selected_events)
        else ok (empty_desk wall session_id collection subject)

    -- `build` from its recent events on, which are not empty.
    unfoldable pub build_from :
        ℕ → Store → List ContextEvent → List ContextEvent → Option Str → Str → Result GovernedPrompt
    unfolding base_messages selected_of event_messages subject_of retrieve_context attach_context
        enforce_budget assembled
    build_from wall s recent_events protected_events focus system_prompt =
        let base = base_messages system_prompt in
        let base_tokens = message_token_count base in
        let (selected_recent, selected_protected) =
          selected_of recent_events protected_events base_tokens in
        let messages = base ++ event_messages (selected_protected ++ selected_recent) in
        if leb budget.total_tokens (base_tokens + 64)
        then raise value_error
        else (retrieve_context wall (subject_of focus recent_events) messages
              (selected_protected ++ selected_recent)
            >>= λ working.
                enforce_budget (attach_context messages system_prompt working) system_prompt working
                >>= λ checked. ok (assembled s selected_recent selected_protected checked))

    -- `protected_events` is what `iter_thread_events_descending` yields.
    unfoldable pub build :
        ℕ → Store → List ContextEvent → List ContextEvent → Option Str → Str → Result GovernedPrompt
    unfolding recent_events_of build_from
    build wall s snapshot protected_events focus system_prompt =
        let recent_events = recent_events_of s snapshot in
        if length recent_events == 0
        then raise value_error
        else build_from wall s recent_events protected_events focus system_prompt
