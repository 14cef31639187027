-- ===== src/Prompt/Newest.antt =====
-- The newest event in the prompt.
use mathlib.Core.List.{append_assoc}
use library_of_context.Prelude.{
  ℕ, ◌+◌, ◌-◌, ◌≤◌, ◌<◌, ◌≡◌, refl, Option, List, [], ◌∷◌, ◌++◌, leb, length, length-append,
  if◌then◌else◌, arith, ok, Result,
}
use library_of_context.Models.{Str, ContextEvent}
use library_of_context.Text.{
  estimate_tokens, Message, message_token_count, truncate_text, event_truncation_marker,
}
use library_of_context.Text.Tail.{select_event_tail-newest}
use library_of_context.Dict.{elem}
use library_of_context.Store.{Store}
use library_of_context.Swapper.{WorkingSet}
use library_of_context.Prompt.Defs.{
  PromptBudget, GovernedPrompt, base_messages, available, protected_reserve, recent_cap,
  event_messages, selected_of, build, recent_events_of,
}
use library_of_context.Prompt.Builds.{build-fits}

event_messages-append :
    (a b : List (ContextEvent × Str))
    → event_messages (a ++ b) ≡ event_messages a ++ event_messages b
unfolding event_messages
event_messages-append [] b = refl
event_messages-append (p ∷ a) b = ground (arith, event_messages-append a b)

event_messages_one :
    (event : ContextEvent) (content : Str)
    → event_messages ((event, content) ∷ []) ≡ record { role = event.role; content = content } ∷ []
unfolding event_messages
event_messages_one event content = refl

-- The recent events have room for a message.
recent_cap-room :
    (budget : PromptBudget) (base_tokens : ℕ)
    → 64 ≤ budget.recent_tokens
    → base_tokens + 64 < budget.total_tokens
    → 4 < recent_cap budget (available budget base_tokens)
unfolding recent_cap protected_reserve available
recent_cap-room budget base_tokens recent room = omega (arith, recent, room)

-- The message of an event in a selection with so many tokens.
abbrev pub message_within : ℕ → ContextEvent → Message
message_within token_budget event = record {
  role = event.role;
  content =
      if leb event.token_count (token_budget - 4)
      then event.content
      else truncate_text event.content (token_budget - 4) event_truncation_marker;
}

module _ (printed shown : ℕ → Str) (session_id collection : Str) (budget : PromptBudget) where
  selected_of-newest :
      (older protected_events : List ContextEvent) (event : ContextEvent) (base_tokens : ℕ)
      → 64 ≤ budget.recent_tokens
      → base_tokens + 64 < budget.total_tokens
      → event.token_count ≡ estimate_tokens event.content
      → (before : List Message) × (event_messages (
            (selected_of printed shown session_id collection budget
              (older ++ event ∷ [])
              protected_events
              base_tokens).1
            ++ (selected_of printed shown session_id collection budget
                (older ++ event ∷ [])
                protected_events
                base_tokens).0)
          ≡ before ++ message_within (recent_cap budget (available budget base_tokens)) event ∷ [])
  unfolding selected_of
  selected_of-newest older protected_events event base_tokens recent room counted =
      let cap = recent_cap budget (available budget base_tokens) in
      let (before, e) =
        select_event_tail-newest older event cap [] (recent_cap-room budget base_tokens recent room)
          (unfold elem in refl) counted in
      let content = (message_within cap event).content in
      let others =
        (selected_of printed shown session_id collection budget (older ++ event ∷ [])
          protected_events base_tokens).1 in
      (
        event_messages (others ++ before),
        ground (
          arith,
          e,
          append_assoc others before ((event, content) ∷ []),
          event_messages-append (others ++ before) ((event, content) ∷ []),
          event_messages_one event content,
        ),
      )

  -- Where the budget leaves the recent events at least 64 tokens, the prompt of the system leaves
  -- more than 64, the desk answers each refresh for the budget's number of books and for between 8
  -- tokens and the whole budget, and the newest event counts the tokens of its content: the build
  -- returns, and the last message is that of the newest event, its content whole if it fits the
  -- share of the recent events, and cut to that share if not.
  pub build-newest :
      (refresh : Str → ℕ → ℕ → List Str → Result WorkingSet)
      → ((subject : Str) (token_budget : ℕ) (excluded : List Str)
          → 8 ≤ token_budget
          → token_budget ≤ budget.total_tokens
          → (working : WorkingSet) × (refresh subject token_budget budget.max_books excluded
              ≡ ok working))
      → (wall : ℕ) (s : Store) (snapshot protected_events older : List ContextEvent)
        (event : ContextEvent) (focus : Option Str) (system_prompt : Str)
      → recent_events_of printed shown session_id collection budget s snapshot ≡ older ++ event ∷ []
      → event.token_count ≡ estimate_tokens event.content
      → 64 ≤ budget.recent_tokens
      → message_token_count (base_messages system_prompt) + 64 < budget.total_tokens
      → (prompt : GovernedPrompt) × (build printed shown session_id collection budget refresh wall s
            snapshot protected_events focus system_prompt
          ≡ ok prompt)
        × (before : List Message) × (prompt.messages
            ≡ before
              ++ message_within
                  (recent_cap budget
                    (available budget (message_token_count (base_messages system_prompt))))
                  event
                ∷ [])
  build-newest refresh answers wall s snapshot protected_events older event focus system_prompt
        recent_events counted recent room =
      let tokens = message_token_count (base_messages system_prompt) in
      let some_events : 1
          ≤ length (recent_events_of printed shown session_id collection budget s snapshot) =
        rw recent_events (omega (arith, length-append older (event ∷ []))) in
      let (prompt, built, count, fit, head, single, messages) =
        build-fits printed shown session_id collection budget refresh answers wall s snapshot
          protected_events focus system_prompt some_events room in
      let (before, last) =
        selected_of-newest older protected_events event tokens recent room counted in
      let message = message_within (recent_cap budget (available budget tokens)) event in
      let assoc = append_assoc head before (message ∷ []) in
      (prompt, built, head ++ before, cc (messages, recent_events, last, assoc))
