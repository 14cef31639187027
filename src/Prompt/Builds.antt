-- ===== src/Prompt/Builds.antt =====
-- Whole prompts: what `build` selects and returns.
use library_of_context.Prelude.{
  ℕ, ◌+◌, ◌-◌, ◌≤◌, ◌<◌, ◌≡◌, refl, inl, inr, false, not, ◌&&◌, Option, List, [], ◌∷◌, ◌++◌, leb,
  ◌==◌, length, arith, Bool-cases, ok, sum_by-append, Result,
}
use library_of_context.Models.{Str, ContextEvent}
use library_of_context.Text.{
  estimate_tokens, Message, message_token_count, select_event_tail, select_newest,
}
use library_of_context.Text.Tail.{selection_cost, select_event_tail_lem, select_newest-cost}
use library_of_context.Scopes.{is_empty, strip}
use library_of_context.Store.{Store}
use library_of_context.Swapper.{WorkingSet}
use library_of_context.Prompt.Defs.{
  PromptBudget, GovernedPrompt, base_messages, available, recent_cap, protected_cap, event_ids,
  event_messages, selected_of, subject_of, library_block, empty_desk, excluded_records,
  retrieve_context, assembled, build_from, build, recent_events_of,
}
use library_of_context.Prompt.Budget.{enforce_budget-Fits}

count-append :
    (a b : List Message)
    → message_token_count (a ++ b) ≡ message_token_count a + message_token_count b
unfolding message_token_count
count-append a b = sum_by-append (λ (m : Message). estimate_tokens m.content + 4) a b

count-event_messages :
    (selected : List (ContextEvent × Str))
    → message_token_count (event_messages selected) ≡ selection_cost selected
unfolding message_token_count event_messages
count-event_messages [] = refl
count-event_messages ((event, content) ∷ selected) = omega (arith, count-event_messages selected)

module _ (budget : PromptBudget) where
  -- The shares of the budget add up to less than what is available.
  recent_cap-le : (room : ℕ) → recent_cap budget room ≤ room
  unfolding recent_cap
  recent_cap-le room = omega arith

  protected_cap-le :
      (room recent_tokens : ℕ)
      → recent_tokens ≤ room
      → protected_cap budget room recent_tokens + recent_tokens ≤ room
  unfolding protected_cap
  protected_cap-le room recent_tokens h = omega (arith, h)

module _ (printed shown : ℕ → Str) (session_id collection : Str) (budget : PromptBudget) where
  -- The selected events cost at most what is available.
  selected_of-fits :
      (recent_events protected_events : List ContextEvent) (base_tokens : ℕ)
      → message_token_count (
          event_messages (
            (selected_of printed shown session_id collection budget recent_events protected_events
              base_tokens).1
            ++ (selected_of printed shown session_id collection budget recent_events
                protected_events base_tokens).0))
        ≤ available budget base_tokens
  unfolding selected_of
  selected_of-fits recent_events protected_events base_tokens =
      let room = available budget base_tokens in
      let recent = select_event_tail recent_events (recent_cap budget room) [] in
      let cap = protected_cap budget room recent.1 in
      let other = select_newest protected_events cap (event_ids recent.0) [] 0 in
      let (cost, bound, rest) = select_event_tail_lem recent_events (recent_cap budget room) [] in
      let (cost_too, bound_too) =
        select_newest-cost cap (event_ids recent.0) protected_events [] 0 refl (omega arith) in
      omega (
        arith,
        count-event_messages (other.0 ++ recent.0),
        sum_by-append (λ (p : ContextEvent × Str). estimate_tokens p.1 + 4) other.0 recent.0,
        cost,
        bound,
        cost_too,
        bound_too,
        recent_cap-le budget room,
        protected_cap-le budget room recent.1,
      )

  module _ (refresh : Str → ℕ → ℕ → List Str → Result WorkingSet)
      (answers : (subject : Str) (token_budget : ℕ) (excluded : List Str)
        → 8 ≤ token_budget
        → token_budget ≤ budget.total_tokens
        → (working : WorkingSet) × (refresh subject token_budget budget.max_books excluded
            ≡ ok working)) where
    retrieve_context-answers :
        (wall : ℕ) (subject : Str) (messages : List Message)
        (selected_events : List (ContextEvent × Str))
        → (working : WorkingSet) × (retrieve_context printed shown session_id collection budget
              refresh wall subject messages selected_events
            ≡ ok working)
    unfolding retrieve_context
    retrieve_context-answers wall subject messages selected_events =
        let desk_budget =
          budget.total_tokens
          - message_token_count messages
          - estimate_tokens (library_block printed shown session_id collection budget [] wall)
          - 4 in
        elim (Bool-cases (not (is_empty (strip subject)) && leb 8 desk_budget)) [
          | inr skip ↦ (empty_desk wall session_id collection subject, ground (arith, skip))
          | inl go ↦
              let (working, e) =
                answers subject desk_budget (excluded_records selected_events) (ground (arith, go))
                  (omega arith) in
              (working, ground (arith, go, e))
        ]

    build_from-answers :
        (wall : ℕ) (s : Store) (recent_events protected_events : List ContextEvent)
        (focus : Option Str) (system_prompt : Str)
        → message_token_count (base_messages system_prompt) + 64 < budget.total_tokens
        → (prompt : GovernedPrompt) × (build_from printed shown session_id collection budget refresh
              wall s recent_events protected_events focus system_prompt
            ≡ ok prompt)
          × (prompt.token_count ≡ message_token_count prompt.messages)
          × (prompt.token_count ≤ budget.total_tokens)
          × (head : List Message) × (length head ≤ 1)
          × (prompt.messages
              ≡ head
                ++ event_messages (
                    (selected_of printed shown session_id collection budget recent_events
                      protected_events
                      (message_token_count (base_messages system_prompt))).1
                    ++ (selected_of printed shown session_id collection budget recent_events
                        protected_events
                        (message_token_count (base_messages system_prompt))).0))
    unfolding build_from available assembled
    build_from-answers wall s recent_events protected_events focus system_prompt room =
        let base = base_messages system_prompt in
        let tokens = message_token_count base in
        let selected =
          selected_of printed shown session_id collection budget recent_events protected_events
            tokens in
        let events = selected.1 ++ selected.0 in
        let tail = event_messages events in
        let small : message_token_count (base ++ tail) ≤ budget.total_tokens = omega (
          arith,
          count-append base tail,
          selected_of-fits recent_events protected_events tokens,
          room,
        ) in
        let (working, answer) =
          retrieve_context-answers wall (subject_of focus recent_events) (base ++ tail) events in
        let (head, final, enforced, single, fit) =
          enforce_budget-Fits printed shown session_id collection budget system_prompt tail small
            working in
        let enough : leb budget.total_tokens (tokens + 64) ≡ false = ground (arith, room) in
        (
          assembled printed shown session_id collection budget s selected.0 selected.1
              (head ++ tail, final, message_token_count (head ++ tail)),
          rw (enough, answer, enforced) refl,
          refl,
          fit,
          head,
          single,
          refl,
        )

    -- Where the thread has events, the prompt of the system leaves more than 64 tokens, and the desk
    -- answers each refresh for the budget's number of books and for between 8 tokens and the whole
    -- budget: the build returns, and its messages cost what it says and fit the budget. They are the
    -- protected and then the recent events that were selected, behind at most one message.
    pub build-fits :
        (wall : ℕ) (s : Store) (snapshot protected_events : List ContextEvent) (focus : Option Str)
        (system_prompt : Str)
        → 1 ≤ length (recent_events_of printed shown session_id collection budget s snapshot)
        → message_token_count (base_messages system_prompt) + 64 < budget.total_tokens
        → (prompt : GovernedPrompt) × (build printed shown session_id collection budget refresh wall
              s snapshot protected_events focus system_prompt
            ≡ ok prompt)
          × (prompt.token_count ≡ message_token_count prompt.messages)
          × (prompt.token_count ≤ budget.total_tokens)
          × (head : List Message) × (length head ≤ 1)
          × (prompt.messages
              ≡ head
                ++ event_messages (
                    (selected_of printed shown session_id collection budget
                      (recent_events_of printed shown session_id collection budget s snapshot)
                      protected_events
                      (message_token_count (base_messages system_prompt))).1
                    ++ (selected_of printed shown session_id collection budget
                        (recent_events_of printed shown session_id collection budget s snapshot)
                        protected_events
                        (message_token_count (base_messages system_prompt))).0))
    unfolding build
    build-fits wall s snapshot protected_events focus system_prompt events room =
        let recent_events =
          recent_events_of printed shown session_id collection budget s snapshot in
        let (prompt, built, counted, fit, head, single, messages) =
          build_from-answers wall s recent_events protected_events focus system_prompt room in
        let present : (length recent_events == 0) ≡ false = ground (arith, events) in
        (prompt, rw present built, counted, fit, head, single, messages)
