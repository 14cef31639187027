-- ===== src/Prompt/Budget.antt =====
-- The budget of a prompt that carries a context, when the context is packed again.
use library_of_context.Prelude.{
  ℕ, ◌+◌, ◌-◌, ◌≤◌, ◌<◌, ◌≡◌, refl, inl, inr, true, false, List, [], ◌∷◌, ◌++◌, ltb, length, max,
  arith, Bool-cases, Result, ok,
}
use library_of_context.Models.{Str}
use library_of_context.Text.{estimate_tokens, Message, message_token_count}
use library_of_context.Text.Bounds.{estimate_tokens_lem}
use library_of_context.Scopes.{is_empty}
use library_of_context.Swapper.{WorkingSet}
use library_of_context.Swapper.Packed.{pack_hits-bounds}
use library_of_context.Prompt.Defs.{
  PromptBudget, system_message, base_messages, replace_first, library_block, framed, attach_context,
  checked, repacked, reattach, enforce_budget,
}
use library_of_context.Prompt.Framing.{around, length-framed, length_nonempty}

module _ (printed shown : ℕ → Str) (session_id collection : Str) (budget : PromptBudget) where
  -- The tokens of a message list with one system message in front.
  abbrev with_system : Str → List Message → List Message
  with_system content tail = system_message content ∷ tail

  count-cons :
      (content : Str) (tail : List Message)
      → message_token_count (with_system content tail)
        ≡ estimate_tokens content + 4 + message_token_count tail
  unfolding message_token_count
  count-cons content tail = refl

  module _ (system_prompt : Str) (tail : List Message) (working : WorkingSet) where
    attach_context-empty :
        is_empty working.context ≡ true
        → attach_context printed shown session_id collection budget
            (base_messages system_prompt ++ tail)
            system_prompt
            working
          ≡ base_messages system_prompt ++ tail
    unfolding attach_context
    attach_context-empty h = ground (arith, h)

    attach_context-full :
        is_empty working.context ≡ false
        → attach_context printed shown session_id collection budget
            (base_messages system_prompt ++ tail)
            system_prompt
            working
          ≡ with_system
              (framed printed shown session_id collection budget system_prompt working)
              tail
    unfolding attach_context base_messages replace_first
    attach_context-full h = ground (arith, h)

    reattach-empty :
        (content : Str)
        → is_empty working.context ≡ true
        → reattach printed shown session_id collection budget
            (with_system content tail)
            system_prompt
            working
          ≡ base_messages system_prompt ++ tail
    unfolding reattach base_messages replace_first
    reattach-empty content h = ground (arith, h)

    reattach-full :
        (content : Str)
        → is_empty working.context ≡ false
        → reattach printed shown session_id collection budget
            (with_system content tail)
            system_prompt
            working
          ≡ with_system
              (framed printed shown session_id collection budget system_prompt working)
              tail
    unfolding reattach replace_first
    reattach-full content h = ground (arith, h)

  repacked-fits :
      (token_count : ℕ) (working : WorkingSet)
      → (estimate_tokens
            (repacked printed shown session_id collection budget token_count working).context
          ≤ estimate_tokens working.context - (token_count - budget.total_tokens) - 8)
        × ((repacked printed shown session_id collection budget token_count working).refreshed_at
            ≡ working.refreshed_at)
  unfolding repacked
  repacked-fits token_count working =
      let target = estimate_tokens working.context - (token_count - budget.total_tokens) - 8 in
      let fits =
        pack_hits-bounds shown target working.hits (max 1 (length working.hits)) (omega arith) in
      (fits.0, refl)

  checked-fits :
      (messages : List Message) (working : WorkingSet)
      → message_token_count messages ≤ budget.total_tokens
      → checked printed shown session_id collection budget messages working
        ≡ ok (messages, working, message_token_count messages)
  unfolding checked
  checked-fits messages working h = ground (arith, h)

  -- With the context packed again, the message fits.
  repacked-count :
      (system_prompt : Str) (tail : List Message) (working smaller : WorkingSet)
      → budget.total_tokens
        < message_token_count (
            with_system
              (framed printed shown session_id collection budget system_prompt working)
              tail)
      → estimate_tokens smaller.context
        ≤ estimate_tokens working.context
          - (message_token_count (
                with_system
                  (framed printed shown session_id collection budget system_prompt working)
                  tail)
              - budget.total_tokens)
          - 8
      → smaller.refreshed_at ≡ working.refreshed_at
      → is_empty smaller.context ≡ false
      → message_token_count (
          with_system
            (framed printed shown session_id collection budget system_prompt smaller)
            tail)
        ≤ budget.total_tokens
  repacked-count system_prompt tail working smaller over less time full =
      let old = framed printed shown session_id collection budget system_prompt working in
      let new = framed printed shown session_id collection budget system_prompt smaller in
      let same : length (around printed shown session_id collection budget system_prompt smaller)
          ≡ length (around printed shown session_id collection budget system_prompt working) =
        unfold framed library_block in rw time refl in
      let some_context : 1 ≤ length smaller.context = length_nonempty smaller.context full in
      omega (
        arith,
        count-cons old tail,
        count-cons new tail,
        estimate_tokens_lem old,
        estimate_tokens_lem new,
        estimate_tokens_lem smaller.context,
        estimate_tokens_lem working.context,
        length-framed printed shown session_id collection budget system_prompt working,
        length-framed printed shown session_id collection budget system_prompt smaller,
        same,
        some_context,
        over,
        less,
      )

  enforce_small :
      (messages : List Message) (system_prompt : Str) (working : WorkingSet)
      → message_token_count messages ≤ budget.total_tokens
      → enforce_budget printed shown session_id collection budget messages system_prompt working
        ≡ ok (messages, working, message_token_count messages)
  unfolding enforce_budget checked
  enforce_small messages system_prompt working h = ground (arith, h)

  enforce_large :
      (messages : List Message) (system_prompt : Str) (working : WorkingSet)
      → budget.total_tokens < message_token_count messages
      → is_empty working.context ≡ false
      → enforce_budget printed shown session_id collection budget messages system_prompt working ≡ (
          let smaller =
            repacked printed shown session_id collection budget
              (message_token_count messages)
              working in
          checked printed shown session_id collection budget
            (reattach printed shown session_id collection budget messages system_prompt smaller)
            smaller)
  unfolding enforce_budget
  enforce_large messages system_prompt working h full = ground (arith, h, full)

  -- The messages behind a system message, and the tokens, that a prompt may have.
  abbrev pub Fits : List Message → Result (List Message × WorkingSet × ℕ) → Type 0
  Fits tail result =
      (head : List Message) × (working : WorkingSet) × (result
        ≡ ok (head ++ tail, working, message_token_count (head ++ tail)))
      × (length head ≤ 1)
      × (message_token_count (head ++ tail) ≤ budget.total_tokens)

  module _ (system_prompt : Str) (tail : List Message)
      (small : message_token_count (base_messages system_prompt ++ tail)
        ≤ budget.total_tokens) where
    length-base : length (base_messages system_prompt) ≤ 1
    unfolding base_messages
    length-base = ground arith

    enforce_full :
        (working : WorkingSet)
        → is_empty working.context ≡ false
        → Fits tail (
            enforce_budget printed shown session_id collection budget
              (with_system
                (framed printed shown session_id collection budget system_prompt working)
                tail)
              system_prompt
              working)
    enforce_full working full =
        let old = framed printed shown session_id collection budget system_prompt working in
        let messages = with_system old tail in
        let smaller =
          repacked printed shown session_id collection budget (message_token_count messages)
            working in
        let new = framed printed shown session_id collection budget system_prompt smaller in
        let (less, time) = repacked-fits (message_token_count messages) working in
        elim (Bool-cases (ltb budget.total_tokens (message_token_count messages))) [
          | inr fine ↦
              let fit : message_token_count messages ≤ budget.total_tokens = ground (arith, fine) in
              (
                system_message old ∷ [],
                working,
                enforce_small messages system_prompt working fit,
                omega arith,
                fit,
              )
          | inl large ↦
              let over : budget.total_tokens < message_token_count messages =
                ground (arith, large) in
              elim (Bool-cases (is_empty smaller.context)) [
                | inl gone ↦ (
                  base_messages system_prompt,
                  smaller,
                  rw
                      (
                        enforce_large messages system_prompt working over full,
                        reattach-empty system_prompt tail smaller old gone,
                      )
                      (checked-fits (base_messages system_prompt ++ tail) smaller small),
                  length-base,
                  small,
                )
                | inr left ↦
                    let fit =
                      repacked-count system_prompt tail working smaller over less time left in
                    (
                      system_message new ∷ [],
                      smaller,
                      rw
                          (
                            enforce_large messages system_prompt working over full,
                            reattach-full system_prompt tail smaller old left,
                          )
                          (checked-fits (with_system new tail) smaller fit),
                      omega arith,
                      fit,
                    )
              ]
        ]

    -- Where the messages without a context fit the budget: whatever the desk, attaching its
    -- context and enforcing the budget returns, with messages that fit, and these are the events'
    -- messages behind at most one system message.
    pub enforce_budget-Fits :
        (working : WorkingSet)
        → Fits tail (
            enforce_budget printed shown session_id collection budget
              (attach_context printed shown session_id collection budget
                (base_messages system_prompt ++ tail)
                system_prompt
                working)
              system_prompt
              working)
    enforce_budget-Fits working = elim (Bool-cases (is_empty working.context)) [
      | inl none_there ↦ (
        base_messages system_prompt,
        working,
        rw (attach_context-empty system_prompt tail working none_there)
            (enforce_small (base_messages system_prompt ++ tail) system_prompt working small),
        length-base,
        small,
      )
      | inr full ↦
          rw (attach_context-full system_prompt tail working full) (enforce_full working full)
    ]
