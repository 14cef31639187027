-- ===== src/Text/Tail.antt =====
-- What `select_event_tail` selects.
use mathlib.Core.List.{reverse-cons, reverse-append, reverse-reverse, append_assoc, append-nil}
use library_of_context.Prelude.{
  ℕ, ◌+◌, ◌-◌, ◌≤◌, ◌<◌, ◌≡◌, refl, Bool, false, not, ◌||◌, ◌&&◌, List, [], ◌∷◌, ◌++◌, reverse,
  arith, ltb, leb, ◌==◌, length, if◌then◌else◌, sum_by, keep, Bool-cases, inl, inr,
}
use library_of_context.Models.{Str, str_eq, ContextEvent}
use library_of_context.Dict.{elem}
use library_of_context.Text.Defs.{
  estimate_tokens, truncate_text, fitted_content, select_newest, select_event_tail,
  event_truncation_marker,
}
use library_of_context.Text.Bounds.{truncate_text-le}

-- The tokens that a selection costs in a request.
abbrev pub selection_cost : List (ContextEvent × Str) → ℕ
selection_cost = sum_by (λ p. estimate_tokens p.1 + 4)

abbrev pub selected_events : List (ContextEvent × Str) → List ContextEvent
selected_events [] = []
selected_events ((e, c) ∷ s) = e ∷ selected_events s

abbrev pub is_eligible : List Str → ContextEvent → Bool
is_eligible excluded event = not (elem event.event_id excluded)

module _ (token_budget : ℕ) (excluded : List Str) where
  pub select_newest-cost :
      (events : List ContextEvent) (selected : List (ContextEvent × Str)) (used : ℕ)
      → used ≡ selection_cost selected
      → used ≤ token_budget
      → (selection_cost (select_newest events token_budget excluded selected used).0
          ≡ (select_newest events token_budget excluded selected used).1)
        × ((select_newest events token_budget excluded selected used).1 ≤ token_budget)
  unfolding select_newest
  select_newest-cost [] selected used e h = ground arith
  select_newest-cost (event ∷ events) selected used e h =
      let content = fitted_content event (token_budget - used - 4) in
      let cost = estimate_tokens content + 4 in
      ground (
        arith,
        select_newest-cost events selected used,
        select_newest-cost events ((event, content) ∷ selected) (used + cost),
      )

  eligible-reverse :
      (event : ContextEvent) (events : List ContextEvent)
      → reverse (keep (is_eligible excluded) (event ∷ events)) ≡ (
          if elem event.event_id excluded
          then reverse (keep (is_eligible excluded) events)
          else reverse (keep (is_eligible excluded) events) ++ event ∷ [])
  eligible-reverse event events =
      ground (arith, reverse-cons event (keep (is_eligible excluded) events))

  -- The three tests that end the loop, in one.
  stops : ContextEvent → List (ContextEvent × Str) → ℕ → Bool
  stops event selected used =
      let available = token_budget - used - 4 in
      available == 0
      || (ltb available event.token_count && leb 1 (length selected))
      || ltb token_budget (used + (estimate_tokens (fitted_content event available) + 4))

  select_newest-cons :
      (event : ContextEvent) (events : List ContextEvent) (selected : List (ContextEvent × Str))
      (used : ℕ)
      → select_newest (event ∷ events) token_budget excluded selected used ≡ (
          if elem event.event_id excluded
          then select_newest events token_budget excluded selected used
          else if stops event selected used
          then (selected, used)
          else select_newest events token_budget excluded
              ((event, fitted_content event (token_budget - used - 4)) ∷ selected)
              (used + (estimate_tokens (fitted_content event (token_budget - used - 4)) + 4)))
  unfolding select_newest stops
  select_newest-cons event events selected used = ground arith

  pub select_newest-contiguous :
      (events : List ContextEvent) (selected : List (ContextEvent × Str)) (used : ℕ)
      → (left_out : List ContextEvent) × (reverse (keep (is_eligible excluded) events)
            ++ selected_events selected
          ≡ left_out
            ++ selected_events (select_newest events token_budget excluded selected used).0)
  unfolding select_newest
  select_newest-contiguous [] selected used = ([], refl)
  select_newest-contiguous (event ∷ events) selected used =
      let available = token_budget - used - 4 in
      let content = fitted_content event available in
      let cost = estimate_tokens content + 4 in
      let older = reverse (keep (is_eligible excluded) events) in
      let step = select_newest-cons event events selected used in
      elim (Bool-cases (elem event.event_id excluded)) [
        | inl out ↦
            let (left_out, e) = select_newest-contiguous events selected used in
            (left_out, ground (arith, step, eligible-reverse event events))
        | inr fits ↦ elim (Bool-cases (stops event selected used)) [
          | inl end ↦ (reverse (keep (is_eligible excluded) (event ∷ events)), ground (arith, step))
          | inr more ↦
              let (left_out, e) =
                select_newest-contiguous events ((event, content) ∷ selected) (used + cost) in
              (
                left_out,
                ground (
                  arith,
                  step,
                  eligible-reverse event events,
                  append_assoc older (event ∷ []) (selected_events selected),
                ),
              )
        ]
      ]

keep-append {ℓ} :
    {A : Type ℓ} (p : A → Bool) (xs ys : List A) → keep p (xs ++ ys) ≡ keep p xs ++ keep p ys
keep-append p [] ys = refl
keep-append p (x ∷ xs) ys = ground (arith, keep-append p xs ys)

keep-reverse {ℓ} :
    {A : Type ℓ} (p : A → Bool) (xs : List A) → keep p (reverse xs) ≡ reverse (keep p xs)
keep-reverse p [] = refl
keep-reverse p (x ∷ xs) = ground (
  arith,
  reverse-cons x xs,
  reverse-cons x (keep p xs),
  keep-append p (reverse xs) (x ∷ []),
  keep-reverse p xs,
  append-nil (reverse (keep p xs)),
)

-- The selection costs what is returned with it, that is within the budget, and it is a tail of the
-- eligible events in their order: nothing between two selected events is left out.
pub select_event_tail_lem :
    (events : List ContextEvent) (token_budget : ℕ) (excluded : List Str)
    → (selection_cost (select_event_tail events token_budget excluded).0
        ≡ (select_event_tail events token_budget excluded).1)
      × ((select_event_tail events token_budget excluded).1 ≤ token_budget)
      × ((left_out : List ContextEvent) × (keep (is_eligible excluded) events
            ≡ left_out ++ selected_events (select_event_tail events token_budget excluded).0))
unfolding select_event_tail
select_event_tail_lem events token_budget excluded =
    let costs = select_newest-cost token_budget excluded (reverse events) [] 0 refl (omega arith) in
    let (left_out, e) = select_newest-contiguous token_budget excluded (reverse events) [] 0 in
    let p = is_eligible excluded in
    (
      costs.0,
      costs.1,
      (
        left_out,
        ground (
          arith,
          keep-reverse p events,
          reverse-reverse (keep p events),
          append-nil (keep p events),
        ),
      ),
    )

module _ (token_budget : ℕ) (excluded : List Str) where
  -- What is selected stays selected.
  select_newest-keeps :
      (events : List ContextEvent) (selected : List (ContextEvent × Str)) (used : ℕ)
      → (older : List (ContextEvent × Str)) × ((select_newest events token_budget excluded selected
            used).0
          ≡ older ++ selected)
  unfolding select_newest
  select_newest-keeps [] selected used = ([], refl)
  select_newest-keeps (event ∷ events) selected used =
      let content = fitted_content event (token_budget - used - 4) in
      let cost = estimate_tokens content + 4 in
      let step = select_newest-cons token_budget excluded event events selected used in
      elim (Bool-cases (elem event.event_id excluded)) [
        | inl out ↦
            let (older, e) = select_newest-keeps events selected used in
            (older, ground (arith, step))
        | inr fits ↦ elim (Bool-cases (stops token_budget excluded event selected used)) [
          | inl end ↦ ([], ground (arith, step))
          | inr more ↦
              let (older, e) =
                select_newest-keeps events ((event, content) ∷ selected) (used + cost) in
              (
                older ++ (event, content) ∷ [],
                ground (arith, step, append_assoc older ((event, content) ∷ []) selected),
              )
        ]
      ]

  -- The first eligible event always enters a selection that is empty and has room.
  first_fits :
      (event : ContextEvent)
      → 4 < token_budget
      → event.token_count ≡ estimate_tokens event.content
      → stops token_budget excluded event [] 0 ≡ false
  unfolding stops fitted_content
  first_fits event room counted =
      ground (arith, truncate_text-le event.content (token_budget - 0 - 4) event_truncation_marker)

-- With room for one message, the newest event is in the selection if it is eligible and its token
-- count is that of its content: whole if it fits the budget, and cut to the budget if not.
pub select_event_tail-newest :
    (events : List ContextEvent) (event : ContextEvent) (token_budget : ℕ) (excluded : List Str)
    → 4 < token_budget
    → elem event.event_id excluded ≡ false
    → event.token_count ≡ estimate_tokens event.content
    → (older : List (ContextEvent × Str)) × ((select_event_tail
          (events ++ event ∷ [])
          token_budget
          excluded).0
        ≡ older
          ++ (
            event,
            if leb event.token_count (token_budget - 4)
                then event.content
                else truncate_text event.content (token_budget - 4) event_truncation_marker,
          )
            ∷ [])
unfolding select_event_tail fitted_content
select_event_tail-newest events event token_budget excluded room eligible counted =
    let content = fitted_content event (token_budget - 0 - 4) in
    let cost = estimate_tokens content + 4 in
    let (older, e) =
      select_newest-keeps token_budget excluded (reverse events) ((event, content) ∷ [])
        (0 + cost) in
    let first : reverse (events ++ event ∷ []) ≡ event ∷ reverse events =
      reverse-append events (event ∷ []) in
    let step = select_newest-cons token_budget excluded event (reverse events) [] 0 in
    let fits = first_fits token_budget excluded event room counted in
    (older, ground (arith, first, step, fits))
