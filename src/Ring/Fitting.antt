-- ===== src/Ring/Fitting.antt =====
-- The ring's invariant, and what its eviction loop keeps.
use library_of_context.Prelude.{
  ℕ, ◌+◌, ◌-◌, ◌≤◌, ◌<◌, ◌≡◌, refl, ◌||◌, List, [], ◌∷◌, ◌++◌, ltb, if◌then◌else◌, length, ok,
  arith, sum_by, length-append, All, inl, inr, Bool-cases,
}
use library_of_context.Models.{Str, str_eq, ContextEvent}
use library_of_context.Dict.{discard, Unique, discard_absent}
use library_of_context.Ring.Defs.{RecentEventRing, init, evict}

abbrev pub event_ids : List ContextEvent → List Str
event_ids [] = []
event_ids (e ∷ es) = e.event_id ∷ event_ids es

-- What the ring charges for an event.
abbrev pub charge : ContextEvent → ℕ
charge e = e.token_count + 4

-- Sequence numbers rise strictly, and none passes `highest`.
abbrev pub Ascending : List ContextEvent → ℕ → Type 0
Ascending [] highest = Unit
Ascending (e ∷ es) highest =
    (e.sequence ≤ highest)
    × All (λ (f : ContextEvent). e.sequence < f.sequence) es
    × Ascending es highest

pub record IsValid (r : RecentEventRing) : Type 0 where
  pub positive : 0 < r.max_events
  pub roomy : 64 ≤ r.max_tokens
  pub counted : r.tokens ≡ sum_by charge r.events
  pub few : length r.events ≤ r.max_events
  pub small : r.tokens ≤ r.max_tokens
  pub known : r.ids ≡ event_ids r.events
  pub distinct : Unique (event_ids r.events)
  pub ordered : Ascending r.events r.highest_sequence

pub init-IsValid : (max_events max_tokens : ℕ) → IsValid (init max_events max_tokens)
unfolding init
init-IsValid max_events max_tokens = ground arith

-- The events that the loop keeps, as a list function: the longest tail that fits both bounds.
pub newest_fitting : ℕ → ℕ → List ContextEvent → List ContextEvent
newest_fitting max_events max_tokens [] = []
newest_fitting max_events max_tokens (e ∷ es) =
    let rest = newest_fitting max_events max_tokens es in
    if ltb max_events (length (e ∷ es)) || ltb max_tokens (sum_by charge (e ∷ es))
    then rest
    else e ∷ es

discard_head : (k : Str) (s : List Str) → discard k (k ∷ s) ≡ discard k s
unfolding discard
discard_head k s = ground (arith, str_eq.beq_iff k k)

module _ (max_events max_tokens : ℕ) where
  pub evict_lem :
      (es : List ContextEvent) (tokens : ℕ)
      → Unique (event_ids es)
      → tokens ≡ sum_by charge es
      → evict max_events max_tokens es (event_ids es) tokens
        ≡ ok (
          newest_fitting max_events max_tokens es,
          event_ids (newest_fitting max_events max_tokens es),
          sum_by charge (newest_fitting max_events max_tokens es),
        )
  unfolding evict newest_fitting
  evict_lem [] tokens u h = ground arith
  evict_lem (e ∷ es) tokens u h =
      let ids = event_ids es in
      ground (
        arith,
        evict_lem es (tokens - (e.token_count + 4)),
        discard_head e.event_id ids,
        discard_absent e.event_id ids,
      )

  pub newest_fitting-fits :
      (es : List ContextEvent)
      → (length (newest_fitting max_events max_tokens es) ≤ max_events)
        × (sum_by charge (newest_fitting max_events max_tokens es) ≤ max_tokens)
  unfolding newest_fitting
  newest_fitting-fits [] = omega arith
  newest_fitting-fits (e ∷ es) = ground (arith, newest_fitting-fits es)

  -- The kept events are the longest tail of the events that fits both bounds.
  pub newest_fitting-longest :
      (older es : List ContextEvent)
      → length es ≤ max_events
      → sum_by charge es ≤ max_tokens
      → length es ≤ length (newest_fitting max_events max_tokens (older ++ es))
  unfolding newest_fitting
  newest_fitting-longest [] [] h k = omega arith
  newest_fitting-longest [] (e ∷ es) h k = ground arith
  newest_fitting-longest (e ∷ older) es h k =
      ground (arith, newest_fitting-longest older es, length-append older es)

  pub newest_fitting-tail :
      (es : List ContextEvent)
      → (older : List ContextEvent) × (es ≡ older ++ newest_fitting max_events max_tokens es)
  unfolding newest_fitting
  newest_fitting-tail [] = ([], refl)
  newest_fitting-tail (e ∷ es) =
      let over = ltb max_events (length (e ∷ es)) || ltb max_tokens (sum_by charge (e ∷ es)) in
      elim (Bool-cases over) [
        | inl drop_it ↦ let (older, p) = newest_fitting-tail es in (e ∷ older, ground arith)
        | inr keep_it ↦ ([], ground arith)
      ]

  pub newest_fitting-Unique :
      (es : List ContextEvent)
      → Unique (event_ids es)
      → Unique (event_ids (newest_fitting max_events max_tokens es))
  unfolding newest_fitting
  newest_fitting-Unique [] u = tt
  newest_fitting-Unique (e ∷ es) u = ground (arith, newest_fitting-Unique es)

  pub newest_fitting-Ascending :
      (es : List ContextEvent) (highest : ℕ)
      → Ascending es highest
      → Ascending (newest_fitting max_events max_tokens es) highest
  unfolding newest_fitting
  newest_fitting-Ascending [] highest a = tt
  newest_fitting-Ascending (e ∷ es) highest a = ground (arith, newest_fitting-Ascending es highest)

  -- The last event stays if it alone fits.
  pub newest_fitting-snoc :
      (es : List ContextEvent) (e : ContextEvent)
      → 0 < max_events
      → charge e ≤ max_tokens
      → (older : List ContextEvent) × (newest_fitting max_events max_tokens (es ++ e ∷ [])
          ≡ older ++ e ∷ [])
  unfolding newest_fitting
  newest_fitting-snoc [] e h k = ([], ground arith)
  newest_fitting-snoc (x ∷ es) e h k =
      let all = (x ∷ es) ++ e ∷ [] in
      let over = ltb max_events (length all) || ltb max_tokens (sum_by charge all) in
      elim (Bool-cases over) [
        | inl drop_it ↦ let (older, p) = newest_fitting-snoc es e h k in (older, ground arith)
        | inr keep_it ↦ (x ∷ es, ground arith)
      ]
