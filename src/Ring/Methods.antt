-- ===== src/Ring/Methods.antt =====
-- What `append` and `set_protected` do to a valid ring.
use library_of_context.Prelude.{
  ℕ, ◌+◌, ◌-◌, ◌≤◌, ◌<◌, ◌≡◌, refl, Bool, true, false, ◌||◌, List, [], ◌∷◌, ◌++◌, leb, ok, arith,
  sum_by, sum_by-append, inl, inr, Bool-cases, All-append,
}
use library_of_context.Models.{str_eq, ContextEvent}
use library_of_context.Dict.{elem, Unique-snoc}
use library_of_context.Text.{event_truncation_marker}
use library_of_context.Text.Bounds.{truncate_text-le}
use library_of_context.Ring.Defs.{RecentEventRing, projection, append}
use library_of_context.Ring.Fitting.{
  event_ids, charge, Ascending, IsValid, newest_fitting, evict_lem, newest_fitting-fits,
  newest_fitting-Unique, newest_fitting-Ascending, newest_fitting-snoc,
}

-- The ring accepts an event that is not there yet and is newer than all that it has seen.
abbrev pub is_stale : RecentEventRing → ContextEvent → Bool
is_stale r event = elem event.event_id r.ids || leb event.sequence r.highest_sequence

projection_lem :
    (max_tokens : ℕ) (event : ContextEvent)
    → 64 ≤ max_tokens
    → (charge (projection max_tokens event) ≤ max_tokens)
      × ((projection max_tokens event).event_id ≡ event.event_id)
      × ((projection max_tokens event).sequence ≡ event.sequence)
unfolding projection
projection_lem max_tokens event h =
    ground (arith, truncate_text-le event.content (max_tokens - 4) event_truncation_marker)

event_ids-snoc :
    (es : List ContextEvent) (e : ContextEvent)
    → event_ids (es ++ e ∷ []) ≡ event_ids es ++ e.event_id ∷ []
event_ids-snoc [] e = refl
event_ids-snoc (x ∷ es) e = ground (arith, event_ids-snoc es e)

All-below :
    (es : List ContextEvent) (highest : ℕ) (e : ContextEvent)
    → Ascending es highest
    → highest < e.sequence
    → Ascending (es ++ e ∷ []) e.sequence
All-below [] highest e a h = ground arith
All-below (x ∷ es) highest e a h = (
  ground arith,
  All-append (λ (f : ContextEvent). x.sequence < f.sequence) es (e ∷ []) a.1 (ground arith),
  All-below es highest e a.2 h,
)

-- The state after an accepted `append`.
after_append : RecentEventRing → ContextEvent → RecentEventRing
after_append r event =
    let kept =
      newest_fitting r.max_events r.max_tokens (r.events ++ projection r.max_tokens event ∷ []) in
    record r {
      events = kept;
      ids = event_ids kept;
      tokens = sum_by charge kept;
      highest_sequence = event.sequence;
    }

append-after_append :
    (r : RecentEventRing) (event : ContextEvent)
    → IsValid r
    → is_stale r event ≡ false
    → append r event ≡ ok (after_append r event)
unfolding append after_append
append-after_append r event v new =
    let p = projection r.max_tokens event in
    let es = r.events ++ p ∷ [] in
    ground (
      arith,
      projection_lem r.max_tokens event,
      event_ids-snoc r.events p,
      Unique-snoc p.event_id (event_ids r.events),
      sum_by-append charge r.events (p ∷ []),
      evict_lem r.max_events r.max_tokens es (r.tokens + (p.token_count + 4)),
    )

after_append-IsValid :
    (r : RecentEventRing) (event : ContextEvent)
    → IsValid r
    → is_stale r event ≡ false
    → IsValid (after_append r event)
unfolding after_append
after_append-IsValid r event v new =
    let p = projection r.max_tokens event in
    let es = r.events ++ p ∷ [] in
    let facts = projection_lem r.max_tokens event v.roomy in
    record {
      positive = v.positive;
      roomy = v.roomy;
      counted = refl;
      few = (newest_fitting-fits r.max_events r.max_tokens es).0;
      small = (newest_fitting-fits r.max_events r.max_tokens es).1;
      known = refl;
      distinct =
          newest_fitting-Unique r.max_events r.max_tokens es (
            ground (arith, event_ids-snoc r.events p, Unique-snoc p.event_id (event_ids r.events)));
      ordered =
          newest_fitting-Ascending r.max_events r.max_tokens es event.sequence
            (ground (arith, All-below r.events r.highest_sequence p));
    }

-- On a valid ring `append` never raises: a stale event changes nothing. Any other is kept as the
-- last event, in the projection that fits, behind as many of the newest earlier events as both
-- bounds allow, and the ring is valid again.
pub append-IsValid :
    (r : RecentEventRing) (event : ContextEvent)
    → IsValid r
    → (r' : RecentEventRing) × (append r event ≡ ok r')
      × IsValid r'
      × (is_stale r event ≡ true → r' ≡ r)
      × (is_stale r event ≡ false
          → (r'.events
              ≡ newest_fitting r.max_events r.max_tokens
                  (r.events ++ projection r.max_tokens event ∷ []))
            × ((older : List ContextEvent) × (r'.events
                  ≡ older ++ projection r.max_tokens event ∷ [])))
append-IsValid r event v = elim (Bool-cases (is_stale r event)) [
  | inl old ↦ (r, unfold append in ground arith, v, λ _. refl, λ new. absurd (ground arith))
  | inr new ↦
      let p = projection r.max_tokens event in
      (
        after_append r event,
        append-after_append r event v new,
        after_append-IsValid r event v new,
        λ old. absurd (ground arith),
        λ _. (
          unfold after_append in refl,
          unfold after_append in
              newest_fitting-snoc r.max_events r.max_tokens r.events p v.positive
                (projection_lem r.max_tokens event v.roomy).0,
        ),
      )
]
