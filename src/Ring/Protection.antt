-- ===== src/Ring/Protection.antt =====
-- The flags of the ring's events.
use mathlib.Core.Path.{subst}
use library_of_context.Prelude.{
  sym, ℕ, ◌<◌, ◌≡◌, refl, Bool, false, List, [], ◌∷◌, if◌then◌else◌, length, arith, sum_by, All,
  map,
}
use library_of_context.Models.{Str, str_eq, ContextEvent}
use library_of_context.Dict.{elem, Unique}
use library_of_context.Ring.Defs.{RecentEventRing, protect_in, set_protected}
use library_of_context.Ring.Fitting.{event_ids, charge, Ascending, IsValid}

-- The event with its flag set, if it is the one that is named.
abbrev pub flagged : Str → Bool → ContextEvent → ContextEvent
flagged event_id flag e =
    if str_eq.beq e.event_id event_id then record e { is_protected = flag } else e

module _ (event_id : Str) (flag : Bool) where
  flagged_absent :
      (es : List ContextEvent)
      → elem event_id (event_ids es) ≡ false
      → map (flagged event_id flag) es ≡ es
  unfolding elem
  flagged_absent [] h = refl
  flagged_absent (e ∷ es) h = ground (arith, flagged_absent es)

  protect_in_lem :
      (es : List ContextEvent)
      → Unique (event_ids es)
      → ((protect_in event_id flag es).0 ≡ map (flagged event_id flag) es)
        × ((protect_in event_id flag es).1 ≡ elem event_id (event_ids es))
  unfolding protect_in elem
  protect_in_lem [] u = (refl, refl)
  protect_in_lem (e ∷ es) u =
      ground (arith, protect_in_lem es, flagged_absent es, str_eq.beq_iff e.event_id event_id)

  event_ids-flagged :
      (es : List ContextEvent) → event_ids (map (flagged event_id flag) es) ≡ event_ids es
  event_ids-flagged [] = refl
  event_ids-flagged (e ∷ es) = ground (arith, event_ids-flagged es)

  charge-flagged :
      (es : List ContextEvent) → sum_by charge (map (flagged event_id flag) es) ≡ sum_by charge es
  charge-flagged [] = refl
  charge-flagged (e ∷ es) = ground (arith, charge-flagged es)

  length-flagged : (es : List ContextEvent) → length (map (flagged event_id flag) es) ≡ length es
  length-flagged [] = refl
  length-flagged (e ∷ es) = ground (arith, length-flagged es)

  later-flagged :
      (n : ℕ) (es : List ContextEvent)
      → All (λ (f : ContextEvent). n < f.sequence) es
      → All (λ (f : ContextEvent). n < f.sequence) (map (flagged event_id flag) es)
  later-flagged n [] h = tt
  later-flagged n (e ∷ es) h = (ground arith, later-flagged n es h.1)

  sequence-flagged : (e : ContextEvent) → (flagged event_id flag e).sequence ≡ e.sequence
  sequence-flagged e = ground arith

  Ascending-flagged :
      (es : List ContextEvent) (highest : ℕ)
      → Ascending es highest
      → Ascending (map (flagged event_id flag) es) highest
  Ascending-flagged [] highest a = tt
  Ascending-flagged (e ∷ es) highest a = (
    ground arith,
    subst (λ n. All (λ (f : ContextEvent). n < f.sequence) (map (flagged event_id flag) es))
        (sym (sequence-flagged e)) (later-flagged e.sequence es a.1),
    Ascending-flagged es highest a.2,
  )

-- On a valid ring `set_protected` reports whether the ring holds the event, sets the flag of that
-- event and of no other, changes nothing else of any event, and leaves the ring valid.
pub set_protected_lem :
    (r : RecentEventRing) (event_id : Str) (flag : Bool)
    → IsValid r
    → ((set_protected r event_id flag).1 ≡ elem event_id (event_ids r.events))
      × ((set_protected r event_id flag).0.events ≡ map (flagged event_id flag) r.events)
      × IsValid (set_protected r event_id flag).0
unfolding set_protected
set_protected_lem r event_id flag v =
    let es = r.events in
    let found = protect_in_lem event_id flag es v.distinct in
    (
      found.1,
      found.0,
      record {
        positive = v.positive;
        roomy = v.roomy;
        counted = ground (arith, charge-flagged event_id flag es);
        few = ground (arith, length-flagged event_id flag es);
        small = v.small;
        known = ground (arith, event_ids-flagged event_id flag es);
        distinct = ground (arith, event_ids-flagged event_id flag es);
        ordered = ground (arith, Ascending-flagged event_id flag es r.highest_sequence);
      },
    )
