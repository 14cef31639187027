-- ===== src/Swapper/Generations.antt =====
-- The generations of refreshes only grow.
use library_of_context.Prelude.{
  ◌≢◌, ==_iff, ℕ, ◌+◌, ◌<◌, ◌≤◌, ◌≡◌, ◌⊎◌, inl, inr, refl, Bool, some, Bool-cases, Option-cases,
  arith, ok,
}
use library_of_context.Dict
use library_of_context.Dict.{Dict, get-pop, get-put_last, keys}
use library_of_context.Scopes.{ThreadKey, thread_key_eq}
use library_of_context.Swapper.Hits.{WorkingSet}
use library_of_context.Swapper.Desks.{
  Desks, forget, remove_desk, invalidate_refresh, add_lease, begin_refresh, is_held, publish,
  drop_desk,
}
use library_of_context.Swapper.Trims.{trimmed, store_working_set_lem, trimmed-R, begin_refresh-R}
use library_of_context.Swapper.Stepwise.{Kept, Reach-Kept}
use library_of_context.Swapper.Steps.{clear_desks, Reach}

-- Each generation of the second state is one of the first, or newer than all of the first.
pub record Later (s t : Desks) : Type 0 where
  pub grown : s.next_refresh_generation ≤ t.next_refresh_generation
  pub origin :
      (key : ThreadKey) (generation : ℕ)
      → Dict.get key t.refresh_generations ≡ some generation
      → (Dict.get key s.refresh_generations ≡ some generation)
        ⊎ ((s.next_refresh_generation < generation) × (generation ≤ t.next_refresh_generation))

pub Later-refl : (s : Desks) → Later s s
Later-refl s = record { grown = omega arith; origin = λ key generation h. inl h }

pub Later-trans : (s t u : Desks) → Later s t → Later t u → Later s u
Later-trans s t u a b = record {
  grown = omega (arith, a.grown, b.grown);
  origin = λ key generation h.
      ground (arith, a.grown, b.grown, a.origin key generation, b.origin key generation h);
}

-- A step that keeps the counter and, of the generations, all or all but one.
same-Later :
    (s t : Desks)
    → t.next_refresh_generation ≡ s.next_refresh_generation
    → t.refresh_generations ≡ s.refresh_generations
    → Later s t
same-Later s t en eg = record {
  grown = omega (arith, en);
  origin = λ key generation h. ground (arith, eg, h);
}

pop-Later :
    (s t : Desks) (key : ThreadKey)
    → t.next_refresh_generation ≡ s.next_refresh_generation
    → t.refresh_generations ≡ Dict.pop key s.refresh_generations
    → Later s t
pop-Later s t key en eg = record {
  grown = omega (arith, en);
  origin = λ k generation h. ground (arith, eg, h, get-pop key k s.refresh_generations);
}

invalidate_refresh-Later : (s : Desks) (key : ThreadKey) → Later s (invalidate_refresh s key)
unfolding invalidate_refresh
invalidate_refresh-Later s key = record {
  grown = omega arith;
  origin = λ k generation h.
      ground (arith, h, get-put_last key k (s.next_refresh_generation + 1) s.refresh_generations);
}

forget-Later : (s : Desks) (key : ThreadKey) → Later s (forget s key)
unfolding forget
forget-Later s key = elim (Bool-cases (is_held s key)) [
  | inl held ↦ same-Later s (forget s key) refl (ground (arith, held))
  | inr free ↦ pop-Later s (forget s key) key refl (ground (arith, free))
]

remove_desk-Later : (s : Desks) (key : ThreadKey) → Later s (remove_desk s key)
unfolding remove_desk
remove_desk-Later s key = pop-Later s (remove_desk s key) key refl refl

Later-Kept : Kept Later
unfolding remove_desk drop_desk clear_desks
Later-Kept = record {
  same = Later-refl;
  chain = Later-trans;
  forgets = forget-Later;
  removes = remove_desk-Later;
  stores = λ now s key w. rw (store_working_set_lem now s key w) (
      Later-trans s (trimmed now s key) _
        (trimmed-R Later Later-refl Later-trans forget-Later remove_desk-Later now s key)
        (same-Later (trimmed now s key) _ refl refl));
  drops = λ s key. same-Later s (drop_desk s key) refl refl;
  touches = λ now s key w h. same-Later s _ refl refl;
  invalidates = invalidate_refresh-Later;
  leases = λ s l. same-Later s _ refl refl;
  retasks = λ s l. same-Later s _ refl refl;
  clears = λ s. record {
    grown = omega arith;
    origin = λ key generation h. unfold Dict.get in ground (arith, h);
  };
}

publish_stale :
    (now : ℕ) (s : Desks) (key : ThreadKey) (generation : ℕ) (permitted : Bool) (w : WorkingSet)
    → Dict.get key s.refresh_generations ≢ some generation
    → publish now s key generation permitted w ≡ s
unfolding publish
publish_stale now s key generation permitted w stale =
    elim (Option-cases (Dict.get key s.refresh_generations)) [
      | inl gone ↦ ground (arith, gone)
      | inr (g, found) ↦ ground (arith, found, stale, ==_iff g generation)
    ]

add_lease-generations :
    (s : Desks) (key : ThreadKey)
    → ((add_lease s key).refresh_generations ≡ s.refresh_generations)
      × ((add_lease s key).next_refresh_generation ≡ s.next_refresh_generation)
unfolding add_lease
add_lease-generations s key = (refl, refl)

-- When a refresh of a thread has begun, no refresh of the thread with a generation given out
-- before publishes any more: whatever steps the threads have taken since, it leaves the desks as
-- they are.
pub begin_refresh-supersedes :
    (now : ℕ) (s t u : Desks) (key : ThreadKey) (generation : ℕ)
    → begin_refresh now s key ≡ ok (t, generation)
    → Reach t u
    → (older : ℕ) → older ≤ s.next_refresh_generation
    → (later : ℕ) (permitted : Bool) (working_set : WorkingSet)
    → publish later u key older permitted working_set ≡ u
unfolding invalidate_refresh
begin_refresh-supersedes now s t u key generation h r older bound later permitted w =
    let (v, before, after, number) =
      begin_refresh-R Later Later-refl Later-trans forget-Later remove_desk-Later now s t key
        generation h in
    let lease = add_lease-generations (invalidate_refresh v key) key in
    let newest : Dict.get key t.refresh_generations ≡ some (v.next_refresh_generation + 1) =
      rw (after, lease.0)
        (ground (
          arith,
          get-put_last key key (v.next_refresh_generation + 1) v.refresh_generations,
          thread_key_eq.beq_iff key key,
        )) in
    let count : t.next_refresh_generation ≡ v.next_refresh_generation + 1 =
      rw (after, lease.1) refl in
    let since = Reach-Kept Later Later-Kept t u r in
    publish_stale later u key older permitted w
      (λ same. ground (arith, since.origin key older same, newest, count, before.grown, bound))
