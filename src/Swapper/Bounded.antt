-- ===== src/Swapper/Bounded.antt =====
-- The working sets that the swapper keeps.
use library_of_context.Prelude.{
  ℕ, zero, suc, ◌+◌, ◌<◌, ◌≤◌, ◌≡◌, inl, inr, refl, true, false, [], ◌∷◌, length, Option-cases,
  arith, ok,
}
use library_of_context.Dict
use library_of_context.Dict.{
  Dict, keys, elem, Unique, Unique-pop, Unique-put, Unique-put_last, keys-pop, keys-append,
  elem-discard, elem-append, length-pop, length-pop_le, contains-elem, elem-keys-put,
}
use library_of_context.Scopes.{ThreadKey, thread_key_eq}
use library_of_context.Swapper.Hits.{WorkingSet}
use library_of_context.Swapper.Desks.{
  Desks, context_swapper, forget, drop_desk, evict_desks, prune_working_sets, invalidate_refresh,
}
use library_of_context.Swapper.Steps.{Reach, clear_desks}
use library_of_context.Swapper.Trims
use library_of_context.Swapper.Trims.{
  trimmed, store_working_set_lem, evict_desks-cases, prune_working_sets-R, trimmed-R,
}
use library_of_context.Swapper.Stepwise.{Kept, Reach-Kept}
use library_of_context.Swapper.Validity.{
  IsValid, Keeps, Keeps-trans, same-Keeps, pop-Keeps, forget-Keeps, remove_desk-Keeps, put-Keeps,
}

forget-shrinks :
    (s : Desks) (key : ThreadKey) (w : WorkingSet) (others : Dict ThreadKey WorkingSet)
    → s.working_sets ≡ (key, w) ∷ others
    → (length (forget s key).working_sets + 1 ≤ length s.working_sets)
      × ((forget s key).max_working_sets ≡ s.max_working_sets)
unfolding forget Dict.pop
forget-shrinks s key w others front =
    (ground (arith, front, thread_key_eq.beq_iff key key, length-pop_le key others), refl)

-- The loop ends with room for a desk within as many rounds as there are desks.
evict_desks-room :
    (fuel : ℕ) (s : Desks)
    → 1 ≤ s.max_working_sets
    → length s.working_sets ≤ fuel
    → length (evict_desks fuel s).working_sets < (evict_desks fuel s).max_working_sets
evict_desks-room zero s h enough = unfold evict_desks in omega arith
evict_desks-room (suc fuel) s h enough = elim (evict_desks-cases fuel s) [
  | Trims.Eviction.stays small e ↦ rw e (ground (arith, small))
  | Trims.Eviction.empties empty e ↦ rw e (ground (arith, empty, h))
  | Trims.Eviction.goes key w others front e ↦
      let less = forget-shrinks s key w others front in
      rw e (
        evict_desks-room fuel (forget s key) (omega (arith, less.1, h))
          (omega (arith, less.0, enough)))
]

trimmed-room :
    (now : ℕ) (s : Desks) (key : ThreadKey)
    → IsValid s
    → length (Dict.pop key (trimmed now s key).working_sets) < (trimmed now s key).max_working_sets
trimmed-room now s key v =
    let pruned = prune_working_sets now s in
    let kept =
      prune_working_sets-R Keeps (λ s. same-Keeps s s refl refl refl) Keeps-trans forget-Keeps
        remove_desk-Keeps now s in
    let w = kept.1 v in
    elim (Option-cases (Dict.get key pruned.working_sets)) [
      | inr (old, found) ↦
          let known : Dict.contains key pruned.working_sets ≡ true =
            unfold Dict.contains in ground (arith, found) in
          rw known
            (omega (arith, length-pop key pruned.working_sets old w.single_sets found, w.bounded))
      | inl gone ↦
          let new : Dict.contains key pruned.working_sets ≡ false =
            unfold Dict.contains in ground (arith, gone) in
          let size = length pruned.working_sets in
          rw new (
            omega (
              arith,
              length-pop_le key (evict_desks size pruned).working_sets,
              evict_desks-room size pruned w.positive (omega arith),
            ))
    ]

pub Keeps-Kept : Kept Keeps
unfolding drop_desk clear_desks invalidate_refresh
Keeps-Kept = record {
  same = λ s. same-Keeps s s refl refl refl;
  chain = Keeps-trans;
  forgets = forget-Keeps;
  removes = remove_desk-Keeps;
  stores = λ now s key w.
      let kept =
        trimmed-R Keeps (λ s. same-Keeps s s refl refl refl) Keeps-trans forget-Keeps
          remove_desk-Keeps now s key in
      rw (store_working_set_lem now s key w) (
        kept.0,
        λ v.
            put-Keeps (trimmed now s key) _ key w now refl refl refl (trimmed-room now s key v)
              (kept.1 v),
      );
  drops = λ s key. pop-Keeps s (drop_desk s key) key refl refl refl;
  touches = λ now s key w found. (
    refl,
    λ v.
        put-Keeps s _ key w now refl refl refl
          (omega (arith, length-pop key s.working_sets w v.single_sets found, v.bounded)) v,
  );
  invalidates = λ s key. same-Keeps s (invalidate_refresh s key) refl refl refl;
  leases = λ s l. same-Keeps s _ refl refl refl;
  retasks = λ s l. same-Keeps s _ refl refl refl;
  clears = λ s. (
    refl,
    λ v. record {
      positive = v.positive;
      single_sets = tt;
      single_access = tt;
      accessed = λ k. refl;
      bounded = omega arith;
    },
  );
}

pub new-IsValid :
    (max_working_sets working_set_ttl_seconds : ℕ) (s : Desks)
    → context_swapper max_working_sets working_set_ttl_seconds ≡ ok s
    → IsValid s × (s.max_working_sets ≡ max_working_sets)
unfolding context_swapper
new-IsValid max_working_sets working_set_ttl_seconds s h =
    let sets : s.working_sets ≡ [] = ground (arith, h) in
    let access : s.working_set_access ≡ [] = ground (arith, h) in
    (
      record {
        positive = ground (arith, h);
        single_sets = rw sets tt;
        single_access = rw access tt;
        accessed = λ key. rw (sets, access) refl;
        bounded = rw sets (omega arith);
      },
      ground (arith, h),
    )

-- In every state that any steps of the threads lead to from a new swapper: there are at most
-- `max_working_sets` working sets, no two of a thread, and the keys with a working set are those
-- with a time of access, by which it expires.
pub Reach-bounded :
    (max_working_sets working_set_ttl_seconds : ℕ) (s t : Desks)
    → context_swapper max_working_sets working_set_ttl_seconds ≡ ok s
    → Reach s t
    → (length t.working_sets ≤ max_working_sets)
      × Unique (keys t.working_sets)
      × ((key : ThreadKey) → elem key (keys t.working_sets) ≡ elem key (keys t.working_set_access))
Reach-bounded max_working_sets working_set_ttl_seconds s t h r =
    let start = new-IsValid max_working_sets working_set_ttl_seconds s h in
    let kept = Reach-Kept Keeps Keeps-Kept s t r in
    let v = kept.1 start.0 in (omega (arith, v.bounded, kept.0, start.1), v.single_sets, v.accessed)
