-- ===== src/Swapper/Trims.antt =====
-- Desks leave by `forget` and `remove_desk` alone: a relation that these keep is kept by the loops
-- that trim the desks.
use mathlib.Core.Path.{subst, sym, ◌∙◌}
use library_of_context.Prelude.{
  ℕ, zero, suc, ◌≡◌, ◌⊎◌, if◌then◌else◌, refl, inl, inr, true, false, none, some, List, [], ◌∷◌,
  leb, length, Bool-cases, Option-cases, arith, ok, raise, runtime_error, Result-cases, ◌+◌,
}
use library_of_context.Dict
use library_of_context.Dict.{Dict, keys}
use library_of_context.Scopes.{ThreadKey, thread_key_eq}
use library_of_context.Swapper.Hits.{WorkingSet}
use library_of_context.Swapper.Desks.{
  Desks, forget, forget_all, prune_working_sets, expired_keys, removable, remove_desk, make_room,
  evict_desks, store_working_set, begin_refresh, invalidate_refresh, add_lease,
}

make_room-stay :
    (fuel : ℕ) (s : Desks)
    → leb s.max_working_sets (length s.refresh_generations) ≡ false
    → make_room (suc fuel) s ≡ ok s
unfolding make_room
make_room-stay fuel s h = ground (arith, h)

make_room-none :
    (fuel : ℕ) (s : Desks)
    → leb s.max_working_sets (length s.refresh_generations) ≡ true
    → removable s (keys s.refresh_generations) ≡ none
    → make_room (suc fuel) s ≡ raise runtime_error
unfolding make_room
make_room-none fuel s h gone = ground (arith, h, gone)

make_room-some :
    (fuel : ℕ) (s : Desks) (key : ThreadKey)
    → leb s.max_working_sets (length s.refresh_generations) ≡ true
    → removable s (keys s.refresh_generations) ≡ some key
    → make_room (suc fuel) s ≡ make_room fuel (remove_desk s key)
unfolding make_room
make_room-some fuel s key h found = ground (arith, h, found)

-- The three ways in which a round of `make_room` goes.
pub data Round (fuel : ℕ) (s : Desks) : Type 0 where
  stays :
      leb s.max_working_sets (length s.refresh_generations) ≡ false
      → make_room (suc fuel) s ≡ ok s
      → Round fuel s
  sticks :
      leb s.max_working_sets (length s.refresh_generations) ≡ true
      → removable s (keys s.refresh_generations) ≡ none
      → make_room (suc fuel) s ≡ raise runtime_error
      → Round fuel s
  goes :
      (key : ThreadKey)
      → leb s.max_working_sets (length s.refresh_generations) ≡ true
      → removable s (keys s.refresh_generations) ≡ some key
      → make_room (suc fuel) s ≡ make_room fuel (remove_desk s key)
      → Round fuel s

pub make_room-cases : (fuel : ℕ) (s : Desks) → Round fuel s
make_room-cases fuel s = elim (Bool-cases (leb s.max_working_sets (length s.refresh_generations))) [
  | inr small ↦ stays small (make_room-stay fuel s small)
  | inl full ↦ elim (Option-cases (removable s (keys s.refresh_generations))) [
    | inl gone ↦ sticks full gone (make_room-none fuel s full gone)
    | inr (key, found) ↦ goes key full found (make_room-some fuel s key full found)
  ]
]

evict_desks-stay :
    (fuel : ℕ) (s : Desks)
    → leb s.max_working_sets (length s.working_sets) ≡ false
    → evict_desks (suc fuel) s ≡ s
unfolding evict_desks
evict_desks-stay fuel s h = ground (arith, h)

evict_desks-empty : (fuel : ℕ) (s : Desks) → s.working_sets ≡ [] → evict_desks (suc fuel) s ≡ s
unfolding evict_desks
evict_desks-empty fuel s h = ground (arith, h)

evict_desks-go :
    (fuel : ℕ) (s : Desks) (key : ThreadKey) (w : WorkingSet) (others : Dict ThreadKey WorkingSet)
    → leb s.max_working_sets (length s.working_sets) ≡ true
    → s.working_sets ≡ (key, w) ∷ others
    → evict_desks (suc fuel) s ≡ evict_desks fuel (forget s key)
unfolding evict_desks
evict_desks-go fuel s key w others h front = ground (arith, h, front)

pub data Eviction (fuel : ℕ) (s : Desks) : Type 0 where
  stays :
      leb s.max_working_sets (length s.working_sets) ≡ false
      → evict_desks (suc fuel) s ≡ s
      → Eviction fuel s
  empties : s.working_sets ≡ [] → evict_desks (suc fuel) s ≡ s → Eviction fuel s
  goes :
      (key : ThreadKey) (w : WorkingSet) (others : Dict ThreadKey WorkingSet)
      → s.working_sets ≡ (key, w) ∷ others
      → evict_desks (suc fuel) s ≡ evict_desks fuel (forget s key)
      → Eviction fuel s

items-cases :
    (d : Dict ThreadKey WorkingSet)
    → (d ≡ [])
      ⊎ ((key : ThreadKey) × (w : WorkingSet) × (others : Dict ThreadKey WorkingSet) × (d
            ≡ (key, w) ∷ others))
items-cases [] = inl refl
items-cases ((key, w) ∷ others) = inr (key, w, others, refl)

pub evict_desks-cases : (fuel : ℕ) (s : Desks) → Eviction fuel s
evict_desks-cases fuel s = elim (Bool-cases (leb s.max_working_sets (length s.working_sets))) [
  | inr small ↦ Eviction.stays small (evict_desks-stay fuel s small)
  | inl full ↦ elim (items-cases s.working_sets) [
    | inl empty ↦ empties empty (evict_desks-empty fuel s empty)
    | inr (key, w, others, front) ↦
        Eviction.goes key w others front (evict_desks-go fuel s key w others full front)
  ]
]

-- The desks behind the trimming of `store_working_set`.
abbrev pub trimmed : ℕ → Desks → ThreadKey → Desks
trimmed now s key =
    let pruned = prune_working_sets now s in
    if Dict.contains key pruned.working_sets
    then pruned
    else evict_desks (length pruned.working_sets) pruned

pub store_working_set_lem :
    (now : ℕ) (s : Desks) (key : ThreadKey) (w : WorkingSet)
    → store_working_set now s key w ≡ record (trimmed now s key) {
      working_sets = Dict.put_last key w (trimmed now s key).working_sets;
      working_set_access = Dict.put key now (trimmed now s key).working_set_access;
    }
unfolding store_working_set
store_working_set_lem now s key w = refl

module _ (R : Desks → Desks → Type 0) (R_refl : (s : Desks) → R s s)
    (R_trans : (s t u : Desks) → R s t → R t u → R s u)
    (forget-R : (s : Desks) (key : ThreadKey) → R s (forget s key))
    (remove_desk-R : (s : Desks) (key : ThreadKey) → R s (remove_desk s key)) where
  forget_all-R : (s : Desks) (expired : List ThreadKey) → R s (forget_all s expired)
  unfolding forget_all
  forget_all-R s [] = R_refl s
  forget_all-R s (key ∷ expired) =
      R_trans s (forget s key) (forget_all s (key ∷ expired)) (forget-R s key)
        (forget_all-R (forget s key) expired)

  pub prune_working_sets-R : (now : ℕ) (s : Desks) → R s (prune_working_sets now s)
  unfolding prune_working_sets
  prune_working_sets-R now s =
      forget_all-R s (expired_keys now s.working_set_ttl_seconds s.working_set_access)

  make_room-zero : (s : Desks) → make_room zero s ≡ ok s
  unfolding make_room
  make_room-zero s = refl

  pub make_room-R : (fuel : ℕ) (s t : Desks) → make_room fuel s ≡ ok t → R s t
  make_room-R zero s t h =
      let same : s ≡ t = ground (arith, h, make_room-zero s) in subst (λ x. R s x) same (R_refl s)
  make_room-R (suc fuel) s t h = elim (make_room-cases fuel s) [
    | Round.stays small e ↦
        let same : s ≡ t = ground (arith, h, e) in subst (λ x. R s x) same (R_refl s)
    | sticks full gone e ↦ absurd (ground (arith, h, e))
    | Round.goes key full found e ↦
        R_trans s (remove_desk s key) t (remove_desk-R s key)
          (make_room-R fuel (remove_desk s key) t (sym e ∙ h))
  ]

  evict_desks-zero : (s : Desks) → evict_desks zero s ≡ s
  unfolding evict_desks
  evict_desks-zero s = refl

  pub evict_desks-R : (fuel : ℕ) (s : Desks) → R s (evict_desks fuel s)
  evict_desks-R zero s = rw (evict_desks-zero s) (R_refl s)
  evict_desks-R (suc fuel) s = elim (evict_desks-cases fuel s) [
    | Eviction.stays small e ↦ rw e (R_refl s)
    | empties empty e ↦ rw e (R_refl s)
    | Eviction.goes key w others front e ↦ rw e (
        R_trans s (forget s key) (evict_desks fuel (forget s key)) (forget-R s key)
          (evict_desks-R fuel (forget s key)))
  ]

  pub trimmed-R : (now : ℕ) (s : Desks) (key : ThreadKey) → R s (trimmed now s key)
  trimmed-R now s key =
      let pruned = prune_working_sets now s in
      elim (Bool-cases (Dict.contains key pruned.working_sets)) [
        | inl known ↦ rw known (prune_working_sets-R now s)
        | inr new ↦ rw new (
            R_trans s pruned (evict_desks (length pruned.working_sets) pruned)
              (prune_working_sets-R now s) (evict_desks-R (length pruned.working_sets) pruned))
      ]

  -- The desks in which `begin_refresh` takes its generation.
  pub begin_refresh-R :
      (now : ℕ) (s t : Desks) (key : ThreadKey) (generation : ℕ)
      → begin_refresh now s key ≡ ok (t, generation)
      → (r : Desks) × R s r
        × (t ≡ add_lease (invalidate_refresh r key) key)
        × (generation ≡ r.next_refresh_generation + 1)
  unfolding begin_refresh
  begin_refresh-R now s t key generation h =
      let pruned = prune_working_sets now s in
      let pruned_R = prune_working_sets-R now s in
      let size = length pruned.refresh_generations in
      elim (Bool-cases (Dict.contains key pruned.refresh_generations)) [
        | inl known ↦ (pruned, pruned_R, ground (arith, h, known), ground (arith, h, known))
        | inr new ↦ elim (Result-cases (make_room size pruned)) [
          | inl (r, roomy) ↦ (
            r,
            R_trans s pruned r pruned_R (make_room-R size pruned r roomy),
            ground (arith, h, new, roomy),
            ground (arith, h, new, roomy),
          )
          | inr (e, stuck) ↦ absurd (ground (arith, h, new, stuck))
        ]
      ]
