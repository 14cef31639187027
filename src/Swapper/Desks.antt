-- ===== src/Swapper/Desks.antt =====
-- The desks of all threads: the state of `ContextSwapper` and the methods that run under its lock.
-- A key is a namespace and a session. `now` is the monotonic clock, `wall` the time of day. A
-- working set is never changed, so a copy of it is itself.
use library_of_context.Prelude.{
  ℕ, zero, suc, ◌+◌, ◌-◌, Bool, false, not, ◌&&◌, ◌||◌, Option, none, some, List, [], ◌∷◌, ◌==◌,
  ltb, leb, if◌then◌else◌, length, Result, ok, raise, ◌>>=◌, value_error, runtime_error,
}
use library_of_context.Models.{Str, Metadata}
use library_of_context.Dict
use library_of_context.Dict.{Dict, keys}
use library_of_context.Scopes.{ThreadKey, thread_key_eq}
use library_of_context.Swapper.Hits.{SearchHit, WorkingSet}

pub record PeriodicTask : Type 0 where
  pub focus : Str
  pub interval_seconds : ℕ
  pub token_budget : ℕ
  pub top_k : ℕ
  pub filters : Option Metadata
  pub pinned_record_ids : List Str
  pub exclude_record_ids : List Str
  pub team_ids : List Str

pub record Desks : Type 0 where
  pub max_working_sets : ℕ
  pub working_set_ttl_seconds : ℕ
  pub working_sets : Dict ThreadKey WorkingSet
  pub working_set_access : Dict ThreadKey ℕ
  pub refresh_generations : Dict ThreadKey ℕ
  pub refresh_leases : Dict ThreadKey ℕ
  pub next_refresh_generation : ℕ
  pub tasks : Dict ThreadKey PeriodicTask

unfoldable pub context_swapper : ℕ → ℕ → Result Desks
context_swapper max_working_sets working_set_ttl_seconds =
    if ltb max_working_sets 1
    then raise value_error
    else if working_set_ttl_seconds == 0
    then raise value_error
    else ok (record {
      max_working_sets = max_working_sets;
      working_set_ttl_seconds = working_set_ttl_seconds;
      working_sets = [];
      working_set_access = [];
      refresh_generations = [];
      refresh_leases = [];
      next_refresh_generation = 0;
      tasks = [];
    })

-- `any(...)` over the hits
unfoldable pub contains_expired_record : ℕ → List SearchHit → Bool
contains_expired_record wall [] = false
contains_expired_record wall (hit ∷ hits) =
    elim hit.context_record.expires_at [ none ↦ false | some at ↦ leb at wall ]
    || contains_expired_record wall hits

-- `self._refresh_leases.get(key, 0)`
unfoldable pub leases_of : Desks → ThreadKey → ℕ
leases_of s key = elim (Dict.get key s.refresh_leases) [ none ↦ 0 | some leases ↦ leases ]

-- A refresh of the key is under way, or it is refreshed periodically.
unfoldable pub is_held : Desks → ThreadKey → Bool
unfolding leases_of
is_held s key = not (leases_of s key == 0) || Dict.contains key s.tasks

-- The working set leaves, and with it the generation of a key that nothing holds.
unfoldable pub forget : Desks → ThreadKey → Desks
unfolding is_held
forget s key = record s {
  working_sets = Dict.pop key s.working_sets;
  working_set_access = Dict.pop key s.working_set_access;
  refresh_generations =
      if is_held s key then s.refresh_generations else Dict.pop key s.refresh_generations;
}

unfoldable pub expired_keys : ℕ → ℕ → Dict ThreadKey ℕ → List ThreadKey
expired_keys now ttl [] = []
expired_keys now ttl ((key, accessed) ∷ access) =
    let rest = expired_keys now ttl access in if leb (accessed + ttl) now then key ∷ rest else rest

unfoldable pub forget_all : Desks → List ThreadKey → Desks
unfolding forget
forget_all s [] = s
forget_all s (key ∷ expired) = forget_all (forget s key) expired

unfoldable pub prune_working_sets : ℕ → Desks → Desks
unfolding expired_keys forget_all
prune_working_sets now s =
    forget_all s (expired_keys now s.working_set_ttl_seconds s.working_set_access)

-- The first key that nothing holds.
unfoldable pub removable : Desks → List ThreadKey → Option ThreadKey
unfolding is_held
removable s [] = none
removable s (candidate ∷ candidates) =
    let rest = removable s candidates in if is_held s candidate then rest else some candidate

unfoldable pub remove_desk : Desks → ThreadKey → Desks
remove_desk s key = record s {
  refresh_generations = Dict.pop key s.refresh_generations;
  working_sets = Dict.pop key s.working_sets;
  working_set_access = Dict.pop key s.working_set_access;
}

-- The `while` loop of `_begin_refresh_locked`; each round of it takes a unit of fuel.
unfoldable pub make_room : ℕ → Desks → Result Desks
unfolding removable remove_desk
make_room zero s = ok s
make_room (suc fuel) s =
    let rest : Result Desks = elim (removable s (keys s.refresh_generations)) [
      | none ↦ raise runtime_error
      | some key ↦ make_room fuel (remove_desk s key)
    ] in
    if leb s.max_working_sets (length s.refresh_generations) then rest else ok s

-- The next generation, for the key.
unfoldable pub invalidate_refresh : Desks → ThreadKey → Desks
invalidate_refresh s key = record s {
  next_refresh_generation = s.next_refresh_generation + 1;
  refresh_generations = Dict.put_last key (s.next_refresh_generation + 1) s.refresh_generations;
}

unfoldable pub add_lease : Desks → ThreadKey → Desks
unfolding leases_of
add_lease s key = record s { refresh_leases = Dict.put key (leases_of s key + 1) s.refresh_leases }

unfoldable pub begin_refresh : ℕ → Desks → ThreadKey → Result (Desks × ℕ)
unfolding prune_working_sets make_room invalidate_refresh add_lease
begin_refresh now s key =
    let pruned = prune_working_sets now s in
    let room =
      if Dict.contains key pruned.refresh_generations
      then ok pruned
      else make_room (length pruned.refresh_generations) pruned in
    room >>= λ t. ok (add_lease (invalidate_refresh t key) key, t.next_refresh_generation + 1)

unfoldable pub finish_refresh : Desks → ThreadKey → Desks
unfolding leases_of
finish_refresh s key =
    let leases = leases_of s key - 1 in
    record s {
      refresh_leases =
          if leases == 0
          then Dict.pop key s.refresh_leases
          else Dict.put key leases s.refresh_leases;
    }

-- The `while` loop of `_store_working_set_locked`, one unit of fuel a round. It never takes from an
-- empty dictionary, since the bound is at least 1.
unfoldable pub evict_desks : ℕ → Desks → Desks
unfolding forget
evict_desks zero s = s
evict_desks (suc fuel) s =
    let rest : Desks = elim s.working_sets [
      | [] ↦ s
      | (removed_key, w) ∷ others ↦ evict_desks fuel (forget s removed_key)
    ] in
    if leb s.max_working_sets (length s.working_sets) then rest else s

unfoldable pub store_working_set : ℕ → Desks → ThreadKey → WorkingSet → Desks
unfolding prune_working_sets evict_desks
store_working_set now s key working_set =
    let pruned = prune_working_sets now s in
    let t =
      if Dict.contains key pruned.working_sets
      then pruned
      else evict_desks (length pruned.working_sets) pruned in
    record t {
      working_sets = Dict.put_last key working_set t.working_sets;
      working_set_access = Dict.put key now t.working_set_access;
    }

-- The last block of `refresh` under the lock, where `permitted` is the answer of `_publish_if`.
unfoldable pub publish : ℕ → Desks → ThreadKey → ℕ → Bool → WorkingSet → Desks
unfolding store_working_set
publish now s key generation permitted working_set =
    let is_latest : Bool = elim (Dict.get key s.refresh_generations) [
      | none ↦ false
      | some g ↦ g == generation
    ] in
    if is_latest && permitted then store_working_set now s key working_set else s

unfoldable pub drop_desk : Desks → ThreadKey → Desks
drop_desk s key = record s {
  working_sets = Dict.pop key s.working_sets;
  working_set_access = Dict.pop key s.working_set_access;
}

-- The first block of `get` under the lock.
unfoldable pub get : ℕ → ℕ → Desks → ThreadKey → Desks × Option WorkingSet
unfolding prune_working_sets contains_expired_record drop_desk
get now wall s key =
    let pruned = prune_working_sets now s in
    elim (Dict.get key pruned.working_sets) [
      | none ↦ (pruned, none)
      | some w ↦ if contains_expired_record wall w.hits then (drop_desk pruned key, none) else (
        record pruned {
          working_sets = Dict.put_last key w pruned.working_sets;
          working_set_access = Dict.put key now pruned.working_set_access;
        },
        some w,
      )
    ]

-- The rest of `get`, with what Redis had under the key: `wall` is the clock when that is tested, and
-- `later` when the desk's own working set is tested again.
unfoldable pub usable : ℕ → Option WorkingSet → Option WorkingSet
unfolding contains_expired_record
usable wall none = none
usable wall (some w) = if contains_expired_record wall w.hits then none else some w

unfoldable pub merge_fetched :
    ℕ → ℕ → ℕ → Desks → ThreadKey → Option WorkingSet → Desks × Option WorkingSet
unfolding usable drop_desk store_working_set
merge_fetched now wall later s key found =
    let fetched = usable wall found in
    let current = usable later (Dict.get key s.working_sets) in
    let t : Desks = elim current [
      | none ↦ if Dict.contains key s.working_sets then drop_desk s key else s
      | some w ↦ s
    ] in
    elim fetched [
      | none ↦ (t, current)
      | some f ↦ elim current [
        | none ↦ (store_working_set now t key f, some f)
        | some w ↦
            if leb f.refreshed_at w.refreshed_at
            then (t, some w)
            else (store_working_set now t key f, some f)
      ]
    ]
