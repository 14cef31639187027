-- ===== src/Swapper/Steps.antt =====
-- What the threads do to the desks, as steps under the lock of the swapper.
use library_of_context.Prelude.{ℕ, ◌≡◌, Bool, false, Option, none, some, [], ok, if◌then◌else◌}
use library_of_context.Models.{Str}
use library_of_context.Dict.{Dict}
use library_of_context.Dict
use library_of_context.Scopes.{ThreadKey, thread_key_eq}
use library_of_context.Swapper.Hits.{WorkingSet}
use library_of_context.Swapper.Desks.{
  prune_working_sets, is_held, remove_desk, Desks, PeriodicTask, begin_refresh, finish_refresh,
  invalidate_refresh, publish, get, merge_fetched,
}

-- The block of `start_periodic` that sets the task, and that of its `except`.
unfoldable pub set_task : Desks → ThreadKey → PeriodicTask → Desks
set_task s key task = record s { tasks = Dict.put key task s.tasks }

unfoldable pub drop_task : Desks → ThreadKey → Desks
drop_task s key = record s { tasks = Dict.pop key s.tasks }

-- The block of `update_focus`, with the task that it finds.
unfoldable pub set_focus : Desks → ThreadKey → Str → Desks × Option PeriodicTask
unfolding invalidate_refresh
set_focus s key focus = elim (Dict.get key s.tasks) [
  | none ↦ (s, none)
  | some task ↦
      let changed : PeriodicTask = record task { focus = focus } in
      (invalidate_refresh (record s { tasks = Dict.put key changed s.tasks }) key, some changed)
]

-- The block of `stop_periodic`, and whether it finds a task.
unfoldable pub cancel : Desks → ThreadKey → Desks × Bool
unfolding drop_task invalidate_refresh
cancel s key =
    let found = Dict.contains key s.tasks in
    (if found then invalidate_refresh (drop_task s key) key else s, found)

-- The two blocks of `close`.
unfoldable pub clear_tasks : Desks → Desks
clear_tasks s = record s { tasks = [] }

unfoldable pub clear_desks : Desks → Desks
clear_desks s = record s {
  working_sets = [];
  working_set_access = [];
  refresh_generations = [];
  refresh_leases = [];
}

pub data Step (s t : Desks) : Type 0 where
  begins :
      (now : ℕ) (key : ThreadKey) (generation : ℕ)
      → begin_refresh now s key ≡ ok (t, generation)
      → Step s t
  -- what a refresh that finds no room has done before it raises
  prunes : (now : ℕ) → t ≡ prune_working_sets now s → Step s t
  removes : (key : ThreadKey) → is_held s key ≡ false → t ≡ remove_desk s key → Step s t
  publishes :
      (now : ℕ) (key : ThreadKey) (generation : ℕ) (permitted : Bool) (working_set : WorkingSet)
      → t ≡ publish now s key generation permitted working_set
      → Step s t
  finishes : (key : ThreadKey) → t ≡ finish_refresh s key → Step s t
  gets : (now wall : ℕ) (key : ThreadKey) → t ≡ (get now wall s key).0 → Step s t
  merges :
      (now wall later : ℕ) (key : ThreadKey) (found : Option WorkingSet)
      → t ≡ (merge_fetched now wall later s key found).0
      → Step s t
  sets_task : (key : ThreadKey) (task : PeriodicTask) → t ≡ set_task s key task → Step s t
  drops_task : (key : ThreadKey) → t ≡ drop_task s key → Step s t
  focuses : (key : ThreadKey) (focus : Str) → t ≡ (set_focus s key focus).0 → Step s t
  cancels : (key : ThreadKey) → t ≡ (cancel s key).0 → Step s t
  clears_tasks : t ≡ clear_tasks s → Step s t
  clears_desks : t ≡ clear_desks s → Step s t

pub data Reach (s : Desks) : Desks → Type 0 where
  here : Reach s s
  next : {t u : Desks} → Reach s t → Step t u → Reach s u
