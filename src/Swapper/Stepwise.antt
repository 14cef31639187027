-- ===== src/Swapper/Stepwise.antt =====
-- A relation that is reflexive and transitive and holds over each change that the methods make
-- to the desks holds over every sequence of their steps.
use library_of_context.Prelude.{
  ℕ, ◌+◌, ◌≡◌, inl, inr, Bool, ◌&&◌, ◌==◌, Option, some, leb, Bool-cases, Option-cases, arith, ok,
  [],
}
use library_of_context.Models.{Str}
use library_of_context.Dict
use library_of_context.Dict.{Dict}
use library_of_context.Scopes.{ThreadKey, thread_key_eq}
use library_of_context.Swapper.Hits.{WorkingSet}
use library_of_context.Swapper.Desks.{
  Desks, PeriodicTask, forget, remove_desk, prune_working_sets, invalidate_refresh, add_lease,
  begin_refresh, finish_refresh, leases_of, store_working_set, publish, drop_desk, get,
  merge_fetched, usable, contains_expired_record,
}
use library_of_context.Swapper.Steps.{
  set_task, drop_task, set_focus, cancel, clear_tasks, clear_desks, Step, Reach, begins, prunes,
  publishes, finishes, gets, merges, sets_task, drops_task, focuses, cancels, clears_tasks,
  clears_desks, here, next,
}
use library_of_context.Swapper.Trims.{prune_working_sets-R, begin_refresh-R}

pub record Kept (R : Desks → Desks → Type 0) : Type 0 where
  pub same : (s : Desks) → R s s
  pub chain : (s t u : Desks) → R s t → R t u → R s u
  pub forgets : (s : Desks) (key : ThreadKey) → R s (forget s key)
  pub removes : (s : Desks) (key : ThreadKey) → R s (remove_desk s key)
  pub stores :
      (now : ℕ) (s : Desks) (key : ThreadKey) (w : WorkingSet) → R s (store_working_set now s key w)
  pub drops : (s : Desks) (key : ThreadKey) → R s (drop_desk s key)
  pub touches :
      (now : ℕ) (s : Desks) (key : ThreadKey) (w : WorkingSet)
      → Dict.get key s.working_sets ≡ some w
      → R s (record s {
        working_sets = Dict.put_last key w s.working_sets;
        working_set_access = Dict.put key now s.working_set_access;
      })
  pub invalidates : (s : Desks) (key : ThreadKey) → R s (invalidate_refresh s key)
  pub leases :
      (s : Desks) (refresh_leases : Dict ThreadKey ℕ)
      → R s (record s { refresh_leases = refresh_leases })
  pub retasks : (s : Desks) (tasks : Dict ThreadKey PeriodicTask) → R s (record s { tasks = tasks })
  pub clears : (s : Desks) → R s (clear_desks s)

module _ (R : Desks → Desks → Type 0) (k : Kept R) where
  begin_refresh-Kept :
      (now : ℕ) (s t : Desks) (key : ThreadKey) (generation : ℕ)
      → begin_refresh now s key ≡ ok (t, generation)
      → R s t
  unfolding add_lease
  begin_refresh-Kept now s t key generation h =
      let (r, before, after, number) =
        begin_refresh-R R k.same k.chain k.forgets k.removes now s t key generation h in
      let bumped = invalidate_refresh r key in
      rw after (
        k.chain s bumped (add_lease bumped key) (k.chain s r bumped before (k.invalidates r key))
          (k.leases bumped (Dict.put key (leases_of bumped key + 1) bumped.refresh_leases)))

  publish-Kept :
      (now : ℕ) (s : Desks) (key : ThreadKey) (generation : ℕ) (permitted : Bool) (w : WorkingSet)
      → R s (publish now s key generation permitted w)
  unfolding publish
  publish-Kept now s key generation permitted w =
      let same : publish now s key generation permitted w ≡ s
          → R s (publish now s key generation permitted w) =
        λ e. rw e (k.same s) in
      let stored : publish now s key generation permitted w ≡ store_working_set now s key w
          → R s (publish now s key generation permitted w) =
        λ e. rw e (k.stores now s key w) in
      elim (Option-cases (Dict.get key s.refresh_generations)) [
        | inl gone ↦ same (ground (arith, gone))
        | inr (g, found) ↦ elim (Bool-cases (g == generation && permitted)) [
          | inl latest ↦ stored (ground (arith, found, latest))
          | inr stale ↦ same (ground (arith, found, stale))
        ]
      ]

  finish_refresh-Kept : (s : Desks) (key : ThreadKey) → R s (finish_refresh s key)
  unfolding finish_refresh
  finish_refresh-Kept s key = k.leases s _

  get-Kept : (now wall : ℕ) (s : Desks) (key : ThreadKey) → R s (get now wall s key).0
  unfolding get
  get-Kept now wall s key =
      let t = prune_working_sets now s in
      let trimmed = prune_working_sets-R R k.same k.chain k.forgets k.removes now s in
      let result = (get now wall s key).0 in
      elim (Option-cases (Dict.get key t.working_sets)) [
        | inl miss ↦ let e : result ≡ t = ground (arith, miss) in rw e trimmed
        | inr (w, hit) ↦ elim (Bool-cases (contains_expired_record wall w.hits)) [
          | inl old ↦
              let e : result ≡ drop_desk t key = ground (arith, hit, old) in
              rw e (k.chain s t (drop_desk t key) trimmed (k.drops t key))
          | inr fresh ↦
              let e : result ≡ record t {
                working_sets = Dict.put_last key w t.working_sets;
                working_set_access = Dict.put key now t.working_set_access;
              } =
                ground (arith, hit, fresh) in
              rw e (k.chain s t _ trimmed (k.touches now t key w hit))
        ]
      ]

  merge_fetched-Kept :
      (now wall later : ℕ) (s : Desks) (key : ThreadKey) (found : Option WorkingSet)
      → R s (merge_fetched now wall later s key found).0
  unfolding merge_fetched
  merge_fetched-Kept now wall later s key found =
      let result = (merge_fetched now wall later s key found).0 in
      let dropped = drop_desk s key in
      let same : result ≡ s → R s result = λ e. rw e (k.same s) in
      let drop : result ≡ dropped → R s result = λ e. rw e (k.drops s key) in
      let store : (f : WorkingSet) → result ≡ store_working_set now s key f → R s result =
        λ f e. rw e (k.stores now s key f) in
      let replace : (f : WorkingSet) → result ≡ store_working_set now dropped key f → R s result =
        λ f e. rw e (k.chain s dropped _ (k.drops s key) (k.stores now dropped key f)) in
      elim (Option-cases (usable later (Dict.get key s.working_sets))) [
        | inl none_here ↦ elim (Bool-cases (Dict.contains key s.working_sets)) [
          | inl expired ↦ elim (Option-cases (usable wall found)) [
            | inl none_there ↦ drop (ground (arith, none_here, expired, none_there))
            | inr (f, there) ↦ replace f (ground (arith, none_here, expired, there))
          ]
          | inr absent ↦ elim (Option-cases (usable wall found)) [
            | inl none_there ↦ same (ground (arith, none_here, absent, none_there))
            | inr (f, there) ↦ store f (ground (arith, none_here, absent, there))
          ]
        ]
        | inr (w, current) ↦ elim (Option-cases (usable wall found)) [
          | inl none_there ↦ same (ground (arith, current, none_there))
          | inr (f, there) ↦ elim (Bool-cases (leb f.refreshed_at w.refreshed_at)) [
            | inl older ↦ same (ground (arith, current, there, older))
            | inr newer ↦ store f (ground (arith, current, there, newer))
          ]
        ]
      ]

  set_focus-Kept : (s : Desks) (key : ThreadKey) (focus : Str) → R s (set_focus s key focus).0
  unfolding set_focus
  set_focus-Kept s key focus = elim (Option-cases (Dict.get key s.tasks)) [
    | inl gone ↦ let e : (set_focus s key focus).0 ≡ s = ground (arith, gone) in rw e (k.same s)
    | inr (task, found) ↦
        let changed : PeriodicTask = record task { focus = focus } in
        let t = record s { tasks = Dict.put key changed s.tasks } in
        let e : (set_focus s key focus).0 ≡ invalidate_refresh t key = ground (arith, found) in
        rw e (k.chain s t _ (k.retasks s t.tasks) (k.invalidates t key))
  ]

  cancel-Kept : (s : Desks) (key : ThreadKey) → R s (cancel s key).0
  unfolding cancel drop_task
  cancel-Kept s key = elim (Bool-cases (Dict.contains key s.tasks)) [
    | inr gone ↦ let e : (cancel s key).0 ≡ s = ground (arith, gone) in rw e (k.same s)
    | inl found ↦
        let t = drop_task s key in
        let e : (cancel s key).0 ≡ invalidate_refresh t key = ground (arith, found) in
        rw e (k.chain s t _ (k.retasks s (Dict.pop key s.tasks)) (k.invalidates t key))
  ]

  Step-Kept : (s t : Desks) → Step s t → R s t
  unfolding set_task drop_task clear_tasks
  Step-Kept s t (begins now key generation h) = begin_refresh-Kept now s t key generation h
  Step-Kept s t (prunes now e) =
      rw e (prune_working_sets-R R k.same k.chain k.forgets k.removes now s)
  Step-Kept s t (Step.removes key free e) = rw e (k.removes s key)
  Step-Kept s t (publishes now key generation permitted w e) =
      rw e (publish-Kept now s key generation permitted w)
  Step-Kept s t (finishes key e) = rw e (finish_refresh-Kept s key)
  Step-Kept s t (gets now wall key e) = rw e (get-Kept now wall s key)
  Step-Kept s t (merges now wall later key found e) =
      rw e (merge_fetched-Kept now wall later s key found)
  Step-Kept s t (sets_task key task e) = rw e (k.retasks s (Dict.put key task s.tasks))
  Step-Kept s t (drops_task key e) = rw e (k.retasks s (Dict.pop key s.tasks))
  Step-Kept s t (focuses key focus e) = rw e (set_focus-Kept s key focus)
  Step-Kept s t (cancels key e) = rw e (cancel-Kept s key)
  Step-Kept s t (clears_tasks e) = rw e (k.retasks s [])
  Step-Kept s t (clears_desks e) = rw e (k.clears s)

  pub Reach-Kept : (s t : Desks) → Reach s t → R s t
  Reach-Kept s t here = k.same s
  Reach-Kept s t (next {t = u} r step) = k.chain s u t (Reach-Kept s u r) (Step-Kept u t step)
