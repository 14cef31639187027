-- ===== src/Scheduler/Outdated.antt =====
-- Generations that were given before and that no task of their key has, through the steps.
use mathlib.Core.Path.{subst, sym}
use library_of_context.Prelude.{
  ℕ, ◌+◌, ◌-◌, ◌≤◌, ◌≡◌, false, ◌&&◌, inl, inr, Option, none, some, [], ◌∷◌, ◌++◌, arith, ok, ◌==◌,
  ==_iff, All, All-take, Bool-cases, Option-cases, Result-cases, length,
}
use library_of_context.Models.{Str}
use library_of_context.Dict
use library_of_context.Dict.{Dict, get, put, pop}
use library_of_context.Scopes.{ThreadKey, thread_key_eq}
use library_of_context.Scheduler.Defs.{
  Task, Scheduler, delay, schedule, stop, is_current, launch, launch_all, dispatch, abandon, die,
  finish, shut, post_mark,
}
use library_of_context.Scheduler.Steps.{
  Crew, Step, schedules, stops, dispatches, takes, takes_mark, abandons, dies, finishes, shuts,
  posts, Later, same, after,
}
use library_of_context.Scheduler.Landings.{take_work-cases}
use library_of_context.Scheduler.Keys.{HasUnique, schedule-tasks}
use library_of_context.Scheduler.Ages.{All-pop, ready_tasks-All, launch-cases}

module _ {ℓ} {V : Type ℓ} (P : ThreadKey × V → Type 0) where
  All-put_at :
      (k : ThreadKey) (v : V) (d : Dict ThreadKey V) → P (k, v) → All P d → All P (put k v d)
  unfolding put
  All-put_at k v [] p all = (p, tt)
  All-put_at k v ((j, w) ∷ d) p all = elim (Bool-cases (thread_key_eq.beq j k)) [
    | inl hit ↦
        let e : k ≡ j = ground (arith, hit, thread_key_eq.beq_iff j k) in
        rw hit (subst (λ i. P (i, v)) e p, all.1)
    | inr other ↦ rw other (all.0, All-put_at k v d p all.1)
  ]

  All-get_at :
      (k : ThreadKey) (v : V) (d : Dict ThreadKey V) → get k d ≡ some v → All P d → P (k, v)
  unfolding get
  All-get_at k v [] h all = absurd (ground (arith, h))
  All-get_at k v ((j, w) ∷ d) h all = elim (Bool-cases (thread_key_eq.beq j k)) [
    | inl hit ↦
        let e : j ≡ k = ground (arith, hit, thread_key_eq.beq_iff j k) in
        let found : some w ≡ some v = rw hit at h in
        let value : w ≡ v = ground (arith, found) in
        subst (λ i. P (i, v)) e (subst (λ x. P (j, x)) value all.0)
    | inr other ↦ All-get_at k v d (rw other at h) all.1
  ]

module _ (key : ThreadKey) (old : ℕ) where
  -- The task is not the one of the generation.
  abbrev pub IsOther : ThreadKey × Task → Type 0
  IsOther p = (thread_key_eq.beq p.0 key && p.1.generation == old) ≡ false

  pub record IsOutdated (c : Crew) : Type 0 where
    pub given : old ≤ c.s.next_generation
    pub gone : All IsOther c.s.tasks

  schedules-IsOutdated :
      (c : Crew) (now later earlier : ℕ) (k : ThreadKey) (interval_seconds callback : ℕ)
      (t : Scheduler) (generation : ℕ)
      → schedule now later earlier c.s k interval_seconds callback ≡ ok (t, generation)
      → IsOutdated c
      → IsOutdated (record c { s = t })
  schedules-IsOutdated c now later earlier k interval_seconds callback t generation h v =
      let (task, tasks, new, number) =
        schedule-tasks now later earlier c.s t k interval_seconds callback generation h in
      record {
        given = ground (arith, number, v.given);
        gone = rw tasks (
            All-put_at IsOther k task c.s.tasks
              (ground (arith, new, v.given, ==_iff task.generation old)) v.gone);
      }

  -- Where a task is put into tasks that have each key once, it is the only one of its key.
  IsOther-absent : (d : Dict ThreadKey Task) → Dict.elem key (Dict.keys d) ≡ false → All IsOther d
  unfolding Dict.elem
  IsOther-absent [] h = tt
  IsOther-absent ((j, task) ∷ d) h = (ground (arith, h), IsOther-absent d (ground (arith, h)))

  pub IsOther-put :
      (task : Task) (d : Dict ThreadKey Task)
      → (task.generation == old) ≡ false
      → HasUnique d
      → All IsOther (put key task d)
  unfolding put
  IsOther-put task [] other u = (ground (arith, other), tt)
  IsOther-put task ((j, w) ∷ d) other u = elim (Bool-cases (thread_key_eq.beq j key)) [
    | inl hit ↦
        let e : j ≡ key = ground (arith, hit, thread_key_eq.beq_iff j key) in
        rw hit (ground (arith, other), IsOther-absent d (rw e at u.0))
    | inr miss ↦ rw miss (ground (arith, miss), IsOther-put task d other u.1)
  ]

  launch_all-IsOutdated :
      (now : ℕ) (c : Crew) (t : Scheduler) (ready : Dict ThreadKey Task)
      → launch_all now c.s ready ≡ ok t
      → All IsOther ready
      → IsOutdated c
      → IsOutdated (record c { s = t })
  unfolding launch_all
  launch_all-IsOutdated now c t [] h all v =
      let kept : c.s ≡ t = ground (arith, h) in
      subst (λ (x : Scheduler). IsOutdated (record c { s = x })) kept v
  launch_all-IsOutdated now c t ((k, task) ∷ ready) h all v =
      elim (Result-cases (launch now c.s k task)) [
        | inl (u, done) ↦
            let (en, et, ew) = launch-cases now c.s u k task done in
            launch_all-IsOutdated now (record c { s = u }) t ready (rw done at h) all.1
              (record {
                given = ground (arith, en, v.given);
                gone = rw et (All-put_at IsOther k _ c.s.tasks all.0 v.gone);
              })
        | inr (x, refused) ↦ absurd (ground (arith, rw refused at h))
      ]

  dispatches-IsOutdated :
      (now : ℕ) (c : Crew) (t : Scheduler)
      → dispatch now c.s ≡ ok t
      → IsOutdated c
      → IsOutdated (record c { s = t })
  unfolding dispatch
  dispatches-IsOutdated now c t h v = elim (Bool-cases c.s.stopped) [
    | inl off ↦
        let kept : c.s ≡ t = ground (arith, h, off) in
        subst (λ (x : Scheduler). IsOutdated (record c { s = x })) kept v
    | inr on ↦
        launch_all-IsOutdated now c t _ (ground (arith, h, on))
          (All-take _ (c.s.worker_count - length c.s.inflight) _
            (ready_tasks-All IsOther now c.s.inflight c.s.tasks v.gone))
          v
  ]

  finishes-IsOutdated :
      (c : Crew) (now later earlier : ℕ) (k : ThreadKey) (generation : ℕ) (error : Option Str)
      → IsOutdated c
      → IsOutdated (record {
        s = finish now later earlier c.s k generation error;
        running = pop k c.running;
      })
  unfolding finish
  finishes-IsOutdated c now later earlier k generation error v =
      let s' = finish now later earlier c.s k generation error in
      let with_tasks : (tasks : Dict ThreadKey Task)
          → s' ≡ record c.s { inflight = Dict.discard k c.s.inflight; tasks = tasks }
          → All IsOther tasks
          → IsOutdated (record { s = s'; running = pop k c.running }) =
        λ tasks e all. rw e (record { given = v.given; gone = all }) in
      elim (Option-cases (get k c.s.tasks)) [
        | inl absent ↦ with_tasks c.s.tasks (ground (arith, absent)) v.gone
        | inr (task, found) ↦ elim (Bool-cases (task.generation == generation)) [
          | inl current ↦
              let done : Task = record task {
                last_error = error;
                last_finished_at = some now;
                next_run = some (now + delay task.interval_seconds later earlier);
              } in
              with_tasks (put k done c.s.tasks) (ground (arith, found, current)) (
                All-put_at IsOther k done c.s.tasks
                  (All-get_at IsOther k task c.s.tasks found v.gone) v.gone)
          | inr stale ↦ with_tasks c.s.tasks (ground (arith, found, stale)) v.gone
        ]
      ]

  Step-IsOutdated : {c d : Crew} → Step c d → IsOutdated c → IsOutdated d
  Step-IsOutdated {c} {d} (schedules now later earlier k interval callback t generation h e) v =
      subst IsOutdated (sym e)
        (schedules-IsOutdated c now later earlier k interval callback t generation h v)
  Step-IsOutdated {c} {d} (stops k e) v =
      subst IsOutdated (sym e)
        (unfold stop in record { given = v.given; gone = All-pop _ k c.s.tasks v.gone })
  Step-IsOutdated {c} {d} (dispatches now t h e) v =
      subst IsOutdated (sym e) (dispatches-IsOutdated now c t h v)
  Step-IsOutdated {c} {d} (takes k generation callback t h e) v =
      let (rest, front, left) = take_work-cases c.s t (some (k, generation, callback)) h in
      subst IsOutdated (sym e) (rw left (record { given = v.given; gone = v.gone }))
  Step-IsOutdated {c} {d} (takes_mark t h e) v =
      let (rest, front, left) = take_work-cases c.s t none h in
      subst IsOutdated (sym e) (rw left (record { given = v.given; gone = v.gone }))
  Step-IsOutdated {c} {d} (abandons k generation taken off e) v =
      subst IsOutdated (sym e) (unfold abandon in record { given = v.given; gone = v.gone })
  Step-IsOutdated {c} {d} (dies error e) v =
      subst IsOutdated (sym e) (unfold die in record { given = v.given; gone = v.gone })
  Step-IsOutdated {c} {d} (finishes now later earlier k generation error taken e) v =
      subst IsOutdated (sym e) (finishes-IsOutdated c now later earlier k generation error v)
  Step-IsOutdated {c} {d} (shuts e) v =
      subst IsOutdated (sym e) (unfold shut in record { given = v.given; gone = tt })
  Step-IsOutdated {c} {d} (posts t off h e) v =
      let left : t ≡ record c.s { work = c.s.work ++ none ∷ [] } =
        unfold post_mark in ground (arith, h) in
      subst IsOutdated (sym e) (rw left (record { given = v.given; gone = v.gone }))

  pub Later-IsOutdated : {c d : Crew} → Later c d → IsOutdated c → IsOutdated d
  Later-IsOutdated same v = v
  Later-IsOutdated (after l step) v = Step-IsOutdated step (Later-IsOutdated l v)

  pub IsOutdated-finish :
      (c : Crew)
      → IsOutdated c
      → (is_current c.s key old ≡ false)
        × ((at up down : ℕ) (error : Option Str)
            → (finish at up down c.s key old error).tasks ≡ c.s.tasks)
  unfolding is_current finish
  IsOutdated-finish c v = elim (Option-cases (get key c.s.tasks)) [
    | inl absent ↦ (ground (arith, absent), λ at up down error. ground (arith, absent))
    | inr (task, found) ↦
        let other = All-get_at IsOther key task c.s.tasks found v.gone in
        let stale : (task.generation == old) ≡ false =
          ground (arith, other, thread_key_eq.beq_iff key key) in
        (ground (arith, found, stale), λ at up down error. ground (arith, found, stale))
  ]
