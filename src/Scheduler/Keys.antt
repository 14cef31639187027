-- ===== src/Scheduler/Keys.antt =====
-- The dictionary of tasks has each key once.
use mathlib.Core.Path.{subst}
use library_of_context.Prelude.{
  ℕ, ◌+◌, ◌-◌, take, length, ◌≡◌, ◌⊎◌, inl, inr, refl, Option, none, some, [], ◌∷◌, arith, ok, ◌==◌,
  Bool-cases, Option-cases, Result-cases,
}
use library_of_context.Models.{Str}
use library_of_context.Dict.{Dict, get, put, keys, Unique, Unique-put, Unique-pop}
use library_of_context.Scopes.{ThreadKey, thread_key_eq}
use library_of_context.Scheduler.Defs.{
  Task, Scheduler, delay, schedule, ready_tasks, stop, launch, launch_all, dispatch, abandon, die,
  finish, shut, post_mark,
}
use library_of_context.Scheduler.Steps.{
  Crew, Step, schedules, stops, dispatches, takes, takes_mark, abandons, dies, finishes, shuts,
  posts, Reach, here, next,
}
use library_of_context.Scheduler.Landings.{take_work-cases}
use library_of_context.Scheduler.Ages.{launch-cases}

abbrev pub HasUnique : Dict ThreadKey Task → Type 0
HasUnique tasks = Unique (keys tasks)

-- What `schedule` puts into the dictionary.
pub schedule-tasks :
    (now later earlier : ℕ) (s t : Scheduler) (key : ThreadKey)
    (interval_seconds callback generation : ℕ)
    → schedule now later earlier s key interval_seconds callback ≡ ok (t, generation)
    → (task : Task) × (t.tasks ≡ put key task s.tasks)
      × (task.generation ≡ s.next_generation + 1)
      × (t.next_generation ≡ s.next_generation + 1)
unfolding schedule
schedule-tasks now later earlier s t key interval_seconds callback generation h = (
  record {
    interval_seconds = interval_seconds;
    callback = callback;
    generation = s.next_generation + 1;
    next_run = some (now + delay interval_seconds later earlier);
    last_error = none;
    last_started_at = none;
    last_finished_at = none;
  },
  ground (arith, h),
  refl,
  ground (arith, h),
)

launch_all-Unique :
    (now : ℕ) (s t : Scheduler) (ready : Dict ThreadKey Task)
    → launch_all now s ready ≡ ok t
    → HasUnique s.tasks
    → HasUnique t.tasks
unfolding launch_all
launch_all-Unique now s t [] h u =
    let kept : s ≡ t = ground (arith, h) in subst (λ (x : Scheduler). HasUnique x.tasks) kept u
launch_all-Unique now s t ((k, task) ∷ ready) h u = elim (Result-cases (launch now s k task)) [
  | inl (m, done) ↦
      let (en, et, ew) = launch-cases now s m k task done in
      launch_all-Unique now m t ready (rw done at h) (rw et (Unique-put k _ s.tasks u))
  | inr (x, refused) ↦ absurd (ground (arith, rw refused at h))
]

finish-tasks :
    (now later earlier : ℕ) (s : Scheduler) (key : ThreadKey) (generation : ℕ) (error : Option Str)
    → ((finish now later earlier s key generation error).tasks ≡ s.tasks)
      ⊎ ((task : Task) × ((finish now later earlier s key generation error).tasks
            ≡ put key task s.tasks))
unfolding finish
finish-tasks now later earlier s key generation error = elim (Option-cases (get key s.tasks)) [
  | inl absent ↦ inl (ground (arith, absent))
  | inr (task, found) ↦ elim (Bool-cases (task.generation == generation)) [
    | inl current ↦
        let done : Task = record task {
          last_error = error;
          last_finished_at = some now;
          next_run = some (now + delay task.interval_seconds later earlier);
        } in
        inr (done, ground (arith, found, current))
    | inr stale ↦ inl (ground (arith, found, stale))
  ]
]

-- The tasks of a step are the ones before, one put or popped, none, or those of a dispatch.
Step-Unique : {c d : Crew} → Step c d → HasUnique c.s.tasks → HasUnique d.s.tasks
unfolding schedule stop dispatch abandon die shut post_mark
Step-Unique {c} {d} (schedules now later earlier k interval callback t generation h e) u =
    let (task, tasks, new, number) =
      schedule-tasks now later earlier c.s t k interval callback generation h in
    rw e (rw tasks (Unique-put k task c.s.tasks u))
Step-Unique {c} {d} (stops k e) u = rw e (Unique-pop k c.s.tasks u)
Step-Unique {c} {d} (dispatches now t h e) u = rw e (elim (Bool-cases c.s.stopped) [
  | inl off ↦
      let kept : c.s ≡ t = ground (arith, h, off) in
      subst (λ (x : Scheduler). HasUnique x.tasks) kept u
  | inr on ↦
      let ready =
        take (c.s.worker_count - length c.s.inflight) (ready_tasks now c.s.inflight c.s.tasks) in
      launch_all-Unique now c.s t ready (ground (arith, h, on)) u
])
Step-Unique {c} {d} (takes k generation callback t h e) u =
    let (rest, front, left) = take_work-cases c.s t (some (k, generation, callback)) h in
    rw e (rw left u)
Step-Unique {c} {d} (takes_mark t h e) u =
    let (rest, front, left) = take_work-cases c.s t none h in rw e (rw left u)
Step-Unique {c} {d} (abandons k generation taken off e) u = rw e u
Step-Unique {c} {d} (dies error e) u = rw e u
Step-Unique {c} {d} (finishes now later earlier k generation error taken e) u =
    rw e (elim (finish-tasks now later earlier c.s k generation error) [
      | inl kept ↦ rw kept u
      | inr (task, tasks) ↦ rw tasks (Unique-put k task c.s.tasks u)
    ])
Step-Unique {c} {d} (shuts e) u = rw e tt
Step-Unique {c} {d} (posts t off h e) u =
    let kept : t.tasks ≡ c.s.tasks = ground (arith, h) in rw e (rw kept u)

pub Reach-Unique : {s : Scheduler} {c : Crew} → Reach s c → HasUnique s.tasks → HasUnique c.s.tasks
Reach-Unique here u = u
Reach-Unique (next r step) u = Step-Unique step (Reach-Unique r u)
