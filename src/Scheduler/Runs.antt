-- ===== src/Scheduler/Runs.antt =====
-- The scheduler in every order of its threads' steps.
use mathlib.Core.Path.{subst, sym}
use library_of_context.Prelude.{ℕ, ◌≤◌, ◌≡◌, refl, false, none, [], arith, length, ok}
use library_of_context.Models.{str_eq}
use library_of_context.Dict.{elem, Unique, Unique-pop}
use library_of_context.Scopes.{thread_key_eq}
use library_of_context.Scheduler.Defs.{Scheduler, stop, dispatch, abandon, die, shut, scheduler}
use library_of_context.Scheduler.Steps.{
  Crew, Step, schedules, stops, dispatches, takes, takes_mark, abandons, dies, finishes, shuts,
  posts, Reach, here, next,
}
use library_of_context.Scheduler.Flights.{IsFlying, held, item_keys, dispatch-IsFlying}
use library_of_context.Scheduler.Landings.{
  same-IsFlying, lands-IsFlying, finishes-IsFlying, takes-IsFlying, takes_mark-IsFlying,
  posts-IsFlying, schedules-IsFlying,
}

Step-IsFlying : {c d : Crew} → Step c d → IsFlying c → IsFlying d
Step-IsFlying {c} {d} (schedules now later earlier key interval_seconds callback t generation h e)
      v =
    subst IsFlying (sym e)
      (schedules-IsFlying c now later earlier key interval_seconds callback t generation h v)
Step-IsFlying {c} {d} (stops key e) v = subst IsFlying (sym e) (
    unfold stop in
    same-IsFlying c _ refl refl refl v.unmarked (Unique-pop key c.s.tasks v.single_tasks) v)
Step-IsFlying {c} {d} (dispatches now t h e) v =
    let (u, done, w) = dispatch-IsFlying now c v in
    let same : u ≡ t = ground (arith, done, h) in
    subst IsFlying (sym e) (subst (λ (x : Scheduler). IsFlying (record c { s = x })) same w)
Step-IsFlying {c} {d} (takes key generation callback t h e) v =
    subst IsFlying (sym e) (takes-IsFlying c key generation callback t h v)
Step-IsFlying {c} {d} (takes_mark t h e) v = subst IsFlying (sym e) (takes_mark-IsFlying c t h v)
Step-IsFlying {c} {d} (abandons key generation taken off e) v =
    subst IsFlying (sym e)
      (unfold abandon in lands-IsFlying c key generation c.s.tasks taken v.single_tasks v)
Step-IsFlying {c} {d} (dies error e) v = subst IsFlying (sym e) (
    unfold die in
    same-IsFlying c _ refl refl refl (λ on. absurd (ground (arith, on))) v.single_tasks v)
Step-IsFlying {c} {d} (finishes now later earlier key generation error taken e) v =
    subst IsFlying (sym e) (finishes-IsFlying c now later earlier key generation error taken v)
Step-IsFlying {c} {d} (shuts e) v =
    subst IsFlying (sym e)
      (unfold shut in same-IsFlying c _ refl refl refl (λ on. absurd (ground (arith, on))) tt v)
Step-IsFlying {c} {d} (posts t off h e) v = subst IsFlying (sym e) (posts-IsFlying c t off h v)

Reach-IsFlying :
    {s : Scheduler} {c : Crew} → Reach s c → IsFlying (record { s = s; running = [] }) → IsFlying c
Reach-IsFlying here v = v
Reach-IsFlying (next r step) v = Step-IsFlying step (Reach-IsFlying r v)

new-IsFlying :
    (worker_count jitter_ratio max_tasks shutdown_timeout_seconds : ℕ) (s : Scheduler)
    → scheduler worker_count jitter_ratio max_tasks shutdown_timeout_seconds ≡ ok s
    → IsFlying (record { s = s; running = [] })
unfolding scheduler item_keys elem
new-IsFlying worker_count jitter_ratio max_tasks shutdown_timeout_seconds s h =
    let after : s ≡ record {
      worker_count = worker_count;
      max_tasks = max_tasks;
      tasks = [];
      inflight = [];
      next_generation = 0;
      stopped = false;
      started = false;
      work = [];
      last_fatal_error = none;
    } =
      ground (arith, h) in
    rw after (record {
      single = tt;
      single_inflight = tt;
      members = λ k. refl;
      sized = refl;
      bounded = omega arith;
      unmarked = λ on. refl;
      single_tasks = tt;
    })

-- In every state that the threads reach from a new scheduler: at most `worker_count` keys are in
-- flight, no key has two items that wait or run, and every round of the coordinator returns, so its
-- `put_nowait` never finds the queue full.
pub Reach-flights :
    (worker_count jitter_ratio max_tasks shutdown_timeout_seconds : ℕ) (s : Scheduler) (c : Crew)
    → scheduler worker_count jitter_ratio max_tasks shutdown_timeout_seconds ≡ ok s
    → Reach s c
    → (length c.s.inflight ≤ c.s.worker_count)
      × Unique (held c)
      × ((now : ℕ) → (t : Scheduler) × (dispatch now c.s ≡ ok t))
Reach-flights worker_count jitter_ratio max_tasks shutdown_timeout_seconds s c h r =
    let v =
      Reach-IsFlying r
        (new-IsFlying worker_count jitter_ratio max_tasks shutdown_timeout_seconds s h) in
    (v.bounded, v.single, λ now. let (t, done, w) = dispatch-IsFlying now c v in (t, done))
