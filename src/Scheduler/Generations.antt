-- ===== src/Scheduler/Generations.antt =====
-- The generations of tasks and items.
use mathlib.Core.Path.{subst, sym}
use library_of_context.Prelude.{
  ℕ, ◌+◌, ◌≡◌, ◌==◌, true, false, Option, none, some, [], ◌∷◌, ◌++◌, arith, ok, ==_iff, All,
  All-append,
}
use library_of_context.Models.{Str}
use library_of_context.Dict.{get, get-put}
use library_of_context.Scopes.{ThreadKey, thread_key_eq}
use library_of_context.Scheduler.Defs.{
  Scheduler, schedule, stop, is_current, abandon, die, finish, shut, post_mark, scheduler,
}
use library_of_context.Scheduler.Steps.{
  Crew, Step, schedules, stops, dispatches, takes, takes_mark, abandons, dies, finishes, shuts,
  posts, Reach, here, next, Later,
}
use library_of_context.Scheduler.Keys.{schedule-tasks, Reach-Unique}
use library_of_context.Scheduler.Outdated.{
  IsOutdated, IsOther-put, IsOutdated-finish, Later-IsOutdated,
}
use library_of_context.Scheduler.Landings.{take_work-cases}
use library_of_context.Scheduler.Ages.{
  All-pop, All-get, ItemAged, RunAged, IsAged, dispatches-IsAged, schedules-IsAged, finishes-IsAged,
}

Step-IsAged : {c d : Crew} → Step c d → IsAged c → IsAged d
Step-IsAged {c} {d} (schedules now later earlier key interval_seconds callback t generation h e) v =
    subst IsAged (sym e)
      (schedules-IsAged c now later earlier key interval_seconds callback t generation h v)
Step-IsAged {c} {d} (stops key e) v = subst IsAged (sym e) (
    unfold stop in
    record { tasks = All-pop _ key c.s.tasks v.tasks; work = v.work; running = v.running })
Step-IsAged {c} {d} (dispatches now t h e) v = subst IsAged (sym e) (dispatches-IsAged now c t h v)
Step-IsAged {c} {d} (takes key generation callback t h e) v =
    let (rest, front, after) = take_work-cases c.s t (some (key, generation, callback)) h in
    let all : All (ItemAged c.s.next_generation) (some (key, generation, callback) ∷ rest) =
      rw front at v.work in
    subst IsAged (sym e) (
      rw after (record {
        tasks = v.tasks;
        work = all.1;
        running = All-append _ c.running _ v.running (all.0, tt);
      }))
Step-IsAged {c} {d} (takes_mark t h e) v =
    let (rest, front, after) = take_work-cases c.s t none h in
    let all : All (ItemAged c.s.next_generation) (none ∷ rest) = rw front at v.work in
    subst IsAged (sym e) (rw after (record { tasks = v.tasks; work = all.1; running = v.running }))
Step-IsAged {c} {d} (abandons key generation taken off e) v = subst IsAged (sym e) (
    unfold abandon in
    record { tasks = v.tasks; work = v.work; running = All-pop _ key c.running v.running })
Step-IsAged {c} {d} (dies error e) v =
    subst IsAged (sym e)
      (unfold die in record { tasks = v.tasks; work = v.work; running = v.running })
Step-IsAged {c} {d} (finishes now later earlier key generation error taken e) v =
    subst IsAged (sym e) (finishes-IsAged c now later earlier key generation error v)
Step-IsAged {c} {d} (shuts e) v =
    subst IsAged (sym e) (unfold shut in record { tasks = tt; work = v.work; running = v.running })
Step-IsAged {c} {d} (posts t off h e) v =
    let after : t ≡ record c.s { work = c.s.work ++ none ∷ [] } =
      unfold post_mark in ground (arith, h) in
    subst IsAged (sym e) (
      rw after (record {
        tasks = v.tasks;
        work = All-append _ c.s.work _ v.work (tt, tt);
        running = v.running;
      }))

Reach-IsAged :
    {s : Scheduler} {c : Crew} → Reach s c → IsAged (record { s = s; running = [] }) → IsAged c
Reach-IsAged here v = v
Reach-IsAged (next r step) v = Step-IsAged step (Reach-IsAged r v)

schedule-is_current :
    (now later earlier : ℕ) (s t : Scheduler) (key : ThreadKey)
    (interval_seconds callback generation : ℕ)
    → schedule now later earlier s key interval_seconds callback ≡ ok (t, generation)
    → is_current t key generation ≡ true
unfolding is_current schedule
schedule-is_current now later earlier s t key interval_seconds callback generation h =
    let (task, tasks, new, number) =
      schedule-tasks now later earlier s t key interval_seconds callback generation h in
    let given : generation ≡ s.next_generation + 1 = ground (arith, h) in
    ground (
      arith,
      tasks,
      get-put key key task s.tasks,
      thread_key_eq.beq_iff key key,
      new,
      given,
      ==_iff task.generation generation,
    )

-- In every state that the threads reach from a new scheduler, for a refresh that a worker still
-- runs when its desk is scheduled again: the new generation is current. In every state that they
-- reach from there the old one is not current any more, and where the refresh ends, it leaves the
-- tasks as they are, whatever its outcome.
pub Reach-stale :
    (worker_count jitter_ratio max_tasks shutdown_timeout_seconds : ℕ) (s t : Scheduler)
    (c d : Crew) (key : ThreadKey) (old : ℕ)
    (now later earlier interval_seconds callback generation : ℕ)
    → scheduler worker_count jitter_ratio max_tasks shutdown_timeout_seconds ≡ ok s
    → Reach s c
    → get key c.running ≡ some old
    → schedule now later earlier c.s key interval_seconds callback ≡ ok (t, generation)
    → Later (record c { s = t }) d
    → (is_current t key generation ≡ true)
      × (is_current d.s key old ≡ false)
      × ((at up down : ℕ) (error : Option Str)
          → (finish at up down d.s key old error).tasks ≡ d.s.tasks)
unfolding scheduler
Reach-stale worker_count jitter_ratio max_tasks shutdown_timeout_seconds s t c d key old now later
      earlier interval_seconds callback generation h r taken again l =
    let start : (s.tasks ≡ []) × (s.work ≡ []) = (ground (arith, h), ground (arith, h)) in
    let fresh : IsAged (record { s = s; running = [] }) = record {
      tasks = rw start.0 tt;
      work = rw start.1 tt;
      running = tt;
    } in
    let v = Reach-IsAged r fresh in
    let unique = Reach-Unique r (rw start.0 tt) in
    let (j, bound) = All-get (RunAged c.s.next_generation) key old c.running taken v.running in
    let (task, tasks, new, number) =
      schedule-tasks now later earlier c.s t key interval_seconds callback generation again in
    let other : (task.generation == old) ≡ false =
      ground (arith, new, bound, ==_iff task.generation old) in
    let outdated : IsOutdated key old (record c { s = t }) = record {
      given = ground (arith, number, bound);
      gone = rw tasks (IsOther-put key old task c.s.tasks other unique);
    } in
    let (stale, kept) = IsOutdated-finish key old d (Later-IsOutdated key old l outdated) in
    (
      schedule-is_current now later earlier c.s t key interval_seconds callback generation again,
      stale,
      kept,
    )
