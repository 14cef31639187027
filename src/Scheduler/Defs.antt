-- ===== src/Scheduler/Defs.antt =====
-- The state and the methods of `DeskScheduler`. Times count ticks of the monotonic clock; `none` as
-- a time to run is infinity. A callback is named by a number. The `key` of a task is the key that
-- it has in the dictionary of tasks.
use library_of_context.Prelude.{
  ℕ, ◌+◌, ◌-◌, Bool, true, false, not, ◌&&◌, Option, none, some, List, [], ◌∷◌, ◌++◌, ◌==◌, leb,
  ltb, if◌then◌else◌, length, max, take, map, Result, ok, raise, ◌>>=◌, value_error, runtime_error,
  queue_full,
}
use library_of_context.Models.{Str, str_eq}
use library_of_context.Dict
use library_of_context.Dict.{Dict, elem, discard}
use library_of_context.Scopes.{ThreadKey, thread_key_eq}

pub record Task : Type 0 where
  pub interval_seconds : ℕ
  pub callback : ℕ
  pub generation : ℕ
  pub next_run : Option ℕ
  pub last_error : Option Str
  pub last_started_at : Option ℕ
  pub last_finished_at : Option ℕ

-- `(key, generation, callback)`
abbrev pub Item : Type 0
Item = ThreadKey × ℕ × ℕ

-- In `work`, `none` tells a worker to stop.
pub record Scheduler : Type 0 where
  pub worker_count : ℕ
  pub max_tasks : ℕ
  pub tasks : Dict ThreadKey Task
  pub inflight : List ThreadKey
  pub next_generation : ℕ
  pub stopped : Bool
  pub started : Bool
  pub work : List (Option Item)
  pub last_fatal_error : Option Str

-- The jitter ratio is in thousandths.
unfoldable pub scheduler : ℕ → ℕ → ℕ → ℕ → Result Scheduler
scheduler worker_count jitter_ratio max_tasks shutdown_timeout_seconds =
    if ltb worker_count 1
    then raise value_error
    else if ltb 500 jitter_ratio
    then raise value_error
    else if ltb max_tasks 1
    then raise value_error
    else if shutdown_timeout_seconds == 0
    then raise value_error
    else ok (record {
      worker_count = worker_count;
      max_tasks = max_tasks;
      tasks = [];
      inflight = [];
      next_generation = 0;
      stopped = false;
      started = false;
      work = [];
      last_fatal_error = none;
    })

-- `_delay`, where `random.uniform` gave `later - earlier`
unfoldable pub delay : ℕ → ℕ → ℕ → ℕ
delay interval_seconds later earlier = max 10000 (interval_seconds + later - earlier)

unfoldable pub schedule : ℕ → ℕ → ℕ → Scheduler → ThreadKey → ℕ → ℕ → Result (Scheduler × ℕ)
unfolding delay
schedule now later earlier s key interval_seconds callback =
    let generation = s.next_generation + 1 in
    let task : Task = record {
      interval_seconds = interval_seconds;
      callback = callback;
      generation = generation;
      next_run = some (now + delay interval_seconds later earlier);
      last_error = none;
      last_started_at = none;
      last_finished_at = none;
    } in
    if interval_seconds == 0
    then raise value_error
    else if s.stopped
    then raise runtime_error
    else if not (Dict.contains key s.tasks) && leb s.max_tasks (length s.tasks)
    then raise runtime_error
    else ok (
      record s { next_generation = generation; tasks = Dict.put key task s.tasks; started = true },
      generation,
    )

unfoldable pub is_current : Scheduler → ThreadKey → ℕ → Bool
is_current s key generation = elim (Dict.get key s.tasks) [
  | none ↦ false
  | some task ↦ task.generation == generation
]

unfoldable pub stop : Scheduler → ThreadKey → Scheduler × Bool
stop s key = (record s { tasks = Dict.pop key s.tasks }, Dict.contains key s.tasks)

-- `task.next_run <= now and task.key not in self._inflight`
unfoldable pub is_ready : ℕ → List ThreadKey → ThreadKey → Task → Bool
is_ready now inflight key task =
    elim task.next_run [ none ↦ false | some at ↦ leb at now ] && not (elem key inflight)

unfoldable pub ready_tasks : ℕ → List ThreadKey → Dict ThreadKey Task → Dict ThreadKey Task
unfolding is_ready
ready_tasks now inflight [] = []
ready_tasks now inflight ((key, task) ∷ tasks) =
    let rest = ready_tasks now inflight tasks in
    if is_ready now inflight key task then (key, task) ∷ rest else rest

-- `put_nowait` on a queue with the bound `worker_count`
unfoldable pub put_nowait : Scheduler → Option Item → Result Scheduler
put_nowait s item =
    if leb s.worker_count (length s.work)
    then raise queue_full
    else ok (record s { work = s.work ++ item ∷ [] })

-- The body of the loop over the ready tasks.
unfoldable pub launch : ℕ → Scheduler → ThreadKey → Task → Result Scheduler
unfolding put_nowait
launch now s key task =
    put_nowait
      (record s {
        inflight = if elem key s.inflight then s.inflight else s.inflight ++ key ∷ [];
        tasks = Dict.put key (record task { last_started_at = some now; next_run = none }) s.tasks;
      })
      (some (key, task.generation, task.callback))

unfoldable pub launch_all : ℕ → Scheduler → Dict ThreadKey Task → Result Scheduler
unfolding launch
launch_all now s [] = ok s
launch_all now s ((key, task) ∷ ready) = launch now s key task >>= λ t. launch_all now t ready

-- One round of `_run` under the lock.
unfoldable pub dispatch : ℕ → Scheduler → Result Scheduler
unfolding ready_tasks launch_all
dispatch now s =
    let ready = ready_tasks now s.inflight s.tasks in
    if s.stopped then ok s else launch_all now s (take (s.worker_count - length s.inflight) ready)

-- `self._work.get()` of a worker, and `get_nowait()` of `close`; `none` where the queue is empty.
unfoldable pub take_work : Scheduler → Option (Option Item × Scheduler)
take_work s = elim s.work [ [] ↦ none | item ∷ rest ↦ some (item, record s { work = rest }) ]

-- The key leaves the flight without a run: a worker that finds the scheduler stopped, and `close`.
unfoldable pub abandon : Scheduler → ThreadKey → Scheduler
abandon s key = record s { inflight = discard key s.inflight }

-- `except BaseException` of `_execute`
unfoldable pub die : Scheduler → Str → Scheduler
die s error = record s { last_fatal_error = some error; stopped = true }

-- `finally` of `_execute`
unfoldable pub finish : ℕ → ℕ → ℕ → Scheduler → ThreadKey → ℕ → Option Str → Scheduler
unfolding delay
finish now later earlier s key generation error =
    let landed = record s { inflight = discard key s.inflight } in
    elim (Dict.get key s.tasks) [
      | none ↦ landed
      | some task ↦
          if task.generation == generation
          then record landed {
            tasks =
                Dict.put key
                  (record task {
                    last_error = error;
                    last_finished_at = some now;
                    next_run = some (now + delay task.interval_seconds later earlier);
                  })
                  s.tasks;
          }
          else landed
    ]

-- The three parts of `close` between its waits: it stops, drains the work by `take_work` and
-- `abandon`, and posts a mark for each worker until
-- the queue is full.
unfoldable pub shut : Scheduler → Scheduler
shut s = record s { stopped = true; tasks = [] }

unfoldable pub post_mark : Scheduler → Result Scheduler
unfolding put_nowait
post_mark s = put_nowait s none

pub record TaskStatus : Type 0 where
  pub key : ThreadKey
  pub interval_seconds : ℕ
  pub generation : ℕ
  pub degraded : Bool
  pub in_flight : Bool
  pub last_error : Option Str
  pub last_started_at : Option ℕ
  pub last_finished_at : Option ℕ

unfoldable pub status : Scheduler → List TaskStatus
status s =
    map
      (λ (p : ThreadKey × Task). record {
        key = p.0;
        interval_seconds = p.1.interval_seconds;
        generation = p.1.generation;
        degraded = elim s.last_fatal_error [ none ↦ false | some e ↦ true ];
        in_flight = elem p.0 s.inflight;
        last_error = p.1.last_error;
        last_started_at = p.1.last_started_at;
        last_finished_at = p.1.last_finished_at;
      })
      s.tasks
