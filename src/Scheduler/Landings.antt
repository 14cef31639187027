-- ===== src/Scheduler/Landings.antt =====
-- The changes of a flight: items are taken, land, and are posted.
use mathlib.Core.Path.{ap}
use mathlib.Core.List.{append_assoc}
use library_of_context.Prelude.{
  ℕ, ◌+◌, ◌≤◌, ◌≡◌, refl, inl, inr, true, false, Option, none, some, List, [], ◌∷◌, ◌++◌, arith,
  Bool-cases, Option-cases, length, ok, ◌==◌,
}
use library_of_context.Models.{Str, str_eq}
use library_of_context.Dict
use library_of_context.Dict.{
  Dict, get, pop, put, keys, elem, discard, Unique, Unique-put, Unique-pop, Unique-discard,
  elem-append, elem-discard, length-discard_mem, keys-append, keys-pop, length-keys, contains-elem,
}
use library_of_context.Scopes.{ThreadKey, thread_key_eq}
use library_of_context.Scheduler.Defs.{
  Task, Scheduler, Item, schedule, take_work, delay, finish, post_mark,
}
use library_of_context.Scheduler.Steps.{Crew}
use library_of_context.Scheduler.Flights.{IsFlying, held, item_keys, item_keys-mark, discard-append}

-- A step that leaves the flight and the items as they were.
pub same-IsFlying :
    (c d : Crew)
    → held d ≡ held c
    → d.s.inflight ≡ c.s.inflight
    → d.s.worker_count ≡ c.s.worker_count
    → (d.s.stopped ≡ false → length d.s.work ≡ length (item_keys d.s.work))
    → Unique (keys d.s.tasks)
    → IsFlying c
    → IsFlying d
same-IsFlying c d eh ei en unmarked u v = record {
  single = rw eh v.single;
  single_inflight = rw ei v.single_inflight;
  members = λ k. rw (eh, ei) (v.members k);
  sized = rw (eh, ei) v.sized;
  bounded = rw (ei, en) v.bounded;
  unmarked = unmarked;
  single_tasks = u;
}

-- An item that a thread has taken leaves the flight.
pub lands-IsFlying :
    (c : Crew) (key : ThreadKey) (generation : ℕ) (tasks : Dict ThreadKey Task)
    → get key c.running ≡ some generation
    → Unique (keys tasks)
    → IsFlying c
    → IsFlying (record {
      s = record c.s { inflight = discard key c.s.inflight; tasks = tasks };
      running = pop key c.running;
    })
unfolding elem
lands-IsFlying c key generation tasks taken u v =
    let inside : elem key (keys c.running) ≡ true =
      unfold Dict.contains in ground (arith, contains-elem key c.running, taken) in
    let within : elem key (held c) ≡ true =
      ground (arith, elem-append key (keys c.running) (item_keys c.s.work), inside) in
    let whole : keys (pop key c.running) ++ item_keys c.s.work ≡ discard key (held c) = cc (
      keys-pop key c.running,
      discard-append key (keys c.running) (item_keys c.s.work) v.single inside,
    ) in
    record {
      single = rw whole (Unique-discard key (held c) v.single);
      single_inflight = Unique-discard key c.s.inflight v.single_inflight;
      members = λ k. rw whole (
          ground
            (arith, elem-discard key k (held c), elem-discard key k c.s.inflight, v.members k));
      sized = rw whole (
          ground (
            arith,
            length-discard_mem key (held c) v.single within,
            length-discard_mem key c.s.inflight v.single_inflight
                (ground (arith, v.members key, within)),
            v.sized,
          ));
      bounded = ground (
        arith,
        v.bounded,
        length-discard_mem key c.s.inflight v.single_inflight
            (ground (arith, v.members key, within)),
      );
      unmarked = v.unmarked;
      single_tasks = u;
    }

pub finishes-IsFlying :
    (c : Crew) (now later earlier : ℕ) (key : ThreadKey) (generation : ℕ) (error : Option Str)
    → get key c.running ≡ some generation
    → IsFlying c
    → IsFlying (record {
      s = finish now later earlier c.s key generation error;
      running = pop key c.running;
    })
unfolding finish
finishes-IsFlying c now later earlier key generation error taken v =
    let landed = record c.s { inflight = discard key c.s.inflight } in
    let s' = finish now later earlier c.s key generation error in
    let keep : s' ≡ landed → IsFlying (record { s = s'; running = pop key c.running }) =
      λ after. rw after (lands-IsFlying c key generation c.s.tasks taken v.single_tasks v) in
    elim (Option-cases (get key c.s.tasks)) [
      | inl gone ↦ keep (ground (arith, gone))
      | inr (task, found) ↦ elim (Bool-cases (task.generation == generation)) [
        | inl current ↦
            let done : Task = record task {
              last_error = error;
              last_finished_at = some now;
              next_run = some (now + delay task.interval_seconds later earlier);
            } in
            let after : s' ≡ record landed { tasks = put key done c.s.tasks } =
              ground (arith, found, current) in
            rw after (
              lands-IsFlying c key generation _ taken (Unique-put key done c.s.tasks v.single_tasks)
                v)
        | inr stale ↦ keep (ground (arith, found, stale))
      ]
    ]

pub take_work-cases :
    (s t : Scheduler) (item : Option Item)
    → take_work s ≡ some (item, t)
    → (rest : List (Option Item)) × (s.work ≡ item ∷ rest) × (t ≡ record s { work = rest })
unfolding take_work
take_work-cases s t item h = (t.work, ground (arith, h), ground (arith, h))

pub takes-IsFlying :
    (c : Crew) (key : ThreadKey) (generation callback : ℕ) (t : Scheduler)
    → take_work c.s ≡ some (some (key, generation, callback), t)
    → IsFlying c
    → IsFlying (record { s = t; running = c.running ++ (key, generation) ∷ [] })
unfolding item_keys
takes-IsFlying c key generation callback t h v =
    let (rest, front, after) = take_work-cases c.s t (some (key, generation, callback)) h in
    let d : Crew = record {
      s = record c.s { work = rest };
      running = c.running ++ (key, generation) ∷ [];
    } in
    let moved : held d ≡ held c =
      rw (keys-append c.running ((key, generation) ∷ []), append_assoc, front) refl in
    rw after (
      same-IsFlying c d moved refl refl (λ on. ground (arith, v.unmarked on, front)) v.single_tasks
        v)

-- A mark in the queue: it is taken, or posted.
pub marks-IsFlying :
    (c : Crew) (work : List (Option Item))
    → item_keys work ≡ item_keys c.s.work
    → (c.s.stopped ≡ false → length work ≡ length (item_keys work))
    → IsFlying c
    → IsFlying (record c { s = record c.s { work = work } })
marks-IsFlying c work same unmarked v =
    same-IsFlying c _ (ap (λ (l : List ThreadKey). keys c.running ++ l) same) refl refl unmarked
      v.single_tasks v

length-item_keys : (work : List (Option Item)) → length (item_keys work) ≤ length work
unfolding item_keys
length-item_keys [] = omega arith
length-item_keys (none ∷ work) = omega (arith, length-item_keys work)
length-item_keys (some (k, g, f) ∷ work) = omega (arith, length-item_keys work)

pub takes_mark-IsFlying :
    (c : Crew) (t : Scheduler)
    → take_work c.s ≡ some (none, t)
    → IsFlying c
    → IsFlying (record c { s = t })
unfolding item_keys
takes_mark-IsFlying c t h v =
    let (rest, front, after) = take_work-cases c.s t none h in
    rw after (
      marks-IsFlying c rest (rw front refl)
        (λ on. absurd (ground (arith, v.unmarked on, front, length-item_keys rest))) v)

pub posts-IsFlying :
    (c : Crew) (t : Scheduler)
    → c.s.stopped ≡ true
    → post_mark c.s ≡ ok t
    → IsFlying c
    → IsFlying (record c { s = t })
unfolding post_mark
posts-IsFlying c t off h v =
    let after : t ≡ record c.s { work = c.s.work ++ none ∷ [] } = ground (arith, h) in
    rw after
      (marks-IsFlying c _ (item_keys-mark c.s.work) (λ on. absurd (ground (arith, on, off))) v)

pub schedules-IsFlying :
    (c : Crew) (now later earlier : ℕ) (key : ThreadKey) (interval_seconds callback : ℕ)
    (t : Scheduler) (generation : ℕ)
    → schedule now later earlier c.s key interval_seconds callback ≡ ok (t, generation)
    → IsFlying c
    → IsFlying (record c { s = t })
unfolding schedule
schedules-IsFlying c now later earlier key interval_seconds callback t generation h v =
    let task : Task = record {
      interval_seconds = interval_seconds;
      callback = callback;
      generation = c.s.next_generation + 1;
      next_run = some (now + delay interval_seconds later earlier);
      last_error = none;
      last_started_at = none;
      last_finished_at = none;
    } in
    let after : t ≡ record c.s {
      next_generation = c.s.next_generation + 1;
      tasks = put key task c.s.tasks;
      started = true;
    } =
      ground (arith, h) in
    rw after
      (same-IsFlying c _ refl refl refl v.unmarked (Unique-put key task c.s.tasks v.single_tasks) v)
