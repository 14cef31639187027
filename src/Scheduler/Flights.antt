-- ===== src/Scheduler/Flights.antt =====
-- The keys in flight are those of the items that wait in the queue or run on a worker.
use mathlib.Core.Path.{ap}
use mathlib.Core.List.{append_assoc}
use library_of_context.Prelude.{
  ℕ, zero, suc, ◌+◌, ◌-◌, ◌<◌, ◌≤◌, ◌≡◌, refl, inl, inr, true, false, Option, none, some, List, [],
  ◌∷◌, ◌++◌, arith, Bool-cases, length, length-append, length-take, take, ok,
}
use library_of_context.Models.{str_eq}
use library_of_context.Dict.{
  Dict, put, keys, elem, discard, Unique, Unique-put, Unique-snoc, elem-append, discard_absent,
}
use library_of_context.Scopes.{ThreadKey, thread_key_eq}
use library_of_context.Scheduler.Defs.{
  Task, Scheduler, Item, is_ready, ready_tasks, launch, launch_all, dispatch,
}
use library_of_context.Scheduler.Steps.{Crew}

unfoldable pub item_keys : List (Option Item) → List ThreadKey
item_keys [] = []
item_keys (none ∷ work) = item_keys work
item_keys (some (key, generation, callback) ∷ work) = key ∷ item_keys work

-- The keys that some thread deals with or that wait in the queue.
abbrev pub held : Crew → List ThreadKey
held c = keys c.running ++ item_keys c.s.work

pub record IsFlying (c : Crew) : Type 0 where
  pub single : Unique (held c)
  pub single_inflight : Unique c.s.inflight
  pub members : (k : ThreadKey) → elem k c.s.inflight ≡ elem k (held c)
  pub sized : length c.s.inflight ≡ length (held c)
  pub bounded : length c.s.inflight ≤ c.s.worker_count
  pub unmarked : c.s.stopped ≡ false → length c.s.work ≡ length (item_keys c.s.work)
  pub single_tasks : Unique (keys c.s.tasks)

item_keys-snoc :
    (work : List (Option Item)) (key : ThreadKey) (generation callback : ℕ)
    → item_keys (work ++ some (key, generation, callback) ∷ []) ≡ item_keys work ++ key ∷ []
unfolding item_keys
item_keys-snoc [] key generation callback = refl
item_keys-snoc (none ∷ work) key generation callback = item_keys-snoc work key generation callback
item_keys-snoc (some (k, g, f) ∷ work) key generation callback =
    ap (λ (l : List ThreadKey). k ∷ l) (item_keys-snoc work key generation callback)

pub item_keys-mark : (work : List (Option Item)) → item_keys (work ++ none ∷ []) ≡ item_keys work
unfolding item_keys
item_keys-mark [] = refl
item_keys-mark (none ∷ work) = item_keys-mark work
item_keys-mark (some (k, g, f) ∷ work) = ap (λ (l : List ThreadKey). k ∷ l) (item_keys-mark work)

pub discard-append :
    (k : ThreadKey) (s t : List ThreadKey)
    → Unique (s ++ t)
    → elem k s ≡ true
    → discard k (s ++ t) ≡ discard k s ++ t
unfolding elem discard
discard-append k [] t u h = absurd (ground (arith, h))
discard-append k (j ∷ s) t u h = elim (Bool-cases (thread_key_eq.beq j k)) [
  | inl same ↦ ground (
    arith,
    thread_key_eq.beq_iff j k,
    discard_absent k (s ++ t),
    discard_absent k s,
    elem-append k s t,
    u,
  )
  | inr other ↦ ground (arith, discard-append k s t u.1, h)
]

-- The state after `launch`.
abbrev launched : ℕ → Scheduler → ThreadKey → Task → Scheduler
launched now s key task = record s {
  inflight = s.inflight ++ key ∷ [];
  tasks = put key (record task { last_started_at = some now; next_run = none }) s.tasks;
  work = s.work ++ some (key, task.generation, task.callback) ∷ [];
}

launch-IsFlying :
    (now : ℕ) (c : Crew) (key : ThreadKey) (task : Task)
    → IsFlying c
    → c.s.stopped ≡ false
    → elem key c.s.inflight ≡ false
    → length c.s.inflight < c.s.worker_count
    → (launch now c.s key task ≡ ok (launched now c.s key task))
      × IsFlying (record c { s = launched now c.s key task })
unfolding launch
launch-IsFlying now c key task v running fresh room =
    let snoc = item_keys-snoc c.s.work key task.generation task.callback in
    let whole : keys c.running
          ++ item_keys (c.s.work ++ some (key, task.generation, task.callback) ∷ [])
        ≡ held c ++ key ∷ [] =
      rw (snoc, append_assoc) refl in
    let keyed = v.members key in
    (
      ground
          (arith, v.unmarked running, v.sized, length-append (keys c.running) (item_keys c.s.work)),
      record {
        single = rw whole (Unique-snoc key (held c) v.single (ground (arith, keyed, fresh)));
        single_inflight = Unique-snoc key c.s.inflight v.single_inflight fresh;
        members = λ k. rw whole (
            ground (
              arith,
              v.members k,
              elem-append k c.s.inflight (key ∷ []),
              elem-append k (held c) (key ∷ []),
            ));
        sized = rw whole (
            ground (
              arith,
              v.sized,
              length-append c.s.inflight (key ∷ []),
              length-append (held c) (key ∷ []),
            ));
        bounded = ground (arith, room, length-append c.s.inflight (key ∷ []));
        unmarked = λ on. ground (
          arith,
          v.unmarked on,
          snoc,
          length-append c.s.work (some (key, task.generation, task.callback) ∷ []),
          length-append (item_keys c.s.work) (key ∷ []),
        );
        single_tasks = Unique-put key _ c.s.tasks v.single_tasks;
      },
    )

launch_all-IsFlying :
    (now : ℕ) (c : Crew) (ready : Dict ThreadKey Task)
    → IsFlying c
    → c.s.stopped ≡ false
    → Unique (keys ready)
    → ((k : ThreadKey) → elem k (keys ready) ≡ true → elem k c.s.inflight ≡ false)
    → length c.s.inflight + length ready ≤ c.s.worker_count
    → (t : Scheduler) × (launch_all now c.s ready ≡ ok t) × IsFlying (record c { s = t })
unfolding launch_all elem
launch_all-IsFlying now c [] v running u fresh room = (c.s, refl, v)
launch_all-IsFlying now c ((key, task) ∷ ready) v running u fresh room =
    let (done, w) =
      launch-IsFlying now c key task v running
        (fresh key (ground (arith, thread_key_eq.beq_iff key key))) (ground arith) in
    let d : Crew = record c { s = launched now c.s key task } in
    let (t, rest, x) =
      launch_all-IsFlying now d ready w running u.1
        (λ k inside. ground (
          arith,
          fresh k,
          u.0,
          inside,
          elem-append k c.s.inflight (key ∷ []),
          thread_key_eq.beq_iff key k,
        ))
        (ground (arith, length-append c.s.inflight (key ∷ []))) in
    (t, rw done rest, x)

ready_tasks-fresh :
    (now : ℕ) (inflight : List ThreadKey) (tasks : Dict ThreadKey Task) (k : ThreadKey)
    → elem k (keys (ready_tasks now inflight tasks)) ≡ true
    → (elem k (keys tasks) ≡ true) × (elem k inflight ≡ false)
unfolding ready_tasks is_ready elem
ready_tasks-fresh now inflight [] k h = absurd (ground (arith, h))
ready_tasks-fresh now inflight ((j, task) ∷ tasks) k h =
    ground (arith, h, ready_tasks-fresh now inflight tasks k, thread_key_eq.beq_iff j k)

Unique-ready_tasks :
    (now : ℕ) (inflight : List ThreadKey) (tasks : Dict ThreadKey Task)
    → Unique (keys tasks)
    → Unique (keys (ready_tasks now inflight tasks))
unfolding ready_tasks
Unique-ready_tasks now inflight [] u = tt
Unique-ready_tasks now inflight ((j, task) ∷ tasks) u =
    let rest = Unique-ready_tasks now inflight tasks u.1 in
    elim (Bool-cases (elem j (keys (ready_tasks now inflight tasks)))) [
      | inl twice ↦ absurd (ground (arith, ready_tasks-fresh now inflight tasks j twice, u.0))
      | inr once ↦ ground (arith, once, rest)
    ]

elem-take :
    (n : ℕ) (d : Dict ThreadKey Task) (k : ThreadKey)
    → elem k (keys (take n d)) ≡ true
    → elem k (keys d) ≡ true
unfolding elem
elem-take zero d k h = absurd (ground (arith, h))
elem-take (suc n) [] k h = h
elem-take (suc n) ((j, x) ∷ d) k h = ground (arith, h, elem-take n d k)

Unique-take : (n : ℕ) (d : Dict ThreadKey Task) → Unique (keys d) → Unique (keys (take n d))
Unique-take zero d u = tt
Unique-take (suc n) [] u = tt
Unique-take (suc n) ((j, x) ∷ d) u = elim (Bool-cases (elem j (keys (take n d)))) [
  | inl twice ↦ absurd (ground (arith, elem-take n d j twice, u.0))
  | inr once ↦ (once, Unique-take n d u.1)
]

dispatch_on :
    (now : ℕ) (s t : Scheduler)
    → s.stopped ≡ false
    → launch_all now s
        (take (s.worker_count - length s.inflight) (ready_tasks now s.inflight s.tasks))
      ≡ ok t
    → dispatch now s ≡ ok t
unfolding dispatch
dispatch_on now s t on done = ground (arith, on, done)

pub dispatch-IsFlying :
    (now : ℕ) (c : Crew)
    → IsFlying c
    → (t : Scheduler) × (dispatch now c.s ≡ ok t) × IsFlying (record c { s = t })
unfolding dispatch
dispatch-IsFlying now c v = elim (Bool-cases c.s.stopped) [
  | inl off ↦ (c.s, ground arith, v)
  | inr on ↦
      let ready = ready_tasks now c.s.inflight c.s.tasks in
      let n = c.s.worker_count - length c.s.inflight in
      let (t, done, w) =
        launch_all-IsFlying now c (take n ready) v on
          (Unique-take n ready (Unique-ready_tasks now c.s.inflight c.s.tasks v.single_tasks))
          (λ k inside.
            (ready_tasks-fresh now c.s.inflight c.s.tasks k (elem-take n ready k inside)).1)
          (ground (arith, v.bounded, length-take n ready)) in
      (t, dispatch_on now c.s t on done, w)
]
