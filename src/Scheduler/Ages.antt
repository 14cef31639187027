-- ===== src/Scheduler/Ages.antt =====
-- The ages of tasks, items and runs: what a step does to them.
use mathlib.Core.Path.{subst}
use library_of_context.Prelude.{
  ℕ, ◌+◌, ◌-◌, ◌≤◌, ◌≡◌, inl, inr, true, Option, none, some, List, [], ◌∷◌, ◌++◌, arith, Bool-cases,
  Option-cases, length, ok, ◌==◌, All, All-take, All-append, Result-cases,
}
use library_of_context.Models.{Str}
use library_of_context.Dict
use library_of_context.Dict.{Dict, get, pop, put, get-put}
use library_of_context.Scopes.{ThreadKey, thread_key_eq}
use library_of_context.Scheduler.Defs.{
  Task, Scheduler, Item, delay, schedule, is_ready, ready_tasks, launch, launch_all, dispatch,
  finish,
}
use library_of_context.Scheduler.Steps.{Crew}

abbrev pub TaskAged : ℕ → ThreadKey × Task → Type 0
TaskAged n p = p.1.generation ≤ n

abbrev pub ItemAged : ℕ → Option Item → Type 0
ItemAged n none = Unit
ItemAged n (some (key, generation, callback)) = generation ≤ n

abbrev pub RunAged : ℕ → ThreadKey × ℕ → Type 0
RunAged n p = p.1 ≤ n

-- No generation is newer than the last that was given.
pub record IsAged (c : Crew) : Type 0 where
  pub tasks : All (TaskAged c.s.next_generation) c.s.tasks
  pub work : All (ItemAged c.s.next_generation) c.s.work
  pub running : All (RunAged c.s.next_generation) c.running

module _ {ℓ} {V : Type ℓ} (P : ThreadKey × V → Type 0) where
  All-put :
      (k : ThreadKey) (v : V) (d : Dict ThreadKey V)
      → ((j : ThreadKey) → P (j, v))
      → All P d
      → All P (put k v d)
  unfolding put
  All-put k v [] p all = (p k, tt)
  All-put k v ((j, w) ∷ d) p all = elim (Bool-cases (thread_key_eq.beq j k)) [
    | inl same ↦ rw same (p j, all.1)
    | inr other ↦ rw other (all.0, All-put k v d p all.1)
  ]

  pub All-pop : (k : ThreadKey) (d : Dict ThreadKey V) → All P d → All P (pop k d)
  unfolding pop
  All-pop k [] all = tt
  All-pop k ((j, w) ∷ d) all = elim (Bool-cases (thread_key_eq.beq j k)) [
    | inl same ↦ rw same (All-pop k d all.1)
    | inr other ↦ rw other (all.0, All-pop k d all.1)
  ]

  pub All-get :
      (k : ThreadKey) (v : V) (d : Dict ThreadKey V)
      → get k d ≡ some v
      → All P d
      → (j : ThreadKey) × P (j, v)
  unfolding get
  All-get k v [] h all = absurd (ground (arith, h))
  All-get k v ((j, w) ∷ d) h all = elim (Bool-cases (thread_key_eq.beq j k)) [
    | inl same ↦
        let e : some w ≡ some v = rw same at h in
        let e' : w ≡ v = ground (arith, e) in (j, subst (λ x. P (j, x)) e' all.0)
    | inr other ↦ All-get k v d (rw other at h) all.1
  ]

pub All-mono {ℓ} :
    {A : Type ℓ} (P Q : A → Type 0) (xs : List A) → ((x : A) → P x → Q x) → All P xs → All Q xs
All-mono P Q [] f all = tt
All-mono P Q (x ∷ xs) f all = (f x all.0, All-mono P Q xs f all.1)

pub ready_tasks-All :
    (P : ThreadKey × Task → Type 0) (now : ℕ) (inflight : List ThreadKey)
    (tasks : Dict ThreadKey Task)
    → All P tasks
    → All P (ready_tasks now inflight tasks)
unfolding ready_tasks
ready_tasks-All P now inflight [] all = tt
ready_tasks-All P now inflight ((k, task) ∷ tasks) all =
    elim (Bool-cases (is_ready now inflight k task)) [
      | inl due ↦ rw due (all.0, ready_tasks-All P now inflight tasks all.1)
      | inr other ↦ rw other (ready_tasks-All P now inflight tasks all.1)
    ]

pub ItemAged-mono : (m n : ℕ) → m ≤ n → (i : Option Item) → ItemAged m i → ItemAged n i
ItemAged-mono m n le none a = tt
ItemAged-mono m n le (some (k, g, f)) a = omega arith

pub launch-cases :
    (now : ℕ) (s t : Scheduler) (key : ThreadKey) (task : Task)
    → launch now s key task ≡ ok t
    → (t.next_generation ≡ s.next_generation)
      × (t.tasks ≡ put key (record task { last_started_at = some now; next_run = none }) s.tasks)
      × (t.work ≡ s.work ++ some (key, task.generation, task.callback) ∷ [])
unfolding launch
launch-cases now s t key task h = (ground (arith, h), ground (arith, h), ground (arith, h))

launch_all-IsAged :
    (now : ℕ) (c : Crew) (t : Scheduler) (ready : Dict ThreadKey Task)
    → launch_all now c.s ready ≡ ok t
    → All (TaskAged c.s.next_generation) ready
    → IsAged c
    → IsAged (record c { s = t })
unfolding launch_all
launch_all-IsAged now c t [] h all v =
    let same : c.s ≡ t = ground (arith, h) in
    subst (λ (x : Scheduler). IsAged (record c { s = x })) same v
launch_all-IsAged now c t ((key, task) ∷ ready) h all v =
    elim (Result-cases (launch now c.s key task)) [
      | inl (u, done) ↦
          let (en, et, ew) = launch-cases now c.s u key task done in
          let d : Crew = record c { s = u } in
          launch_all-IsAged now d t ready (rw done at h) (rw en all.1) (record {
            tasks =
                rw (en, et)
                  (All-put (TaskAged c.s.next_generation) key _ c.s.tasks (λ j. all.0) v.tasks);
            work = rw (en, ew) (All-append _ c.s.work _ v.work (all.0, tt));
            running = rw en v.running;
          })
      | inr (x, failed) ↦ absurd (ground (arith, rw failed at h))
    ]

pub dispatches-IsAged :
    (now : ℕ) (c : Crew) (t : Scheduler)
    → dispatch now c.s ≡ ok t
    → IsAged c
    → IsAged (record c { s = t })
unfolding dispatch
dispatches-IsAged now c t h v = elim (Bool-cases c.s.stopped) [
  | inl off ↦
      let same : c.s ≡ t = ground (arith, h, off) in
      subst (λ (x : Scheduler). IsAged (record c { s = x })) same v
  | inr on ↦
      launch_all-IsAged now c t _ (ground (arith, h, on))
        (All-take _ (c.s.worker_count - length c.s.inflight) _
          (ready_tasks-All (TaskAged c.s.next_generation) now c.s.inflight c.s.tasks v.tasks))
        v
]

pub schedules-IsAged :
    (c : Crew) (now later earlier : ℕ) (key : ThreadKey) (interval_seconds callback : ℕ)
    (t : Scheduler) (generation : ℕ)
    → schedule now later earlier c.s key interval_seconds callback ≡ ok (t, generation)
    → IsAged c
    → IsAged (record c { s = t })
unfolding schedule
schedules-IsAged c now later earlier key interval_seconds callback t generation h v =
    let n = c.s.next_generation in
    let task : Task = record {
      interval_seconds = interval_seconds;
      callback = callback;
      generation = n + 1;
      next_run = some (now + delay interval_seconds later earlier);
      last_error = none;
      last_started_at = none;
      last_finished_at = none;
    } in
    let after : t
        ≡ record c.s { next_generation = n + 1; tasks = put key task c.s.tasks; started = true } =
      ground (arith, h) in
    rw after (record {
      tasks =
          All-put (TaskAged (n + 1)) key task c.s.tasks (λ j. omega arith)
            (All-mono (TaskAged n) (TaskAged (n + 1)) c.s.tasks (λ p a. omega (arith, a)) v.tasks);
      work =
          All-mono (ItemAged n) (ItemAged (n + 1)) c.s.work (ItemAged-mono n (n + 1) (omega arith))
            v.work;
      running =
          All-mono (RunAged n) (RunAged (n + 1)) c.running (λ p a. omega (arith, a)) v.running;
    })

pub finishes-IsAged :
    (c : Crew) (now later earlier : ℕ) (key : ThreadKey) (generation : ℕ) (error : Option Str)
    → IsAged c
    → IsAged (record {
      s = finish now later earlier c.s key generation error;
      running = pop key c.running;
    })
unfolding finish
finishes-IsAged c now later earlier key generation error v =
    let s' = finish now later earlier c.s key generation error in
    let n = c.s.next_generation in
    let with_tasks : (tasks : Dict ThreadKey Task)
        → s' ≡ record c.s { inflight = Dict.discard key c.s.inflight; tasks = tasks }
        → All (TaskAged n) tasks
        → IsAged (record { s = s'; running = pop key c.running }) =
      λ tasks after all. rw after (record {
        tasks = all;
        work = v.work;
        running = All-pop (RunAged n) key c.running v.running;
      }) in
    elim (Option-cases (get key c.s.tasks)) [
      | inl gone ↦ with_tasks c.s.tasks (ground (arith, gone)) v.tasks
      | inr (task, found) ↦ elim (Bool-cases (task.generation == generation)) [
        | inl current ↦
            let (j, old) = All-get (TaskAged n) key task c.s.tasks found v.tasks in
            let done : Task = record task {
              last_error = error;
              last_finished_at = some now;
              next_run = some (now + delay task.interval_seconds later earlier);
            } in
            with_tasks (put key done c.s.tasks) (ground (arith, found, current))
              (All-put (TaskAged n) key done c.s.tasks (λ i. old) v.tasks)
        | inr stale ↦ with_tasks c.s.tasks (ground (arith, found, stale)) v.tasks
      ]
    ]
