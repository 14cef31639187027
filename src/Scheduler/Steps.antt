-- ===== src/Scheduler/Steps.antt =====
-- The threads of the scheduler, as steps under its lock.
use library_of_context.Prelude.{ℕ, ◌≡◌, true, Option, none, some, [], ◌∷◌, ◌++◌, ok}
use library_of_context.Models.{Str}
use library_of_context.Dict.{Dict, get, pop}
use library_of_context.Scopes.{ThreadKey, thread_key_eq}
use library_of_context.Scheduler.Defs.{
  Scheduler, schedule, stop, dispatch, take_work, abandon, die, finish, shut, post_mark,
}

-- The scheduler, with the key and the generation of each item that a thread has taken from the
-- queue and not yet dealt with.
pub record Crew : Type 0 where
  pub s : Scheduler
  pub running : Dict ThreadKey ℕ

pub data Step (c d : Crew) : Type 0 where
  schedules :
      (now later earlier : ℕ) (key : ThreadKey) (interval_seconds callback : ℕ) (t : Scheduler)
      (generation : ℕ)
      → schedule now later earlier c.s key interval_seconds callback ≡ ok (t, generation)
      → d ≡ record c { s = t }
      → Step c d
  stops : (key : ThreadKey) → d ≡ record c { s = (stop c.s key).0 } → Step c d
  dispatches :
      (now : ℕ) (t : Scheduler) → dispatch now c.s ≡ ok t → d ≡ record c { s = t } → Step c d
  takes :
      (key : ThreadKey) (generation callback : ℕ) (t : Scheduler)
      → take_work c.s ≡ some (some (key, generation, callback), t)
      → d ≡ record { s = t; running = c.running ++ (key, generation) ∷ [] }
      → Step c d
  takes_mark : (t : Scheduler) → take_work c.s ≡ some (none, t) → d ≡ record c { s = t } → Step c d
  abandons :
      (key : ThreadKey) (generation : ℕ)
      → get key c.running ≡ some generation
      → c.s.stopped ≡ true
      → d ≡ record { s = abandon c.s key; running = pop key c.running }
      → Step c d
  dies : (error : Str) → d ≡ record c { s = die c.s error } → Step c d
  finishes :
      (now later earlier : ℕ) (key : ThreadKey) (generation : ℕ) (error : Option Str)
      → get key c.running ≡ some generation
      → d ≡ record {
        s = finish now later earlier c.s key generation error;
        running = pop key c.running;
      }
      → Step c d
  shuts : d ≡ record c { s = shut c.s } → Step c d
  posts :
      (t : Scheduler)
      → c.s.stopped ≡ true
      → post_mark c.s ≡ ok t
      → d ≡ record c { s = t }
      → Step c d

pub data Reach (s : Scheduler) : Crew → Type 0 where
  here : Reach s (record { s = s; running = [] })
  next : {c d : Crew} → Reach s c → Step c d → Reach s d

-- What the threads reach from a crew.
pub data Later (c : Crew) : Crew → Type 0 where
  same : Later c c
  after : {d e : Crew} → Later c d → Step d e → Later c e
