-- ===== src/Tests/Desks.antt =====
-- The theorems on the scheduler, the desks and prompts.
use library_of_context.Prelude.{
  ℕ, ◌≡◌, ◌≤◌, refl, true, false, none, some, Option, List, [], ◌∷◌, ◌++◌, ok, arith, length,
  Result, list_beq,
}
use library_of_context.Dict
use library_of_context.Dict.{Dict}
use library_of_context.Models.{Str, str_eq, ContextEvent}
use library_of_context.Text.{codes, estimate_tokens, Message, message_token_count}
use library_of_context.Scopes.Defs.{thread_key_beq}
use library_of_context.Scopes.{ThreadKey, thread_key_eq, is_empty}
use library_of_context.Scheduler.Defs.{
  Task, Scheduler, scheduler, schedule, dispatch, is_current, take_work,
}
use library_of_context.Scheduler.Steps.{
  Crew, Reach, here, next, schedules, dispatches, takes, after, same,
}
use library_of_context.Scheduler.Runs.{Reach-flights}
use library_of_context.Scheduler.Generations.{Reach-stale}
use library_of_context.Store.{ContextRecord}
use library_of_context.Store.Events.{event_of}
use library_of_context.Swapper.{SearchHit, WorkingSet}
use library_of_context.Swapper.Packing.{pack_hits, joined}
use library_of_context.Swapper.Packed.{
  pack_hits-greedy, pack_hits-bounds, greedy, hits_in, sections_in,
}
use library_of_context.Swapper.Desks.{Desks, begin_refresh, publish, context_swapper}
use library_of_context.Swapper.Steps as Changes
use library_of_context.Swapper.Generations.{begin_refresh-supersedes}
use library_of_context.Swapper.Bounded.{Reach-bounded}
use library_of_context.Prompt.Defs.{
  PromptBudget, GovernedPrompt, empty_desk, build, base_messages, available, recent_cap,
  recent_events_of,
}
use library_of_context.Prompt.Desk.{desk_refresh, desk_refresh-answers}
use library_of_context.Prompt.Builds.{build-fits}
use library_of_context.Swapper.Refresh.{Request}
use library_of_context.Prompt.Newest.{build-newest, message_within}
use library_of_context.Tests.Data.{first, talk, shelf, note, two}

abbrev pub desk : ThreadKey
desk = record { collection = shelf; session_id = talk }

abbrev idle : Scheduler
idle = record {
  worker_count = 2;
  max_tasks = 4;
  tasks = [];
  inflight = [];
  next_generation = 0;
  stopped = false;
  started = false;
  work = [];
  last_fatal_error = none;
}

abbrev task : Task
task = record {
  interval_seconds = 20000;
  callback = 7;
  generation = 1;
  next_run = some 20010;
  last_error = none;
  last_started_at = none;
  last_finished_at = none;
}

abbrev scheduled : Scheduler
scheduled = record idle { tasks = (desk, task) ∷ []; next_generation = 1; started = true }

abbrev dispatched : Scheduler
dispatched = record scheduled {
  tasks = (desk, record task { next_run = none; last_started_at = some 30000 }) ∷ [];
  inflight = desk ∷ [];
  work = some (desk, 1, 7) ∷ [];
}

abbrev taken : Crew
taken = record { s = record dispatched { work = [] }; running = (desk, 1) ∷ [] }

abbrev again : Scheduler
again = record taken.s {
  tasks = (desk, record task { generation = 2; next_run = some 60000; callback = 8 }) ∷ [];
  next_generation = 2;
}

scheduled_step : schedule 10 0 0 idle desk 20000 7 ≡ ok (scheduled, 1)
unfolding schedule Dict.contains Dict.get Dict.put
scheduled_step = refl

dispatched_step : dispatch 30000 scheduled ≡ ok dispatched
unfolding dispatch Dict.put Dict.elem thread_key_beq list_beq
dispatched_step = refl

taken_step : take_work dispatched ≡ some (some (desk, 1, 7), taken.s)
unfolding take_work
taken_step = refl

run : Reach idle taken
run =
    next
      (next (next here (schedules 10 0 0 desk 20000 7 scheduled 1 scheduled_step refl))
        (dispatches 30000 dispatched dispatched_step refl))
      (takes desk 1 7 taken.s taken_step refl)

again_step : schedule 40000 0 0 taken.s desk 20000 8 ≡ ok (again, 2)
unfolding schedule Dict.contains Dict.get Dict.put thread_key_beq list_beq
again_step = refl

Reach-flights_example : length taken.s.inflight ≤ taken.s.worker_count
unfolding scheduler
Reach-flights_example = (Reach-flights 2 100 4 5 idle taken refl run).0

-- A dispatch launches nothing for the desk while the old refresh runs.
abbrev again_dispatched : Scheduler
again_dispatched = record again {
  tasks = (desk, record task { generation = 2; next_run = some 60000; callback = 8 }) ∷ [];
}

again_step_later : dispatch 50000 again ≡ ok again_dispatched
unfolding dispatch Dict.elem thread_key_beq list_beq
again_step_later = refl

Reach-stale_example : is_current again_dispatched desk 1 ≡ false
unfolding scheduler Dict.get thread_key_beq list_beq
Reach-stale_example =
    (Reach-stale 2 100 4 5 idle again taken
      (record { s = again_dispatched; running = (desk, 1) ∷ [] }) desk 1 40000 0 0 20000 8 2 refl
      run refl again_step (after same (dispatches 50000 again_dispatched again_step_later refl))).1

abbrev pub shown : ℕ → Str
shown score = codes "0.500"

abbrev pub hit : SearchHit
hit = record {
  context_record = note;
  score = 500;
  vector_score = 500;
  lexical_score = 0;
  importance_score = 5;
  recency_score = 0;
}

pack_hits-greedy_example : pack_hits shown 40 (hit ∷ hit ∷ []) 3 ≡ (
  hits_in (greedy shown 40 3 (hit ∷ hit ∷ []) []),
  joined (sections_in (greedy shown 40 3 (hit ∷ hit ∷ []) [])),
)
pack_hits-greedy_example = pack_hits-greedy shown 40 3 (hit ∷ hit ∷ []) (omega arith)

pack_hits-bounds_example : estimate_tokens (pack_hits shown 40 (hit ∷ hit ∷ []) 3).1 ≤ 40
pack_hits-bounds_example = (pack_hits-bounds shown 40 (hit ∷ hit ∷ []) 3 (omega arith)).0

abbrev pub no_desks : Desks
no_desks = record {
  max_working_sets = 4;
  working_set_ttl_seconds = 100;
  working_sets = [];
  working_set_access = [];
  refresh_generations = [];
  refresh_leases = [];
  next_refresh_generation = 0;
  tasks = [];
}

abbrev begun : Desks
begun = record no_desks {
  refresh_generations = (desk, 1) ∷ [];
  refresh_leases = (desk, 1) ∷ [];
  next_refresh_generation = 1;
}

abbrev begun_again : Desks
begun_again = record no_desks {
  refresh_generations = (desk, 2) ∷ [];
  refresh_leases = (desk, 2) ∷ [];
  next_refresh_generation = 2;
}

begun_step : begin_refresh 5 no_desks desk ≡ ok (begun, 1)
unfolding begin_refresh Dict.contains Dict.get Dict.put Dict.put_last Dict.pop
begun_step = refl

begun_again_step : begin_refresh 6 begun desk ≡ ok (begun_again, 2)
unfolding begin_refresh Dict.contains Dict.get Dict.put Dict.put_last Dict.pop thread_key_beq
    list_beq
begun_again_step = refl

abbrev pub working : WorkingSet
working = record (empty_desk 7 talk shelf (codes "greetings")) {
  context = codes "a book";
  token_count = 2;
}

begin_refresh-supersedes_example : publish 8 begun_again desk 1 true working ≡ begun_again
begin_refresh-supersedes_example =
    begin_refresh-supersedes 6 begun begun_again begun_again desk 2 begun_again_step Changes.here 1
      (omega arith) 8 true working

Reach-bounded_example : length begun.working_sets ≤ 4
unfolding context_swapper
Reach-bounded_example =
    (Reach-bounded 4 100 no_desks begun refl
      (Changes.next Changes.here (Changes.begins 5 desk 1 begun_step))).0

abbrev pub budget : PromptBudget
budget = record { total_tokens = 300; recent_tokens = 100; protected_tokens = 50; max_books = 3 }

abbrev pub found : ThreadKey → Request → ℕ → List SearchHit
found key r count = hit ∷ []

abbrev pub known : ThreadKey → Request → Str → Option ContextRecord
known key r id = none

-- The desk of the program, with no working set on it yet.
abbrev pub answer : Str → ℕ → ℕ → List Str → Result WorkingSet
answer = desk_refresh shown found known 5 7 no_desks desk

pub answer-answers :
    (subject : Str) (token_budget : ℕ) (excluded : List Str)
    → 8 ≤ token_budget
    → token_budget ≤ budget.total_tokens
    → (working : WorkingSet) × (answer subject token_budget budget.max_books excluded ≡ ok working)
answer-answers =
    desk_refresh-answers shown found known budget 5 7 no_desks begun desk 1 begun_step (omega arith)
      (omega arith) (omega arith)

abbrev spoken : ContextEvent
spoken = event_of first 1

build-fits_example :
    (prompt : GovernedPrompt) × (build shown shown talk shelf budget answer 7 two
        (spoken ∷ [])
        []
        none
        (codes "Be brief.")
      ≡ ok prompt)
    × (prompt.token_count ≤ 300)
unfolding base_messages recent_events_of message_token_count is_empty estimate_tokens
build-fits_example =
    let built =
      build-fits shown shown talk shelf budget answer answer-answers 7 two (spoken ∷ []) [] none
        (codes "Be brief.") (omega arith) (omega arith) in
    (built.0, built.1, built.3)

build-newest_example :
    (prompt : GovernedPrompt) × (build shown shown talk shelf budget answer 7 two
        (spoken ∷ [])
        []
        none
        []
      ≡ ok prompt)
    × (before : List Message) × (prompt.messages
        ≡ before ++ message_within (recent_cap budget (available budget 0)) spoken ∷ [])
unfolding base_messages recent_events_of message_token_count is_empty estimate_tokens event_of
build-newest_example =
    build-newest shown shown talk shelf budget answer answer-answers 7 two (spoken ∷ []) [] []
      spoken none [] refl refl (omega arith) (omega arith)
