-- ===== src/Tests/Turns.antt =====
-- The theorems on whole refreshes and whole turns.
use library_of_context.Prelude.{◌≡◌, refl, true, false, none, some, [], ◌∷◌, ok, arith, list_beq}
use library_of_context.Dict
use library_of_context.Models.{Str, ContextEvent}
use library_of_context.Text.{codes, estimate_tokens}
use library_of_context.Scopes.Defs.{thread_key_beq}
use library_of_context.Markup.{format_library_book}
use library_of_context.Store.Events.{NewEvent, event_of}
use library_of_context.Store.Appends.{appended}
use library_of_context.Ring
use library_of_context.Swapper.{WorkingSet}
use library_of_context.Swapper.Packing.{book}
use library_of_context.Swapper.Desks.{Desks, get, context_swapper, contains_expired_record}
use library_of_context.Swapper.Refresh.{Request, refresh}
use library_of_context.Swapper.Bounded.{new-IsValid}
use library_of_context.Swapper.Recall.{refresh-get}
use library_of_context.Governor.Defs.{Thread, Draft}
use library_of_context.Tests.Data.{shelf, talk, tokens, first, one}
use library_of_context.Tests.Desks.{desk, no_desks, hit, shown, found, known}
use library_of_context.Tests.Workers.{worker}

abbrev request : Request
request = record {
  focus = codes "greetings";
  token_budget = 40;
  top_k = 3;
  filters = none;
  pinned_record_ids = [];
  exclude_record_ids = [];
  team_ids = [];
}

abbrev laid : WorkingSet
laid = record {
  session_id = talk;
  namespace = shelf;
  focus = codes "greetings";
  hits = hit ∷ [];
  context = book shown 40 hit (codes "a note");
  token_count = 20;
  token_budget = 40;
  refreshed_at = 7;
  swapped_in = codes "n" ∷ [];
  swapped_out = [];
  retained = [];
}

abbrev desks : Desks
desks = record no_desks {
  working_sets = (desk, laid) ∷ [];
  working_set_access = (desk, 5) ∷ [];
  refresh_generations = (desk, 1) ∷ [];
  next_refresh_generation = 1;
}

refreshed_step : refresh shown found known 5 7 no_desks desk request true ≡ ok (desks, laid)
unfolding refresh Dict.contains Dict.get Dict.put_last thread_key_beq list_beq Dict.elem
    format_library_book estimate_tokens Dict.put
refreshed_step = refl

refresh-get_example : (get 50 8 desks desk).1 ≡ some laid
unfolding context_swapper contains_expired_record
refresh-get_example =
    (refresh-get shown found known 5 7 no_desks desks desk request laid
        (new-IsValid 4 100 no_desks refl).0 refreshed_step).1
      50 8 (omega arith) refl

abbrev said_next : Draft
said_next = record {
  role = codes "user";
  content = codes "what now?";
  metadata = [];
  importance = some 500;
  is_protected = some false;
  event_id = some (codes "e2");
}

abbrev next_event : NewEvent
next_event = record first {
  event_id = codes "e2";
  content = codes "what now?";
  importance = 500;
  record_id = codes "r9";
  created_at = 3;
}

abbrev recorded_event : ContextEvent
recorded_event = event_of next_event 2

abbrev before_turn : Thread
before_turn = record {
  store = one;
  recent = Ring.init 4 64;
  indexer = record worker { stop = true };
  last_prompt_tokens = 0;
  last_prompt_at = none;
}

abbrev after_turn : Thread
after_turn = record before_turn {
  store = appended one next_event;
  recent = record before_turn.recent {
    events = recorded_event ∷ [];
    ids = codes "e2" ∷ [];
    tokens = 7;
    highest_sequence = 2;
  };
}

abbrev digest : Str → Str
digest text = codes "r9"
