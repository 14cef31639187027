-- ===== src/Tests/Data.antt =====
-- Two events of one thread, in the store and in the outbox.
use library_of_context.Prelude.{ℕ, false, none, some, [], ◌∷◌}
use library_of_context.Models.{Str}
use library_of_context.Text.{codes}
use library_of_context.Scopes.{ScopeSelection, project}
use library_of_context.Store.Tables.{Store, ContextRecord, OutboxRow, OutboxClaim}
use library_of_context.Store.Events.{NewEvent, event_of}
use library_of_context.Store.Outbox.{processed, indexed}
use library_of_context.Store.Appends.{appended}
use library_of_context.Store.Order.{empty}

abbrev pub shelf : Str
shelf = codes "shelf"

abbrev pub talk : Str
talk = codes "talk"

abbrev pub first : NewEvent
first = record {
  namespace = shelf;
  session_id = talk;
  event_id = codes "e1";
  role = codes "user";
  content = codes "hello there";
  metadata = [];
  importance = 5;
  is_protected = false;
  token_count = 3;
  record_id = codes "r1";
  created_at = 1;
}

abbrev pub then : NewEvent
then = record first { event_id = codes "e2"; record_id = codes "r2"; created_at = 2 }

abbrev pub one : Store
one = appended empty first

abbrev pub two : Store
two = appended one then

abbrev pub first_row : OutboxRow
first_row = record {
  namespace = shelf;
  event_id = codes "e1";
  session_id = talk;
  sequence = 1;
  created_at = 1;
  available_at = 1;
  attempts = 0;
  processed_at = none;
  last_error = none;
  lease_owner = some (codes "w");
  lease_until = some 1000010;
  claim_token = some (0 ∷ []);
  terminal_at = none;
  terminal_error = none;
}

abbrev pub then_row : OutboxRow
then_row = record first_row {
  event_id = codes "e2";
  sequence = 2;
  created_at = 2;
  available_at = 2;
  lease_owner = none;
  lease_until = none;
  claim_token = none;
}

-- The store when a worker has claimed the first event.
abbrev pub claimed : Store
claimed = record two { outbox = first_row ∷ then_row ∷ [] }

abbrev pub tokens : ℕ → Str
tokens i = i ∷ []

abbrev pub claim : OutboxClaim
claim = record {
  namespace = shelf;
  event_id = codes "e1";
  session_id = talk;
  sequence = 1;
  attempts = 0;
  claim_token = 0 ∷ [];
}

abbrev pub note : ContextRecord
note = record {
  id = codes "n";
  namespace = shelf;
  text = codes "a note";
  metadata = [];
  source = codes "manual";
  importance = 5;
  token_count = 2;
  created_at = 1;
  updated_at = 1;
  accessed_at = 1;
  expires_at = none;
  content_hash = codes "h";
  scope = project;
  owner_session_id = none;
  team_id = none;
}

abbrev pub noted : Store
noted = record empty { records = note ∷ [] }

abbrev pub of_project : ScopeSelection
of_project = record { scopes = project ∷ []; session_id = none; team_ids = [] }

-- The store when the first event is indexed, and then when a worker has claimed the second.
abbrev pub finished : Store
finished = record two {
  outbox = processed 20 first_row ∷ then_row ∷ [];
  events = indexed 20 (event_of first 1) ∷ event_of then 2 ∷ [];
}

abbrev pub leased_row : OutboxRow
leased_row = record then_row {
  lease_owner = some (codes "v");
  lease_until = some 1000030;
  claim_token = some (0 ∷ []);
}

abbrev pub resumed : Store
resumed = record finished { outbox = processed 20 first_row ∷ leased_row ∷ [] }

abbrev pub next_claim : OutboxClaim
next_claim = record claim { event_id = codes "e2"; sequence = 2 }
