-- ===== src/Tests/Workers.antt =====
-- The theorems on the indexer.
use library_of_context.Prelude.{false, none, some, [], Error}
use library_of_context.Dict
use library_of_context.Dict.{Dict}
use library_of_context.Models.{Str, str_eq, ContextEvent, Metadata, bool}
use library_of_context.Text.{codes}
use library_of_context.Scopes.{thread_key_eq}
use library_of_context.Store.{ContextRecord}
use library_of_context.Store.Events.{event_of}
use library_of_context.Scopes.{thread}
use library_of_context.Indexing.Defs.{Indexer, Outcome, returned, index_metadata}
use library_of_context.Tests.Data.{first, talk, note}

abbrev prepared : ContextEvent → Metadata → Outcome ContextRecord
prepared event metadata = returned (record note {
  id = event.record_id;
  namespace = event.namespace;
  text = event.content;
  metadata = metadata;
  scope = thread;
  owner_session_id = some event.session_id;
})

abbrev said : Error → Str
said error = codes "failed"

abbrev pub worker : Indexer
worker = record {
  worker_count = 2;
  lease_seconds = 1000000;
  max_attempts = 8;
  queue = record { capacity = 4; queue = []; unfinished_tasks = 0; pending = [] };
  owner_id = codes "w";
  stop = false;
  last_error = none;
}

abbrev made : ContextRecord
made = record note {
  id = codes "r1";
  text = codes "hello there";
  metadata = index_metadata (event_of first 1);
  scope = thread;
  owner_session_id = some talk;
}

abbrev kept : ContextRecord
kept = record made { metadata = Dict.put (codes "protected") (bool false) made.metadata }
