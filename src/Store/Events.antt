-- ===== src/Store/Events.antt =====
-- Thread events: append, read in order, and page through them newest first.
use library_of_context.Prelude.{
  ℕ, zero, suc, ◌+◌, Bool, true, not, ◌&&◌, ◌||◌, Option, none, some, List, [], ◌∷◌, ◌++◌, reverse,
  ltb, leb, ◌==◌, if◌then◌else◌, length, take, keep, Result, ok, raise, value_error, bool_beq,
}
use library_of_context.Models.{Str, str_eq, Metadata, metadata_beq, ContextEvent}
use library_of_context.Dict
use library_of_context.Scopes.{ThreadKey, thread_key_eq}
use library_of_context.Store.Rows.{find_where, exists_where, order_by}
use library_of_context.Store.Tables.{Store, OutboxRow, in_thread, is_event, is_record}

abbrev pub key_of : Str → Str → ThreadKey
key_of namespace session_id = record { collection = namespace; session_id = session_id }

unfoldable pub last_sequence : Store → Str → Str → ℕ
last_sequence s namespace session_id = elim (Dict.get (key_of namespace session_id) s.heads) [
  | none ↦ 0
  | some n ↦ n
]

-- What `append_thread_event` is called with: an event before it has a sequence number.
pub record NewEvent : Type 0 where
  pub namespace : Str
  pub session_id : Str
  pub event_id : Str
  pub role : Str
  pub content : Str
  pub metadata : Metadata
  pub importance : ℕ
  pub is_protected : Bool
  pub token_count : ℕ
  pub record_id : Str
  pub created_at : ℕ

-- The comparison that makes a repeated call with the same fields a retry. Unlike in Python, the
-- metadata values `True` and `1` differ here.
unfoldable pub same_fields : ContextEvent → NewEvent → Bool
same_fields e n =
    str_eq.beq e.session_id n.session_id
    && str_eq.beq e.role n.role
    && str_eq.beq e.content n.content
    && metadata_beq e.metadata n.metadata
    && e.importance == n.importance
    && bool_beq e.is_protected n.is_protected
    && e.token_count == n.token_count
    && str_eq.beq e.record_id n.record_id

unfoldable pub event_of : NewEvent → ℕ → ContextEvent
event_of n sequence = record {
  event_id = n.event_id;
  namespace = n.namespace;
  session_id = n.session_id;
  sequence = sequence;
  role = n.role;
  content = n.content;
  metadata = n.metadata;
  importance = n.importance;
  is_protected = n.is_protected;
  token_count = n.token_count;
  record_id = n.record_id;
  created_at = n.created_at;
  indexed_at = none;
}

unfoldable pub row_of : NewEvent → ℕ → OutboxRow
row_of n sequence = record {
  namespace = n.namespace;
  event_id = n.event_id;
  session_id = n.session_id;
  sequence = sequence;
  created_at = n.created_at;
  available_at = n.created_at;
  attempts = 0;
  processed_at = none;
  last_error = none;
  lease_owner = none;
  lease_until = none;
  claim_token = none;
  terminal_at = none;
  terminal_error = none;
}

-- `namespace = ? AND record_id = ?`, on events
unfoldable pub links_record : Str → Str → ContextEvent → Bool
links_record namespace record_id e =
    str_eq.beq e.namespace namespace && str_eq.beq e.record_id record_id

unfoldable pub append_thread_event : Store → NewEvent → Result (Store × ContextEvent)
unfolding last_sequence event_of row_of same_fields links_record
append_thread_event s n =
    let sequence = last_sequence s n.namespace n.session_id + 1 in
    let appended = record s {
      heads = Dict.put (key_of n.namespace n.session_id) sequence s.heads;
      events = s.events ++ event_of n sequence ∷ [];
      outbox = s.outbox ++ row_of n sequence ∷ [];
    } in
    elim (find_where (is_event n.namespace n.session_id n.event_id) s.events) [
      | some e ↦ if same_fields e n then ok (s, e) else raise value_error
      | none ↦
          if exists_where (links_record n.namespace n.record_id) s.events
          then raise value_error
          else if exists_where (is_record n.namespace n.record_id) s.records
          then raise value_error
          else ok (appended, event_of n sequence)
    ]

unfoldable pub get_thread_event : Store → Str → Str → Str → Option ContextEvent
get_thread_event s namespace session_id event_id =
    find_where (is_event namespace session_id event_id) s.events

-- `ORDER BY sequence DESC`
abbrev pub newer : ContextEvent → ContextEvent → Bool
newer a b = leb b.sequence a.sequence

-- `(protected_only and protected = 1) or not protected_only`
unfoldable pub wanted : Str → Str → Bool → ContextEvent → Bool
wanted namespace session_id protected_only e =
    in_thread namespace session_id e && (not protected_only || e.is_protected)

unfoldable pub limit_to : Option ℕ → List ContextEvent → List ContextEvent
limit_to none rows = rows
limit_to (some n) rows = take n rows

unfoldable pub list_thread_events : Store → Str → Str → Option ℕ → Bool → List ContextEvent
unfolding wanted limit_to
list_thread_events s namespace session_id limit protected_only =
    reverse
      (limit_to limit (order_by newer (keep (wanted namespace session_id protected_only) s.events)))

-- One page of `iter_thread_events_descending`.
unfoldable pub before : Option ℕ → ContextEvent → Bool
before none e = true
before (some sequence) e = ltb e.sequence sequence

unfoldable pub page : Store → Str → Str → Bool → ℕ → Option ℕ → List ContextEvent
unfolding wanted before
page s namespace session_id protected_only page_size before_sequence = take page_size (
    order_by newer (
      keep (λ e. wanted namespace session_id protected_only e && before before_sequence e)
        s.events))

unfoldable pub last_of : List ContextEvent → Option ℕ
last_of [] = none
last_of (e ∷ []) = some e.sequence
last_of (e ∷ f ∷ rows) = last_of (f ∷ rows)

-- The loop of `iter_thread_events_descending`, consumed to its end. One round of fuel is one page.
unfoldable pub pages : ℕ → Store → Str → Str → Bool → ℕ → Option ℕ → Option (List ContextEvent)
unfolding last_of
pages zero s namespace session_id protected_only page_size before_sequence = none
pages (suc fuel) s namespace session_id protected_only page_size before_sequence =
    let rows = page s namespace session_id protected_only page_size before_sequence in
    let rest = pages fuel s namespace session_id protected_only page_size (last_of rows) in
    if length rows == 0
    then some []
    else if ltb (length rows) page_size
    then some rows
    else elim rest [ none ↦ none | some later ↦ some (rows ++ later) ]

unfoldable pub count_thread_events : Store → Str → Str → ℕ
unfolding last_sequence
count_thread_events s namespace session_id = last_sequence s namespace session_id
