-- ===== src/Store/Records.antt =====
-- Searchable records.
use library_of_context.Prelude.{
  ℕ, Bool, true, false, not, ◌&&◌, ◌||◌, Option, none, some, List, [], ◌∷◌, ◌++◌, leb, ltb,
  if◌then◌else◌, Result, ok, raise, value_error, option_beq, keep,
}
use library_of_context.Models.{Str, str_eq, Value, str, value_beq, value_eq, Metadata, ContextEvent}
use library_of_context.Dict
use library_of_context.Text.{codes}
use library_of_context.Scopes.{thread, scope_beq, ScopeSelection}
use library_of_context.Scopes.Predicate.{scope_predicate, predicate_holds}
use library_of_context.Store.Rows.{find_where, update_where, count_where}
use library_of_context.Store.Tables.{Store, ContextRecord, is_record, is_null}

-- `metadata.get(name) == value`
unfoldable pub field_is : Str → Value → Metadata → Bool
field_is name value metadata = option_beq (Dict.get name metadata) (some value)

-- `metadata.get("kind") == "conversation"`, and the same of the session and the event
unfoldable pub has_provenance : Str → Str → Metadata → Bool
unfolding field_is
has_provenance session_id event_id metadata =
    field_is (codes "kind") (str (codes "conversation")) metadata
    && field_is (codes "session_id") (str session_id) metadata
    && field_is (codes "event_id") (str event_id) metadata

-- `metadata.get("event_id") is None`
unfoldable pub lacks_event : Metadata → Bool
lacks_event metadata = elim (Dict.get (codes "event_id") metadata) [
  | none ↦ true
  | some v ↦ value_beq v Value.null
]

-- The thread owns the record: `scope`, `owner_session_id` and `team_id` as an event's record.
unfoldable pub owned_by_thread : Str → ContextRecord → Bool
owned_by_thread session_id r =
    scope_beq r.scope thread && option_beq r.owner_session_id (some session_id) && is_null r.team_id

unfoldable pub same_visibility : ContextRecord → ContextRecord → Bool
same_visibility a b =
    scope_beq a.scope b.scope
    && option_beq a.owner_session_id b.owner_session_id
    && option_beq a.team_id b.team_id

-- `linked_events`, of which the source asks whether there is none, or exactly the given one.
unfoldable pub linked_events : Store → ContextRecord → List ContextEvent
linked_events s r =
    keep (λ e. str_eq.beq e.namespace r.namespace && str_eq.beq e.record_id r.id) s.events

unfoldable pub is_only_event : List ContextEvent → Str → Str → Bool
is_only_event [] session_id event_id = false
is_only_event (e ∷ []) session_id event_id =
    str_eq.beq e.session_id session_id && str_eq.beq e.event_id event_id
is_only_event (e ∷ f ∷ rest) session_id event_id = false

unfoldable pub is_nil {ℓ} : {A : Type ℓ} → List A → Bool
is_nil [] = true
is_nil (x ∷ xs) = false

-- The row that `ON CONFLICT … DO UPDATE` leaves: all but the creation time and the visibility.
unfoldable pub updated_row : ContextRecord → ContextRecord → ContextRecord
updated_row new old = record new {
  created_at = old.created_at;
  scope = old.scope;
  owner_session_id = old.owner_session_id;
  team_id = old.team_id;
}

-- The checks of `_upsert_record_locked` before it writes.
unfoldable pub may_write : Store → ContextRecord → Option (Str × Str) → Bool
unfolding linked_events is_only_event owned_by_thread has_provenance lacks_event is_nil
may_write s r none = is_nil (linked_events s r)
may_write s r (some (session_id, event_id)) =
    is_only_event (linked_events s r) session_id event_id
    && owned_by_thread session_id r
    && has_provenance session_id event_id r.metadata
    && elim (find_where (is_record r.namespace r.id) s.records) [
      | none ↦ true
      | some old ↦
          owned_by_thread session_id old
          && (has_provenance session_id event_id old.metadata
              || (field_is (codes "kind") (str (codes "conversation")) old.metadata
                  && lacks_event old.metadata
                  && (field_is (codes "session_id") (str session_id) old.metadata
                      || str_eq.beq old.source (codes "conversation:" ++ session_id))))
    ]

unfoldable pub upsert_record : Store → ContextRecord → Option (Str × Str) → Result Store
unfolding may_write updated_row same_visibility
upsert_record s r event_identity =
    let is_it = is_record r.namespace r.id in
    if not (may_write s r event_identity)
    then raise value_error
    else elim (find_where is_it s.records) [
      | none ↦ ok (record s { records = s.records ++ r ∷ [] })
      | some old ↦
          if same_visibility old r
          then ok (record s { records = update_where is_it (updated_row r) s.records })
          else raise value_error
    ]

unfoldable pub upsert : Store → ContextRecord → Result Store
upsert s r = upsert_record s r none

-- `expires_at IS NOT NULL AND expires_at <= now`
unfoldable pub has_expired : ℕ → ContextRecord → Bool
has_expired now r = elim r.expires_at [ none ↦ false | some at ↦ leb at now ]

unfoldable pub delete_where : (ContextRecord → Bool) → List ContextRecord → List ContextRecord
delete_where p rows = keep (λ r. not (p r)) rows

-- `get`: an expired record is deleted when it is read.
unfoldable pub get : ℕ → Store → Str → Str → Store × Option ContextRecord
unfolding has_expired delete_where
get now s namespace id = elim (find_where (is_record namespace id) s.records) [
  | none ↦ (s, none)
  | some r ↦
      if has_expired now r
      then (record s { records = delete_where (is_record namespace id) s.records }, none)
      else (s, some r)
]

-- The row passes the scope predicate of the selection.
unfoldable pub is_visible : ScopeSelection → ContextRecord → Bool
is_visible selection r =
    predicate_holds (scope_predicate selection selection.scopes) r.scope r.owner_session_id
      r.team_id

unfoldable pub get_visible : ℕ → Store → Str → Str → ScopeSelection → Store × Option ContextRecord
unfolding has_expired delete_where is_visible
get_visible now s namespace id selection =
    elim (find_where (λ r. is_record namespace id r && is_visible selection r) s.records) [
      | none ↦ (s, none)
      | some r ↦
          if has_expired now r
          then (record s { records = delete_where (is_record namespace id) s.records }, none)
          else (s, some r)
    ]

unfoldable pub list_records : ℕ → Store → Str → ScopeSelection → List ContextRecord
unfolding has_expired is_visible
list_records now s namespace selection =
    keep
      (λ r. str_eq.beq r.namespace namespace && not (has_expired now r) && is_visible selection r)
      s.records

unfoldable pub delete : Store → Str → Str → Store × Bool
unfolding delete_where
delete s namespace id = (
  record s { records = delete_where (is_record namespace id) s.records },
  ltb 0 (count_where (is_record namespace id) s.records),
)

unfoldable pub purge_expired : ℕ → Store → Store × ℕ
unfolding has_expired delete_where
purge_expired now s = (
  record s { records = delete_where (has_expired now) s.records },
  count_where (has_expired now) s.records,
)
