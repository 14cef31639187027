-- ===== src/Store/Sources.antt =====
-- The records of one source, the reports on the outbox, and the totals of a namespace.
use library_of_context.Prelude.{
  ℕ, Bool, true, false, not, ◌&&◌, ◌||◌, Option, none, some, List, [], ◌∷◌, leb, ltb, ◌==◌, length,
  take, keep, max, map, reverse, sum_by,
}
use library_of_context.Models.{Str, str_eq}
use library_of_context.Scopes.{ScopeSelection}
use library_of_context.Store.Rows.{update_where, count_where, order_by}
use library_of_context.Store.Tables.{
  Store, ContextRecord, OutboxRow, row_in_thread, is_null, is_active, is_record,
}
use library_of_context.Store.Records.{has_expired, is_visible, delete_where}
use library_of_context.Store.Leasing.{created_before}

-- `a <= b` on text: SQLite compares code points.
unfoldable pub str_leb : Str → Str → Bool
str_leb [] b = true
str_leb (c ∷ a) [] = false
str_leb (c ∷ a) (d ∷ b) = let rest = str_leb a b in ltb c d || (c == d && rest)

-- `ORDER BY created_at DESC, id DESC`
unfoldable pub created_after : ContextRecord → ContextRecord → Bool
unfolding str_leb
created_after a b =
    ltb b.created_at a.created_at || (a.created_at == b.created_at && str_leb b.id a.id)

unfoldable pub passes : Option ScopeSelection → ContextRecord → Bool
passes none r = true
passes (some selection) r = is_visible selection r

unfoldable pub of_source : Str → Str → Option ScopeSelection → ContextRecord → Bool
unfolding passes
of_source namespace source selection r =
    str_eq.beq r.namespace namespace && str_eq.beq r.source source && passes selection r

unfoldable pub list_source_records :
    ℕ → Store → Str → Str → Option ℕ → Option ScopeSelection → List ContextRecord
unfolding of_source created_after
list_source_records now s namespace source limit selection =
    let selected =
      λ (r : ContextRecord). of_source namespace source selection r && not (has_expired now r) in
    let rows = order_by created_after (keep selected s.records) in
    reverse (elim limit [ none ↦ rows | some n ↦ take n rows ])

unfoldable pub count_source : ℕ → Store → Str → Str → Option ScopeSelection → ℕ
unfolding of_source
count_source now s namespace source selection =
    count_where (λ r. of_source namespace source selection r && not (has_expired now r)) s.records

unfoldable pub delete_source : Store → Str → Str → Option ScopeSelection → Store × List Str
unfolding of_source delete_where
delete_source s namespace source selection =
    let chosen = of_source namespace source selection in
    (record s { records = delete_where chosen s.records }, map (λ r. r.id) (keep chosen s.records))

unfoldable pub touched : Str → List Str → ℕ → List ContextRecord → List ContextRecord
touched namespace [] at rows = rows
touched namespace (id ∷ ids) at rows =
    touched namespace ids at
      (update_where (is_record namespace id) (λ r. record r { accessed_at = at }) rows)

unfoldable pub touch_many : Store → Str → List Str → ℕ → Store
unfolding touched
touch_many s namespace ids at = record s { records = touched namespace ids at s.records }

unfoldable pub pending_outbox_event_ids : ℕ → Store → ℕ → List (Str × Str)
pending_outbox_event_ids now s limit =
    map (λ o. (o.namespace, o.event_id))
      (take (max 1 limit)
        (order_by created_before (keep (λ o. is_active o && leb o.available_at now) s.outbox)))

pub record FailedEvent : Type 0 where
  pub event_id : Str
  pub sequence : ℕ
  pub attempts : ℕ
  pub terminal_at : Option ℕ
  pub terminal_error : Option Str

unfoldable pub failed_outbox_events : Store → Str → Str → ℕ → List FailedEvent
failed_outbox_events s namespace session_id limit =
    let failed =
      λ (o : OutboxRow). row_in_thread namespace session_id o && not (is_null o.terminal_at) in
    let row : OutboxRow → FailedEvent = λ o. record {
      event_id = o.event_id;
      sequence = o.sequence;
      attempts = o.attempts;
      terminal_at = o.terminal_at;
      terminal_error = o.terminal_error;
    } in
    map row
      (take (max 1 limit) (order_by (λ a b. leb a.sequence b.sequence) (keep failed s.outbox)))

pub record StoreStats : Type 0 where
  pub records : ℕ
  pub text_bytes : ℕ
  pub thread_events : ℕ
  pub unindexed_events : ℕ
  pub pending_outbox : ℕ
  pub failed_outbox : ℕ

-- `stats`, without the path, the vectors, the index and the count by scope.
unfoldable pub store_stats : Store → Str → StoreStats
store_stats s namespace =
    let mine = keep (λ (r : ContextRecord). str_eq.beq r.namespace namespace) s.records in
    let here = λ (o : OutboxRow). str_eq.beq o.namespace namespace && is_null o.processed_at in
    record {
      records = length mine;
      text_bytes = sum_by (λ r. length r.text) mine;
      thread_events = count_where (λ e. str_eq.beq e.namespace namespace) s.events;
      unindexed_events =
          count_where (λ e. str_eq.beq e.namespace namespace && is_null e.indexed_at) s.events;
      pending_outbox = count_where (λ o. here o && is_null o.terminal_at) s.outbox;
      failed_outbox = count_where (λ o. here o && not (is_null o.terminal_at)) s.outbox;
    }
