-- ===== src/Store/Outbox.antt =====
-- The outbox after a claim: completion, failure, release, retry, protection and the watermarks.
use library_of_context.Prelude.{
  ℕ, ◌+◌, ◌-◌, Bool, true, false, not, ◌&&◌, Option, none, some, List, [], ◌∷◌, ◌==◌, if◌then◌else◌,
  take, max, min, Result, ok, raise, ◌>>=◌, value_error, runtime_error, lease_lost,
}
use library_of_context.Models.{Str, str_eq, ℤ, pos_part, bool, ContextEvent}
use library_of_context.Dict
use library_of_context.Text.{codes}
use library_of_context.Store.Rows.{find_where, exists_where, update_where, count_where}
use library_of_context.Store.Tables.{
  Store, ContextRecord, OutboxRow, ContextWatermarks, is_null, in_thread, is_event, row_in_thread,
  is_row, is_record, is_active, is_claimed, has_token,
}
use library_of_context.Store.Records.{upsert_record, owned_by_thread, has_provenance}
use library_of_context.Store.Events.{last_sequence}

unfoldable pub unleased : OutboxRow → OutboxRow
unleased o = record o { lease_owner = none; lease_until = none; claim_token = none }

unfoldable pub release_outbox_leases : Store → Str → Store × ℕ
unfolding unleased
release_outbox_leases s owner =
    let held = λ (o : OutboxRow).
      elim o.lease_owner [ none ↦ false | some holder ↦ str_eq.beq holder owner ]
      && is_null o.processed_at in
    (record s { outbox = update_where held unleased s.outbox }, count_where held s.outbox)

unfoldable pub release_outbox_claim : Store → Str → Str → Str → Str → Store × Bool
unfolding unleased
release_outbox_claim s namespace session_id event_id token =
    let held = λ (o : OutboxRow).
      is_row namespace session_id event_id o && has_token token o && is_null o.processed_at in
    (record s { outbox = update_where held unleased s.outbox }, count_where held s.outbox == 1)

unfoldable pub processed : ℕ → OutboxRow → OutboxRow
processed indexed_at o = record o {
  processed_at = some indexed_at;
  last_error = none;
  lease_owner = none;
  lease_until = none;
  claim_token = none;
}

-- `indexed_at = COALESCE(indexed_at, ?)`
unfoldable pub indexed : ℕ → ContextEvent → ContextEvent
indexed at e = record e { indexed_at = elim e.indexed_at [ none ↦ some at | some t ↦ some t ] }

-- The rows that a live claim of one event selects.
unfoldable pub is_live_claim : Str → Str → Str → Str → OutboxRow → Bool
is_live_claim namespace session_id event_id token o =
    is_row namespace session_id event_id o && is_active o && has_token token o

-- The outbox row and the event row that completion writes.
unfoldable pub complete_rows : Store → Str → Str → Str → ℕ → Str → Result Store
unfolding is_live_claim processed indexed
complete_rows s namespace session_id event_id indexed_at token =
    let live = is_live_claim namespace session_id event_id token in
    let source = is_event namespace session_id event_id in
    if not (count_where live s.outbox == 1)
    then raise lease_lost
    else if not (count_where source s.events == 1)
    then raise runtime_error
    else ok (record s {
      outbox = update_where live (processed indexed_at) s.outbox;
      events = update_where source (indexed indexed_at) s.events;
    })

unfoldable pub complete_outbox_claim :
    Store → ContextRecord → Str → Str → ℕ → Str → Result (Store × ContextRecord)
unfolding complete_rows is_live_claim
complete_outbox_claim s r session_id event_id indexed_at token =
    let live = is_live_claim r.namespace session_id event_id token in
    let source = find_where (is_event r.namespace session_id event_id) s.events in
    if not (exists_where live s.outbox) then raise lease_lost else elim source [
      | none ↦ raise lease_lost
      | some e ↦ if not (str_eq.beq e.record_id r.id) then raise value_error else do
        let r' = record r {
          metadata = Dict.put (codes "protected") (bool e.is_protected) r.metadata;
        }
        written ← upsert_record s r' (some (session_id, event_id))
        done ← complete_rows written r.namespace session_id event_id indexed_at token
        elim (find_where (is_record r.namespace r.id) done.records) [
          | none ↦ raise runtime_error
          | some persisted ↦ ok (done, persisted)
        ]
    ]

unfoldable pub mark_thread_event_indexed : Store → Str → Str → Str → ℕ → Option Str → Result Store
unfolding is_live_claim processed indexed
mark_thread_event_indexed s namespace session_id event_id indexed_at none = ok (record s {
  events = update_where (is_event namespace session_id event_id) (indexed indexed_at) s.events;
  outbox = update_where (is_row namespace session_id event_id) (processed indexed_at) s.outbox;
})
mark_thread_event_indexed s namespace session_id event_id indexed_at (some token) =
    let live = is_live_claim namespace session_id event_id token in
    if not (count_where live s.outbox == 1)
    then raise lease_lost
    else ok (record s {
      outbox = update_where live (processed indexed_at) s.outbox;
      events = update_where (is_event namespace session_id event_id) (indexed indexed_at) s.events;
    })

-- `terminal_now` and `now` are the two readings of the clock.
unfoldable pub failed : ℕ → ℕ → Str → ℤ → Bool → OutboxRow → OutboxRow
failed terminal_now now error retry_after_seconds terminal o = record o {
  attempts = o.attempts + 1;
  last_error = some (take 2000 error);
  available_at = now + max 10000 (pos_part retry_after_seconds);
  terminal_at = if terminal then some terminal_now else none;
  terminal_error = if terminal then some (take 2000 error) else none;
  lease_owner = none;
  lease_until = none;
  claim_token = none;
}

-- `AND claim_token = ?`, where a token is given
unfoldable pub token_matches : Option Str → OutboxRow → Bool
token_matches none o = true
token_matches (some token) o = has_token token o

unfoldable pub fail_outbox_event :
    ℕ → ℕ → Store → Str → Str → Str → Str → ℤ → Option Str → Bool → Result Store
unfolding failed token_matches
fail_outbox_event terminal_now now s namespace session_id event_id error retry_after_seconds token
      terminal =
    let hit = λ (o : OutboxRow).
      is_row namespace session_id event_id o && is_null o.processed_at && token_matches token o in
    if not (is_null token) && not (count_where hit s.outbox == 1)
    then raise lease_lost
    else ok (record s {
      outbox =
          update_where hit (failed terminal_now now error retry_after_seconds terminal) s.outbox;
    })

unfoldable pub retried : ℕ → OutboxRow → OutboxRow
retried now o = record o {
  attempts = 0;
  available_at = now;
  last_error = none;
  terminal_at = none;
  terminal_error = none;
  lease_owner = none;
  lease_until = none;
  claim_token = none;
}

-- The row of the `NOT EXISTS` clause: another event of the thread is being indexed.
unfoldable pub is_busy : OutboxRow → OutboxRow → Bool
is_busy o active =
    row_in_thread o.namespace o.session_id active
    && is_claimed active
    && not (str_eq.beq active.event_id o.event_id)

unfoldable pub retry_failed_outbox_event : ℕ → Store → Str → Str → Str → Store × Bool
unfolding retried is_busy
retry_failed_outbox_event now s namespace session_id event_id =
    let hit = λ (o : OutboxRow).
      is_row namespace session_id event_id o
      && is_null o.processed_at
      && not (is_null o.terminal_at)
      && not (exists_where (is_busy o) s.outbox) in
    (record s { outbox = update_where hit (retried now) s.outbox }, count_where hit s.outbox == 1)

-- `MIN(sequence)` of the events that are not indexed yet
unfoldable pub first_missing : Str → Str → List ContextEvent → Option ℕ
first_missing namespace session_id [] = none
first_missing namespace session_id (e ∷ events) =
    let rest = first_missing namespace session_id events in
    if in_thread namespace session_id e && is_null e.indexed_at
    then elim rest [ none ↦ some e.sequence | some m ↦ some (min e.sequence m) ]
    else rest

unfoldable pub thread_watermarks : Store → Str → Str → ContextWatermarks
unfolding last_sequence first_missing
thread_watermarks s namespace session_id =
    let recorded = last_sequence s namespace session_id in
    let through : ℕ = elim (first_missing namespace session_id s.events) [
      | none ↦ recorded
      | some m ↦ m - 1
    ] in
    record {
      recorded_through = recorded;
      embedded_through = through;
      indexed_through = through;
      team_synced_through = 0;
      pending_events =
          count_where (λ o. row_in_thread namespace session_id o && is_active o) s.outbox;
      failed_events =
          count_where (λ o. row_in_thread namespace session_id o && not (is_null o.terminal_at))
            s.outbox;
    }

-- The record of the event, when it is the projection of that event and no other record.
unfoldable pub is_projection : Str → Str → ContextRecord → Bool
unfolding owned_by_thread has_provenance
is_projection session_id event_id r =
    owned_by_thread session_id r && has_provenance session_id event_id r.metadata

unfoldable pub set_thread_event_protected :
    ℕ → Store → Str → Str → Str → Bool → Store × Bool × Option ContextRecord
unfolding is_projection
set_thread_event_protected now s namespace session_id event_id flag =
    let source = is_event namespace session_id event_id in
    let protect = λ (e : ContextEvent). record e { is_protected = flag } in
    let marked = record s { events = update_where source protect s.events } in
    elim (find_where source s.events) [
      | none ↦ (s, false, none)
      | some e ↦ elim (find_where (is_record namespace e.record_id) s.records) [
        | none ↦ (marked, true, none)
        | some r ↦
            if is_projection session_id event_id r
            then (
              record marked {
                records =
                    update_where (is_record namespace e.record_id)
                      (λ q. record q {
                        metadata = Dict.put (codes "protected") (bool flag) r.metadata;
                        updated_at = now;
                      })
                      s.records;
              },
              true,
              some (record r {
                metadata = Dict.put (codes "protected") (bool flag) r.metadata;
                updated_at = now;
              }),
            )
            else (marked, true, some r)
      ]
    ]
