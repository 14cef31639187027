-- ===== src/Store/CompletionValidity.antt =====
-- Completions and upserts of a valid store.
use library_of_context.Prelude.{
  ℕ, ◌≡◌, refl, ap, inl, inr, true, Option, none, some, arith, Option-cases, Result-cases, ◌==◌, ok,
}
use library_of_context.Models.{Str, str_eq, ContextEvent, bool}
use library_of_context.Dict
use library_of_context.Text.{codes}
use library_of_context.Store.Rows.{update_where, find_where, count_where}
use library_of_context.Store.Tables.{Store, ContextRecord, is_event}
use library_of_context.Store.Events.{last_sequence}
use library_of_context.Store.Records.{upsert_record}
use library_of_context.Store.Outbox.{
  processed, indexed, complete_rows, complete_outbox_claim, mark_thread_event_indexed, failed,
  is_live_claim,
}
use library_of_context.Store.Completion.{all-IsSerial, all-IsPaired, live-IsPaired}
use library_of_context.Store.Appends.{update-IsNumbered}
use library_of_context.Store.Steps.{IsValid, IsValid-of}

pub upsert-tables :
    (s t : Store) (r : ContextRecord) (identity : Option (Str × Str))
    → upsert_record s r identity ≡ ok t
    → (t.events ≡ s.events) × (t.outbox ≡ s.outbox) × (t.heads ≡ s.heads)
unfolding upsert_record
upsert-tables s t r identity h = ground arith

indexed-keeps :
    (at : ℕ) (e : ContextEvent)
    → ((indexed at e).namespace ≡ e.namespace)
      × ((indexed at e).session_id ≡ e.session_id)
      × ((indexed at e).sequence ≡ e.sequence)
unfolding indexed
indexed-keeps at e = (refl, refl, refl)

-- One live claim of the event is completed with its event.
finishes-IsValid :
    (s t : Store) (namespace session_id event_id : Str) (at : ℕ) (token : Str)
    → t ≡ record s {
      outbox =
          update_where (is_live_claim namespace session_id event_id token) (processed at) s.outbox;
      events = update_where (is_event namespace session_id event_id) (indexed at) s.events;
    }
    → (count_where (is_live_claim namespace session_id event_id token) s.outbox == 1) ≡ true
    → IsValid s
    → IsValid t
finishes-IsValid s t namespace session_id event_id at token e one v =
    IsValid-of s t _ _ (ap (λ (x : Store). x.heads) e) (ap (λ (x : Store). x.events) e)
      (ap (λ (x : Store). x.outbox) e)
      (all-IsSerial (last_sequence s) s.events s.outbox namespace session_id event_id at v.serial
        v.paired _)
      (live-IsPaired (last_sequence s) s.events s.outbox namespace session_id event_id at v.serial
        v.paired token one)
      (update-IsNumbered s.events (last_sequence s) _ (indexed at) v.numbered (indexed-keeps at))

pub marks-IsValid :
    (s t : Store) (namespace session_id event_id : Str) (at : ℕ) (token : Option Str)
    → mark_thread_event_indexed s namespace session_id event_id at token ≡ ok t
    → IsValid s
    → IsValid t
unfolding mark_thread_event_indexed
marks-IsValid s t namespace session_id event_id at none h v =
    IsValid-of s t _ _ (ground arith) (ground arith) (ground arith)
      (all-IsSerial (last_sequence s) s.events s.outbox namespace session_id event_id at v.serial
        v.paired _)
      (all-IsPaired (last_sequence s) s.events s.outbox namespace session_id event_id at v.serial
        v.paired)
      (update-IsNumbered s.events (last_sequence s) _ (indexed at) v.numbered (indexed-keeps at))
marks-IsValid s t namespace session_id event_id at (some token) h v =
    finishes-IsValid s t namespace session_id event_id at token (ground arith) (ground arith) v

-- The record of the event is written first: that leaves the other tables alone.
pub upsert_record-IsValid :
    (s t : Store) (r : ContextRecord) (identity : Option (Str × Str))
    → upsert_record s r identity ≡ ok t
    → IsValid s
    → IsValid t
upsert_record-IsValid s t r identity h v =
    let (ee, eo, eh) = upsert-tables s t r identity h in
    IsValid-of s t s.events s.outbox eh ee eo v.serial v.paired v.numbered

complete_rows-IsValid :
    (s t : Store) (namespace session_id event_id : Str) (at : ℕ) (token : Str)
    → complete_rows s namespace session_id event_id at token ≡ ok t
    → IsValid s
    → IsValid t
unfolding complete_rows
complete_rows-IsValid s t namespace session_id event_id at token h v =
    finishes-IsValid s t namespace session_id event_id at token (ground arith) (ground arith) v

pub completes-cases :
    (s t : Store) (r r' : ContextRecord) (session_id event_id : Str) (at : ℕ) (token : Str)
    → complete_outbox_claim s r session_id event_id at token ≡ ok (t, r')
    → (w : Store) × (q : ContextRecord) × (upsert_record s q (some (session_id, event_id)) ≡ ok w)
      × (complete_rows w r.namespace session_id event_id at token ≡ ok t)
unfolding complete_outbox_claim
completes-cases s t r r' session_id event_id at token h =
    elim (Option-cases (find_where (is_event r.namespace session_id event_id) s.events)) [
      | inl absent ↦ absurd (ground (arith, h))
      | inr (e, known) ↦
          let q : ContextRecord = record r {
            metadata = Dict.put (codes "protected") (bool e.is_protected) r.metadata;
          } in
          elim (Result-cases (upsert_record s q (some (session_id, event_id)))) [
            | inl (w, wrote) ↦
                elim (Result-cases (complete_rows w r.namespace session_id event_id at token)) [
                  | inl (d, done) ↦ (w, q, wrote, ground arith)
                  | inr (x, failed) ↦ absurd (ground arith)
                ]
            | inr (x, failed) ↦ absurd (ground arith)
          ]
    ]

pub completes-IsValid :
    (s t : Store) (r r' : ContextRecord) (session_id event_id : Str) (at : ℕ) (token : Str)
    → complete_outbox_claim s r session_id event_id at token ≡ ok (t, r')
    → IsValid s
    → IsValid t
completes-IsValid s t r r' session_id event_id at token h v =
    let (w, q, wrote, done) = completes-cases s t r r' session_id event_id at token h in
    complete_rows-IsValid w t r.namespace session_id event_id at token done
      (upsert_record-IsValid s w q _ wrote v)
