-- ===== src/Store/Validity.antt =====
-- The steps of a valid store.
use mathlib.Core.Path.{subst}
use library_of_context.Prelude.{
  ℕ, ◌≡◌, refl, sym, ◌⊎◌, inl, inr, Bool, none, arith, Bool-cases, Option-cases, ok,
}
use library_of_context.Models.{Str, str_eq, ContextEvent}
use library_of_context.Store.Rows.{update_where, find_where}
use library_of_context.Store.Tables.{Store, is_event, is_record}
use library_of_context.Store.Events.{NewEvent, last_sequence, append_thread_event}
use library_of_context.Store.Records.{upsert}
use library_of_context.Store.Outbox.{set_thread_event_protected, is_projection}
use library_of_context.Store.Invariant.{events-IsPaired}
use library_of_context.Store.Appends.{
  append-cases, appended-IsPaired, appended-IsSerial, appended-IsNumbered, update-IsNumbered,
}
use library_of_context.Store.Steps.{
  Step, appends, claims, completes, marks, fails, retries, releases, releases_claim, protects,
  upserts, drops, Reach, here, next, IsValid, IsValid-of,
}
use library_of_context.Store.OutboxValidity.{
  claims-IsValid, releases-IsValid, releases_claim-IsValid, fails-IsValid, retries-IsValid,
}
use library_of_context.Store.CompletionValidity.{
  marks-IsValid, completes-IsValid, upsert_record-IsValid,
}

appends-IsValid :
    (s t : Store) (n : NewEvent) (e : ContextEvent)
    → append_thread_event s n ≡ ok (t, e)
    → IsValid s
    → IsValid t
appends-IsValid s t n e h v = elim (append-cases s t n e h) [
  | inl old ↦ subst IsValid (sym old.0) v
  | inr new ↦ subst IsValid (sym new.0) (record {
    serial = appended-IsSerial s n v.serial v.paired new.1;
    paired = appended-IsPaired s n v.paired;
    numbered = appended-IsNumbered s n v.numbered;
  })
]

protects-tables :
    (s : Store) (now : ℕ) (namespace session_id event_id : Str) (flag : Bool)
    → let t = (set_thread_event_protected now s namespace session_id event_id flag).0 in
      (t.heads ≡ s.heads)
      × (t.outbox ≡ s.outbox)
      × ((t.events ≡ s.events)
          ⊎ (t.events
              ≡ update_where
                  (is_event namespace session_id event_id)
                  (λ e. record e { is_protected = flag })
                  s.events))
unfolding set_thread_event_protected
protects-tables s now namespace session_id event_id flag =
    elim (Option-cases (find_where (is_event namespace session_id event_id) s.events)) [
      | inl absent ↦ (ground arith, ground arith, inl (ground arith))
      | inr (e, known) ↦
          elim (Option-cases (find_where (is_record namespace e.record_id) s.records)) [
            | inl bare ↦ (ground arith, ground arith, inr (ground arith))
            | inr (r, linked) ↦ elim (Bool-cases (is_projection session_id event_id r)) [
              | inl own ↦ (ground arith, ground arith, inr (ground arith))
              | inr other ↦ (ground arith, ground arith, inr (ground arith))
            ]
          ]
    ]

protects-IsValid :
    (s : Store) (now : ℕ) (namespace session_id event_id : Str) (flag : Bool)
    → IsValid s
    → IsValid (set_thread_event_protected now s namespace session_id event_id flag).0
protects-IsValid s now namespace session_id event_id flag v =
    let (eh, eo, ee) = protects-tables s now namespace session_id event_id flag in
    elim ee [
      | inl same ↦ IsValid-of s _ s.events s.outbox eh same eo v.serial v.paired v.numbered
      | inr marked ↦
          IsValid-of s _ _ s.outbox eh marked eo v.serial
            (events-IsPaired s.events s.outbox _ _ v.paired (λ e o m. record {
              namespace = m.namespace;
              session = m.session;
              event = m.event;
              sequence = m.sequence;
              indexed = m.indexed;
            }))
            (update-IsNumbered s.events (last_sequence s) _ _ v.numbered (λ e. (refl, refl, refl)))
    ]

pub Step-IsValid : {s t : Store} → Step s t → IsValid s → IsValid t
unfolding upsert last_sequence
Step-IsValid {s} {t} (appends n e h) v = appends-IsValid s t n e h v
Step-IsValid {s} {t} (claims now tokens owner limit lease_seconds found h) v =
    claims-IsValid s t now tokens owner limit lease_seconds found h v
Step-IsValid {s} {t} (completes r r' session_id event_id at token h) v =
    completes-IsValid s t r r' session_id event_id at token h v
Step-IsValid {s} {t} (marks namespace session_id event_id at token h) v =
    marks-IsValid s t namespace session_id event_id at token h v
Step-IsValid {s} {t}
      (fails terminal_now now namespace session_id event_id error retry_after token terminal h) v =
    fails-IsValid s t terminal_now now namespace session_id event_id error retry_after token
      terminal h v
Step-IsValid {s} {t} (retries now namespace session_id event_id e) v =
    subst IsValid (sym e) (retries-IsValid s now namespace session_id event_id v)
Step-IsValid {s} {t} (releases owner e) v = subst IsValid (sym e) (releases-IsValid s owner v)
Step-IsValid {s} {t} (releases_claim namespace session_id event_id token e) v =
    subst IsValid (sym e) (releases_claim-IsValid s namespace session_id event_id token v)
Step-IsValid {s} {t} (protects now namespace session_id event_id flag e) v =
    subst IsValid (sym e) (protects-IsValid s now namespace session_id event_id flag v)
Step-IsValid {s} {t} (upserts r h) v = upsert_record-IsValid s t r none h v
Step-IsValid {s} {t} (drops rows e) v =
    subst IsValid (sym e) (record { serial = v.serial; paired = v.paired; numbered = v.numbered })

-- Where a store is valid, every store that operations of any processes lead to, in any order, is
-- valid: in each thread the rows of the outbox stand in the order of their sequence numbers, with
-- different identifiers, and no row is claimed behind an unfinished one; each event has its row of
-- the outbox, processed exactly if the event is indexed; and the events of each thread have the
-- numbers from 1 to its head.
pub Reach-IsValid : {s t : Store} → Reach s t → IsValid s → IsValid t
Reach-IsValid here v = v
Reach-IsValid (next r step) v = Step-IsValid step (Reach-IsValid r v)
