-- ===== src/Store/Steps.antt =====
-- The operations that change the store, as steps of any number of processes and threads: each is
-- one transaction. A call that raises is no step, since its transaction is rolled back.
use mathlib.Core.Path.{subst}
use library_of_context.Prelude.{ℕ, ◌≡◌, sym, Bool, Option, some, List, ok}
use library_of_context.Models.{Str, str_eq, ContextEvent, ℤ}
use library_of_context.Store.Tables.{Store, ContextRecord, OutboxRow, OutboxClaim}
use library_of_context.Store.Events.{NewEvent, last_sequence, append_thread_event}
use library_of_context.Store.Records.{upsert}
use library_of_context.Store.Leasing.{claim_outbox_events}
use library_of_context.Store.Outbox.{
  release_outbox_leases, release_outbox_claim, complete_outbox_claim, mark_thread_event_indexed,
  fail_outbox_event, retry_failed_outbox_event, set_thread_event_protected,
}
use library_of_context.Store.Serial.{IsSerial}
use library_of_context.Store.Invariant.{IsPaired}
use library_of_context.Store.Appends.{IsNumbered}

pub data Step (s t : Store) : Type 0 where
  appends : (n : NewEvent) (e : ContextEvent) → append_thread_event s n ≡ ok (t, e) → Step s t
  claims :
      (now : ℕ) (tokens : ℕ → Str) (owner : Str) (limit : ℕ) (lease_seconds : ℤ)
      (found : List OutboxClaim)
      → claim_outbox_events now tokens s owner limit lease_seconds ≡ ok (t, found)
      → Step s t
  completes :
      (r r' : ContextRecord) (session_id event_id : Str) (at : ℕ) (token : Str)
      → complete_outbox_claim s r session_id event_id at token ≡ ok (t, r')
      → Step s t
  marks :
      (namespace session_id event_id : Str) (at : ℕ) (token : Option Str)
      → mark_thread_event_indexed s namespace session_id event_id at token ≡ ok t
      → Step s t
  -- with a token, as every call in the program has
  fails :
      (terminal_now now : ℕ) (namespace session_id event_id error : Str) (retry_after : ℤ)
      (token : Str) (terminal : Bool)
      → fail_outbox_event terminal_now now s namespace session_id event_id error retry_after
          (some token)
          terminal
        ≡ ok t
      → Step s t
  retries :
      (now : ℕ) (namespace session_id event_id : Str)
      → t ≡ (retry_failed_outbox_event now s namespace session_id event_id).0
      → Step s t
  releases : (owner : Str) → t ≡ (release_outbox_leases s owner).0 → Step s t
  releases_claim :
      (namespace session_id event_id token : Str)
      → t ≡ (release_outbox_claim s namespace session_id event_id token).0
      → Step s t
  protects :
      (now : ℕ) (namespace session_id event_id : Str) (flag : Bool)
      → t ≡ (set_thread_event_protected now s namespace session_id event_id flag).0
      → Step s t
  upserts : (r : ContextRecord) → upsert s r ≡ ok t → Step s t
  -- reads that expire, touches, deletions and purges write the records only
  drops : (rows : List ContextRecord) → t ≡ record s { records = rows } → Step s t

pub data Reach (s : Store) : Store → Type 0 where
  here : Reach s s
  next : {t u : Store} → Reach s t → Step t u → Reach s u

pub record IsValid (s : Store) : Type 0 where
  pub serial : IsSerial s.outbox (last_sequence s)
  pub paired : IsPaired s.events s.outbox
  pub numbered : IsNumbered s.events (last_sequence s)

-- Only the events, the outbox and the heads matter to the invariant.
pub IsValid-of :
    (s t : Store) (events : List ContextEvent) (outbox : List OutboxRow)
    → t.heads ≡ s.heads
    → t.events ≡ events
    → t.outbox ≡ outbox
    → IsSerial outbox (last_sequence s)
    → IsPaired events outbox
    → IsNumbered events (last_sequence s)
    → IsValid t
unfolding last_sequence
IsValid-of s t events outbox eh ee eo serial paired numbered =
    let u : Store = record {
      records = t.records;
      heads = s.heads;
      events = events;
      outbox = outbox;
    } in
    let same : u ≡ t =
      λ i. record { records = t.records; heads = sym eh i; events = sym ee i; outbox = sym eo i } in
    subst IsValid same (record { serial = serial; paired = paired; numbered = numbered })
