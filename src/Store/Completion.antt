-- ===== src/Store/Completion.antt =====
-- Completing a claim: the row of the outbox and its event.
use library_of_context.Prelude.{
  ℕ, ◌≡◌, refl, inl, inr, Bool, true, false, List, arith, Bool-cases, ◌==◌,
}
use library_of_context.Models.{Str, str_eq, ContextEvent}
use library_of_context.Store.Rows.{update_where, count_where}
use library_of_context.Store.Tables.{OutboxRow, in_thread, is_event, row_in_thread, is_row}
use library_of_context.Store.Outbox.{processed, indexed, is_live_claim}
use library_of_context.Store.Serial.{SameThread, IsSerial}
use library_of_context.Store.Leases.{Shrinks, shrink-IsSerial}
use library_of_context.Store.Claims.{same_row}
use library_of_context.Store.Invariant.{Matches, IsPaired, update-IsPaired, count-position}

Shrinks-processed : (at : ℕ) (o : OutboxRow) → Shrinks o (processed at o)
unfolding processed
Shrinks-processed at o = record {
  keeps = record { namespace = refl; session = refl; event = refl; sequence = refl; lively = refl };
  active = refl;
  claimed = refl;
}

Matches-done :
    (at : ℕ) (e : ContextEvent) (o : OutboxRow)
    → Matches e o
    → Matches (indexed at e) (processed at o)
unfolding processed indexed
Matches-done at e o m = record {
  namespace = m.namespace;
  session = m.session;
  event = m.event;
  sequence = m.sequence;
  indexed = ground arith;
}

-- The key of an event and of its row are one key.
same_key :
    (namespace session_id event_id : Str) (e : ContextEvent) (o : OutboxRow)
    → Matches e o
    → is_event namespace session_id event_id e ≡ is_row namespace session_id event_id o
unfolding is_event in_thread is_row row_in_thread
same_key namespace session_id event_id e o m = rw (m.namespace, m.session, m.event) refl

module _ (last : Str → Str → ℕ) (events : List ContextEvent) (outbox : List OutboxRow)
    (namespace session_id event_id : Str) (at : ℕ) (serial : IsSerial outbox last)
    (paired : IsPaired events outbox) where
  -- Every row of the event is completed, claimed or not.
  pub all-IsSerial : (p : OutboxRow → Bool) → IsSerial (update_where p (processed at) outbox) last
  all-IsSerial p =
      shrink-IsSerial last outbox serial p (processed at) (λ i o g h. Shrinks-processed at o)

  pub all-IsPaired :
      IsPaired
        (update_where (is_event namespace session_id event_id) (indexed at) events)
        (update_where (is_row namespace session_id event_id) (processed at) outbox)
  all-IsPaired = update-IsPaired events outbox _ (indexed at) _ (processed at) paired λ i e o g m.
      let key = same_key namespace session_id event_id e o m in
      elim (Bool-cases (is_row namespace session_id event_id o)) [
        | inl hit ↦ rw (key, hit) (Matches-done at e o m)
        | inr miss ↦ rw (key, miss) m
      ]

  -- The one live claim of the event is completed.
  pub live-IsPaired :
      (token : Str)
      → (count_where (is_live_claim namespace session_id event_id token) outbox == 1) ≡ true
      → IsPaired
          (update_where (is_event namespace session_id event_id) (indexed at) events)
          (update_where (is_live_claim namespace session_id event_id token) (processed at) outbox)
  live-IsPaired token one =
      let live = is_live_claim namespace session_id event_id token in
      let (k, r, gk, alive) = count-position live outbox (ground arith) in
      update-IsPaired events outbox _ (indexed at) _ (processed at) paired λ i e o g m.
        let key = same_key namespace session_id event_id e o m in
        elim (Bool-cases (is_row namespace session_id event_id o)) [
          | inl hit ↦
              let keys : SameThread o r × (o.event_id ≡ r.event_id) =
                unfold is_live_claim is_row row_in_thread in
                ground (
                  arith,
                  str_eq.beq_iff o.namespace namespace,
                  str_eq.beq_iff o.session_id session_id,
                  str_eq.beq_iff o.event_id event_id,
                  str_eq.beq_iff r.namespace namespace,
                  str_eq.beq_iff r.session_id session_id,
                  str_eq.beq_iff r.event_id event_id,
                ) in
              let same = same_row last outbox i k o r serial g gk keys.0 keys.1 in
              rw (key, hit, same.1, alive) (rw same.1 at (Matches-done at e o m))
          | inr miss ↦
              let idle : live o ≡ false = unfold is_live_claim in ground arith in
              rw (key, miss, idle) m
        ]
