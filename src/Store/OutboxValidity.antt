-- ===== src/Store/OutboxValidity.antt =====
-- Claims, releases, failures and retries in a valid store.
use library_of_context.Prelude.{
  ℕ, ◌+◌, ◌≡◌, refl, ap, Bool, true, false, not, ◌&&◌, some, List, take, keep, arith, option_beq,
  ok, max,
}
use library_of_context.Models.{Str, str_eq, ContextEvent, ℤ, pos_part}
use library_of_context.Store.Rows.{order_by, update_where}
use library_of_context.Store.Tables.{
  Store, OutboxRow, OutboxClaim, is_row, is_active, is_claimed, is_null, has_token,
}
use library_of_context.Store.Events.{last_sequence}
use library_of_context.Store.Leasing.{
  claim_outbox_events, second, created_before, is_claimable, lease_all, claims_of,
}
use library_of_context.Store.Outbox.{
  release_outbox_leases, release_outbox_claim, unleased, token_matches, fail_outbox_event, failed,
  retry_failed_outbox_event, retried,
}
use library_of_context.Store.Leases.{Shrinks, shrink-IsSerial, retry-IsSerial}
use library_of_context.Store.Claims.{claims-IsSerial}
use library_of_context.Store.Invariant.{Matches, outbox-IsPaired, lease_all-IsPaired}
use library_of_context.Store.Steps.{IsValid, IsValid-of}

pub claims-IsValid :
    (s t : Store) (now : ℕ) (tokens : ℕ → Str) (owner : Str) (limit : ℕ) (lease_seconds : ℤ)
    (found : List OutboxClaim)
    → claim_outbox_events now tokens s owner limit lease_seconds ≡ ok (t, found)
    → IsValid s
    → IsValid t
unfolding claim_outbox_events
claims-IsValid s t now tokens owner limit lease_seconds found h v =
    let until = now + max second (pos_part lease_seconds) in
    let rows =
      take (max 1 limit)
        (order_by created_before (keep (is_claimable now owner s.outbox) s.outbox)) in
    IsValid-of s t s.events (lease_all now owner until (claims_of tokens 0 rows) s.outbox)
      (ground arith) (ground arith) (ground arith)
      (claims-IsSerial (last_sequence s) now until (max 1 limit) tokens owner s.outbox v.serial)
      (lease_all-IsPaired now owner until (claims_of tokens 0 rows) s.events s.outbox v.paired)
      v.numbered

-- An update of the outbox alone that neither revives nor claims a row.
shrink-IsValid :
    (s t : Store) (p : OutboxRow → Bool) (f : OutboxRow → OutboxRow)
    → t ≡ record s { outbox = update_where p f s.outbox }
    → ((o : OutboxRow) → p o ≡ true → (is_claimed o && not (is_active o)) ≡ false → Shrinks o (f o))
    → ((e : ContextEvent) (o : OutboxRow) → p o ≡ true → Matches e o → Matches e (f o))
    → IsValid s
    → IsValid t
shrink-IsValid s t p f e shrinks same v =
    IsValid-of s t s.events (update_where p f s.outbox) (ap (λ (x : Store). x.heads) e)
      (ap (λ (x : Store). x.events) e) (ap (λ (x : Store). x.outbox) e)
      (shrink-IsSerial (last_sequence s) s.outbox v.serial p f
        (λ i o g hit. shrinks o hit (v.serial.lively i o g)))
      (outbox-IsPaired s.events s.outbox p f v.paired same) v.numbered

Matches-unleased : (e : ContextEvent) (o : OutboxRow) → Matches e o → Matches e (unleased o)
unfolding unleased
Matches-unleased e o m = record {
  namespace = m.namespace;
  session = m.session;
  event = m.event;
  sequence = m.sequence;
  indexed = m.indexed;
}

Shrinks-unleased : (o : OutboxRow) → Shrinks o (unleased o)
unfolding unleased
Shrinks-unleased o = record {
  keeps = record { namespace = refl; session = refl; event = refl; sequence = refl; lively = refl };
  active = ground arith;
  claimed = refl;
}

pub releases-IsValid :
    (s : Store) (owner : Str) → IsValid s → IsValid (release_outbox_leases s owner).0
unfolding release_outbox_leases
releases-IsValid s owner v =
    shrink-IsValid s _ _ unleased refl (λ o hit live. Shrinks-unleased o)
      (λ e o hit m. Matches-unleased e o m) v

pub releases_claim-IsValid :
    (s : Store) (namespace session_id event_id token : Str)
    → IsValid s
    → IsValid (release_outbox_claim s namespace session_id event_id token).0
unfolding release_outbox_claim
releases_claim-IsValid s namespace session_id event_id token v =
    shrink-IsValid s _ _ unleased refl (λ o hit live. Shrinks-unleased o)
      (λ e o hit m. Matches-unleased e o m) v

-- A terminal failure, or one with a delay: the claimed row is active, and it loses its claim.
pub fails-IsValid :
    (s t : Store) (terminal_now now : ℕ) (namespace session_id event_id error : Str)
    (retry_after : ℤ) (token : Str) (terminal : Bool)
    → fail_outbox_event terminal_now now s namespace session_id event_id error retry_after
        (some token)
        terminal
      ≡ ok t
    → IsValid s
    → IsValid t
unfolding fail_outbox_event token_matches option_beq
fails-IsValid s t terminal_now now namespace session_id event_id error retry_after token terminal h
      v =
    let hit : OutboxRow → Bool =
      λ o. is_row namespace session_id event_id o && is_null o.processed_at && has_token token o in
    shrink-IsValid s t hit (failed terminal_now now error retry_after terminal) (ground arith)
      (λ o found live.
        unfold failed in
        record {
          keeps = record {
            namespace = refl;
            session = refl;
            event = refl;
            sequence = refl;
            lively = refl;
          };
          active = ground arith;
          claimed = refl;
        })
      (λ e o hit m.
        unfold failed in
        record {
          namespace = m.namespace;
          session = m.session;
          event = m.event;
          sequence = m.sequence;
          indexed = m.indexed;
        })
      v

pub retries-IsValid :
    (s : Store) (now : ℕ) (namespace session_id event_id : Str)
    → IsValid s
    → IsValid (retry_failed_outbox_event now s namespace session_id event_id).0
unfolding retry_failed_outbox_event
retries-IsValid s now namespace session_id event_id v =
    IsValid-of s _ s.events (update_where _ (retried now) s.outbox) refl refl refl
      (retry-IsSerial (last_sequence s) s.outbox v.serial _ (retried now)
        (λ i o g hit.
          unfold retried in
          record { namespace = refl; session = refl; event = refl; sequence = refl; lively = refl })
        (λ o. unfold retried in refl) (λ i o g hit. ground arith))
      (outbox-IsPaired s.events s.outbox _ (retried now) v.paired (λ e o hit m.
        unfold retried in
        record {
          namespace = m.namespace;
          session = m.session;
          event = m.event;
          sequence = m.sequence;
          indexed = m.indexed;
        }))
      v.numbered
