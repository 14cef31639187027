-- ===== src/Indexing/Claims.antt =====
-- The row and the event of a claim, and what the operations of the store that a worker calls with
-- the claim do to them.
use mathlib.Core.Path.{subst}
use library_of_context.Prelude.{
  ℕ, zero, suc, ◌≡◌, inl, inr, refl, Bool, true, ◌&&◌, some, List, [], ◌∷◌, arith, Bool-cases, ok,
}
use library_of_context.Models.{Str, str_eq, ℤ, ContextEvent}
use library_of_context.Store.{
  Store, ContextRecord, OutboxClaim, get_thread_event, complete_outbox_claim, fail_outbox_event,
}
use library_of_context.Store.Rows.{count_where, update_where, find_where}
use library_of_context.Store.Tables.{
  OutboxRow, is_null, is_event, in_thread, is_row, row_in_thread, is_active, has_token,
}
use library_of_context.Store.Positions.{get_elem?, get-exists, get-lt-length}
use library_of_context.Store.Outbox.{
  unleased, processed, indexed, failed, complete_rows, is_live_claim, token_matches,
  release_outbox_claim,
}
use library_of_context.Store.Invariant.{Matches, get-update_of}
use library_of_context.Store.CompletionValidity.{completes-cases, upsert-tables}
use library_of_context.Store.Steps.{Reach}
use library_of_context.Store.Validity.{Reach-IsValid}
use library_of_context.Store.Order.{empty, empty-IsValid}
use library_of_context.Store.Fencing.{one_where, only_row}

-- The only element that passes a test is the one that is found.
find_one {ℓ} :
    {A : Type ℓ} (p : A → Bool) (rows : List A) (i : ℕ) (x : A)
    → get_elem? rows i ≡ some x
    → p x ≡ true
    → ((k : ℕ) (y : A) → get_elem? rows k ≡ some y → p y ≡ true → k ≡ i)
    → find_where p rows ≡ some x
unfolding find_where
find_one p [] i x g hit only = absurd (ground (arith, g))
find_one p (y ∷ rows) zero x g hit only = ground (arith, g, hit)
find_one p (y ∷ rows) (suc i) x g hit only = elim (Bool-cases (p y)) [
  | inl also ↦ absurd (omega (arith, only 0 y refl also))
  | inr other ↦
      rw other (find_one p rows i x g hit (λ k z gk also. omega (arith, only (suc k) z gk also)))
]

pub is_event-keys :
    (namespace session_id event_id : Str) (e : ContextEvent)
    → is_event namespace session_id event_id e ≡ true
    → (e.namespace ≡ namespace) × (e.session_id ≡ session_id) × (e.event_id ≡ event_id)
unfolding is_event in_thread
is_event-keys namespace session_id event_id e named = ground (
  arith,
  named,
  str_eq.beq_iff e.namespace namespace,
  str_eq.beq_iff e.session_id session_id,
  str_eq.beq_iff e.event_id event_id,
)

-- The tables that a completion leaves.
completes-tables :
    (s t : Store) (r r' : ContextRecord) (session_id event_id : Str) (at : ℕ) (token : Str)
    → complete_outbox_claim s r session_id event_id at token ≡ ok (t, r')
    → (t.outbox
        ≡ update_where
            (is_live_claim r.namespace session_id event_id token)
            (processed at)
            s.outbox)
      × (t.events ≡ update_where (is_event r.namespace session_id event_id) (indexed at) s.events)
unfolding complete_rows
completes-tables s t r r' session_id event_id at token h =
    let (w, q, wrote, done) = completes-cases s t r r' session_id event_id at token h in
    let (ee, eo, eh) = upsert-tables s w q _ wrote in
    (ground (arith, done, eo), ground (arith, done, ee))

module _ (s : Store) (r : Reach empty s) (claim : OutboxClaim) (i : ℕ) (o : OutboxRow)
    (position : get_elem? s.outbox i ≡ some o)
    (key : is_row claim.namespace claim.session_id claim.event_id o ≡ true) where
  -- The event of the claim stands beside the row, and is found under its key.
  pub event_of_claim :
      (e : ContextEvent)
      → get_elem? s.events i ≡ some e
      → (is_null e.indexed_at ≡ is_null o.processed_at)
        × (is_event claim.namespace claim.session_id claim.event_id e ≡ true)
        × (get_thread_event s claim.namespace claim.session_id claim.event_id ≡ some e)
  unfolding get_thread_event
  event_of_claim e ge =
      let v = Reach-IsValid r empty-IsValid in
      let named = is_event claim.namespace claim.session_id claim.event_id in
      let (f, gf, m) = v.paired.matched i o position in
      let matched : Matches e o =
        let found : f ≡ e = ground (arith, ge, gf) in subst (λ x. Matches x o) found m in
      let same : named e ≡ true =
        unfold is_event in_thread is_row row_in_thread in
        rw (matched.namespace, matched.session, matched.event) key in
      let only : (k : ℕ) (f : ContextEvent)
          → get_elem? s.events k ≡ some f
          → named f ≡ true
          → k ≡ i =
        λ k f gf hit.
          let bound = get-lt-length s.events k f gf in
          let (q, gq) = get-exists s.outbox k (ground (arith, bound, v.paired.sized)) in
          let (f', gf', n) = v.paired.matched k q gq in
          let kept : f' ≡ f = ground (arith, gf, gf') in
          let row : is_row claim.namespace claim.session_id claim.event_id q ≡ true =
            unfold is_event in_thread is_row row_in_thread in
            ground (arith, hit, kept, n.namespace, n.session, n.event) in
          let at = only_row s r claim.namespace claim.session_id claim.event_id i o position key in
          (at k q gq row).0 in
      (matched.indexed, same, find_one named s.events i e ge same only)

  -- One row is counted by a test that this row alone can pass.
  one_row :
      (p : OutboxRow → Bool)
      → p o ≡ true
      → ((q : OutboxRow)
          → p q ≡ true
          → is_row claim.namespace claim.session_id claim.event_id q ≡ true)
      → count_where p s.outbox ≡ 1
  one_row p hit keyed = one_where p s.outbox i o position hit (λ k q g also.
      (only_row s r claim.namespace claim.session_id claim.event_id i o position key k q g
        (keyed q also)).0)

  module _ (active : is_active o ≡ true) (held : has_token claim.claim_token o ≡ true) where
    abbrev released : Store × Bool
    released =
        release_outbox_claim s claim.namespace claim.session_id claim.event_id claim.claim_token

    pub releases_row : get_elem? released.0.outbox i ≡ some (unleased o)
    unfolding release_outbox_claim
    releases_row =
        let row =
          get-update_of
            (λ (q : OutboxRow).
              is_row claim.namespace claim.session_id claim.event_id q
              && has_token claim.claim_token q
              && is_null q.processed_at)
            unleased s.outbox i o position in
        ground (arith, row, key, held, active)

    pub fails_row :
        (terminal_now now : ℕ) (error : Str) (retry_after : ℤ) (terminal : Bool)
        → (t : Store) × (fail_outbox_event terminal_now now s claim.namespace claim.session_id
              claim.event_id error retry_after
              (some claim.claim_token)
              terminal
            ≡ ok t)
          × (get_elem? t.outbox i ≡ some (failed terminal_now now error retry_after terminal o))
          × (t.events ≡ s.events)
    unfolding fail_outbox_event token_matches
    fails_row terminal_now now error retry_after terminal =
        let hit : OutboxRow → Bool = λ q.
          is_row claim.namespace claim.session_id claim.event_id q
          && is_null q.processed_at
          && has_token claim.claim_token q in
        let mine : hit o ≡ true = ground (arith, key, held, active) in
        let one = one_row hit mine (λ q also. ground (arith, also)) in
        let change = failed terminal_now now error retry_after terminal in
        let row = get-update_of hit change s.outbox i o position in
        (record s { outbox = update_where hit change s.outbox }, rw one refl, rw mine at row, refl)

    pub completes_at :
        (e : ContextEvent) (at : ℕ) (made : ContextRecord) (t : Store) (stored : ContextRecord)
        → get_elem? s.events i ≡ some e
        → is_event claim.namespace claim.session_id claim.event_id e ≡ true
        → made.namespace ≡ e.namespace
        → complete_outbox_claim s made e.session_id e.event_id at claim.claim_token ≡ ok (t, stored)
        → (get_elem? t.outbox i ≡ some (processed at o))
          × (get_elem? t.events i ≡ some (indexed at e))
    unfolding is_live_claim
    completes_at e at made t stored ge named placed completed =
        let (space, session, event) =
          is_event-keys claim.namespace claim.session_id claim.event_id e named in
        let (outbox, events) =
          completes-tables s t made stored e.session_id e.event_id at claim.claim_token completed in
        let live = is_live_claim made.namespace e.session_id e.event_id claim.claim_token in
        let source = is_event made.namespace e.session_id e.event_id in
        let mine : live o ≡ true =
          rw (placed, space, session, event) (ground (arith, key, active, held)) in
        let own : source e ≡ true = cc (placed, space, session, event, named) in
        let row = get-update_of live (processed at) s.outbox i o position in
        let moved = get-update_of source (indexed at) s.events i e ge in
        (rw outbox (rw mine at row), rw events (rw own at moved))
