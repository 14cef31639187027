-- ===== src/Store/Fencing.antt =====
-- The claim tokens of the outbox, stale and live.
use library_of_context.Prelude.{
  ℕ, zero, suc, ◌≡◌, refl, inl, inr, Bool, true, false, ◌&&◌, some, List, [], ◌∷◌, arith,
  Bool-cases, ok, raise, lease_lost, zero,
}
use library_of_context.Models.{Str, str_eq, ℤ, ContextEvent}
use library_of_context.Store.Rows.{count_where, exists_where, update_where}
use library_of_context.Store.Tables.{
  Store, ContextRecord, OutboxRow, is_event, in_thread, is_row, row_in_thread, is_active, is_null,
  has_token,
}
use library_of_context.Store.Positions.{get_elem?}
use library_of_context.Store.Outbox.{
  is_live_claim, complete_outbox_claim, mark_thread_event_indexed, fail_outbox_event, token_matches,
  release_outbox_claim, unleased, processed, indexed,
}
use library_of_context.Store.Invariant.{get-update_of}
use library_of_context.Store.Claims.{same_row}
use library_of_context.Store.Steps.{Reach}
use library_of_context.Store.Validity.{Reach-IsValid}
use library_of_context.Store.Order.{empty, empty-IsValid}

module _ {ℓ} {A : Type ℓ} where
  -- No row passes a test, so nothing is counted, found or updated by it.
  nothing_where :
      (p : A → Bool) (f : A → A) (rows : List A)
      → ((i : ℕ) (o : A) → get_elem? rows i ≡ some o → p o ≡ false)
      → (count_where p rows ≡ 0) × (exists_where p rows ≡ false) × (update_where p f rows ≡ rows)
  unfolding count_where exists_where update_where
  nothing_where p f [] h = (refl, refl, refl)
  nothing_where p f (x ∷ rows) h =
      let rest = nothing_where p f rows (λ i o g. h (suc i) o g) in
      (ground (arith, h 0 x refl), ground (arith, h 0 x refl), ground (arith, h 0 x refl))

  -- One row passes a test, and no other.
  pub one_where :
      (p : A → Bool) (rows : List A) (i : ℕ) (o : A)
      → get_elem? rows i ≡ some o
      → p o ≡ true
      → ((k : ℕ) (q : A) → get_elem? rows k ≡ some q → p q ≡ true → k ≡ i)
      → count_where p rows ≡ 1
  unfolding count_where
  one_where p [] i o g hit only = absurd (ground (arith, g))
  one_where p (x ∷ rows) zero o g hit only =
      let others : (k : ℕ) (q : A) → get_elem? rows k ≡ some q → p q ≡ false = λ k q gk.
        elim (Bool-cases (p q)) [
          | inl also ↦ absurd (omega (arith, only (suc k) q gk also))
          | inr other ↦ other
        ] in
      ground (arith, (nothing_where p (λ a. a) rows others).0)
  one_where p (x ∷ rows) (suc i) o g hit only =
      let rest =
        one_where p rows i o g hit (λ k q gk also. omega (arith, only (suc k) q gk also)) in
      elim (Bool-cases (p x)) [
        | inl also ↦ absurd (omega (arith, only 0 x refl also))
        | inr other ↦ ground arith
      ]

module _ (s : Store) (r : Reach empty s) (namespace session_id event_id : Str) (i : ℕ)
    (o : OutboxRow) (position : get_elem? s.outbox i ≡ some o)
    (key : is_row namespace session_id event_id o ≡ true) where
  -- All rows with the key of `o` are `o`.
  pub only_row :
      (k : ℕ) (q : OutboxRow)
      → get_elem? s.outbox k ≡ some q
      → is_row namespace session_id event_id q ≡ true
      → (k ≡ i) × (q ≡ o)
  unfolding is_row row_in_thread
  only_row k q g hit =
      let v = Reach-IsValid r empty-IsValid in
      let keys : (q.namespace ≡ o.namespace)
          × (q.session_id ≡ o.session_id)
          × (q.event_id ≡ o.event_id) =
        ground (
          arith,
          str_eq.beq_iff q.namespace namespace,
          str_eq.beq_iff q.session_id session_id,
          str_eq.beq_iff q.event_id event_id,
          str_eq.beq_iff o.namespace namespace,
          str_eq.beq_iff o.session_id session_id,
          str_eq.beq_iff o.event_id event_id,
        ) in
      same_row _ s.outbox k i q o v.serial g position (keys.0, keys.1) keys.2

  not_held :
      (token : Str)
      → has_token token o ≡ false
      → (k : ℕ) (q : OutboxRow) → get_elem? s.outbox k ≡ some q
      → (is_row namespace session_id event_id q && has_token token q) ≡ false
  not_held token stale k q g = elim (Bool-cases (is_row namespace session_id event_id q)) [
    | inl hit ↦ rw (only_row k q g hit).1 (ground arith)
    | inr miss ↦ ground arith
  ]

  -- In every state reached from a new database, where the event's row of the outbox does not carry
  -- the token: completing, marking and failing with that token raise `lease_lost`, and releasing
  -- it changes nothing and answers false.
  pub stale_token :
      (token : Str)
      → has_token token o ≡ false
      → ((x : ContextRecord) (at : ℕ)
          → x.namespace ≡ namespace
          → complete_outbox_claim s x session_id event_id at token ≡ raise lease_lost)
        × ((at : ℕ)
            → mark_thread_event_indexed s namespace session_id event_id at (some token)
              ≡ raise lease_lost)
        × ((terminal_now now : ℕ) (error : Str) (retry_after : ℤ) (terminal : Bool)
            → fail_outbox_event terminal_now now s namespace session_id event_id error retry_after
                (some token)
                terminal
              ≡ raise lease_lost)
        × (release_outbox_claim s namespace session_id event_id token ≡ (s, false))
  unfolding complete_outbox_claim mark_thread_event_indexed fail_outbox_event release_outbox_claim
      is_live_claim token_matches
  stale_token token stale =
      let unheld = not_held token stale in
      let live =
        nothing_where (is_live_claim namespace session_id event_id token) (λ a. a) s.outbox
          (λ k q g. unfold is_live_claim in ground (arith, unheld k q g)) in
      let failing : OutboxRow → Bool = λ q.
        is_row namespace session_id event_id q && is_null q.processed_at && has_token token q in
      let releasing : OutboxRow → Bool = λ q.
        is_row namespace session_id event_id q && has_token token q && is_null q.processed_at in
      let fail = nothing_where failing (λ a. a) s.outbox (λ k q g. ground (arith, unheld k q g)) in
      let release =
        nothing_where releasing unleased s.outbox (λ k q g. ground (arith, unheld k q g)) in
      (
        λ x at same. rw same (rw live.1 refl),
        λ at. rw live.0 refl,
        λ terminal_now now error retry_after terminal. rw fail.0 refl,
        rw (release.0, release.2) refl,
      )

  -- In every state reached from a new database, where the event's row is active and carries the
  -- token: marking the event indexed with that token returns. The row is then processed at the
  -- given time and without a claim, and the event at the same place is the event, now indexed.
  pub live_token :
      (token : Str) (at : ℕ)
      → is_active o ≡ true
      → has_token token o ≡ true
      → (t : Store) × (mark_thread_event_indexed s namespace session_id event_id at (some token)
          ≡ ok t)
        × (get_elem? t.outbox i ≡ some (processed at o))
        × ((e : ContextEvent) × (get_elem? t.events i ≡ some e)
            × (is_event namespace session_id event_id e ≡ true)
            × (is_null e.indexed_at ≡ false))
  unfolding mark_thread_event_indexed is_live_claim
  live_token token at active held =
      let live = is_live_claim namespace session_id event_id token in
      let hit : live o ≡ true = unfold is_live_claim in ground arith in
      let one =
        one_where live s.outbox i o position hit
          (λ k q g also. (only_row k q g (unfold is_live_claim in ground arith)).0) in
      let v = Reach-IsValid r empty-IsValid in
      let (e, ge, m) = v.paired.matched i o position in
      let same : is_event namespace session_id event_id e ≡ true =
        unfold is_event in_thread is_row row_in_thread in
        rw (m.namespace, m.session, m.event) key in
      let t : Store = record s {
        outbox = update_where live (processed at) s.outbox;
        events = update_where (is_event namespace session_id event_id) (indexed at) s.events;
      } in
      let row = get-update_of live (processed at) s.outbox i o position in
      let event =
        get-update_of (is_event namespace session_id event_id) (indexed at) s.events i e ge in
      (
        t,
        rw one refl,
        rw hit at row,
        (
          indexed at e,
          rw same at event,
          unfold indexed is_event in_thread in same,
          unfold indexed in ground arith,
        ),
      )
