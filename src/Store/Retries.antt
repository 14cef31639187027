-- ===== src/Store/Retries.antt =====
-- `append_thread_event` called again with the same event, and the numbers that new events get.
use library_of_context.Prelude.{
  ℕ, ◌+◌, ◌≡◌, refl, ap, ◌⊎◌, inl, inr, Bool, true, false, ◌&&◌, none, some, List, [], ◌∷◌, ◌++◌,
  arith, Bool-cases, ok, bool_beq_iff, ==_iff,
}
use library_of_context.Models.{Str, str_eq, ContextEvent, metadata_beq, metadata_beq_refl}
use library_of_context.Dict.{Unique, keys}
use library_of_context.Store.Rows.{find_where}
use library_of_context.Store.Tables.{
  Store, OutboxRow, is_event, in_thread, is_row, row_in_thread, is_active,
}
use library_of_context.Store.Events.{
  NewEvent, last_sequence, append_thread_event, get_thread_event, event_of, row_of, same_fields,
}
use library_of_context.Store.Appends.{append-cases, last_sequence-appended}

find-snoc {ℓ} :
    {A : Type ℓ} (p : A → Bool) (rows : List A) (x : A)
    → find_where p rows ≡ none
    → p x ≡ true
    → find_where p (rows ++ x ∷ []) ≡ some x
unfolding find_where
find-snoc p [] x h hit = ground arith
find-snoc p (y ∷ rows) x h hit = elim (Bool-cases (p y)) [
  | inl also ↦ absurd (ground (arith, h, also))
  | inr other ↦ rw other (find-snoc p rows x (rw other at h) hit)
]

same_fields-event_of :
    (n : NewEvent) (sequence : ℕ)
    → metadata_beq n.metadata n.metadata ≡ true
    → same_fields (event_of n sequence) n ≡ true
unfolding same_fields event_of
same_fields-event_of n sequence h = ground (
  arith,
  h,
  str_eq.beq_iff n.session_id n.session_id,
  str_eq.beq_iff n.role n.role,
  str_eq.beq_iff n.content n.content,
  ==_iff n.importance n.importance,
  bool_beq_iff n.is_protected n.is_protected,
  ==_iff n.token_count n.token_count,
  str_eq.beq_iff n.record_id n.record_id,
)

known-again :
    (t : Store) (n : NewEvent) (e : ContextEvent)
    → find_where (is_event n.namespace n.session_id n.event_id) t.events ≡ some e
    → same_fields e n ≡ true
    → append_thread_event t n ≡ ok (t, e)
unfolding append_thread_event
known-again t n e found same = ground (arith, found, same)

-- Where `append_thread_event` returned a store and an event, for a metadata dictionary in which no
-- key is repeated, the same call on that store returns the same store and event again.
pub append_thread_event-again :
    (s t : Store) (n : NewEvent) (e : ContextEvent)
    → Unique (keys n.metadata)
    → append_thread_event s n ≡ ok (t, e)
    → append_thread_event t n ≡ ok (t, e)
append_thread_event-again s t n e u h = elim (append-cases s t n e h) [
  | inl old ↦ known-again t n e (rw old.0 old.1) old.2
  | inr new ↦
      let k = last_sequence s n.namespace n.session_id + 1 in
      let it = is_event n.namespace n.session_id n.event_id in
      let hit : it (event_of n k) ≡ true =
        unfold event_of is_event in_thread in
        ground (
          arith,
          str_eq.beq_iff n.namespace n.namespace,
          str_eq.beq_iff n.session_id n.session_id,
          str_eq.beq_iff n.event_id n.event_id,
        ) in
      let found = find-snoc it s.events (event_of n k) new.1 hit in
      let same = same_fields-event_of n k (metadata_beq_refl n.metadata u) in
      known-again t n e (rw (new.0, new.2) found) (rw new.2 same)
]

-- Where `append_thread_event` returned a store and an event, `get_thread_event` finds that event
-- there. If the store had an event of that key, then the store is unchanged. If it had none, the
-- event's sequence number is one more than the thread's last, and is its last from then on; the
-- event and one active row of the outbox, with its key and number, stand behind the ones that were
-- there, and the records stay. The last numbers of all other threads stay in both cases.
pub append_thread_event-numbers :
    (s t : Store) (n : NewEvent) (e : ContextEvent)
    → append_thread_event s n ≡ ok (t, e)
    → (get_thread_event t n.namespace n.session_id n.event_id ≡ some e)
      × (((get_thread_event s n.namespace n.session_id n.event_id ≡ some e) × (t ≡ s))
          ⊎ ((get_thread_event s n.namespace n.session_id n.event_id ≡ none)
              × (e.sequence ≡ last_sequence s n.namespace n.session_id + 1)
              × (last_sequence t n.namespace n.session_id ≡ e.sequence)
              × (t.records ≡ s.records)
              × (t.events ≡ s.events ++ e ∷ [])
              × (row : OutboxRow) × (t.outbox ≡ s.outbox ++ row ∷ [])
              × (is_row n.namespace n.session_id n.event_id row ≡ true)
              × (row.sequence ≡ e.sequence)
              × (is_active row ≡ true)))
      × ((namespace session_id : Str)
          → (str_eq.beq n.namespace namespace && str_eq.beq n.session_id session_id) ≡ false
          → last_sequence t namespace session_id ≡ last_sequence s namespace session_id)
unfolding get_thread_event event_of last_sequence
append_thread_event-numbers s t n e h = elim (append-cases s t n e h) [
  | inl old ↦ (rw old.0 old.1, inl (old.1, old.0), λ namespace session_id other. rw old.0 refl)
  | inr new ↦
      let k = last_sequence s n.namespace n.session_id + 1 in
      let it = is_event n.namespace n.session_id n.event_id in
      let hit : it (event_of n k) ≡ true =
        unfold event_of is_event in_thread in
        ground (
          arith,
          str_eq.beq_iff n.namespace n.namespace,
          str_eq.beq_iff n.session_id n.session_id,
          str_eq.beq_iff n.event_id n.event_id,
        ) in
      let number : e.sequence ≡ k = ap (λ (x : ContextEvent). x.sequence) new.2 in
      let head = last_sequence-appended s n n.namespace n.session_id in
      (
        rw (new.0, new.2) (find-snoc it s.events (event_of n k) new.1 hit),
        inr (
          new.1,
          number,
          rw new.0 (
              ground (
                arith,
                head,
                str_eq.beq_iff n.namespace n.namespace,
                str_eq.beq_iff n.session_id n.session_id,
              )),
          rw new.0 refl,
          rw (new.0, new.2) refl,
          row_of n k,
          rw new.0 refl,
          unfold row_of is_row row_in_thread in
              ground (
                arith,
                str_eq.beq_iff n.namespace n.namespace,
                str_eq.beq_iff n.session_id n.session_id,
                str_eq.beq_iff n.event_id n.event_id,
              ),
          rw number (unfold row_of in refl),
          unfold row_of in refl,
        ),
        λ namespace session_id other.
            rw new.0 (ground (arith, last_sequence-appended s n namespace session_id)),
      )
]
