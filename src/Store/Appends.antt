-- ===== src/Store/Appends.antt =====
-- What `append_thread_event` does to the tables, and the numbering of each thread's events.
use mathlib.Core.Path.{subst}
use library_of_context.Prelude.{
  ℕ, ◌+◌, ◌<◌, ◌≤◌, ◌≡◌, refl, sym, ◌⊎◌, inl, inr, Bool, true, ◌&&◌, none, some, List, [], ◌∷◌,
  ◌++◌, if◌then◌else◌, length, length-append, arith, Bool-cases, Option-cases, leb, ok,
}
use library_of_context.Models.{Str, str_eq, ContextEvent}
use library_of_context.Dict
use library_of_context.Dict.{get-put}
use library_of_context.Scopes.{thread_key_eq}
use library_of_context.Store.Rows.{update_where, count_where, find_where}
use library_of_context.Store.Tables.{Store, in_thread, is_event}
use library_of_context.Store.Positions.{
  get_elem?, get-update, get-snoc, find-none, get-append_old, get-append_new,
}
use library_of_context.Store.Events.{
  NewEvent, key_of, last_sequence, append_thread_event, event_of, row_of, same_fields,
}
use library_of_context.Store.Serial.{IsSerial}
use library_of_context.Store.Leases.{append-IsSerial}
use library_of_context.Store.Invariant.{Matches, IsPaired, get-update_of}

-- The store after the insert of a new event.
abbrev pub appended : Store → NewEvent → Store
appended s n =
    let sequence = last_sequence s n.namespace n.session_id + 1 in
    record s {
      heads = Dict.put (key_of n.namespace n.session_id) sequence s.heads;
      events = s.events ++ event_of n sequence ∷ [];
      outbox = s.outbox ++ row_of n sequence ∷ [];
    }

pub append-cases :
    (s t : Store) (n : NewEvent) (e : ContextEvent)
    → append_thread_event s n ≡ ok (t, e)
    → ((t ≡ s)
        × (find_where (is_event n.namespace n.session_id n.event_id) s.events ≡ some e)
        × (same_fields e n ≡ true))
      ⊎ ((t ≡ appended s n)
          × (find_where (is_event n.namespace n.session_id n.event_id) s.events ≡ none)
          × (e ≡ event_of n (last_sequence s n.namespace n.session_id + 1)))
unfolding append_thread_event
append-cases s t n e h =
    elim (Option-cases (find_where (is_event n.namespace n.session_id n.event_id) s.events)) [
      | inl new ↦ inr (ground arith)
      | inr (old, known) ↦ inl (ground arith)
    ]

pub last_sequence-appended :
    (s : Store) (n : NewEvent) (namespace session_id : Str)
    → last_sequence (appended s n) namespace session_id ≡ (
        if str_eq.beq n.namespace namespace && str_eq.beq n.session_id session_id
        then last_sequence s n.namespace n.session_id + 1
        else last_sequence s namespace session_id)
unfolding last_sequence
last_sequence-appended s n namespace session_id =
    let k = key_of n.namespace n.session_id in
    let j = key_of namespace session_id in
    ground (
      arith,
      get-put k j (last_sequence s n.namespace n.session_id + 1) s.heads,
      thread_key_eq.beq_iff k j,
      str_eq.beq_iff n.namespace namespace,
      str_eq.beq_iff n.session_id session_id,
    )

pub appended-IsPaired :
    (s : Store) (n : NewEvent)
    → IsPaired s.events s.outbox
    → IsPaired (appended s n).events (appended s n).outbox
appended-IsPaired s n paired =
    let sequence = last_sequence s n.namespace n.session_id + 1 in
    let e = event_of n sequence in
    let o = row_of n sequence in
    record {
      sized =
          ground
            (arith, paired.sized, length-append s.events (e ∷ []), length-append s.outbox (o ∷ []));
      matched = λ i r gi. elim (get-snoc s.outbox o i r gi) [
        | inl old ↦
            let (f, gf, m) = paired.matched i r old.0 in (f, get-append_old s.events e i f gf, m)
        | inr new ↦ (
          e,
          get-append_new s.events e i (ground (arith, new.1, paired.sized)),
          subst (Matches e) (sym new.0) (
              unfold event_of row_of in
              record {
                namespace = refl;
                session = refl;
                event = refl;
                sequence = refl;
                indexed = refl;
              }),
        )
      ];
    }

pub appended-IsSerial :
    (s : Store) (n : NewEvent)
    → IsSerial s.outbox (last_sequence s)
    → IsPaired s.events s.outbox
    → find_where (is_event n.namespace n.session_id n.event_id) s.events ≡ none
    → IsSerial (appended s n).outbox (last_sequence (appended s n))
appended-IsSerial s n serial paired fresh =
    let sequence = last_sequence s n.namespace n.session_id + 1 in
    append-IsSerial (last_sequence s) (last_sequence (appended s n)) s.outbox (row_of n sequence)
      serial (unfold row_of in refl)
      (λ i o go same.
        let (e, ge, m) = paired.matched i o go in
        let other = find-none _ s.events i e fresh ge in
        unfold is_event in_thread row_of in
        ground (
          arith,
          other,
          same,
          m.namespace,
          m.session,
          m.event,
          str_eq.beq_iff e.namespace n.namespace,
          str_eq.beq_iff e.session_id n.session_id,
          str_eq.beq_iff e.event_id n.event_id,
          str_eq.beq_iff o.event_id n.event_id,
        ))
      (unfold row_of in refl)
      (unfold row_of in
        ground (
          arith,
          last_sequence-appended s n n.namespace n.session_id,
          str_eq.beq_iff n.namespace n.namespace,
          str_eq.beq_iff n.session_id n.session_id,
        ))
      (λ namespace session_id. ground (
        arith,
        last_sequence-appended s n namespace session_id,
        str_eq.beq_iff n.namespace namespace,
        str_eq.beq_iff n.session_id session_id,
      ))

count-snoc {ℓ} :
    {A : Type ℓ} (p : A → Bool) (rows : List A) (x : A)
    → count_where p (rows ++ x ∷ []) ≡ count_where p rows + (if p x then 1 else 0)
unfolding count_where
count-snoc p [] x = ground arith
count-snoc p (y ∷ rows) x = ground (arith, count-snoc p rows x)

count-update {ℓ} :
    {A : Type ℓ} (q p : A → Bool) (f : A → A) (rows : List A)
    → ((r : A) → q (f r) ≡ q r)
    → count_where q (update_where p f rows) ≡ count_where q rows
unfolding count_where update_where
count-update q p f [] h = refl
count-update q p f (x ∷ rows) h = ground (arith, count-update q p f rows h, h x)

-- The sequence numbers of a thread are exactly 1, 2, …, up to its head.
pub record IsNumbered (events : List ContextEvent) (last : Str → Str → ℕ) : Type 0 where
  pub positive : (i : ℕ) (e : ContextEvent) → get_elem? events i ≡ some e → 0 < e.sequence
  pub covered :
      (namespace session_id : Str) (k : ℕ)
      → 0 < k
      → k ≤ last namespace session_id
      → (i : ℕ) × (e : ContextEvent) × (get_elem? events i ≡ some e)
        × (e.namespace ≡ namespace)
        × (e.session_id ≡ session_id)
        × (e.sequence ≡ k)
  pub counted :
      (namespace session_id : Str)
      → count_where (in_thread namespace session_id) events ≡ last namespace session_id

pub appended-IsNumbered :
    (s : Store) (n : NewEvent)
    → IsNumbered s.events (last_sequence s)
    → IsNumbered (appended s n).events (last_sequence (appended s n))
appended-IsNumbered s n numbered =
    let sequence = last_sequence s n.namespace n.session_id + 1 in
    let x = event_of n sequence in
    record {
      positive = λ i e g. elim (get-snoc s.events x i e g) [
        | inl old ↦ numbered.positive i e old.0
        | inr new ↦
            subst (λ (r : ContextEvent). 0 < r.sequence) (sym new.0)
              (unfold event_of in omega arith)
      ];
      covered = λ namespace session_id k pos le.
          let head = last_sequence-appended s n namespace session_id in
          elim (Bool-cases (leb k (last_sequence s namespace session_id))) [
            | inl old ↦
                let (i, e, g, en, es, eq) =
                  numbered.covered namespace session_id k pos (ground arith) in
                (i, e, get-append_old s.events x i e g, en, es, eq)
            | inr new ↦
                let facts : (n.namespace ≡ namespace)
                    × (n.session_id ≡ session_id)
                    × (k ≡ sequence) =
                  ground (
                    arith,
                    head,
                    str_eq.beq_iff n.namespace namespace,
                    str_eq.beq_iff n.session_id session_id,
                  ) in
                (
                  length s.events,
                  x,
                  get-append_new s.events x (length s.events) refl,
                  unfold event_of in facts.0,
                  unfold event_of in facts.1,
                  unfold event_of in sym facts.2,
                )
          ];
      counted = λ namespace session_id.
          unfold event_of in_thread in
          ground (
            arith,
            count-snoc (in_thread namespace session_id) s.events x,
            numbered.counted namespace session_id,
            last_sequence-appended s n namespace session_id,
            str_eq.beq_iff n.namespace namespace,
            str_eq.beq_iff n.session_id session_id,
          );
    }

pub update-IsNumbered :
    (events : List ContextEvent) (last : Str → Str → ℕ) (q : ContextEvent → Bool)
    (g : ContextEvent → ContextEvent)
    → IsNumbered events last
    → ((e : ContextEvent)
        → ((g e).namespace ≡ e.namespace)
          × ((g e).session_id ≡ e.session_id)
          × ((g e).sequence ≡ e.sequence))
    → IsNumbered (update_where q g events) last
update-IsNumbered events last q g numbered keeps = record {
  positive = λ i e' ge'.
      let (e, ge, eq) = get-update q g events i e' ge' in
      ground (arith, numbered.positive i e ge, (keeps e).2);
  covered = λ namespace session_id k pos le.
      let (i, e, ge, en, es, eq) = numbered.covered namespace session_id k pos le in
      (
        i,
        (if q e then g e else e),
        get-update_of q g events i e ge,
        ground (arith, keeps e),
        ground (arith, keeps e),
        ground (arith, keeps e),
      );
  counted = λ namespace session_id.
      let same =
        count-update (in_thread namespace session_id) q g events
          (λ e. unfold in_thread in rw ((keeps e).0, (keeps e).1) refl) in
      cc (same, numbered.counted namespace session_id);
}
