-- ===== src/Store/Order.antt =====
-- The states of the store that its operations reach from a new database.
use library_of_context.Prelude.{
  ℕ, zero, suc, ◌+◌, ◌<◌, ◌≤◌, ◌≡◌, refl, sym, ap, inl, inr, true, false, ◌&&◌, none, some, List,
  [], ◌∷◌, arith, Bool-cases, Option-cases, ltb,
}
use library_of_context.Models.{Str, str_eq, ContextEvent}
use library_of_context.Dict
use library_of_context.Store.Rows.{count_where}
use library_of_context.Store.Tables.{Store, OutboxRow, in_thread, is_active, is_claimed, is_null}
use library_of_context.Store.Positions.{get_elem?, get-exists, get-lt-length}
use library_of_context.Store.Events.{last_sequence, count_thread_events}
use library_of_context.Store.Outbox.{first_missing, thread_watermarks}
use library_of_context.Store.Serial.{SameThread}
use library_of_context.Store.Steps.{Reach, IsValid}
use library_of_context.Store.Validity.{Reach-IsValid}

-- A database just created.
abbrev pub empty : Store
empty = record { records = []; heads = []; events = []; outbox = [] }

pub empty-IsValid : IsValid empty
unfolding last_sequence count_where Dict.get
empty-IsValid = record {
  serial = record {
    follows = λ i j o p g. absurd (ground (arith, g));
    lively = λ i o g. absurd (ground (arith, g));
    headed = λ i o g. absurd (ground (arith, g));
  };
  paired = record { sized = refl; matched = λ i o g. absurd (ground (arith, g)) };
  numbered = record {
    positive = λ i e g. absurd (ground (arith, g));
    covered = λ namespace session_id k pos le. absurd (ground arith);
    counted = λ namespace session_id. ground arith;
  };
}

-- In every state reached from a new database, an event is not claimed for indexing while an
-- event of its thread with a smaller sequence number is unfinished.
pub Reach-in_order :
    (s : Store)
    → Reach empty s
    → (i j : ℕ) (o q : OutboxRow) → get_elem? s.outbox i ≡ some o
    → get_elem? s.outbox j ≡ some q
    → SameThread o q
    → o.sequence < q.sequence
    → is_claimed q ≡ true
    → is_active o ≡ false
Reach-in_order s r i j o q gi gj same lt claimed =
    let v = Reach-IsValid r empty-IsValid in
    elim (Bool-cases (ltb i j)) [
      | inl before ↦
          let f = v.serial.follows i j o q gi gj (ground arith) same in ground (arith, f.exclusive)
      | inr after ↦ elim (Bool-cases (ltb j i)) [
        | inl back ↦
            let f = v.serial.follows j i q o gj gi (ground arith) (sym same.0, sym same.1) in
            absurd (omega (arith, f.later))
        | inr one ↦
            let e : i ≡ j = ground arith in
            let eq : some o ≡ some q = cc (gi, gj, ap (get_elem? s.outbox) e) in
            absurd (ground (arith, eq))
      ]
    ]

-- In every state reached from a new database, two rows of the outbox of one thread that both
-- carry a claim are one row.
pub Reach-one_claim :
    (s : Store)
    → Reach empty s
    → (i j : ℕ) (o q : OutboxRow) → get_elem? s.outbox i ≡ some o
    → get_elem? s.outbox j ≡ some q
    → SameThread o q
    → is_claimed o ≡ true
    → is_claimed q ≡ true
    → i ≡ j
Reach-one_claim s r i j o q gi gj same claimed_o claimed_q =
    let v = Reach-IsValid r empty-IsValid in
    elim (Bool-cases (ltb i j)) [
      | inl before ↦
          let f = v.serial.follows i j o q gi gj (ground arith) same in
          absurd (ground (arith, f.exclusive, v.serial.lively i o gi))
      | inr after ↦ elim (Bool-cases (ltb j i)) [
        | inl back ↦
            let f = v.serial.follows j i q o gj gi (ground arith) (sym same.0, sym same.1) in
            absurd (ground (arith, f.exclusive, v.serial.lively j q gj))
        | inr one ↦ ground arith
      ]
    ]

-- In every state reached from a new database, `count_thread_events` is the number of rows of the
-- thread, and the thread has an event with each sequence number from 1 to it.
pub Reach-count_thread_events :
    (s : Store)
    → Reach empty s
    → (namespace session_id : Str)
    → (count_thread_events s namespace session_id
        ≡ count_where (in_thread namespace session_id) s.events)
      × ((k : ℕ)
          → 0 < k
          → k ≤ count_thread_events s namespace session_id
          → (i : ℕ) × (e : ContextEvent) × (get_elem? s.events i ≡ some e)
            × (in_thread namespace session_id e ≡ true)
            × (e.sequence ≡ k))
unfolding count_thread_events in_thread
Reach-count_thread_events s r namespace session_id =
    let v = Reach-IsValid r empty-IsValid in
    (
      sym (v.numbered.counted namespace session_id),
      λ k pos le.
          let (i, e, g, en, es, eq) = v.numbered.covered namespace session_id k pos le in
          (
            i,
            e,
            g,
            ground (
              arith,
              str_eq.beq_iff e.namespace namespace,
              str_eq.beq_iff e.session_id session_id,
            ),
            eq,
          ),
    )

module _ (namespace session_id : Str) where
  first_missing-none :
      (events : List ContextEvent)
      → first_missing namespace session_id events ≡ none
      → (i : ℕ) (e : ContextEvent) → get_elem? events i ≡ some e
      → in_thread namespace session_id e ≡ true
      → is_null e.indexed_at ≡ false
  unfolding first_missing
  first_missing-none [] h i e g t = absurd (ground (arith, g))
  first_missing-none (x ∷ events) h zero e g t = ground arith
  first_missing-none (x ∷ events) h (suc i) e g t = first_missing-none events (ground arith) i e g t

  first_missing-below :
      (events : List ContextEvent) (m : ℕ)
      → first_missing namespace session_id events ≡ some m
      → (i : ℕ) (e : ContextEvent) → get_elem? events i ≡ some e
      → in_thread namespace session_id e ≡ true
      → e.sequence < m
      → is_null e.indexed_at ≡ false
  unfolding first_missing
  first_missing-below [] m h i e g t lt = absurd (ground (arith, g))
  first_missing-below (x ∷ events) m h zero e g t lt = ground arith
  first_missing-below (x ∷ events) m h (suc i) e g t lt =
      elim (Option-cases (first_missing namespace session_id events)) [
        | inl absent ↦ first_missing-none events absent i e g t
        | inr (k, found) ↦ first_missing-below events k found i e g t (ground arith)
      ]

  first_missing-reached :
      (events : List ContextEvent) (m : ℕ)
      → first_missing namespace session_id events ≡ some m
      → (k : ℕ) × (x : ContextEvent) × (get_elem? events k ≡ some x)
        × ((in_thread namespace session_id x && is_null x.indexed_at) ≡ true)
        × (x.sequence ≡ m)
  unfolding first_missing
  first_missing-reached [] m h = absurd (ground (arith, h))
  first_missing-reached (x ∷ events) m h =
      let Goal : Type 0 =
        (k : ℕ) × (y : ContextEvent) × (get_elem? (x ∷ events) k ≡ some y)
        × ((in_thread namespace session_id y && is_null y.indexed_at) ≡ true)
        × (y.sequence ≡ m) in
      let later : (n : ℕ) → first_missing namespace session_id events ≡ some n → n ≡ m → Goal =
        λ n found same.
          let (k, y, g, hit, eq) = first_missing-reached events n found in
          (suc k, y, g, hit, cc (eq, same)) in
      elim (Bool-cases (in_thread namespace session_id x && is_null x.indexed_at)) [
        | inl hit ↦ elim (Option-cases (first_missing namespace session_id events)) [
          | inl absent ↦ (0, x, refl, hit, ground arith)
          | inr (n, found) ↦ elim (Bool-cases (ltb n x.sequence)) [
            | inl smaller ↦ later n found (ground arith)
            | inr first ↦ (0, x, refl, hit, ground arith)
          ]
        ]
        | inr miss ↦ later m (ground arith) refl
      ]

-- In every state reached from a new database, with the watermarks of any thread: those that count
-- what is indexed do not pass what is recorded, every event of the thread up to them is indexed,
-- and if they are below what is recorded, then the next event of the thread is not indexed.
pub Reach-thread_watermarks :
    (s : Store)
    → Reach empty s
    → (namespace session_id : Str)
    → let w = thread_watermarks s namespace session_id in
      (w.indexed_through ≤ w.recorded_through)
      × (w.embedded_through ≡ w.indexed_through)
      × ((i : ℕ) (e : ContextEvent)
          → get_elem? s.events i ≡ some e
          → in_thread namespace session_id e ≡ true
          → e.sequence ≤ w.indexed_through
          → is_null e.indexed_at ≡ false)
      × (w.indexed_through < w.recorded_through
          → (i : ℕ) × (e : ContextEvent) × (get_elem? s.events i ≡ some e)
            × ((in_thread namespace session_id e && is_null e.indexed_at) ≡ true)
            × (e.sequence ≡ w.indexed_through + 1))
unfolding thread_watermarks in_thread
Reach-thread_watermarks s r namespace session_id =
    let v = Reach-IsValid r empty-IsValid in
    elim (Option-cases (first_missing namespace session_id s.events)) [
      | inl absent ↦ (
        ground arith,
        refl,
        λ i e g t le. first_missing-none namespace session_id s.events absent i e g t,
        λ lt. absurd (ground arith),
      )
      | inr (m, found) ↦
          let (k, x, g, hit, eq) = first_missing-reached namespace session_id s.events m found in
          let pos = v.numbered.positive k x g in
          let size = get-lt-length s.events k x g in
          let (o, go) = get-exists s.outbox k (ground (arith, v.paired.sized)) in
          let (y, gy, m') = v.paired.matched k o go in
          let same : some x ≡ some y = cc (g, gy) in
          (
            ground (
              arith,
              v.serial.headed k o go,
              m'.sequence,
              m'.namespace,
              m'.session,
              same,
              str_eq.beq_iff x.namespace namespace,
              str_eq.beq_iff x.session_id session_id,
            ),
            refl,
            λ i e g t le.
                first_missing-below namespace session_id s.events m found i e g t (ground arith),
            λ lt. (k, x, g, hit, ground arith),
          )
    ]
