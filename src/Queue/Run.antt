-- ===== src/Queue/Run.antt =====
-- Threads that share a queue: one offers, workers take an item, and complete what they took.
use mathlib.Core.Path.{subst}
use library_of_context.Prelude.{
  sym, max, ℕ, ◌+◌, ◌-◌, ◌≤◌, ◌<◌, ◌≡◌, true, false, ◌||◌, some, List, [], ◌∷◌, ◌++◌, length,
  length-append, ok, Eq, arith,
}
use library_of_context.Dict.{
  length-discard_mem, elem, discard, Unique, Unique-snoc, Unique-discard, elem-append, elem-discard,
}
use library_of_context.Queue.Defs.{
  UniqueWorkQueue, init, offer, get, discard_pending, task_done, available,
}

-- The queue, the items that workers hold, and how many workers stand between the two halves of
-- `complete`.
pub record Shared {ℓ} (T : Type ℓ) : Type ℓ where
  pub q : UniqueWorkQueue T
  pub held : List T
  pub finishing : ℕ

module _ {ℓ} {T : Type ℓ} ⦃e : Eq T⦄ where
  -- One atomic step of some thread. A worker completes only an item that it holds.
  pub data Step (s t : Shared T) : Type ℓ where
    offers : (item : T) → t ≡ record s { q = (offer s.q item).0 } → Step s t
    takes :
        (item : T) (q' : UniqueWorkQueue T)
        → get s.q ≡ some (item, q')
        → t ≡ record s { q = q'; held = s.held ++ item ∷ [] }
        → Step s t
    discards :
        (item : T)
        → elem item s.held ≡ true
        → t ≡ record {
          q = discard_pending s.q item;
          held = discard item s.held;
          finishing = s.finishing + 1;
        }
        → Step s t
    finishes :
        (q' : UniqueWorkQueue T)
        → 0 < s.finishing
        → task_done s.q ≡ ok q'
        → t ≡ record s { q = q'; finishing = s.finishing - 1 }
        → Step s t

  pub data Reach (s : Shared T) : Shared T → Type ℓ where
    here : Reach s s
    next : {t u : Shared T} → Reach s t → Step t u → Reach s u

  pub record IsValid (s : Shared T) : Type ℓ where
    pub bounded : length s.q.queue ≤ s.q.capacity
    pub counted : s.q.unfinished_tasks ≡ length s.q.queue + length s.held + s.finishing
    pub sized : length s.q.pending ≡ length s.q.queue + length s.held
    pub distinct : Unique s.q.pending
    pub queue_distinct : Unique s.q.queue
    pub held_distinct : Unique s.held
    pub apart : (x : T) → elem x s.q.queue ≡ true → elem x s.held ≡ false
    pub members : (x : T) → elem x s.q.pending ≡ (elem x s.q.queue || elem x s.held)

  offers-IsValid :
      (s : Shared T) (item : T) → IsValid s → IsValid (record s { q = (offer s.q item).0 })
  unfolding offer
  offers-IsValid s item v =
      let q = s.q.queue in
      let new = v.members item in
      record {
        bounded = ground (arith, length-append q (item ∷ []));
        counted = ground (arith, length-append q (item ∷ []));
        sized = ground (arith, length-append q (item ∷ []), length-append s.q.pending (item ∷ []));
        distinct = ground (arith, Unique-snoc item s.q.pending);
        queue_distinct = ground (arith, new, Unique-snoc item q);
        held_distinct = v.held_distinct;
        apart = λ x.
            unfold elem in
            ground (arith, new, v.apart x, elem-append x q (item ∷ []), e.beq_iff item x);
        members = λ x.
            unfold elem in
            ground (
              arith,
              v.members x,
              elem-append x q (item ∷ []),
              elem-append x s.q.pending (item ∷ []),
            );
      }

  takes-IsValid :
      (s : Shared T) (item : T) (q' : UniqueWorkQueue T)
      → get s.q ≡ some (item, q')
      → IsValid s
      → IsValid (record s { q = q'; held = s.held ++ item ∷ [] })
  unfolding get elem
  takes-IsValid s item q' h v = record {
    bounded = ground arith;
    counted = ground (arith, length-append s.held (item ∷ []));
    sized = ground (arith, length-append s.held (item ∷ []));
    distinct = ground arith;
    queue_distinct = ground arith;
    held_distinct = ground (arith, v.apart item, e.beq_iff item item, Unique-snoc item s.held);
    apart = λ x. ground (arith, v.apart x, e.beq_iff item x, elem-append x s.held (item ∷ []));
    members = λ x. ground (arith, v.members x, elem-append x s.held (item ∷ []));
  }

  discards-IsValid :
      (s : Shared T) (item : T)
      → elem item s.held ≡ true
      → IsValid s
      → IsValid (record {
        q = discard_pending s.q item;
        held = discard item s.held;
        finishing = s.finishing + 1;
      })
  unfolding discard_pending
  discards-IsValid s item h v = record {
    bounded = v.bounded;
    counted = ground (arith, length-discard_mem item s.held);
    sized = ground (
      arith,
      length-discard_mem item s.held,
      length-discard_mem item s.q.pending,
      v.members item,
    );
    distinct = Unique-discard item s.q.pending v.distinct;
    queue_distinct = v.queue_distinct;
    held_distinct = Unique-discard item s.held v.held_distinct;
    apart = λ x. ground (arith, v.apart x, elem-discard item x s.held);
    members = λ x. ground (
      arith,
      v.members x,
      v.apart x,
      e.beq_iff item x,
      elem-discard item x s.held,
      elem-discard item x s.q.pending,
    );
  }

  finishes-IsValid :
      (s : Shared T) (q' : UniqueWorkQueue T)
      → 0 < s.finishing
      → task_done s.q ≡ ok q'
      → IsValid s
      → IsValid (record s { q = q'; finishing = s.finishing - 1 })
  unfolding task_done
  finishes-IsValid s q' h k v = record {
    bounded = ground arith;
    counted = ground arith;
    sized = ground arith;
    distinct = ground arith;
    queue_distinct = ground arith;
    held_distinct = v.held_distinct;
    apart = λ x. ground (arith, v.apart x);
    members = λ x. ground (arith, v.members x);
  }

  Step-IsValid : {s t : Shared T} → Step s t → IsValid s → IsValid t
  Step-IsValid {s} (offers item p) v = subst IsValid (sym p) (offers-IsValid s item v)
  Step-IsValid {s} (takes item q' h p) v = subst IsValid (sym p) (takes-IsValid s item q' h v)
  Step-IsValid {s} (discards item h p) v = subst IsValid (sym p) (discards-IsValid s item h v)
  Step-IsValid {s} (finishes q' h k p) v = subst IsValid (sym p) (finishes-IsValid s q' h k v)

  -- Whatever the threads do from a valid state, the state stays valid: the queue is within its
  -- capacity, an item waits in it at most once and never while a worker holds it, and the pending
  -- set is exactly the waiting and the held items.
  pub Reach-IsValid : {s t : Shared T} → IsValid s → Reach s t → IsValid t
  Reach-IsValid v here = v
  Reach-IsValid v (next r st) = Step-IsValid st (Reach-IsValid v r)

  pub init-IsValid :
      (capacity : ℕ) {q : UniqueWorkQueue T}
      → init capacity ≡ ok q
      → IsValid (record { q = q; held = []; finishing = 0 })
  unfolding init
  init-IsValid capacity {q} h = record {
    bounded = ground arith;
    counted = ground arith;
    sized = ground arith;
    distinct = ground arith;
    queue_distinct = ground arith;
    held_distinct = tt;
    apart = λ x. unfold elem in ground arith;
    members = λ x. unfold elem in ground arith;
  }

  -- From any state that the threads reach from a new queue: a worker that has discarded its item
  -- can always finish, since `task_done` does not raise. An offer is refused only when the queue
  -- is full, and `available` counts exactly the places that neither waiting nor held items take.
  pub queue_guarantees :
      (capacity : ℕ) {q : UniqueWorkQueue T} (t : Shared T)
      → init capacity ≡ ok q
      → Reach (record { q = q; held = []; finishing = 0 }) t
      → (0 < t.finishing → (q' : UniqueWorkQueue T) × (task_done t.q ≡ ok q'))
        × ((item : T) → (offer t.q item).1 ≡ false → length t.q.queue ≡ t.q.capacity)
        × (available t.q + (length t.q.queue + length t.held)
            ≡ max t.q.capacity (length t.q.queue + length t.held))
  unfolding task_done offer available
  queue_guarantees capacity t h r =
      let v = Reach-IsValid (init-IsValid capacity h) r in
      (
        λ p. (record t.q { unfinished_tasks = t.q.unfinished_tasks - 1 }, ground arith),
        λ item. ground arith,
        ground arith,
      )
