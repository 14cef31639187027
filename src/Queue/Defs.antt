-- ===== src/Queue/Defs.antt =====
-- The state and the methods. `queue.Queue` is a list with its bound and its count of unfinished
-- tasks. `complete` takes two steps, because it gives the lock back before `task_done`.
use library_of_context.Prelude.{
  ℕ, ◌+◌, ◌-◌, Bool, true, false, Option, none, some, List, [], ◌∷◌, ◌++◌, leb, ltb, if◌then◌else◌,
  length, Result, ok, raise, value_error, Eq,
}
use library_of_context.Dict.{elem, discard}

pub record UniqueWorkQueue {ℓ} (T : Type ℓ) : Type ℓ where
  pub capacity : ℕ
  pub queue : List T
  pub unfinished_tasks : ℕ
  pub pending : List T

unfoldable pub init {ℓ} : {T : Type ℓ} → ℕ → Result (UniqueWorkQueue T)
init capacity =
    if ltb capacity 1
    then raise value_error
    else ok (record { capacity = capacity; queue = []; unfinished_tasks = 0; pending = [] })

pub record QueueStats : Type 0 where
  pub queued : ℕ
  pub pending : ℕ
  pub capacity : ℕ

module _ {ℓ} {T : Type ℓ} ⦃e : Eq T⦄ where
  unfoldable pub offer : UniqueWorkQueue T → T → UniqueWorkQueue T × Bool
  offer q item =
      if elem item q.pending
      then (q, true)
      else if leb q.capacity (length q.queue)
      then (q, false)
      else (
        record q {
          queue = q.queue ++ item ∷ [];
          unfinished_tasks = q.unfinished_tasks + 1;
          pending = q.pending ++ item ∷ [];
        },
        true,
      )

  -- `complete`, up to the release of the lock
  unfoldable pub discard_pending : UniqueWorkQueue T → T → UniqueWorkQueue T
  discard_pending q item = record q { pending = discard item q.pending }

-- `none` is `queue.Empty`, after the timeout.
unfoldable pub get {ℓ} : {T : Type ℓ} → UniqueWorkQueue T → Option (T × UniqueWorkQueue T)
get q = elim q.queue [ [] ↦ none | item ∷ rest ↦ some (item, record q { queue = rest }) ]

-- `self._queue.task_done()` raises when more tasks are done than were put.
unfoldable pub task_done {ℓ} : {T : Type ℓ} → UniqueWorkQueue T → Result (UniqueWorkQueue T)
task_done q =
    if leb q.unfinished_tasks 0
    then raise value_error
    else ok (record q { unfinished_tasks = q.unfinished_tasks - 1 })

unfoldable pub complete {ℓ} :
    {T : Type ℓ} ⦃e : Eq T⦄ → UniqueWorkQueue T → T → Result (UniqueWorkQueue T)
unfolding discard_pending task_done
complete q item = task_done (discard_pending q item)

unfoldable pub available {ℓ} : {T : Type ℓ} → UniqueWorkQueue T → ℕ
available q = q.capacity - length q.pending

-- The fourth entry of the source, `pending / capacity`, is the quotient of two of these.
unfoldable pub stats {ℓ} : {T : Type ℓ} → UniqueWorkQueue T → QueueStats
stats q = record { queued = length q.queue; pending = length q.pending; capacity = q.capacity }
