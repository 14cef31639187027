-- ===== src/Indexing/Defs.antt =====
-- The state and the methods of `OutboxIndexer`. Times count ticks. `prepare` is what
-- `ContextCache._prepare_record` makes of an event and its metadata, and `text` is `str(exc)`.
use Prim.Native.Nat.{◌^◌}
use library_of_context.Prelude.{
  ℕ, ◌+◌, ◌-◌, ◌*◌, ◌≡◌, ◌↔◌, Bool, true, false, ◌&&◌, Option, none, some, List, [], ◌∷◌, ◌==◌,
  ==_iff, leb, ltb, if◌then◌else◌, length, max, min, arith, Eq, Result, ok, raise, ◌>>=◌, Error,
  value_error, runtime_error, lease_lost,
}
use library_of_context.Models.{Str, str_eq, pos, str, num, bool, Metadata, ContextEvent}
use library_of_context.Dict
use library_of_context.Text.{codes}
use library_of_context.Queue
use library_of_context.Queue.Defs.{UniqueWorkQueue}
use library_of_context.Store.{
  Store, ContextRecord, OutboxClaim, get_thread_event, claim_outbox_events, complete_outbox_claim,
  mark_thread_event_indexed, fail_outbox_event, release_outbox_claim,
}

unfoldable pub claim_beq : OutboxClaim → OutboxClaim → Bool
claim_beq a b =
    str_eq.beq a.namespace b.namespace
    && str_eq.beq a.event_id b.event_id
    && str_eq.beq a.session_id b.session_id
    && a.sequence == b.sequence
    && a.attempts == b.attempts
    && str_eq.beq a.claim_token b.claim_token

pub claim_beq_iff : (a b : OutboxClaim) → (claim_beq a b ≡ true) ↔ (a ≡ b)
unfolding claim_beq
claim_beq_iff a b = ground (
  arith,
  str_eq.beq_iff a.namespace b.namespace,
  str_eq.beq_iff a.event_id b.event_id,
  str_eq.beq_iff a.session_id b.session_id,
  ==_iff a.sequence b.sequence,
  ==_iff a.attempts b.attempts,
  str_eq.beq_iff a.claim_token b.claim_token,
)

instance abbrev pub claim_eq : Eq OutboxClaim
claim_eq = record { beq = claim_beq; beq_iff = claim_beq_iff }

pub record Indexer : Type 0 where
  pub worker_count : ℕ
  pub lease_seconds : ℕ
  pub max_attempts : ℕ
  pub queue : UniqueWorkQueue OutboxClaim
  pub owner_id : Str
  pub stop : Bool
  pub last_error : Option Error

unfoldable pub indexer : ℕ → ℕ → ℕ → ℕ → ℕ → Str → Result Indexer
indexer capacity worker_count lease_seconds max_attempts shutdown_timeout_seconds owner_id =
    if ltb worker_count 1
    then raise value_error
    else if ltb max_attempts 1
    then raise value_error
    else if shutdown_timeout_seconds == 0
    then raise value_error
    else (Queue.init capacity >>= λ queue. ok (record {
      worker_count = worker_count;
      lease_seconds = max 1000000 lease_seconds;
      max_attempts = max_attempts;
      queue = queue;
      owner_id = owner_id;
      stop = false;
      last_error = none;
    }))

-- The loop over the claims, until the queue refuses one.
unfoldable pub offer_all :
    UniqueWorkQueue OutboxClaim → List OutboxClaim → UniqueWorkQueue OutboxClaim × Bool
offer_all q [] = (q, true)
offer_all q (claim ∷ claims) =
    let (offered, taken) = Queue.offer q claim in
    let rest = offer_all offered claims in if taken then rest else (offered, false)

-- With the store and the queue as an exception leaves them: the claims are committed before they
-- are offered.
unfoldable pub scan_outbox :
    ℕ → (ℕ → Str) → Store → Indexer → Store × UniqueWorkQueue OutboxClaim × Option Error
unfolding offer_all
scan_outbox now tokens s x =
    let available = min (Queue.available x.queue) (x.worker_count - length x.queue.pending) in
    let claimed : Store × UniqueWorkQueue OutboxClaim × Option Error =
      elim (claim_outbox_events now tokens s x.owner_id available (pos x.lease_seconds)) [
        | raise e ↦ (s, x.queue, some e)
        | ok (t, claims) ↦
            let (queue, all) = offer_all x.queue claims in
            (t, queue, if all then none else some runtime_error)
      ] in
    if available == 0 then (s, x.queue, none) else claimed

-- The second component is the answer.
unfoldable pub scan_safely : ℕ → (ℕ → Str) → Store → Indexer → Store × Indexer × Bool
unfolding scan_outbox
scan_safely now tokens s x =
    let (t, queue, error) = scan_outbox now tokens s x in
    (t, record x { queue = queue; last_error = error }, elim error [ none ↦ true | some e ↦ false ])

unfoldable pub enqueue : ℕ → (ℕ → Str) → Store → Indexer → Store × Indexer × Bool
unfolding scan_safely
enqueue now tokens s x = if x.stop then (s, x, false) else scan_safely now tokens s x

unfoldable pub index_metadata : ContextEvent → Metadata
index_metadata e =
    let kind = Dict.put (codes "kind") (str (codes "conversation")) e.metadata in
    let session = Dict.put (codes "session_id") (str e.session_id) kind in
    let role = Dict.put (codes "role") (str e.role) session in
    let turn = Dict.put (codes "turn") (num e.sequence) role in
    let event = Dict.put (codes "event_id") (str e.event_id) turn in
    Dict.put (codes "protected") (bool e.is_protected) event

-- `random.uniform` gave `jitter`.
unfoldable pub retry_delay : ℕ → ℕ → ℕ
retry_delay attempts jitter = min 30000000 (250000 * 2 ^ min attempts 7) + jitter

-- `except OutboxLeaseLost`
unfoldable pub is_lease_lost : Error → Bool
is_lease_lost lease_lost = true
is_lease_lost _ = false

-- How the work on a claim ends: with a value, with an `Exception`, or with another `BaseException`,
-- which ends the thread. The modelled store operations raise the former only; the preparation of a
-- record may end in each way.
pub data Outcome (A : Type 0) : Type 0 where
  returned : A → Outcome A
  raised : Error → Outcome A
  fatal : Error → Outcome A

abbrev pub of_result : {A : Type 0} → Result A → Outcome A
of_result (ok a) = returned a
of_result (raise e) = raised e

module _ (prepare : ContextEvent → Metadata → Outcome ContextRecord) (text : Error → Str) where
  -- `stop` is the flag when the record is prepared.
  unfoldable pub index : ℕ → Bool → Store → ContextEvent → OutboxClaim → Outcome Store
  unfolding index_metadata
  index now stop s event claim = elim (prepare event (index_metadata event)) [
    | fatal e ↦ fatal e
    | raised e ↦ raised e
    | returned r ↦
        if stop
        then returned s
        else of_result (
            complete_outbox_claim s r event.session_id event.event_id now claim.claim_token
            >>= λ completed. ok completed.0)
  ]

  -- The body of the `try` of `_run`.
  unfoldable pub work : ℕ → Bool → Store → OutboxClaim → Outcome Store
  unfolding index
  work now stop s claim =
      elim (get_thread_event s claim.namespace claim.session_id claim.event_id) [
        | none ↦ raised runtime_error
        | some event ↦ elim event.indexed_at [
          | none ↦ index now stop s event claim
          | some at ↦ of_result (
              mark_thread_event_indexed s claim.namespace claim.session_id claim.event_id
                (if at == 0 then now else at) (some claim.claim_token))
        ]
      ]

  -- `fail_outbox_event` of the `except`, where a lost lease is passed over.
  unfoldable pub give_up : ℕ → ℕ → ℕ → Store → Indexer → OutboxClaim → Error → Result Store
  unfolding retry_delay is_lease_lost
  give_up terminal_now now jitter s x claim error =
      elim (fail_outbox_event terminal_now now s claim.namespace claim.session_id claim.event_id
        (text error) (pos (retry_delay claim.attempts jitter)) (some claim.claim_token)
        (leb x.max_attempts (claim.attempts + 1))) [
          | ok t ↦ ok t
          | raise e ↦ if is_lease_lost e then ok s else raise e
        ]

  -- `_release_fatal_claim`, with the error that ends the thread
  unfoldable pub release_fatal_claim : Store → Indexer → OutboxClaim → Error → Store × Indexer
  release_fatal_claim s x claim error = (
    (release_outbox_claim s claim.namespace claim.session_id claim.event_id claim.claim_token).0,
    record x { stop = true; last_error = some error },
  )

  -- One claim in `_run`, up to the `finally`. The last component is whether the thread lives on.
  unfoldable pub process_claim :
      ℕ → ℕ → ℕ → ℕ → Bool → Store → Indexer → OutboxClaim → Result (Store × Indexer × Bool)
  unfolding work give_up release_fatal_claim
  process_claim now terminal_now later jitter stop s x claim = elim (work now stop s claim) [
    | returned t ↦ ok (t, record x { last_error = none }, true)
    | raised e ↦
        if is_lease_lost e
        then ok (s, x, true)
        else (give_up terminal_now later jitter s x claim e >>= λ t.
            ok (t, record x { last_error = some e }, true))
    | fatal e ↦ let (t, y) = release_fatal_claim s x claim e in ok (t, y, false)
  ]
