-- ===== src/Tests/Threads.antt =====
-- The theorems on the gate, the work queue and the registry.
use library_of_context.Prelude.{
  ℕ, ◌+◌, ◌≡◌, ◌≤◌, refl, false, none, some, [], ◌∷◌, ok, raise, length, arith, nat_eq, max,
  capacity_error, ◌⊎◌, ◌<◌,
}
use library_of_context.Dict.{elem, get, put}
use library_of_context.Gate.Defs.{
  Gate, open_gate, ask_write, enter_write, enter_read, exit_read, leave_wait, depth,
}
use library_of_context.Gate.Exclusion.{Threads, Reach, here, next, asks, Reach-exclusion}
use library_of_context.Gate.Wakeups
use library_of_context.Gate.Wakeups.{
  Waiters, arrive_read, arrive_write, try_write, leave_read, notify_all, give_up_write,
  arrives_read, arrives_write, leaves_read, gives_up_asleep, Reach-wakes,
}
use library_of_context.Queue
use library_of_context.Queue.Defs.{init, offer, available, UniqueWorkQueue}
use library_of_context.Queue.Run.{Shared, queue_guarantees}
use library_of_context.Scopes.{ThreadKey, thread_key_eq}
use library_of_context.Ring.{RecentEventRing}
use library_of_context.Registry.Defs.{Registry, Entry, enter, leave, prune}
use library_of_context.Registry.Slots.{IsBounded, enter_lem, leave_lem, Entered}
use library_of_context.Store.Order.{empty}
use library_of_context.Tests.Data.{shelf, talk}

abbrev waiting : Threads
waiting = record {
  gate = record { readers = 0; writer = false; waiting_writers = 1; read_depth = [] };
  asking = 1;
  inside = [];
}

waiting-reached : Reach waiting
unfolding ask_write open_gate depth get
waiting-reached = next here (asks 7 waiting.gate refl refl)

Reach-exclusion_example : length waiting.inside ≤ 1
Reach-exclusion_example = (Reach-exclusion waiting waiting-reached).0

-- A thread reads, another waits to write and a third to read.
abbrev crowded : Waiters
crowded = record {
  gate = record { readers = 1; writer = false; waiting_writers = 1; read_depth = (1, 1) ∷ [] };
  readers_asleep = 1;
  readers_awake = 0;
  writers_asleep = 1;
  writers_awake = 0;
  given_up = 0;
}

crowded-reached : Wakeups.Reach crowded
unfolding arrive_read arrive_write try_write enter_read enter_write ask_write open_gate depth get
    put
crowded-reached =
    Wakeups.next
      (Wakeups.next (Wakeups.next Wakeups.here (arrives_read 1 refl)) (arrives_write 2 refl))
      (arrives_read 3 refl)

-- The reader has left and told the two others.
abbrev told : Waiters
told = record crowded {
  gate = record crowded.gate { readers = 0; read_depth = (1, 0) ∷ [] };
  readers_asleep = 0;
  readers_awake = 1;
  writers_asleep = 0;
  writers_awake = 1;
}

Reach-wakes_example : (g : Gate) × (enter_write told.gate ≡ some g)
unfolding leave_read exit_read notify_all depth get put
Reach-wakes_example =
    let facts =
      (Reach-wakes told (Wakeups.next crowded-reached (leaves_read 1 (omega arith) refl))).1 refl in
    let entered = (facts.1 refl refl).0 (omega arith) in (entered.1, entered.2)

-- The wait to write ends with an exception, and the reader sleeps on, though it could enter.
abbrev forgotten : Waiters
forgotten = record crowded {
  gate = record crowded.gate { waiting_writers = 0 };
  writers_asleep = 0;
  given_up = 1;
}

forgotten-reached :
    Wakeups.Reach forgotten
    × (forgotten.readers_asleep ≡ 1)
    × ((g : Gate) × (enter_read 3 forgotten.gate ≡ some g))
unfolding give_up_write leave_wait enter_read depth get
forgotten-reached =
    (Wakeups.next crowded-reached (gives_up_asleep (omega arith) refl), refl, (_, refl))

abbrev idle : UniqueWorkQueue ℕ
idle = record { capacity = 2; queue = []; unfinished_tasks = 0; pending = [] }

abbrev loaded : Shared ℕ
loaded = record {
  q = record { capacity = 2; queue = 5 ∷ []; unfinished_tasks = 1; pending = 5 ∷ [] };
  held = [];
  finishing = 0;
}

abbrev working : Shared ℕ
working = record {
  q = record { capacity = 2; queue = []; unfinished_tasks = 1; pending = 5 ∷ [] };
  held = 5 ∷ [];
  finishing = 0;
}

working-reached : Queue.Run.Reach (record { q = idle; held = []; finishing = 0 }) working
unfolding offer Queue.Defs.get elem
working-reached =
    let started : Queue.Run.Step (record { q = idle; held = []; finishing = 0 }) loaded =
      Queue.Run.offers 5 refl in
    Queue.Run.next (Queue.Run.next Queue.Run.here started) (
      Queue.Run.takes 5
        (record { capacity = 2; queue = []; unfinished_tasks = 1; pending = 5 ∷ [] }) refl refl)

queue_guarantees_example :
    available working.q + (length working.q.queue + length working.held)
    ≡ max working.q.capacity (length working.q.queue + length working.held)
unfolding init
queue_guarantees_example = (queue_guarantees 2 working refl working-reached).2

abbrev small : Registry
small = record {
  max_entries = 1;
  idle_ttl_seconds = 10;
  recent_events = 4;
  recent_tokens = 64;
  entries = [];
}

abbrev key : ThreadKey
key = record { collection = shelf; session_id = talk }

small-IsBounded : IsBounded small
unfolding get
small-IsBounded = record {
  positive = omega arith;
  few = omega arith;
  unique = tt;
  rings = λ j e held. absurd (ground (arith, held));
}

enter_lem_example :
    ((g : Registry) × (recent : RecentEventRing) × (enter 3 empty small key ≡ ok (g, recent))
      × Entered 3 small g key recent)
    ⊎ ((enter 3 empty small key ≡ raise capacity_error)
        × (get key (prune 3 10 []) ≡ none)
        × (1 ≤ length (prune 3 10 []))
        × ((j : ThreadKey) (e : Entry) → get j (prune 3 10 []) ≡ some e → 0 < e.leases))
enter_lem_example = enter_lem 3 empty small key small-IsBounded

leave_lem_example : IsBounded (leave 4 small key)
leave_lem_example = (leave_lem 4 small key small-IsBounded).0
