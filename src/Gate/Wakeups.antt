-- ===== src/Gate/Wakeups.antt =====
-- The waits of `ReadWriteGate`: the threads that sleep in `wait_for` and those that a notification
-- has woken. Between two waits a thread holds the lock of the condition, so what it does there is
-- one step.
use mathlib.Core.Path.{subst, sym}
use library_of_context.Prelude.{
  ℕ, ◌+◌, ◌-◌, ◌<◌, ◌≡◌, refl, true, false, not, ◌&&◌, none, some, arith, ◌==◌, if◌then◌else◌,
  Result, ok, ◌>>=◌, nat_eq,
}
use library_of_context.Dict.{put}
use library_of_context.Gate.Defs.{
  Gate, open_gate, depth, enter_read, exit_read, ask_write, enter_write, leave_wait, exit_write,
}

-- `given_up` counts the waits to write that have ended with an exception.
pub record Waiters : Type 0 where
  pub gate : Gate
  pub readers_asleep : ℕ
  pub readers_awake : ℕ
  pub writers_asleep : ℕ
  pub writers_awake : ℕ
  pub given_up : ℕ

-- `self._condition.notify_all()`
unfoldable pub notify_all : Waiters → Waiters
notify_all w = record w {
  readers_asleep = 0;
  readers_awake = w.readers_awake + w.readers_asleep;
  writers_asleep = 0;
  writers_awake = w.writers_awake + w.writers_asleep;
}

-- A thread comes to `read`: it enters or falls asleep.
unfoldable pub arrive_read : ℕ → Waiters → Waiters
arrive_read thread w = elim (enter_read thread w.gate) [
  | none ↦ record w { readers_asleep = w.readers_asleep + 1 }
  | some g ↦ record w { gate = g }
]

-- A woken reader tests again.
unfoldable pub retry_read : ℕ → Waiters → Waiters
unfolding arrive_read
retry_read thread w = arrive_read thread (record w { readers_awake = w.readers_awake - 1 })

unfoldable pub leave_read : ℕ → Waiters → Waiters
unfolding notify_all
leave_read thread w =
    let left = record w { gate = exit_read thread w.gate } in
    if left.gate.readers == 0 then notify_all left else left

-- The test of a writer that is counted as waiting.
unfoldable pub try_write : Waiters → Waiters
try_write w = elim (enter_write w.gate) [
  | none ↦ record w { writers_asleep = w.writers_asleep + 1 }
  | some g ↦ record w { gate = g }
]

unfoldable pub arrive_write : ℕ → Waiters → Result Waiters
unfolding try_write
arrive_write thread w = ask_write thread w.gate >>= λ g. ok (try_write (record w { gate = g }))

unfoldable pub retry_write : Waiters → Waiters
unfolding try_write
retry_write w = try_write (record w { writers_awake = w.writers_awake - 1 })

unfoldable pub leave_write : Waiters → Waiters
unfolding notify_all
leave_write w = notify_all (record w { gate = exit_write w.gate })

-- The wait of a writer raises: its `finally` tells nobody.
unfoldable pub give_up_write : Waiters → Waiters
give_up_write w = record w { gate = leave_wait w.gate; given_up = w.given_up + 1 }

pub data Step (w u : Waiters) : Type 0 where
  arrives_read : (thread : ℕ) → u ≡ arrive_read thread w → Step w u
  retries_read : (thread : ℕ) → 0 < w.readers_awake → u ≡ retry_read thread w → Step w u
  leaves_read :
      (thread : ℕ) → 0 < depth thread w.gate.read_depth → u ≡ leave_read thread w → Step w u
  arrives_write : (thread : ℕ) → arrive_write thread w ≡ ok u → Step w u
  retries_write : 0 < w.writers_awake → u ≡ retry_write w → Step w u
  leaves_write : w.gate.writer ≡ true → u ≡ leave_write w → Step w u
  gives_up_asleep :
      0 < w.writers_asleep
      → u ≡ give_up_write (record w { writers_asleep = w.writers_asleep - 1 })
      → Step w u
  gives_up_awake :
      0 < w.writers_awake
      → u ≡ give_up_write (record w { writers_awake = w.writers_awake - 1 })
      → Step w u

pub data Reach : Waiters → Type 0 where
  here : Reach (record {
    gate = open_gate;
    readers_asleep = 0;
    readers_awake = 0;
    writers_asleep = 0;
    writers_awake = 0;
    given_up = 0;
  })
  next : {w u : Waiters} → Reach w → Step w u → Reach u

-- Who sleeps has a reason to.
pub record IsHeard (w : Waiters) : Type 0 where
  pub counted : w.gate.waiting_writers ≡ w.writers_asleep + w.writers_awake
  pub writers : 0 < w.writers_asleep → (not w.gate.writer && w.gate.readers == 0) ≡ false
  pub readers :
      w.given_up ≡ 0
      → 0 < w.readers_asleep
      → (not w.gate.writer && w.gate.waiting_writers == 0) ≡ false

arrive_read-IsHeard : (thread : ℕ) (w : Waiters) → IsHeard w → IsHeard (arrive_read thread w)
unfolding arrive_read enter_read
arrive_read-IsHeard thread w v = record {
  counted = ground (arith, v.counted);
  writers = ground (arith, v.writers);
  readers = ground (arith, v.readers);
}

try_write-IsHeard :
    (w : Waiters)
    → w.gate.waiting_writers ≡ w.writers_asleep + w.writers_awake + 1
    → (0 < w.writers_asleep → (not w.gate.writer && w.gate.readers == 0) ≡ false)
    → IsHeard (try_write w)
unfolding try_write enter_write
try_write-IsHeard w counted writers = record {
  counted = ground (arith, counted);
  writers = ground (arith, writers);
  readers = ground (arith, counted);
}

leave_read-IsHeard : (thread : ℕ) (w : Waiters) → IsHeard w → IsHeard (leave_read thread w)
unfolding leave_read exit_read notify_all
leave_read-IsHeard thread w v = record {
  counted = ground (arith, v.counted);
  writers = ground (arith, v.writers);
  readers = ground (arith, v.readers);
}

leave_write-IsHeard : (w : Waiters) → IsHeard w → IsHeard (leave_write w)
unfolding leave_write exit_write notify_all
leave_write-IsHeard w v = record {
  counted = ground (arith, v.counted);
  writers = ground arith;
  readers = ground arith;
}

arrive_write-IsHeard :
    (thread : ℕ) (w u : Waiters) → arrive_write thread w ≡ ok u → IsHeard w → IsHeard u
unfolding arrive_write ask_write
arrive_write-IsHeard thread w u h v =
    let asked : Waiters = record w {
      gate = record w.gate { waiting_writers = w.gate.waiting_writers + 1 };
    } in
    let result : try_write asked ≡ u = ground (arith, h) in
    subst IsHeard result
      (try_write-IsHeard asked (ground (arith, v.counted)) (ground (arith, v.writers)))

Step-IsHeard : {w u : Waiters} → Step w u → IsHeard w → IsHeard u
Step-IsHeard {w} {u} (arrives_read thread e) v =
    subst IsHeard (sym e) (arrive_read-IsHeard thread w v)
Step-IsHeard {w} {u} (retries_read thread p e) v = subst IsHeard (sym e) (
    unfold retry_read in
    arrive_read-IsHeard thread (record w { readers_awake = w.readers_awake - 1 })
      (record { counted = v.counted; writers = v.writers; readers = v.readers }))
Step-IsHeard {w} {u} (leaves_read thread p e) v =
    subst IsHeard (sym e) (leave_read-IsHeard thread w v)
Step-IsHeard {w} {u} (arrives_write thread e) v = arrive_write-IsHeard thread w u e v
Step-IsHeard {w} {u} (retries_write p e) v = subst IsHeard (sym e) (
    unfold retry_write in
    try_write-IsHeard (record w { writers_awake = w.writers_awake - 1 })
      (ground (arith, p, v.counted)) v.writers)
Step-IsHeard {w} {u} (leaves_write p e) v = subst IsHeard (sym e) (leave_write-IsHeard w v)
Step-IsHeard {w} {u} (gives_up_asleep p e) v = subst IsHeard (sym e) (
    unfold give_up_write leave_wait in
    record {
      counted = ground (arith, p, v.counted);
      writers = ground (arith, v.writers);
      readers = λ none_left. absurd (omega (arith, none_left));
    })
Step-IsHeard {w} {u} (gives_up_awake p e) v = subst IsHeard (sym e) (
    unfold give_up_write leave_wait in
    record {
      counted = ground (arith, p, v.counted);
      writers = v.writers;
      readers = λ none_left. absurd (omega (arith, none_left));
    })

Reach-IsHeard : {w : Waiters} → Reach w → IsHeard w
unfolding open_gate
Reach-IsHeard here = record {
  counted = refl;
  writers = λ p. absurd (omega (arith, p));
  readers = λ n p. absurd (omega (arith, p));
}
Reach-IsHeard (next r step) = Step-IsHeard step (Reach-IsHeard r)

-- In every state that the threads reach: while a writer sleeps, none could enter; and where no wait
-- to write has ended with an exception, while a reader sleeps, no thread that is outside could enter
-- a read. So where none has, and no thread is inside: if a writer waits, then one is awake and can
-- enter; if none waits, then no reader sleeps and every thread can enter a read.
pub Reach-wakes :
    (w : Waiters)
    → Reach w
    → (0 < w.writers_asleep → enter_write w.gate ≡ none)
      × (w.given_up ≡ 0
          → (0 < w.readers_asleep
              → (thread : ℕ) → depth thread w.gate.read_depth ≡ 0
              → enter_read thread w.gate ≡ none)
            × (w.gate.readers ≡ 0
                → w.gate.writer ≡ false
                → (0 < w.writers_asleep + w.writers_awake
                    → (0 < w.writers_awake) × (g : Gate) × (enter_write w.gate ≡ some g))
                  × (w.writers_asleep + w.writers_awake ≡ 0
                      → (w.readers_asleep ≡ 0)
                        × ((thread : ℕ) → (g : Gate) × (enter_read thread w.gate ≡ some g)))))
unfolding enter_write enter_read
Reach-wakes w r =
    let v = Reach-IsHeard r in
    let entering : ℕ → Gate = λ thread. record w.gate {
      readers = w.gate.readers + 1;
      read_depth = put thread (depth thread w.gate.read_depth + 1) w.gate.read_depth;
    } in
    (
      λ asleep. ground (arith, v.writers asleep),
      λ heard. (
        λ asleep thread outside. ground (arith, v.readers heard asleep, outside),
        λ nobody free. (
          λ waiting. (
            ground (arith, v.writers, nobody, free, waiting),
            record w.gate { writer = true; waiting_writers = w.gate.waiting_writers - 1 },
            ground (arith, nobody, free),
          ),
          λ none_waits. (
            ground (arith, v.readers heard, v.counted, nobody, free, none_waits),
            λ thread. (entering thread, ground (arith, v.counted, free, none_waits)),
          ),
        ),
      ),
    )
