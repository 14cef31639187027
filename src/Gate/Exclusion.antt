-- ===== src/Gate/Exclusion.antt =====
-- Any number of threads at one gate, in any order.
use mathlib.Core.Path.{subst, sym}
use library_of_context.Prelude.{
  ℕ, ◌+◌, ◌-◌, ◌<◌, ◌≤◌, ◌≡◌, refl, ◌⊎◌, inl, inr, true, not, some, List, [], ◌∷◌, arith, ◌==◌, ok,
  nat_eq, length, sum_by,
}
use library_of_context.Dict.{Dict, get, put, keys, elem, discard, Unique, Unique-put}
use library_of_context.Gate.Defs.{
  Gate, open_gate, depth, enter_read, exit_read, ask_write, enter_write, leave_wait, exit_write,
}

-- The gate, with the threads that are inside the block of a `with gate.write()`, and how many wait
-- to be.
pub record Threads : Type 0 where
  pub gate : Gate
  pub asking : ℕ
  pub inside : List ℕ

pub data Step (c d : Threads) : Type 0 where
  reads :
      (thread : ℕ) (g : Gate)
      → enter_read thread c.gate ≡ some g
      → d ≡ record c { gate = g }
      → Step c d
  -- A thread leaves a read that it is in.
  unreads :
      (thread : ℕ)
      → 0 < depth thread c.gate.read_depth
      → d ≡ record c { gate = exit_read thread c.gate }
      → Step c d
  asks :
      (thread : ℕ) (g : Gate)
      → ask_write thread c.gate ≡ ok g
      → d ≡ record c { gate = g; asking = c.asking + 1 }
      → Step c d
  enters :
      (thread : ℕ) (g : Gate)
      → 0 < c.asking
      → enter_write c.gate ≡ some g
      → d ≡ record { gate = g; asking = c.asking - 1; inside = thread ∷ c.inside }
      → Step c d
  gives_up :
      0 < c.asking → d ≡ record c { gate = leave_wait c.gate; asking = c.asking - 1 } → Step c d
  leaves :
      (thread : ℕ)
      → elem thread c.inside ≡ true
      → d ≡ record c { gate = exit_write c.gate; inside = discard thread c.inside }
      → Step c d

pub data Reach : Threads → Type 0 where
  here : Reach (record { gate = open_gate; asking = 0; inside = [] })
  next : {c d : Threads} → Reach c → Step c d → Reach d

abbrev depth_of : ℕ × ℕ → ℕ
depth_of p = p.1

pub record IsExclusive (c : Threads) : Type 0 where
  pub counted : c.gate.readers ≡ sum_by depth_of c.gate.read_depth
  pub single : Unique (keys c.gate.read_depth)
  pub waits : c.gate.waiting_writers ≡ c.asking
  pub holds : (length c.inside ≡ 0) ⊎ ((length c.inside ≡ 1) × (c.gate.readers ≡ 0))
  pub flag : c.gate.writer ≡ not (length c.inside == 0)

sum-put :
    (k v : ℕ) (d : Dict ℕ ℕ)
    → Unique (keys d)
    → sum_by depth_of (put k v d) + depth k d ≡ sum_by depth_of d + v
unfolding put depth get
sum-put k v [] u = ground arith
sum-put k v ((j, w) ∷ d) u = ground (arith, sum-put k v d)

depth-le : (k : ℕ) (d : Dict ℕ ℕ) → depth k d ≤ sum_by depth_of d
unfolding depth get
depth-le k [] = ground arith
depth-le k ((j, w) ∷ d) = ground (arith, depth-le k d)

discard-single :
    (thread : ℕ) (inside : List ℕ)
    → elem thread inside ≡ true
    → length inside ≤ 1
    → length (discard thread inside) ≡ 0
unfolding elem discard
discard-single thread [] h le = absurd (ground arith)
discard-single thread (t ∷ []) h le = ground arith
discard-single thread (t ∷ u ∷ ts) h le = absurd (ground arith)

reads-IsExclusive :
    (c : Threads) (thread : ℕ) (g : Gate)
    → enter_read thread c.gate ≡ some g
    → IsExclusive c
    → IsExclusive (record c { gate = g })
unfolding enter_read
reads-IsExclusive c thread g h v =
    let n = depth thread c.gate.read_depth in
    let after : g.read_depth ≡ put thread (n + 1) c.gate.read_depth = ground arith in
    record {
      counted =
          rw after (ground (arith, v.counted, sum-put thread (n + 1) c.gate.read_depth v.single));
      single = rw after (Unique-put thread (n + 1) c.gate.read_depth v.single);
      waits = ground (arith, v.waits);
      holds = inl (ground (arith, v.holds, v.flag, v.counted, depth-le thread c.gate.read_depth));
      flag = ground (arith, v.flag);
    }

unreads-IsExclusive :
    (c : Threads) (thread : ℕ)
    → 0 < depth thread c.gate.read_depth
    → IsExclusive c
    → IsExclusive (record c { gate = exit_read thread c.gate })
unfolding exit_read
unreads-IsExclusive c thread h v =
    let n = depth thread c.gate.read_depth in
    let reading = depth-le thread c.gate.read_depth in
    record {
      counted =
          ground (arith, v.counted, reading, sum-put thread (n - 1) c.gate.read_depth v.single);
      single = Unique-put thread (n - 1) c.gate.read_depth v.single;
      waits = v.waits;
      holds = inl (ground (arith, v.holds, v.counted, reading));
      flag = v.flag;
    }

Step-IsExclusive : {c d : Threads} → Step c d → IsExclusive c → IsExclusive d
Step-IsExclusive {c} {d} (reads thread g h e) v =
    subst IsExclusive (sym e) (reads-IsExclusive c thread g h v)
Step-IsExclusive {c} {d} (unreads thread h e) v =
    subst IsExclusive (sym e) (unreads-IsExclusive c thread h v)
Step-IsExclusive {c} {d} (asks thread g h e) v = subst IsExclusive (sym e) (
    unfold ask_write in
    record {
      counted = ground (arith, v.counted);
      single = ground (arith, v.single);
      waits = ground (arith, v.waits);
      holds = ground (arith, v.holds);
      flag = ground (arith, v.flag);
    })
Step-IsExclusive {c} {d} (enters thread g p h e) v = subst IsExclusive (sym e) (
    unfold enter_write in
    record {
      counted = ground (arith, v.counted);
      single = ground (arith, v.single);
      waits = ground (arith, v.waits);
      holds = inr (ground (arith, v.holds, v.flag), ground arith);
      flag = ground (arith, v.flag);
    })
Step-IsExclusive {c} {d} (gives_up p e) v = subst IsExclusive (sym e) (
    unfold leave_wait in
    record {
      counted = v.counted;
      single = v.single;
      waits = ground (arith, v.waits);
      holds = v.holds;
      flag = v.flag;
    })
Step-IsExclusive {c} {d} (leaves thread h e) v =
    let none_left = discard-single thread c.inside h (ground (arith, v.holds)) in
    subst IsExclusive (sym e) (
      unfold exit_write in
      record {
        counted = v.counted;
        single = v.single;
        waits = v.waits;
        holds = inl none_left;
        flag = ground (arith, none_left);
      })

Reach-IsExclusive : {c : Threads} → Reach c → IsExclusive c
unfolding open_gate
Reach-IsExclusive here = record {
  counted = refl;
  single = tt;
  waits = refl;
  holds = inl refl;
  flag = refl;
}
Reach-IsExclusive (next r step) = Step-IsExclusive step (Reach-IsExclusive r)

-- In every state that the threads reach: at most one thread is inside a write, and while one is,
-- no thread is inside a read.
pub Reach-exclusion :
    (c : Threads)
    → Reach c
    → (length c.inside ≤ 1)
      × (0 < length c.inside → (thread : ℕ) → depth thread c.gate.read_depth ≡ 0)
Reach-exclusion c r =
    let v = Reach-IsExclusive r in
    (
      ground (arith, v.holds),
      λ busy thread. ground (arith, v.holds, v.counted, depth-le thread c.gate.read_depth),
    )
