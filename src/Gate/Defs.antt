-- ===== src/Gate/Defs.antt =====
-- The state of `ReadWriteGate` and the parts of `read` and `write` between two waits.
use library_of_context.Prelude.{
  ℕ, ◌+◌, ◌-◌, Bool, true, false, not, ◌||◌, ◌&&◌, Option, none, some, [], ◌==◌, if◌then◌else◌,
  Result, ok, raise, runtime_error, nat_eq,
}
use library_of_context.Dict
use library_of_context.Dict.{Dict}

-- `read_depth` is the thread-local variable, by thread.
pub record Gate : Type 0 where
  pub readers : ℕ
  pub writer : Bool
  pub waiting_writers : ℕ
  pub read_depth : Dict ℕ ℕ

unfoldable pub open_gate : Gate
open_gate = record { readers = 0; writer = false; waiting_writers = 0; read_depth = [] }

-- `getattr(self._local, "read_depth", 0)`
unfoldable pub depth : ℕ → Dict ℕ ℕ → ℕ
depth thread d = elim (Dict.get thread d) [ none ↦ 0 | some n ↦ n ]

unfoldable pub enter_read : ℕ → Gate → Option Gate
unfolding depth
enter_read thread g =
    let n = depth thread g.read_depth in
    if not (n == 0) || (not g.writer && g.waiting_writers == 0)
    then some
        (record g { readers = g.readers + 1; read_depth = Dict.put thread (n + 1) g.read_depth })
    else none

unfoldable pub exit_read : ℕ → Gate → Gate
unfolding depth
exit_read thread g = record g {
  readers = g.readers - 1;
  read_depth = Dict.put thread (depth thread g.read_depth - 1) g.read_depth;
}

unfoldable pub ask_write : ℕ → Gate → Result Gate
unfolding depth
ask_write thread g =
    if not (depth thread g.read_depth == 0)
    then raise runtime_error
    else ok (record g { waiting_writers = g.waiting_writers + 1 })

unfoldable pub enter_write : Gate → Option Gate
enter_write g =
    if not g.writer && g.readers == 0
    then some (record g { writer = true; waiting_writers = g.waiting_writers - 1 })
    else none

-- The wait ends with an exception.
unfoldable pub leave_wait : Gate → Gate
leave_wait g = record g { waiting_writers = g.waiting_writers - 1 }

unfoldable pub exit_write : Gate → Gate
exit_write g = record g { writer = false }
