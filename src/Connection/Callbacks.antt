-- ===== src/Connection/Callbacks.antt =====
-- src/connection.c: the callbacks that libuv owes for a connection, and the semaphore
-- `closing_tasks` of the chirp object, which counts them while chirp is closing.
--
-- A call of uv_shutdown that succeeds is one callback that is owed, and so is a call of uv_close.
pub mod Rules
use c4irp.Prelude.{ℕ, suc, ◌+◌, ◌≡◌, ◌&&◌, Bool, true, List, [], ◌∷◌, if◌then◌else◌}
use c4irp.Prelude.Int.{ℤ, is_zero, ◌+ℤ◌}
use c4irp.World.{Env, State, Call}
use c4irp.Connection.Memory.{closing}
use c4irp.Connection.Frame.{is_shutdown}

-- How many shutdowns libuv has accepted.
unfoldable pub shutdowns : Env → List Call → ℕ
shutdowns env [] = 0
shutdowns env (c ∷ t) =
    if is_shutdown c && is_zero (env.int_of (c ∷ t)) then suc (shutdowns env t) else shutdowns env t

abbrev pub owed : Env → List Call → ℕ
owed env t = shutdowns env t + closing t

-- While chirp is closing: what was owed since the semaphore stood at `base` is in it, and `x`
-- callbacks are out of it.
pub record Counts (env : Env) (base : ℤ) (x : ℕ) (s : State) : Type 0 where
  pub is_closing : s.chirp.closing ≡ true
  pub balance : s.chirp.closing_tasks +ℤ x ≡ base +ℤ owed env s.trace
