-- ===== src/Connection/Lifecycle/TimedOut.antt =====
-- The closing semaphore when a shutdown times out: `_ch_cn_shutdown_timeout_cb` lowers it for the
-- callback of the shutdown, which libuv still calls for the cancelled request.
use c4irp.Prelude.{ℕ, ◌+◌, ◌≡◌, true, false, List, ◌∷◌, ◌++◌, arith}
use c4irp.Prelude.Outcome.{done}
use c4irp.Prelude.Int.{ℤ, pos, ◌-ℤ◌}
use c4irp.World.{Env, State, Call, uv_is_closing, uv_cancel, shutdown_timer_stop}
use c4irp.World.Monad.{◌>>◌, M}
use c4irp.Connection.Shutdown.{shutdown_cb, shutdown_timeout_cb}
use c4irp.Connection.Lifecycle.{close_cb}
use c4irp.Connection.Lifecycle.Semaphores.{counted, freed, closing_calls, free_all_lem}

-- The timeout, the callback of the shutdown that it cancelled, and the two handles being closed.
pub timed_out : Env → ℤ → M (Unit {0})
timed_out env status = do shutdown_timeout_cb env; shutdown_cb env status; close_cb; close_cb

lowered : (n : ℕ) → pos (n + 1) -ℤ 1 ≡ pos n
lowered n = ground arith

lowered_again : (n : ℕ) → pos (n + 1) -ℤ 1 -ℤ 1 -ℤ 1 ≡ pos n -ℤ 2
lowered_again n = ground arith

-- The calls of the timeout and of the cancelled callback, the last one first.
abbrev pub timeout_calls : List Call
timeout_calls = uv_is_closing ∷ shutdown_timer_stop ∷ uv_cancel ∷ closing_calls

module _ (env : Env) (status : ℤ) (s : State) (n : ℕ) (closing : s.chirp.closing ≡ true)
    (tasks : s.conn.shutdown_tasks ≡ pos 0) (due : s.chirp.closing_tasks ≡ pos (n + 1)) where
  -- A shutdown that times out while chirp is closing and the handles are open, with the callback of
  -- the cancelled request called once the handles are closing: when both handles are closed
  -- `closing_tasks` is lower by three, though ch_cn_shutdown had added one.
  pub timed_out_unbalanced :
      env.test_of (uv_is_closing ∷ shutdown_timer_stop ∷ s.trace) ≡ false
      → env.test_of (timeout_calls ++ s.trace) ≡ true
      → timed_out env status s
        ≡ done (
          tt,
          counted (counted s (pos 0) (pos n) timeout_calls) (pos 0) (pos n -ℤ 2) (freed s.conn),
        )
  unfolding timed_out shutdown_timeout_cb shutdown_cb close_cb
  timed_out_unbalanced is_open is_closing =
      rw (closing, is_open, is_closing, tasks, due, lowered n, lowered_again n)
        (free_all_lem (record (counted s (pos 0) (pos 0) timeout_calls) {
          chirp = record (s.chirp) { closing_tasks = pos n -ℤ 2; closing = true };
        }))
