-- ===== src/Connection/Sent/Wide.antt =====
-- The callbacks of a write request keep what ch_cn_shutdown keeps.
use c4irp.Prelude.{ℕ}
use c4irp.Prelude.Int.{ℤ}
use c4irp.World.{Env, State, Connection}
use c4irp.World.Keeps.{Keeps}
use c4irp.Connection.Frame.{Wide, wide}
use c4irp.Connection.Kept.{Kept}
use c4irp.Connection.Write.Wide.{partial_write-Keeps}
use c4irp.Connection.Shutdown.{shutdown, send_if_pending, pending_sent}
use c4irp.Connection.Shutdown.Frame.{shutdown-Keeps}
use c4irp.Connection.Sent.Frame.{callback-Keeps, all_sent-Keeps}
use c4irp.Connection.Sent.{send_rest, write_failed, write_succeeded, write_sent}

module _ {P : State → Type 0} {Room : Connection → Type 0} (w : Wide P Room) {env : Env} {fuel : ℕ}
    (k : Kept env fuel P) (depth : ℕ) where
  close-Keeps : Keeps P (shutdown env fuel depth)
  close-Keeps = shutdown-Keeps k depth

  send_if_pending-Keeps : Keeps P (send_if_pending env (shutdown env fuel depth) fuel)
  send_if_pending-Keeps = k.by_pending (shutdown env fuel depth) close-Keeps

  send_rest-Keeps : Keeps P (send_rest env fuel depth)
  unfolding send_rest
  send_rest-Keeps = search wide depth 12

  write_failed-Keeps : (status : ℤ) → Keeps P (write_failed env fuel depth status)
  unfolding write_failed
  write_failed-Keeps status = search (wide, callback-Keeps k depth, close-Keeps) depth 12

  write_succeeded-Keeps : (status : ℤ) → Keeps P (write_succeeded env fuel depth status)
  unfolding write_succeeded
  write_succeeded-Keeps status =
      search
        (
          wide,
          all_sent-Keeps k depth,
          send_rest-Keeps,
          partial_write-Keeps w env (shutdown env fuel depth) close-Keeps,
        )
        depth 12

  pub write_sent-Keeps : (status : ℤ) → Keeps P (write_sent env fuel depth status)
  unfolding write_sent
  write_sent-Keeps status = search (wide, write_failed-Keeps, write_succeeded-Keeps) depth 12

  pub pending_sent-Keeps : (status : ℤ) → Keeps P (pending_sent env fuel depth status)
  unfolding pending_sent
  pending_sent-Keeps status = search (wide, close-Keeps, send_if_pending-Keeps) depth 12
