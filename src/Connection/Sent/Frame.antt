-- ===== src/Connection/Sent/Frame.antt =====
-- The callback of a write keeps what ch_cn_write and ch_cn_send_if_pending keep.
use c4irp.Prelude.{ℕ, Option, none, some}
use c4irp.Prelude.Int.{ℤ}
use c4irp.World.{Env, State, Callback}
use c4irp.World.Keeps.{Keeps}
use c4irp.Connection.Frame.{frame}
use c4irp.Connection.Kept.{Kept}
use c4irp.Connection.Write.{write}
use c4irp.Connection.Shutdown.{shutdown}
use c4irp.Connection.Shutdown.Frame.{shutdown-Keeps}
use c4irp.Writer.Frame.{run_callback-Keeps}
use c4irp.Connection.Sent.{callback, callback_if_set, all_sent}

module _ {P : State → Type 0} {env : Env} {fuel : ℕ} (k : Kept env fuel P) (depth : ℕ) where
  pub callback-Keeps : (cb : Callback) (status : ℤ) → Keeps P (callback env fuel depth cb status)
  unfolding callback
  callback-Keeps cb status =
      run_callback-Keeps k.framed env (shutdown env fuel depth) (shutdown-Keeps k depth)
        (write env (shutdown env fuel depth) fuel)
        (k.by_write (shutdown env fuel depth) (shutdown-Keeps k depth)) cb status

  callback_if_set-Keeps :
      (cb : Option Callback) (status : ℤ) → Keeps P (callback_if_set env fuel depth cb status)
  unfolding callback_if_set
  callback_if_set-Keeps none status = search frame
  callback_if_set-Keeps (some cb) status = callback-Keeps cb status

  pub all_sent-Keeps : (status : ℤ) → Keeps P (all_sent env fuel depth status)
  unfolding all_sent
  all_sent-Keeps status = let fr = k.framed in search (frame, callback_if_set-Keeps) depth 9
