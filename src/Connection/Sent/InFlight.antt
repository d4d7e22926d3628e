-- ===== src/Connection/Sent/InFlight.antt =====
-- When a write request is done, at most one is started: what _ch_cn_write_cb and
-- _ch_cn_send_pending_cb do.
use c4irp.Prelude.{ℕ, suc, ◌<◌, if◌then◌else◌}
use c4irp.Prelude.Int.{ℤ, is_neg}
use c4irp.World.{Env, State}
use c4irp.World.Monad.{◌>>=◌, skip}
use c4irp.World.Keeps.{Ends, Moves, Keeps}
use c4irp.Connection.InFlight.{AtMostOne, Free, started}
use c4irp.Connection.InFlight.Rules.{in_flight, drop_flag}
use c4irp.Connection.Write.InFlight.{partial_write-Keeps}
use c4irp.Connection.Shutdown.{shutdown, send_if_pending, pending_sent}
use c4irp.Connection.Shutdown.InFlight.{AtMostOne-Kept}
use c4irp.Connection.Shutdown.Frame.{shutdown-Keeps}
use c4irp.Connection.Sent.Frame.{callback-Keeps, all_sent-Keeps}
use c4irp.Connection.Sent.{send_rest, write_failed, write_succeeded, write_sent}

pending-Keeps :
    {n : ℕ} (env : Env) (fuel depth : ℕ)
    → Keeps (AtMostOne n) (send_if_pending env (shutdown env fuel depth) fuel)
pending-Keeps env fuel depth =
    let k = AtMostOne-Kept env fuel in
    k.by_pending (shutdown env fuel depth) (shutdown-Keeps k depth)

module _ {n : ℕ} (env : Env) (fuel depth : ℕ) where
  send_rest-Moves : Moves (Free n) (send_rest env fuel depth) (λ _. AtMostOne n)
  unfolding send_rest
  send_rest-Moves = search in_flight depth 12

  write_failed-Moves :
      (status : ℤ) → Moves (Free n) (write_failed env fuel depth status) (λ _. AtMostOne n)
  unfolding write_failed
  write_failed-Moves status =
      search
        (
          in_flight,
          callback-Keeps (AtMostOne-Kept env fuel) depth,
          shutdown-Keeps (AtMostOne-Kept env fuel) depth,
        )
        depth 12

  write_succeeded-Moves :
      (status : ℤ) → Moves (Free n) (write_succeeded env fuel depth status) (λ _. AtMostOne n)
  unfolding write_succeeded
  write_succeeded-Moves status =
      search
        (
          in_flight,
          all_sent-Keeps (AtMostOne-Kept env fuel) depth,
          send_rest-Moves,
          partial_write-Keeps env (shutdown env fuel depth)
              (shutdown-Keeps (AtMostOne-Kept env fuel) depth),
        )
        depth 12

module _ {n : ℕ} (env : Env) (fuel depth : ℕ) (status : ℤ) where
  after_write :
      Moves
        (Free n)
        (if is_neg status
          then write_failed env fuel depth status
          else write_succeeded env fuel depth status)
        (λ _. AtMostOne n)
  after_write =
      search (in_flight, write_failed-Moves env fuel depth, write_succeeded-Moves env fuel depth)
        depth 9

  after_pending :
      Moves
        (Free n)
        (if is_neg status
          then (shutdown env fuel depth >>= λ _. skip)
          else send_if_pending env (shutdown env fuel depth) fuel)
        (λ _. AtMostOne n)
  after_pending =
      search
        (in_flight, shutdown-Keeps (AtMostOne-Kept env fuel) depth, pending-Keeps env fuel depth)
        depth 9

module _ {n : ℕ} (env : Env) (fuel depth : ℕ) (status : ℤ) (s : State) (p : AtMostOne n s)
    (under_way : n < started s.trace) where
  pub write_sent-Ends : Ends (λ _. AtMostOne (suc n)) (write_sent env fuel depth status s)
  unfolding write_sent
  write_sent-Ends = (after_write env fuel depth status).run _ (drop_flag s p under_way)

  pub pending_sent-Ends : Ends (λ _. AtMostOne (suc n)) (pending_sent env fuel depth status s)
  unfolding pending_sent
  pending_sent-Ends = (after_pending env fuel depth status).run _ (drop_flag s p under_way)
