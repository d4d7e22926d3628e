-- ===== src/Writer/Frame.antt =====
-- The writer starts write requests only through ch_cn_write and ch_cn_shutdown, and keeps what they
-- keep.
use c4irp.Prelude.{ℕ, List, Option, Bool, true, false, if◌then◌else◌}
use c4irp.Prelude.Outcome.{blocked}
use c4irp.Prelude.Int.{ℤ}
use c4irp.Types.{ErrorCode}
use c4irp.World.{
  Env, State, Message, Callback, send_msg_header_cb, send_chirp_header_cb, send_actor_cb,
  send_data_cb, send_pending_cb, write_cb,
}
use c4irp.World.Monad.{M, set_writer}
use c4irp.Connection.Frame.{Frame, frame}
use c4irp.World.Keeps.{Ends, Keeps}
use c4irp.Writer.{
  lock, unlock, report, release, send_finish, check_send_error, send_timeout_cb, data_sent,
  send_part, send_data, send_actor, send_header, go_on, actor_sent, chirp_header_sent,
  msg_header_sent, run_callback, send,
}

unless_blocked :
    {P : State → Type 0} (m : M (Unit {0})) (b : Bool) (s : State)
    → P s
    → Keeps P m
    → Ends (λ _. P) (if b then blocked else m s)
unless_blocked m true s p h = tt
unless_blocked m false s p h = h.run s p

module _ {P : State → Type 0} (fr : Frame P) where
  lock-Keeps : Keeps P lock
  unfolding lock
  lock-Keeps = record {
    run = λ s p.
        unless_blocked (set_writer (λ w. record w { locked = true })) s.conn.writer.locked s p
          (search frame);
  }

  unlock-Keeps : Keeps P unlock
  unfolding unlock
  unlock-Keeps = search frame depth 9

  report-Keeps : (e : ErrorCode) → Keeps P (report e)
  unfolding report
  report-Keeps e = search frame depth 9

  release-Keeps : (e : ErrorCode) → Keeps P (release e)
  unfolding release
  release-Keeps e = search (frame, unlock-Keeps, report-Keeps) depth 9

  send_finish-Keeps : Keeps P send_finish
  unfolding send_finish
  send_finish-Keeps = search (frame, release-Keeps) depth 9

module _ {P : State → Type 0} (fr : Frame P) (env : Env) (shutdown : M ErrorCode)
    (h : Keeps P shutdown) where
  check_send_error-Keeps :
      (status : ℤ) (rest : M (Unit {0}))
      → Keeps P rest
      → Keeps P (check_send_error env shutdown status rest)
  unfolding check_send_error
  check_send_error-Keeps status rest k = search (frame, release-Keeps) depth 9

  pub send_timeout_cb-Keeps : Keeps P (send_timeout_cb env shutdown)
  unfolding send_timeout_cb
  send_timeout_cb-Keeps = search (frame, release-Keeps) depth 9

  module _ (write : List ℕ → Option Callback → M (Unit {0}))
      (w : (buf : List ℕ) (cb : Option Callback) → Keeps P (write buf cb)) where
    send_part-Keeps :
        (bytes : List ℕ) (k : ℕ) (cb : Callback) → Keeps P (send_part env shutdown write bytes k cb)
    unfolding send_part
    send_part-Keeps bytes k cb = search (frame, w) depth 9

    send_data-Keeps : (msg : Message) → Keeps P (send_data env shutdown write msg)
    unfolding send_data
    send_data-Keeps msg = search (frame, send_part-Keeps, send_finish-Keeps) depth 9

    send_actor-Keeps : (msg : Message) → Keeps P (send_actor env shutdown write msg)
    unfolding send_actor
    send_actor-Keeps msg = search (frame, send_part-Keeps, send_data-Keeps) depth 9

    send_header-Keeps : (msg : Message) → Keeps P (send_header env shutdown write msg)
    unfolding send_header
    send_header-Keeps msg = search (frame, send_part-Keeps, send_actor-Keeps) depth 9

    go_on-Keeps :
        (status : ℤ) (next : Message → M (Unit {0}))
        → ((msg : Message) → Keeps P (next msg))
        → Keeps P (go_on env shutdown write status next)
    unfolding go_on
    go_on-Keeps status next k = search (frame, check_send_error-Keeps, k) depth 9

    pub run_callback-Keeps :
        (cb : Callback) (status : ℤ) → Keeps P (run_callback env shutdown write cb status)
    unfolding run_callback msg_header_sent chirp_header_sent actor_sent data_sent
    run_callback-Keeps send_msg_header_cb status = go_on-Keeps status _ send_header-Keeps
    run_callback-Keeps send_chirp_header_cb status = go_on-Keeps status _ send_actor-Keeps
    run_callback-Keeps send_actor_cb status = go_on-Keeps status _ send_data-Keeps
    run_callback-Keeps send_data_cb status = check_send_error-Keeps status _ (send_finish-Keeps fr)
    run_callback-Keeps send_pending_cb status = search frame
    run_callback-Keeps write_cb status = search frame

    pub send-Keeps : (msg : Message) (has_cb : Bool) → Keeps P (send env shutdown write msg has_cb)
    unfolding send
    send-Keeps msg has_cb = search (frame, lock-Keeps, w) depth 12
