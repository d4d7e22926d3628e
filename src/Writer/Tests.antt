-- ===== src/Writer/Tests.antt =====
-- A message with an actor and data, sent and received.
use c4irp.Prelude.{◌≡◌, refl, true, [], ◌∷◌, ◌++◌, length, some, arith}
use c4irp.Prelude.Outcome.{done, undefined}
use c4irp.Prelude.Int.{negsuc}
use c4irp.Types.{timeout}
use c4irp.World.{
  State, send_msg_header_cb, uv_write, rd_wait, uv_shutdown, shutdown_timer_start,
  connections_delete_if_member,
}
use c4irp.World.Monad.{skip}
use c4irp.Connection.Write.{write}
use c4irp.Connection.Shutdown.{shutdown, shutdown_gen}
use c4irp.Reader.{switch, after_wait}
use c4irp.Writer.{wire_bytes, net_msg_of, send_finish, send_timeout_cb, check_send_error, release}
use c4irp.Writer.Format.{IsWire, received, receive-send}
use c4irp.Writer.Order.{
  HasParts, deliver, holding, traced, data_call, actor_call, header_call, deliver-send_finish,
}
use c4irp.Writer.Failure.{released, cancelled_after_timeout}
use c4irp.Samples.{sample_env, sample_state, sample_connection, sample_wire, sample_message}

sample_wire-IsWire : IsWire sample_wire
sample_wire-IsWire = record {
  identity16 = refl;
  serial16 = refl;
  type8 = omega arith;
  header16 = omega arith;
  actor16 = omega arith;
  data32 = omega arith;
}

sample_message-HasParts : HasParts sample_message
sample_message-HasParts = record {
  header_full = omega arith;
  actor_full = omega arith;
  payload_full = omega arith;
}

receive-send_example :
    switch sample_env
      (shutdown sample_env 9 2)
      (write sample_env (shutdown sample_env 9 2) 9)
      rd_wait
      (wire_bytes (net_msg_of sample_wire sample_message) ++ 9 ∷ [])
      (length (wire_bytes (net_msg_of sample_wire sample_message) ++ 9 ∷ []))
      0
      sample_state
    ≡ done (
      some 44,
      record sample_state {
        conn = record sample_connection {
          reader = record (sample_connection.reader) {
            msg = received sample_wire sample_message;
            bytes_read = 0;
            state = after_wait (received sample_wire sample_message);
          };
        };
      },
    )
receive-send_example =
    receive-send sample_env (shutdown sample_env 9 2) (write sample_env (shutdown sample_env 9 2) 9)
      sample_wire sample_message sample_wire-IsWire sample_wire-IsWire sample_state (9 ∷ [])

deliver-send_finish_example :
    deliver sample_env
      (shutdown sample_env 9 2)
      4
      (wire_bytes sample_wire)
      (some send_msg_header_cb)
      (holding sample_state sample_message)
    ≡ send_finish (
        traced (holding sample_state sample_message) (
          data_call sample_message
          ++ (actor_call sample_message
              ++ (header_call sample_message
                  ++ uv_write (wire_bytes sample_wire) send_msg_header_cb ∷ []))))
deliver-send_finish_example =
    deliver-send_finish sample_env (shutdown sample_env 9 2) sample_message sample_message-HasParts
      (wire_bytes sample_wire) 0 sample_state

-- The state that a send timeout leaves.
abbrev timed_out : State
timed_out =
    released
      (record sample_state {
        conn = record sample_connection {
          flags = record (sample_connection.flags) { shutting_down = true };
        };
        trace = shutdown_timer_start 5000 ∷ uv_shutdown ∷ connections_delete_if_member ∷ [];
      })
      timeout

timed_out_lem :
    send_timeout_cb sample_env (shutdown sample_env 9 2) sample_state ≡ done (tt, timed_out)
unfolding send_timeout_cb shutdown shutdown_gen release
timed_out_lem = refl

cancelled_after_timeout_example :
    check_send_error sample_env (shutdown sample_env 9 2) (negsuc 124) skip timed_out ≡ undefined
cancelled_after_timeout_example =
    cancelled_after_timeout sample_env 9 0 (negsuc 124) skip sample_state timed_out timed_out_lem
      refl
