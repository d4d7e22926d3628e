-- ===== src/Protocol/Tests.antt =====
-- Bytes read on a plain and on an encrypted connection.
use c4irp.Prelude.{◌-◌, ◌+◌, ◌≡◌, ◌⊎◌, refl, true, some, length, [], ◌∷◌, arith, ◌*◌}
use c4irp.Prelude.Int.{pos, ◌+ℤ◌}
use c4irp.World.{
  Env, WireMessage, bio_new_pair, uv_read_start, ssl_set_accept_state, State, Connection, uv_write,
  write_cb, bio_read, ssl_write, bio_pending, send_timer_start, send_msg_header_cb,
}
use c4irp.Writer.{send, wire_bytes, net_msg_of}
use c4irp.Connection.Write.{encrypt, partial_write, write}
use c4irp.Connection.InFlight.{started, is_quiet}
use c4irp.Buffer
use c4irp.Reader
use c4irp.Connection.Init
use c4irp.Connection.Init.Outcomes.{begun_connection}
use c4irp.Protocol.Accept.{new_connection_cb}
use c4irp.Protocol.Accept.Outcomes.{accept_calls, Outcomes, new_connection_cb_cases}
use c4irp.Prelude.Outcome.{Outcome, done, aborted, undefined, blocked, unfinished}
use c4irp.Connection.Callbacks.{owed}
use c4irp.Connection.Shutdown.{shutdown, shutdown_gen, shutdown_cb}
use c4irp.Connection.Lifecycle.{close_cb}
use c4irp.Protocol.Callbacks
use c4irp.Protocol.Events.{
  shutdown_wanted, shutdown_done, handle_closed, handle, message_given, Reach, accepted, happened,
  one_in_flight,
}
use c4irp.Protocol.{decrypt_loop}
use c4irp.Protocol.Failure.{decrypt_loop-enough}
use c4irp.Samples.{sample_env, sample_state, sample_connection, sample_chirp, sample_message}

abbrev encrypted : State
encrypted = record sample_state {
  conn = record sample_connection { flags = record (sample_connection.flags) { encrypted = true } };
}

decrypt_loop-enough_example :
    decrypt_loop sample_env 9 7 (5 ∷ 6 ∷ []) 2 0 encrypted
    ≡ decrypt_loop sample_env 9 (2 - 0 + 1) (5 ∷ 6 ∷ []) 2 0 encrypted
decrypt_loop-enough_example =
    decrypt_loop-enough sample_env 9 (5 ∷ 6 ∷ []) 2 7 0 encrypted (omega arith)

-- An outside in which OpenSSL makes what it is asked for and takes what it is given.
abbrev accepting : Env
accepting = record sample_env {
  int_of = λ t. elim t [
    | [] ↦ pos 0
    | c ∷ rest ↦ elim c [ ssl_write bs ↦ pos (length bs) | bio_new_pair ↦ pos 1 | _ ↦ pos 0 ]
  ];
  test_of = λ t. true;
}

-- A connection that is accepted, and then is handed a message: the wire header is under way.
abbrev ready : Connection
ready =
    let c = begun_connection sample_connection 16 in
    record c {
      has_ssl = true;
      has_bio_app = true;
      flags = record (c.flags) { tls_handshake = true };
    }

abbrev header : WireMessage
header = net_msg_of ready.writer.net_msg sample_message

abbrev header_under_way : State
header_under_way = record {
  conn = record ready {
    writer = record { send_cb = true; locked = true; msg = some sample_message; net_msg = header };
    write_callback = some send_msg_header_cb;
    write_buffer = wire_bytes header;
    write_size = 44;
    write_written = 44;
    flags = record (ready.flags) { write_pending = true; buf_wtls_used = true };
  };
  chirp = sample_chirp;
  trace =
      uv_write [] write_cb
      ∷ bio_read 0 0
      ∷ ssl_write (wire_bytes header)
      ∷ bio_pending
      ∷ send_timer_start 5000
      ∷ uv_read_start
      ∷ ssl_set_accept_state
      ∷ accept_calls [];
}

accepted_state : State
accepted_state = record {
  conn = ready;
  chirp = sample_chirp;
  trace = uv_read_start ∷ ssl_set_accept_state ∷ accept_calls [];
}

header_under_way-Reach : Reach accepting 9 header_under_way 0
unfolding new_connection_cb Init.init Reader.init Buffer.init handle send wire_bytes encrypt
    partial_write write accepted_state
header_under_way-Reach =
    happened {s = accepted_state} (message_given sample_message true)
      (accepted sample_state (pos 0) refl refl refl) refl

one_in_flight_example :
    ((started header_under_way.trace ≡ 0)
      ⊎ ((started header_under_way.trace ≡ 1) × (header_under_way.conn.flags.write_pending ≡ true)))
    × (is_quiet 0 header_under_way.trace ≡ true)
one_in_flight_example = one_in_flight accepting 9 header_under_way 0 header_under_way-Reach

new_connection_cb_cases_example : Outcomes accepting 9 (pos 0) sample_state
new_connection_cb_cases_example =
    new_connection_cb_cases accepting 9 (pos 0) sample_state refl (omega arith) (omega arith)

-- Chirp is closing: the connection is shut down, libuv completes the shutdown, and one of the two
-- handles is closed.
abbrev closing_start : State
closing_start = record sample_state { chirp = record sample_chirp { closing = true } }

abbrev state_after : State → Outcome (Unit {0} × State) → State
state_after s (done r) = r.1
state_after s aborted = s
state_after s undefined = s
state_after s blocked = s
state_after s unfinished = s

asked_down : State
unfolding handle shutdown shutdown_gen
asked_down = state_after closing_start (handle sample_env 9 shutdown_wanted closing_start)

went_down : State
unfolding asked_down handle shutdown_cb
went_down = state_after asked_down (handle sample_env 9 (shutdown_done (pos 0)) asked_down)

one_closed : State
unfolding went_down handle close_cb
one_closed = state_after went_down (handle sample_env 9 handle_closed went_down)

one_closed-Run : Callbacks.Run sample_env 9 closing_start one_closed 2 0
unfolding one_closed
one_closed-Run =
    Callbacks.happened handle_closed
      (Callbacks.happened (shutdown_done (pos 0))
        (Callbacks.happened shutdown_wanted Callbacks.here refl refl) refl refl)
      refl refl

closing_tasks_balance_example :
    one_closed.chirp.closing_tasks +ℤ (2 + 2 * 0 + owed sample_env closing_start.trace)
    ≡ closing_start.chirp.closing_tasks +ℤ owed sample_env one_closed.trace
closing_tasks_balance_example =
    Callbacks.closing_tasks_balance sample_env 9 closing_start refl one_closed 2 0 one_closed-Run

-- One callback is left.
one_closed_tasks : one_closed.chirp.closing_tasks ≡ pos 1
unfolding one_closed
one_closed_tasks = refl
