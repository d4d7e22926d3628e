-- ===== src/Connection/Tests.antt =====
-- Connections: a plain one, one that is shutting down, and one that encrypts three bytes.
use c4irp.Prelude.{ℕ, ◌≤◌, Bool, true, false, ◌≡◌, refl, List, [], ◌∷◌, some, arith, length}
use c4irp.Prelude.Outcome.{aborted}
use c4irp.Prelude.Int.{ℤ, pos, negsuc}
use c4irp.World.{
  uv_is_closing, shutdown_timer_stop, uv_cancel, Env, State, Connection, Call, ssl_write,
}
use c4irp.Connection.Write.{Progress, encrypt, partial_write}
use c4irp.Connection.Write.Encrypts.{Writes, IsWriting, Ends, encrypt-Ends}
use c4irp.Connection.Shutdown.{shutdown}
use c4irp.Connection.Shutdown.Depth.{shutdown_depth}
use c4irp.Connection.Shutdown.WriteError.{partial_write-aborted}
use c4irp.Connection.Compare.{connection_cmp, key_of, key_order, sign, IsAddressed}
use c4irp.Connection.Compare.Order.{connection_cmp-key_order}
use c4irp.Samples.{
  first_difference, first_difference-Documented, sample_env, sample_state, sample_connection,
}

-- The connection that is shutting down, one whose chirp closes with three callbacks due, and one
-- with three bytes to write.
abbrev shutting : State
shutting = record sample_state {
  conn = record sample_connection {
    flags = record (sample_connection.flags) { shutting_down = true };
  };
}

abbrev closing : State
closing = record sample_state {
  chirp = record (sample_state.chirp) { closing = true; closing_tasks = pos 3 };
}

abbrev three_left : State
three_left = record sample_state {
  conn = record sample_connection { write_buffer = 4 ∷ 5 ∷ 6 ∷ []; write_size = 3 };
}

abbrev nothing_yet : Progress
nothing_yet = record { bytes_encrypted = 0; bytes_read = 0; wtls = [] }

takes_all : (t : List Call) (bs : List ℕ) (k : ℕ) → pos (length bs) ≡ pos k → k ≤ length bs
takes_all t bs k h = ground (arith, h)

sample_env-Writes : Writes sample_env
sample_env-Writes = record { at_most = takes_all }

three_left-IsWriting : IsWriting three_left.conn nothing_yet
three_left-IsWriting = record { whole = refl; left = omega arith }

encrypt-Ends_example :
    Ends sample_env
      (shutdown sample_env 9 2)
      three_left
      (encrypt sample_env (shutdown sample_env 9 2) 4 nothing_yet)
encrypt-Ends_example =
    encrypt-Ends sample_env (shutdown sample_env 9 2) sample_env-Writes 4 nothing_yet three_left
      three_left-IsWriting (omega arith)

shutdown_depth_example : shutdown sample_env 9 5 sample_state ≡ shutdown sample_env 9 2 sample_state
shutdown_depth_example = shutdown_depth sample_env 9 3 sample_state

-- An outside in which the handles are closing once the shutdown has been cancelled.
abbrev cancelling : List Call → Bool
cancelling (uv_is_closing ∷ shutdown_timer_stop ∷ uv_cancel ∷ t) = true
cancelling t = false

-- Two connections that differ in the port.
abbrev next_port : Connection
next_port = record sample_connection { port = pos 2999 }

sample-IsAddressed : IsAddressed sample_connection
sample-IsAddressed = record { small = omega arith; bytes = refl; tcp = refl; word = omega arith }

next_port-IsAddressed : IsAddressed next_port
next_port-IsAddressed = record { small = omega arith; bytes = refl; tcp = refl; word = omega arith }

connection_cmp-key_order_example :
    (r : ℤ) × (connection_cmp first_difference sample_connection next_port ≡ some r)
    × (sign r ≡ key_order (key_of sample_connection) (key_of next_port))
connection_cmp-key_order_example =
    connection_cmp-key_order first_difference first_difference-Documented sample_connection
      next_port sample-IsAddressed next_port-IsAddressed

-- An outside in which SSL_write fails, after the handshake.
abbrev refusing : Env
refusing = record sample_env {
  int_of = λ t. elim t [ [] ↦ pos 0 | c ∷ rest ↦ elim c [ ssl_write bs ↦ negsuc 0 | _ ↦ pos 0 ] ];
  test_of = λ t. true;
}

abbrev encrypted_three_left : State
encrypted_three_left = record three_left {
  conn = record (three_left.conn) { flags = record (sample_connection.flags) { encrypted = true } };
}

partial_write-aborted_example :
    partial_write refusing (shutdown refusing 9 2) 4 encrypted_three_left ≡ aborted
partial_write-aborted_example =
    partial_write-aborted refusing 9 3 1 (4 ∷ 5 ∷ 6 ∷ []) encrypted_three_left
      (record { refused = λ t. refl; after_handshake = λ t. refl; shuts = λ t. refl }) refl refl
      refl refl refl
