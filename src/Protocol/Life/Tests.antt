-- ===== src/Protocol/Life/Tests.antt =====
-- The life of a connection from the peer that opens it to its end.
use c4irp.Prelude.{
  ◌-◌, ◌≤◌, ◌<◌, ◌≡◌, refl, true, false, [], ◌∷◌, ltb, ◌==◌, if◌then◌else◌, length, arith,
}
use c4irp.Prelude.Int.{pos}
use c4irp.Prelude.Outcome.{Outcome, done, aborted, undefined, blocked, unfinished}
use c4irp.World.{Env, State, ssl_write, bio_new_pair, uv_is_closing}
use c4irp.Buffer
use c4irp.Reader
use c4irp.Connection.Init
use c4irp.Connection.Memory.{Resource, memory, tally, takes, gives_back, closing, is_over, all_fit}
use c4irp.Connection.Memory.Owns.{frees_pool, size_of}
use c4irp.Connection.Shutdown.{shutdown_cb}
use c4irp.Connection.Shutdown.Ownership.{TellsClosing}
use c4irp.Connection.Lifecycle.{free_all, close_cb, read_alloc_cb}
use c4irp.Protocol.Accept.{new_connection_cb}
use c4irp.Protocol.Events.{handle, buffer_wanted, shutdown_done}
use c4irp.Protocol.Life.{Life, accepted, happened, closed, IsThere}
use c4irp.Protocol.Life.Balance.{given_back_once, close_cb_returns, within_buffers}
use c4irp.Samples.{sample_env, sample_state}

-- An outside in which OpenSSL makes what it is asked for, and libuv tells what it closes.
abbrev telling : Env
telling = record sample_env {
  int_of = λ t. elim t [
    | [] ↦ pos 0
    | c ∷ rest ↦ elim c [ ssl_write bs ↦ pos (length bs) | bio_new_pair ↦ pos 1 | _ ↦ pos 0 ]
  ];
  test_of = λ t. elim t [
    | [] ↦ true
    | c ∷ rest ↦ elim c [ uv_is_closing ↦ ltb 0 (closing rest) | _ ↦ true ]
  ];
}

tells : TellsClosing telling
tells t = refl

abbrev state_of : State → Outcome (Unit {0} × State) → State
state_of s (done r) = r.1
state_of s aborted = s
state_of s undefined = s
state_of s blocked = s
state_of s unfinished = s

-- It is accepted, libuv wants a buffer, a shutdown is done, and both handles are closed.
opened : State
unfolding new_connection_cb Init.init Reader.init Buffer.init
opened = state_of sample_state (new_connection_cb telling 9 (pos 0) sample_state)

buffered : State
unfolding opened handle read_alloc_cb
buffered = state_of opened (handle telling 9 (buffer_wanted 64) opened)

shut : State
unfolding buffered handle shutdown_cb tally
shut = state_of buffered (handle telling 9 (shutdown_done (pos 0)) buffered)

half_closed : State
unfolding shut close_cb free_all
half_closed = state_of shut (close_cb shut)

ended : State
unfolding half_closed close_cb free_all
ended = state_of half_closed (close_cb half_closed)

half_closed-Life : Life telling 9 half_closed 1
unfolding half_closed tally
half_closed-Life =
    closed
      (happened (shutdown_done (pos 0))
        (happened (buffer_wanted 64)
          (accepted sample_state (pos 0) refl refl (omega arith) (omega arith) refl refl) refl refl
          refl)
        refl refl refl)
      (omega arith) refl

ended-Life : Life telling 9 ended 2
unfolding ended tally
ended-Life = closed half_closed-Life (omega arith) refl

half_closed_due : 1 < closing half_closed.trace
unfolding half_closed tally
half_closed_due = omega arith

given_back_once_example :
    (2 ≤ closing ended.trace)
    × (closing ended.trace ≤ 2)
    × (ended.conn.shutdown_tasks ≡ pos (closing ended.trace - 2))
    × ((r : Resource)
        → tally (gives_back r) ended.trace
          ≡ (if is_over ended.trace 2 then tally (takes r) ended.trace else 0))
    × (tally frees_pool ended.trace ≡ (if is_over ended.trace 2 then 1 else 0))
given_back_once_example = given_back_once telling 9 tells ended 2 ended-Life

close_cb_returns_example :
    IsThere half_closed
    × (s' : State) × (close_cb half_closed ≡ done (tt, s'))
    × (tally (gives_back memory) s'.trace ≡ (if closing half_closed.trace == 2 then 1 else 0))
close_cb_returns_example =
    close_cb_returns telling 9 tells half_closed 1 half_closed-Life half_closed_due

within_buffers_example :
    (all_fit half_closed.conn.buffer_size half_closed.trace ≡ true)
    × (half_closed.conn.buffer_wtls ≡ half_closed.conn.buffer_uv)
    × (half_closed.conn.buffer_rtls ≡ half_closed.conn.buffer_uv)
    × (half_closed.conn.buffer_size ≡ size_of half_closed.conn.buffer_uv)
within_buffers_example = within_buffers telling 9 tells half_closed 1 half_closed-Life

-- It is over in the end, and was not before.
ended_over : (is_over ended.trace 2 ≡ true) × (is_over half_closed.trace 1 ≡ false)
unfolding ended tally
ended_over = (refl, refl)

-- The size of a buffer is that of the configuration.
half_closed_size : half_closed.conn.buffer_size ≡ 64
unfolding half_closed
half_closed_size = refl
