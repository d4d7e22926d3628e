-- ===== src/Protocol/Events.antt =====
-- A connection under the events of libuv, in any order: the callbacks that src/connection.c,
-- src/protocol.c and src/writer.c hand to it, and the calls that a user of the connection makes.
use c4irp.Prelude.{
  ℕ, suc, ◌+◌, ◌≤◌, ◌<◌, ◌≡◌, ◌⊎◌, refl, Bool, true, false, List, [], arith, if◌then◌else◌,
}
use c4irp.Prelude.Int.{ℤ, is_neg}
use c4irp.Prelude.Outcome.{done}
use mathlib.Core.Path.{subst}
use c4irp.World.{Env, State, Chirp, Message}
use c4irp.World.Monad.{M, ◌>>=◌, skip, set_chirp}
use c4irp.World.Keeps.{Ends, Keeps}
use c4irp.Connection.InFlight.{AtMostOne, started, is_quiet}
use c4irp.Connection.InFlight.Rules.{in_flight, AtMostOne-set_chirp}
use c4irp.Connection.Write.{write}
use c4irp.Connection.Shutdown.{shutdown, pending_sent, shutdown_cb, shutdown_timeout_cb}
use c4irp.Connection.Shutdown.InFlight.{
  AtMostOne-Kept, shutdown_cb-Keeps, shutdown_timeout_cb-Keeps,
}
use c4irp.Connection.Sent.{write_sent}
use c4irp.Connection.Sent.InFlight.{write_sent-Ends, pending_sent-Ends}
use c4irp.Connection.Lifecycle.{close_cb, read_alloc_cb}
use c4irp.Connection.Lifecycle.InFlight.{close_cb-Keeps, read_alloc_cb-Keeps}
use c4irp.Writer.{send, send_timeout_cb}
use c4irp.Protocol.{read_data_cb}
use c4irp.Protocol.Accept.{new_connection_cb}
use c4irp.Protocol.Accept.InFlight.{new_connection_cb-Ends}
use c4irp.Protocol.Frame.{received-Keeps, given-Keeps, timed_out-Keeps, wanted-Keeps}

-- A write request is done: libuv calls _ch_cn_write_cb or _ch_cn_send_pending_cb with a status.
pub data Completion : Type 0 where
  written pending_written : ℤ → Completion

-- Everything else. `elsewhere` is what the rest of the program does to the chirp object.
pub data Event : Type 0 where
  received : ℤ → List ℕ → Event
  buffer_wanted : ℕ → Event
  message_given : Message → Bool → Event
  send_timed_out shutdown_wanted : Event
  shutdown_done : ℤ → Event
  shutdown_timed_out handle_closed : Event
  elsewhere : (Chirp → Chirp) → Event

one_or_none :
    {n k : ℕ} (b : Bool)
    → n ≤ k
    → k ≤ n + (if b then 1 else 0)
    → (k ≡ n) ⊎ ((k ≡ suc n) × (b ≡ true))
one_or_none b lower upper = ground arith

module _ (env : Env) (fuel : ℕ) where
  unfoldable pub complete : Completion → M (Unit {0})
  complete (written status) = write_sent env fuel 2 status
  complete (pending_written status) = pending_sent env fuel 2 status

  unfoldable pub handle : Event → M (Unit {0})
  handle (received nread buf) = read_data_cb env fuel nread buf
  handle (buffer_wanted suggested) = read_alloc_cb suggested >>= λ _. skip
  handle (message_given msg has_cb) =
      send env (shutdown env fuel 2) (write env (shutdown env fuel 2) fuel) msg has_cb
  handle send_timed_out = send_timeout_cb env (shutdown env fuel 2)
  handle shutdown_wanted = shutdown env fuel 2 >>= λ _. skip
  handle (shutdown_done status) = shutdown_cb env status
  handle shutdown_timed_out = shutdown_timeout_cb env
  handle handle_closed = close_cb
  handle (elsewhere f) = set_chirp f

  -- The states of a connection that a peer has opened, with the number of write requests that are
  -- done. A request is done only where one is under way.
  pub data Reach : State → ℕ → Type 0 where
    accepted :
        {s' : State} (s : State) (status : ℤ)
        → s.trace ≡ []
        → is_neg status ≡ false
        → new_connection_cb env fuel status s ≡ done (tt, s')
        → Reach s' 0
    completed :
        {s s' : State} {n : ℕ} (e : Completion)
        → Reach s n
        → n < started s.trace
        → complete e s ≡ done (tt, s')
        → Reach s' (suc n)
    happened :
        {s s' : State} {n : ℕ} (e : Event) → Reach s n → handle e s ≡ done (tt, s') → Reach s' n

  complete-Ends :
      {n : ℕ} (e : Completion) (s : State)
      → AtMostOne n s
      → n < started s.trace
      → Ends (λ _. AtMostOne (suc n)) (complete e s)
  unfolding complete
  complete-Ends (written status) s p h = write_sent-Ends env fuel 2 status s p h
  complete-Ends (pending_written status) s p h = pending_sent-Ends env fuel 2 status s p h

  handle-Keeps : {n : ℕ} (e : Event) → Keeps (AtMostOne n) (handle e)
  unfolding handle
  handle-Keeps (received nread buf) = received-Keeps (AtMostOne-Kept env fuel) nread buf
  handle-Keeps (buffer_wanted suggested) = search (in_flight, read_alloc_cb-Keeps)
  handle-Keeps (message_given msg has_cb) = given-Keeps (AtMostOne-Kept env fuel) msg has_cb
  handle-Keeps send_timed_out = timed_out-Keeps (AtMostOne-Kept env fuel)
  handle-Keeps shutdown_wanted = wanted-Keeps (AtMostOne-Kept env fuel)
  handle-Keeps (shutdown_done status) = shutdown_cb-Keeps env status
  handle-Keeps shutdown_timed_out = shutdown_timeout_cb-Keeps env
  handle-Keeps handle_closed = close_cb-Keeps
  handle-Keeps (elsewhere f) = AtMostOne-set_chirp f

  Reach-AtMostOne : {s : State} {n : ℕ} → Reach s n → AtMostOne n s
  unfolding started is_quiet
  Reach-AtMostOne (accepted s status clean ok done_e) = subst (Ends (λ _. AtMostOne 0)) done_e (
      new_connection_cb-Ends env fuel status s ok
        (record { none_started = rw clean refl; none_overwritten = rw clean refl }))
  Reach-AtMostOne (completed {s} e r h done_e) =
      subst (Ends (λ _. AtMostOne _)) done_e (complete-Ends e s (Reach-AtMostOne r) h)
  Reach-AtMostOne (happened {s} e r done_e) =
      subst (Ends (λ _. AtMostOne _)) done_e ((handle-Keeps e).run s (Reach-AtMostOne r))

  -- In every state that a connection reaches, which a peer has opened, under any sequence of events, with `n` of its
  -- write requests done: it has started `n` requests or one more, and in the second case
  -- `write_pending` is set; and whenever `buffer_wtls` was overwritten, also by the last event, no
  -- more than `n` requests had been started, so that libuv was not reading the buffer.
  pub one_in_flight :
      (s : State) (n : ℕ)
      → Reach s n
      → ((started s.trace ≡ n) ⊎ ((started s.trace ≡ suc n) × (s.conn.flags.write_pending ≡ true)))
        × (is_quiet n s.trace ≡ true)
  one_in_flight s n r =
      let p = Reach-AtMostOne r in
      (one_or_none s.conn.flags.write_pending p.lower p.upper, p.overwrites)
