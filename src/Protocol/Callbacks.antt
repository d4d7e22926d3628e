-- ===== src/Protocol/Callbacks.antt =====
-- The closing semaphore over the events of a connection, while chirp is closing.
use c4irp.Prelude.{ℕ, suc, ◌+◌, ◌*◌, ◌≡◌, ap, ◌∙◌, true, false, Bool, arith}
use c4irp.Prelude.Int.{ℤ, ◌+ℤ◌}
use c4irp.Prelude.Outcome.{done}
use mathlib.Core.Path.{subst}
use c4irp.World.{Env, State}
use c4irp.World.Keeps.{Ends, Keeps}
use c4irp.Connection.Callbacks.{owed, Counts}
use c4irp.Connection.Callbacks.Rules.{counts, Counts-Wide}
use c4irp.Connection.Shutdown.Callbacks.{Counts-Kept, shutdown_cb-Ends, shutdown_timeout_cb-Ends}
use c4irp.Connection.Sent.Wide.{write_sent-Keeps, pending_sent-Keeps}
use c4irp.Connection.Lifecycle.Callbacks.{read_alloc_cb-Keeps, close_cb-Ends}
use c4irp.Protocol.Events.{
  Completion, written, pending_written, Event, received, buffer_wanted, message_given,
  send_timed_out, shutdown_wanted, shutdown_done, shutdown_timed_out, handle_closed, elsewhere,
  complete, handle,
}
use c4irp.Protocol.Frame.{received-Keeps, given-Keeps, timed_out-Keeps, wanted-Keeps}

-- Whether an event is a callback that libuv owes, a shutdown that is done or a handle that is closed,
-- and whether it is the timer of a shutdown, which is none.
abbrev pub calls_back : Event → ℕ
calls_back (shutdown_done status) = 1
calls_back handle_closed = 1
calls_back _ = 0

abbrev pub times_out : Event → ℕ
times_out shutdown_timed_out = 1
times_out _ = 0

-- What the rest of the program does to the chirp object is left out.
abbrev pub is_inside : Event → Bool
is_inside (elsewhere f) = false
is_inside _ = true

-- The code lowers the semaphore for the timer as for two callbacks.
pub lowered : Event → ℕ → ℕ
lowered (shutdown_done status) x = suc x
lowered handle_closed x = suc x
lowered shutdown_timed_out x = suc (suc x)
lowered _ x = x

pub lowered_eq : (e : Event) (x : ℕ) → lowered e x ≡ calls_back e + 2 * times_out e + x
unfolding lowered
lowered_eq (shutdown_done status) x = omega arith
lowered_eq handle_closed x = omega arith
lowered_eq shutdown_timed_out x = omega arith
lowered_eq (received nread buf) x = omega arith
lowered_eq (buffer_wanted size) x = omega arith
lowered_eq (message_given msg has_cb) x = omega arith
lowered_eq send_timed_out x = omega arith
lowered_eq shutdown_wanted x = omega arith
lowered_eq (elsewhere f) x = omega arith

module _ (env : Env) (fuel : ℕ) where
  -- The states that a connection comes to from `start`, with the numbers of the callbacks and of the
  -- timeouts on the way.
  pub data Run (start : State) : State → ℕ → ℕ → Type 0 where
    here : Run start start 0 0
    completed :
        {s s' : State} {c k : ℕ} (e : Completion)
        → Run start s c k
        → complete env fuel e s ≡ done (tt, s')
        → Run start s' c k
    happened :
        {s s' : State} {c k : ℕ} (e : Event)
        → Run start s c k
        → is_inside e ≡ true
        → handle env fuel e s ≡ done (tt, s')
        → Run start s' (calls_back e + c) (times_out e + k)

  module _ {base : ℤ} {x : ℕ} where
    pub complete-Keeps : (e : Completion) → Keeps (Counts env base x) (complete env fuel e)
    unfolding complete
    complete-Keeps (written status) = write_sent-Keeps Counts-Wide (Counts-Kept fuel) 2 status
    complete-Keeps (pending_written status) =
        pending_sent-Keeps Counts-Wide (Counts-Kept fuel) 2 status

    wanted_size-Keeps :
        (size : ℕ) → Keeps (Counts env base x) (handle env fuel (buffer_wanted size))
    unfolding handle
    wanted_size-Keeps size = search (counts, read_alloc_cb-Keeps)

    pub handle-Ends :
        (e : Event) (s : State)
        → is_inside e ≡ true
        → Counts env base x s
        → Ends (λ _. Counts env base (lowered e x)) (handle env fuel e s)
    unfolding handle lowered
    handle-Ends (received nread buf) s h p = (received-Keeps (Counts-Kept fuel) nread buf).run s p
    handle-Ends (buffer_wanted size) s h p = (wanted_size-Keeps size).run s p
    handle-Ends (message_given msg has_cb) s h p =
        (given-Keeps (Counts-Kept fuel) msg has_cb).run s p
    handle-Ends send_timed_out s h p = (timed_out-Keeps (Counts-Kept fuel)).run s p
    handle-Ends shutdown_wanted s h p = (wanted-Keeps (Counts-Kept fuel)).run s p
    handle-Ends (shutdown_done status) s h p = shutdown_cb-Ends status s p
    handle-Ends shutdown_timed_out s h p = shutdown_timeout_cb-Ends s p
    handle-Ends handle_closed s h p = close_cb-Ends s p
    handle-Ends (elsewhere f) s h p = absurd (cc)

  module _ (start : State) (closing : start.chirp.closing ≡ true) where
    Run-Counts :
        {s : State} {c k : ℕ}
        → Run start s c k
        → Counts env start.chirp.closing_tasks (c + 2 * k + owed env start.trace) s
    Run-Counts here = record {
      is_closing = closing;
      balance = ap (λ (n : ℕ). start.chirp.closing_tasks +ℤ n) (omega arith);
    }
    Run-Counts (completed {s} e r done_e) =
        subst (Ends (λ _. Counts env _ _)) done_e ((complete-Keeps e).run s (Run-Counts r))
    Run-Counts (happened {s} {s'} {c} {k} e r h done_e) =
        subst (λ x. Counts env start.chirp.closing_tasks x s') (lowered_eq e _ ∙ omega arith)
          (subst (Ends (λ _. Counts env _ _)) done_e (handle-Ends e s h (Run-Counts r)))

    -- While chirp is closing, whatever a connection goes through from a state `start` on, with `c`
    -- callbacks of shutdowns and closed handles and `k` timeouts of a shutdown on the way, and
    -- whatever libuv and OpenSSL answer: `closing_tasks` has gone up by each callback that libuv has
    -- come to owe since `start`, and down by one for each callback and by two for each timeout. So a
    -- callback that was owed before `start`, and a timeout, leave it below what is still owed.
    pub closing_tasks_balance :
        (s : State) (c k : ℕ)
        → Run start s c k
        → s.chirp.closing_tasks +ℤ (c + 2 * k + owed env start.trace)
          ≡ start.chirp.closing_tasks +ℤ owed env s.trace
    closing_tasks_balance s c k r = (Run-Counts r).balance
