-- ===== src/Protocol/Life.antt =====
-- The life of a connection that a peer has opened: what it owns, from _ch_pr_new_connection_cb to the
-- last callback of ch_cn_close_cb, under the events of libuv in any order.
--
-- Beside the events of Protocol/Events, libuv calls ch_cn_close_cb once for each handle on which
-- uv_close was called, and calls nothing on a connection whose memory is freed. The second is assumed
-- of the timer of the writer too, on which the code never calls uv_close.
pub mod Balance
pub mod Tests
use c4irp.Prelude.{
  ℕ, suc, ◌-◌, ◌≤◌, ◌<◌, ◌≡◌, ◌&&◌, ltb, ◌==◌, refl, ap, sym, ◌∙◌, Bool, true, false, none, List,
  [], arith, if◌then◌else◌,
}
use c4irp.Prelude.Int.{ℤ, pos, is_neg}
use c4irp.Prelude.Outcome.{Outcome, done}
use c4irp.Prelude.Outcome.Chains.{done_injective}
use mathlib.Core.Path.{subst}
use c4irp.World.{Env, State}
use c4irp.World.Monad.{M, skip, ◌>>=◌}
use c4irp.World.Keeps.{Ends, Keeps, Moves, Moves-bind}
use c4irp.Connection.Memory.{
  owned, life, all_fit, tally, Resource, memory, takes, gives_back, closes, closing, is_over,
  Steady,
}
use c4irp.Connection.Memory.Rules.{Steady-set_chirp, Steady-Wide}
use c4irp.Connection.Memory.Owns.{
  Owns, amount, frees_pool, size_of, tally-life, closes-is_life, gives_back-is_life, takes-is_life,
  frees_pool-is_life,
}
use c4irp.Connection.Memory.Closes.{nothing_back}
use c4irp.Connection.Memory.Alive.{Alive, steady_now, left_alone, settled}
use c4irp.Connection.Shutdown.Ownership.{
  Steady-Kept, TellsClosing, shutdown_cb-Moves, shutdown_timeout_cb-Moves,
}
use c4irp.Connection.Sent.Wide.{write_sent-Keeps, pending_sent-Keeps}
use c4irp.Connection.Lifecycle.{close_cb}
use c4irp.Connection.Lifecycle.Ownership.{read_alloc_cb-Moves}
use c4irp.Connection.Lifecycle.Returned.{close_cb-Alive}
use c4irp.Protocol.Accept.{new_connection_cb}
use c4irp.Protocol.Accept.Owned.{new_connection_cb-Alive}
use c4irp.Protocol.Events.{
  Completion, written, pending_written, Event, received, buffer_wanted, message_given,
  send_timed_out, shutdown_wanted, shutdown_done, shutdown_timed_out, handle_closed, elsewhere,
  complete, handle,
}
use c4irp.Protocol.Frame.{received-Keeps, given-Keeps, timed_out-Keeps, wanted-Keeps}

-- The memory of the connection is not freed.
abbrev pub IsThere : State → Type 0
IsThere s = tally (gives_back memory) s.trace ≡ 0

-- The events that are no callback of a closed handle.
abbrev pub is_no_close : Event → Bool
is_no_close handle_closed = false
is_no_close e = true

going : (b : Bool) → (if b then amount memory none else 0) ≡ 0 → b ≡ false
going b h = ground arith

pub closing_life : (s : State) → closing (life s.trace) ≡ closing s.trace
closing_life s = tally-life closes s.trace closes-is_life

pub under_way_life : {n : ℕ} (s : State) → n < closing s.trace → n < closing (life s.trace)
under_way_life s h = rw (closing_life s) h

module _ (env : Env) (fuel : ℕ) where
  -- The states of a connection, with the number of the callbacks of closed handles that are done.
  pub data Life : State → ℕ → Type 0 where
    accepted :
        {s' : State} (s : State) (status : ℤ)
        → s.trace ≡ []
        → is_neg status ≡ false
        → 1 ≤ s.chirp.config.max_handlers
        → s.chirp.config.max_handlers ≤ 32
        → new_connection_cb env fuel status s ≡ done (tt, s')
        → IsThere s'
        → Life s' 0
    completed :
        {s s' : State} {n : ℕ} (e : Completion)
        → Life s n
        → IsThere s
        → complete env fuel e s ≡ done (tt, s')
        → Life s' n
    happened :
        {s s' : State} {n : ℕ} (e : Event)
        → Life s n
        → IsThere s
        → is_no_close e ≡ true
        → handle env fuel e s ≡ done (tt, s')
        → Life s' n
    closed :
        {s s' : State} {n : ℕ}
        → Life s n
        → n < closing s.trace
        → close_cb s ≡ done (tt, s')
        → Life s' (suc n)

  complete-Ends :
      {n : ℕ} (e : Completion) (s : State) → Alive n s → Ends (λ _. Alive n) (complete env fuel e s)
  unfolding complete
  complete-Ends (written status) s a =
      left_alone _ s (write_sent-Keeps Steady-Wide (Steady-Kept env fuel) 2 status) a
  complete-Ends (pending_written status) s a =
      left_alone _ s (pending_sent-Keeps Steady-Wide (Steady-Kept env fuel) 2 status) a

  -- The events that leave alone what is owned, and the ones that do not.
  module _ (tells : TellsClosing env) where
    handle-Ends :
        {n : ℕ} (e : Event) (s : State)
        → Alive n s
        → is_over (life s.trace) n ≡ false
        → is_no_close e ≡ true
        → Ends (λ _. Alive n) (handle env fuel e s)
    unfolding handle
    handle-Ends (received nread buf) s a going h =
        left_alone _ s (received-Keeps (Steady-Kept env fuel) nread buf) a
    handle-Ends (buffer_wanted k) s a going h =
        (Moves-bind (read_alloc_cb-Moves a.owns going k) (λ size. record { run = λ s' a'. a' })).run
          s (steady_now s a)
    handle-Ends (message_given msg has_cb) s a going h =
        left_alone _ s (given-Keeps (Steady-Kept env fuel) msg has_cb) a
    handle-Ends send_timed_out s a going h =
        left_alone _ s (timed_out-Keeps (Steady-Kept env fuel)) a
    handle-Ends shutdown_wanted s a going h = left_alone _ s (wanted-Keeps (Steady-Kept env fuel)) a
    handle-Ends (shutdown_done status) s a going h =
        (shutdown_cb-Moves env tells a.owns status).run s (steady_now s a)
    handle-Ends shutdown_timed_out s a going h =
        (shutdown_timeout_cb-Moves env tells a.owns).run s (steady_now s a)
    handle-Ends handle_closed s a going h = absurd (cc)
    handle-Ends (elsewhere f) s a going h = left_alone _ s (Steady-set_chirp f) a

    still_there : {n : ℕ} (s : State) → Alive n s → IsThere s → is_over (life s.trace) n ≡ false
    still_there {n} s a there = going (is_over (life s.trace) n) (
        sym (a.owns.back memory)
        ∙ tally-life (gives_back memory) s.trace (gives_back-is_life memory)
        ∙ there)

    pub Life-Alive : {s : State} {n : ℕ} → Life s n → Alive n s
    Life-Alive (accepted {s'} s status clean ok lo hi e there) =
        new_connection_cb-Alive env fuel status s clean s' ok lo hi e there
    Life-Alive (completed {s} e r there done_e) =
        subst (Ends (λ _. Alive _)) done_e (complete-Ends e s (Life-Alive r))
    Life-Alive (happened {s} e r there h done_e) =
        let a = Life-Alive r in
        subst (Ends (λ _. Alive _)) done_e (handle-Ends e s a (still_there s a there) h)
    Life-Alive (closed {s} r under_way done_e) =
        let a = Life-Alive r in
        let (s'', returned, a', same) = close_cb-Alive s a (under_way_life s under_way) in
        subst (Alive _)
          (ap (λ (r : Unit {0} × State). r.1) (done_injective _ _ (sym returned ∙ done_e))) a'
