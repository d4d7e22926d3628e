-- ===== src/Connection/Shutdown/Ownership.antt =====
-- The callbacks of a shutdown close the two handles of a connection, once.
use c4irp.Prelude.{
  ℕ, ◌≡◌, refl, ◌∙◌, sym, ap, Bool, true, false, ltb, List, ◌∷◌, if◌then◌else◌, arith,
}
use c4irp.Prelude.Int.{ℤ, ◌+ℤ◌}
use c4irp.World.{Env, State, Call, uv_close, client, shutdown_timeout, uv_is_closing, uv_cancel}
use c4irp.World.Monad.{M, ◌>>=◌, ◌>>◌, skip, set_conn, ask, call}
use c4irp.World.Keeps.{moves, Ends, Moves, Keeps, Moves-bind, Keeps-Moves}
use c4irp.Connection.Memory.{Owned, closes, closing, Steady}
use c4irp.Connection.Memory.Rules.{steady, life_call, own, idle_step, Steady-Wide}
use c4irp.Connection.Memory.Owns.{Owns, with_two_due, tally-life, closes-is_life}
use c4irp.Connection.Memory.Closes.{Owns-with_two_due}
use c4irp.Connection.Memory.Alive.{Alive, steady_now, settled, settled_Ends}
use c4irp.Types.{ErrorCode}
use c4irp.Connection.Kept.{Kept}
use c4irp.Connection.Shutdown.Wide.{Wide-Kept}
use c4irp.Connection.Shutdown.{shutdown_uv, shutdown_cb, shutdown_timeout_cb}

-- All of the code but the callbacks that close handles leaves alone what a connection owns.
module _ {v : Owned} {l : List Call} (env : Env) (fuel : ℕ) where
  shutdown_uv-Keeps : (shutdown : M ErrorCode) → Keeps (Steady v l) (shutdown_uv env shutdown fuel)
  unfolding shutdown_uv
  shutdown_uv-Keeps shutdown = search steady depth 12

  pub Steady-Kept : Kept env fuel (Steady v l)
  Steady-Kept = Wide-Kept Steady-Wide env fuel shutdown_uv-Keeps

-- What libuv documents of uv_is_closing: whether uv_close was called on the handle. The two handles
-- of a connection are closed together, or `client` alone.
abbrev pub TellsClosing : Env → Type 0
TellsClosing env = (t : List Call) → env.test_of (uv_is_closing ∷ t) ≡ ltb 0 (closing t)

none_of : (k : ℕ) → ltb 0 k ≡ false → k ≡ 0
none_of k h = ground arith

module _ (env : Env) (tells : TellsClosing env) {n : ℕ} {v : Owned} {l : List Call}
    (o : Owns n v l) where
  told : (s : State) → Steady v l s → env.test_of (uv_is_closing ∷ s.trace) ≡ ltb 0 (closing l)
  told s p =
      tells s.trace
      ∙ ap (ltb 0) (sym (tally-life closes s.trace closes-is_life) ∙ ap closing p.lived)

  -- Behind the question whether the handle is closing.
  by_answer :
      (b : Bool) (m k : M (Unit {0})) (s : State)
      → (b ≡ true → Ends (λ _. Alive n) (m s))
      → (b ≡ false → Ends (λ _. Alive n) (k s))
      → Ends (λ _. Alive n) ((if b then m else k) s)
  by_answer true m k s h h' = h refl
  by_answer false m k s h h' = h' refl

  asked :
      (m k : M (Unit {0}))
      → Keeps (Steady v l) m
      → (closing l ≡ 0 → Moves (Steady v l) k (λ _. Alive n))
      → Moves
          (Steady v l)
          (ask env.test_of uv_is_closing >>= λ b. if b then m else k)
          (λ _. Alive n)
  asked m k h h' = record {
    run = λ s p.
        let s' = record s { trace = uv_is_closing ∷ s.trace } in
        let p' = idle_step uv_is_closing s refl p in
        by_answer (env.test_of (uv_is_closing ∷ s.trace)) m k s'
          (λ e. settled_Ends o (m s') (h.run s' p'))
          (λ e. (h' (none_of (closing l) (sym (told s p) ∙ e))).run s' p');
  }

  -- Both handles are closed.
  close_both :
      (m : M (Unit {0}))
      → closing l ≡ 0
      → Keeps (Steady v (uv_close shutdown_timeout ∷ uv_close client ∷ l)) m
      → Moves
          (Steady v l)
          (call (uv_close client)
            >> call (uv_close shutdown_timeout)
            >> m
            >> set_conn (λ c. record c { shutdown_tasks = c.shutdown_tasks +ℤ 2 }))
          (λ _. Alive n)
  close_both m unclosed h =
      Moves-bind
        (Moves-bind
          (Moves-bind (life_call (uv_close client) refl)
            (λ _. life_call (uv_close shutdown_timeout) refl))
          (λ _. Keeps-Moves h))
        (λ _. record {
          run = λ s p. settled (Owns-with_two_due o unclosed) _ (
              (own (λ c. record c { shutdown_tasks = c.shutdown_tasks +ℤ 2 }) with_two_due
                  (λ c. refl) (omega arith)).run
                s p);
        })

  pub shutdown_cb-Moves : (status : ℤ) → Moves (Steady v l) (shutdown_cb env status) (λ _. Alive n)
  unfolding shutdown_cb
  shutdown_cb-Moves status = search (asked, moves, steady, close_both) depth 12

  -- What follows the callback in a timeout.
  alive_then :
      {m k : M (Unit {0})}
      → Moves (Steady v l) m (λ _. Alive n)
      → Moves (Alive n) k (λ _. Alive n)
      → Moves (Steady v l) (m >> k) (λ _. Alive n)
  alive_then h h' = Moves-bind h (λ _. h')

  cancel-Alive : Moves (Alive n) (ask env.int_of uv_cancel >>= λ cancelled. skip) (λ _. Alive n)
  cancel-Alive = record {
    run = λ s a. settled a.owns _ (idle_step uv_cancel s refl (steady_now s a));
  }

  pub shutdown_timeout_cb-Moves : Moves (Steady v l) (shutdown_timeout_cb env) (λ _. Alive n)
  unfolding shutdown_timeout_cb
  shutdown_timeout_cb-Moves =
      search (moves, steady, alive_then, shutdown_cb-Moves, cancel-Alive) depth 12
