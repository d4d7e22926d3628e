-- ===== src/Connection/Shutdown/Callbacks.antt =====
-- The closing semaphore: uv_shutdown adds the callback that libuv owes, and the callbacks of a
-- shutdown take theirs off and add those of the two handles.
use c4irp.Prelude.{ℕ, suc, ◌≡◌, refl, ap, sym, ◌∙◌, true, false, ◌∷◌, arith, Bool-cases, inl, inr}
use c4irp.Prelude.Outcome.{done}
use c4irp.Prelude.Int.{ℤ, pos, is_zero, ◌+ℤ◌, ◌-ℤ◌}
use c4irp.Types.{ErrorCode, success, uv_error_map}
use c4irp.World.{
  Env, State, uv_shutdown, shutdown_timer_start, shutdown_timer_stop, uv_is_closing, uv_close,
  uv_cancel, client, shutdown_timeout,
}
use c4irp.World.Monad.{M, ◌>>=◌, skip, ask}
use c4irp.World.Keeps.{Ends, Keeps, Moves, Moves-bind, Keeps-Moves}
use c4irp.Connection.Memory.{tally, closing}
use c4irp.Connection.Kept.{Kept}
use c4irp.Connection.Callbacks.{shutdowns, owed, Counts}
use c4irp.Connection.Callbacks.Rules.{counts, move_up, move_down, plus_plus, Counts-Wide}
use c4irp.Connection.Shutdown.Wide.{Wide-Kept}
use c4irp.Connection.Shutdown.{shutdown_uv, shutdown_cb, shutdown_timeout_cb}

-- The state after uv_shutdown, and the timer if it was accepted.
abbrev refused : State → State
refused s = record s { trace = uv_shutdown ∷ s.trace }

abbrev accepted : State → State
accepted s = record s {
  chirp = record (s.chirp) { closing_tasks = s.chirp.closing_tasks +ℤ 1 };
  trace = shutdown_timer_start s.chirp.config.timeout ∷ uv_shutdown ∷ s.trace;
}

module _ (env : Env) (shutdown : M ErrorCode) (fuel : ℕ) (s : State)
    (closing : s.chirp.closing ≡ true) where
  when_refused :
      is_zero (env.int_of (uv_shutdown ∷ s.trace)) ≡ false
      → shutdown_uv env shutdown fuel s
        ≡ done (uv_error_map env.codes (env.int_of (uv_shutdown ∷ s.trace)), refused s)
  unfolding shutdown_uv
  when_refused e = rw e refl

  when_accepted :
      is_zero (env.int_of (uv_shutdown ∷ s.trace)) ≡ true
      → shutdown_uv env shutdown fuel s ≡ done (success, accepted s)
  unfolding shutdown_uv
  when_accepted e = rw (e, closing) refl

module _ {env : Env} {base : ℤ} {x : ℕ} where
  refused-Counts :
      (s : State)
      → is_zero (env.int_of (uv_shutdown ∷ s.trace)) ≡ false
      → Counts env base x s
      → Counts env base x (refused s)
  unfolding shutdowns tally
  refused-Counts s e p = record { is_closing = p.is_closing; balance = rw e p.balance }

  accepted-Counts :
      (s : State)
      → is_zero (env.int_of (uv_shutdown ∷ s.trace)) ≡ true
      → Counts env base x s
      → Counts env base x (accepted s)
  unfolding shutdowns tally
  accepted-Counts s e p = record {
    is_closing = p.is_closing;
    balance =
        rw e (move_up s.chirp.closing_tasks base 1 x (owed env s.trace) _ (omega arith) p.balance);
  }

  shutdown_uv-Ends :
      (shutdown : M ErrorCode) (fuel : ℕ) (s : State)
      → Counts env base x s
      → Ends (λ _. Counts env base x) (shutdown_uv env shutdown fuel s)
  shutdown_uv-Ends shutdown fuel s p =
      elim (Bool-cases (is_zero (env.int_of (uv_shutdown ∷ s.trace)))) [
        | inl e ↦ rw (when_accepted env shutdown fuel s p.is_closing e) (accepted-Counts s e p)
        | inr e ↦ rw (when_refused env shutdown fuel s p.is_closing e) (refused-Counts s e p)
      ]

  pub Counts-Kept : (fuel : ℕ) → Kept env fuel (Counts env base x)
  Counts-Kept fuel =
      Wide-Kept Counts-Wide env fuel (λ sh. record { run = λ s p. shutdown_uv-Ends sh fuel s p })

-- The callback of a shutdown, where the handles are closing, and where they are not.
abbrev asked : State → State
asked s = record s { trace = uv_is_closing ∷ shutdown_timer_stop ∷ s.trace }

abbrev taken_off : State → State
taken_off s = record (asked s) {
  chirp = record (s.chirp) { closing_tasks = s.chirp.closing_tasks -ℤ 1 };
}

abbrev exchanged : State → State
exchanged s = record s {
  conn = record (s.conn) { shutdown_tasks = s.conn.shutdown_tasks +ℤ 2 };
  chirp = record (s.chirp) { closing_tasks = s.chirp.closing_tasks +ℤ 1 };
  trace =
      uv_close shutdown_timeout ∷ uv_close client ∷ uv_is_closing ∷ shutdown_timer_stop ∷ s.trace;
}

module _ (env : Env) (status : ℤ) (s : State) (closing : s.chirp.closing ≡ true) where
  when_closing :
      env.test_of (uv_is_closing ∷ shutdown_timer_stop ∷ s.trace) ≡ true
      → shutdown_cb env status s ≡ done (tt, taken_off s)
  unfolding shutdown_cb
  when_closing e = rw (e, closing) refl

  when_open :
      env.test_of (uv_is_closing ∷ shutdown_timer_stop ∷ s.trace) ≡ false
      → shutdown_cb env status s ≡ done (tt, exchanged s)
  unfolding shutdown_cb
  when_open e = rw (e, closing) refl

module _ {env : Env} {base : ℤ} {x : ℕ} where
  taken_off-Counts : (s : State) → Counts env base x s → Counts env base (suc x) (taken_off s)
  unfolding shutdowns tally
  taken_off-Counts s p = record {
    is_closing = p.is_closing;
    balance = move_down s.chirp.closing_tasks x ∙ p.balance;
  }

  exchanged-Counts : (s : State) → Counts env base x s → Counts env base (suc x) (exchanged s)
  unfolding shutdowns tally
  exchanged-Counts s p = record {
    is_closing = p.is_closing;
    balance =
        plus_plus s.chirp.closing_tasks 1 (suc x)
        ∙ ap (λ (n : ℕ). s.chirp.closing_tasks +ℤ n) (omega arith)
        ∙ sym (plus_plus s.chirp.closing_tasks 2 x)
        ∙ move_up s.chirp.closing_tasks base 2 x (owed env s.trace) _ (omega arith) p.balance;
  }

  pub shutdown_cb-Ends :
      (status : ℤ) (s : State)
      → Counts env base x s
      → Ends (λ _. Counts env base (suc x)) (shutdown_cb env status s)
  shutdown_cb-Ends status s p =
      elim (Bool-cases (env.test_of (uv_is_closing ∷ shutdown_timer_stop ∷ s.trace))) [
        | inl e ↦ rw (when_closing env status s p.is_closing e) (taken_off-Counts s p)
        | inr e ↦ rw (when_open env status s p.is_closing e) (exchanged-Counts s p)
      ]

-- A callback is taken off the semaphore.
abbrev pub less_one : State → State
less_one s = record s { chirp = record (s.chirp) { closing_tasks = s.chirp.closing_tasks -ℤ 1 } }

module _ {env : Env} {base : ℤ} {x : ℕ} where
  pub less_one-Counts : (s : State) → Counts env base x s → Counts env base (suc x) (less_one s)
  less_one-Counts s p = record {
    is_closing = p.is_closing;
    balance = move_down s.chirp.closing_tasks x ∙ p.balance;
  }

  uncounted-Keeps : Keeps (Counts env base x) (ask env.int_of uv_cancel >>= λ cancelled. skip)
  uncounted-Keeps = search counts

module _ {env : Env} {base : ℤ} {x : ℕ} where
  cancel-Moves :
      (status : ℤ)
      → Moves
          (Counts env base x)
          (shutdown_cb env status >>= λ _. ask env.int_of uv_cancel >>= λ cancelled. skip)
          (λ _. Counts env base (suc x))
  cancel-Moves status =
      Moves-bind (record { run = λ s p. shutdown_cb-Ends status s p })
        (λ _. Keeps-Moves uncounted-Keeps)

timed_out_first :
    (env : Env) (s : State)
    → s.chirp.closing ≡ true
    → shutdown_timeout_cb env s
      ≡ (shutdown_cb env (pos 1) >>= λ _. ask env.int_of uv_cancel >>= λ cancelled. skip)
          (less_one s)
unfolding shutdown_timeout_cb
timed_out_first env s closing = rw closing refl

-- A timeout counts as two callbacks.
pub shutdown_timeout_cb-Ends :
    {env : Env} {base : ℤ} {x : ℕ} (s : State)
    → Counts env base x s
    → Ends (λ _. Counts env base (suc (suc x))) (shutdown_timeout_cb env s)
shutdown_timeout_cb-Ends {env} s p =
    rw (timed_out_first env s p.is_closing)
      ((cancel-Moves (pos 1)).run (less_one s) (less_one-Counts s p))
