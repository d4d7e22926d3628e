-- ===== src/Protocol/Accept/Outcomes.antt =====
-- What a new connection comes to.
use c4irp.Prelude.{ℕ, ◌≤◌, ◌≡◌, ◌⊎◌, inl, inr, refl, ◌∙◌, true, false, List, ◌∷◌, Bool-cases}
use c4irp.Prelude.Int.{ℤ, pos, is_neg, is_zero, eq_ℤ}
use c4irp.Prelude.Outcome.{done}
use c4irp.World.{
  Env, State, Connection, rd_start, client, Call, alloc_connection, free_connection, tcp_init,
  uv_accept, ssl_set_accept_state, uv_read_start, uv_close, timer_init, shutdown_timer, send_timer,
  mutex_init, ssl_new, bio_new_pair, ssl_set_bio, ssl_free,
}
use c4irp.Buffer.Invariant.{IsValid}
use c4irp.Buffer.Init.{init_pool-IsValid}
use c4irp.World.Monad.{resume}
use c4irp.Connection.Memory.{owned, fresh}
use c4irp.Connection.Init.{init_enc}
use c4irp.Connection.Init.Outcomes.{begun_connection, begun, init-begun}
use c4irp.Protocol.Accept.{serve, refuse, after_init, new_connection_cb}

-- A connection that waits for the TLS handshake of its peer.
pub record IsReady (c : Connection) : Type 0 where
  pub encrypts : c.flags.encrypted ≡ true
  pub in_handshake : c.flags.tls_handshake ≡ true
  pub open_to_shutdown : c.flags.shutting_down ≡ false
  pub nothing_pending : c.flags.write_pending ≡ false
  pub at_start : c.reader.state ≡ rd_start
  pub pool_valid : IsValid c.reader.pool
  pub unlocked : c.writer.locked ≡ false
  pub nothing_to_write : c.write_size ≡ 0
  pub no_close_due : c.shutdown_tasks ≡ pos 0
  pub tls_made : (c.has_ssl ≡ true) × (c.has_bio_app ≡ true)

-- The calls of ch_cn_init up to SSL_new.
abbrev pub init_calls : List Call → List Call
init_calls t =
    ssl_new ∷ timer_init shutdown_timer ∷ timer_init send_timer ∷ mutex_init ∷ alloc_connection ∷ t

-- The calls where the connection is initialized.
abbrev pub accept_calls : List Call → List Call
accept_calls t = uv_accept ∷ tcp_init ∷ ssl_set_bio ∷ bio_new_pair ∷ init_calls t

-- The connection that is ready, and the one that was not accepted.
abbrev made_connection : Connection → ℕ → Connection
made_connection c n = record (begun_connection c n) { has_ssl = true; has_bio_app = true }

abbrev ready_connection : Connection → ℕ → Connection
ready_connection c n =
    let m = made_connection c n in record m { flags = record (m.flags) { tls_handshake = true } }

ready : (c : Connection) (n : ℕ) → 1 ≤ n → n ≤ 32 → IsReady (ready_connection c n)
ready c n lo hi = record {
  encrypts = refl;
  in_handshake = refl;
  open_to_shutdown = refl;
  nothing_pending = refl;
  at_start = refl;
  pool_valid = init_pool-IsValid n lo hi;
  unlocked = refl;
  nothing_to_write = refl;
  no_close_due = refl;
  tls_made = (refl, refl);
}

-- The three outcomes: ready, not accepted, and without TLS in one of two ways.
abbrev pub Outcomes : Env → ℕ → ℤ → State → Type 0
Outcomes env fuel status s =
    (s' : State) × (new_connection_cb env fuel status s ≡ done (tt, s'))
    × ((IsReady s'.conn
          × (owned s'.conn ≡ fresh (pos 0))
          × (s'.trace ≡ uv_read_start ∷ ssl_set_accept_state ∷ accept_calls s.trace))
        ⊎ ((owned s'.conn ≡ fresh (pos 1)) × (s'.trace ≡ uv_close client ∷ accept_calls s.trace))
        ⊎ (s'.trace ≡ free_connection ∷ init_calls s.trace)
        ⊎ (s'.trace ≡ free_connection ∷ ssl_free ∷ bio_new_pair ∷ init_calls s.trace))

module _ (env : Env) (fuel : ℕ) (status : ℤ) (s : State) (ok : is_neg status ≡ false)
    (lo : 1 ≤ s.chirp.config.max_handlers) (hi : s.chirp.config.max_handlers ≤ 32) where
  allocated : State
  allocated = record s { trace = alloc_connection ∷ s.trace }

  comes_to_tls :
      new_connection_cb env fuel status s
      ≡ resume (init_enc env (begun allocated)) (after_init env fuel)
  unfolding new_connection_cb allocated
  comes_to_tls = rw (ok, init-begun env allocated lo hi) refl

  no_tls : env.test_of (init_calls s.trace) ≡ false → Outcomes env fuel status s
  unfolding init_enc after_init allocated
  no_tls h = (
    record (begun allocated) { trace = free_connection ∷ init_calls s.trace },
    comes_to_tls ∙ rw h refl,
    inr (inr (inl refl)),
  )

  no_pair :
      env.test_of (init_calls s.trace) ≡ true
      → eq_ℤ (env.int_of (bio_new_pair ∷ init_calls s.trace)) (pos 1) ≡ false
      → Outcomes env fuel status s
  unfolding init_enc after_init allocated
  no_pair h k = (
    record s {
      conn = record (begun_connection s.conn s.chirp.config.max_handlers) { has_ssl = true };
      trace = free_connection ∷ ssl_free ∷ bio_new_pair ∷ init_calls s.trace;
    },
    comes_to_tls ∙ rw (h, k) refl,
    inr (inr (inr refl)),
  )

  module _ (h : env.test_of (init_calls s.trace) ≡ true)
      (k : eq_ℤ (env.int_of (bio_new_pair ∷ init_calls s.trace)) (pos 1) ≡ true) where
    not_accepted : is_zero (env.int_of (accept_calls s.trace)) ≡ false → Outcomes env fuel status s
    unfolding init_enc after_init refuse allocated
    not_accepted a = (
      record s {
        conn = record (made_connection s.conn s.chirp.config.max_handlers) {
          shutdown_tasks = pos 1;
        };
        trace = uv_close client ∷ accept_calls s.trace;
      },
      comes_to_tls ∙ rw (h, k, a) refl,
      inr (inl (refl, refl)),
    )

    accepted : is_zero (env.int_of (accept_calls s.trace)) ≡ true → Outcomes env fuel status s
    unfolding init_enc after_init serve allocated
    accepted a = (
      record s {
        conn = ready_connection s.conn s.chirp.config.max_handlers;
        trace = uv_read_start ∷ ssl_set_accept_state ∷ accept_calls s.trace;
      },
      comes_to_tls ∙ rw (h, k, a) refl,
      inl (ready s.conn s.chirp.config.max_handlers lo hi, refl, refl),
    )

-- For a status that is no error and a configuration of 1 to 32 handlers, _ch_pr_new_connection_cb
-- returns, with one of three outcomes. The connection is ready for the handshake and is read from. Or
-- it was not accepted, and one callback of a closed handle is due. In both it has a TLS engine and no
-- buffers. Or OpenSSL failed, and its memory
-- is freed, although the two timers that stand in it are initialized in the loop, and neither the
-- mutex nor the pool is given back.
pub new_connection_cb_cases :
    (env : Env) (fuel : ℕ) (status : ℤ) (s : State)
    → is_neg status ≡ false
    → 1 ≤ s.chirp.config.max_handlers
    → s.chirp.config.max_handlers ≤ 32
    → Outcomes env fuel status s
new_connection_cb_cases env fuel status s ok lo hi =
    elim (Bool-cases (env.test_of (init_calls s.trace))) [
      | inr h ↦ no_tls env fuel status s ok lo hi h
      | inl h ↦ elim (Bool-cases (eq_ℤ (env.int_of (bio_new_pair ∷ init_calls s.trace)) (pos 1))) [
        | inr k ↦ no_pair env fuel status s ok lo hi h k
        | inl k ↦ elim (Bool-cases (is_zero (env.int_of (accept_calls s.trace)))) [
          | inr a ↦ not_accepted env fuel status s ok lo hi h k a
          | inl a ↦ accepted env fuel status s ok lo hi h k a
        ]
      ]
    ]
