-- ===== src/Connection/Shutdown/Returns.antt =====
-- ch_cn_shutdown returns on a connection whose TLS handshake is not finished.
use c4irp.Prelude.{ℕ, ◌≡◌, refl, Bool, true, false, ◌∷◌, List, Bool-cases, inl, inr, if◌then◌else◌}
use c4irp.Prelude.Int.{is_zero, ◌+ℤ◌}
use c4irp.Prelude.Outcome.{done}
use c4irp.Types.{ErrorCode, success, in_progress, uv_error_map}
use c4irp.World.{
  Env, State, Call, uv_shutdown, ssl_is_init_finished, ssl_get_verify_result, shutdown_timer_start,
}
use c4irp.World.Monad.{M, ◌>>◌, when, pure}
use c4irp.Connection.Shutdown.{
  shutdown, shutdown_gen, shutdown_first, shutdown_rest, shutdown_tls, shutdown_uv,
}

-- That no TLS handshake is finished.
pub record Unfinished (env : Env) : Type 0 where
  pub not_yet : (t : List Call) → env.test_of (ssl_is_init_finished ∷ t) ≡ false

abbrev Returned : M ErrorCode → State → Type 0
Returned m s = (e : ErrorCode) × (s' : State) × (m s ≡ done (e, s'))

module _ (env : Env) (inner : M ErrorCode) (fuel : ℕ) (u : Unfinished env) where
  uv_returns : (s : State) → Returned (shutdown_uv env inner fuel) s
  unfolding shutdown_uv
  uv_returns s = elim (Bool-cases (is_zero (env.int_of (uv_shutdown ∷ s.trace)))) [
    | inl e ↦ elim (Bool-cases s.chirp.closing) [
      | inl c ↦ (
        success,
        record s {
          chirp = record (s.chirp) { closing_tasks = s.chirp.closing_tasks +ℤ 1 };
          trace = shutdown_timer_start s.chirp.config.timeout ∷ uv_shutdown ∷ s.trace;
        },
        rw (e, c) refl,
      )
      | inr c ↦ (
        success,
        record s { trace = shutdown_timer_start s.chirp.config.timeout ∷ uv_shutdown ∷ s.trace },
        rw (e, c) refl,
      )
    ]
    | inr e ↦ (
      uv_error_map env.codes (env.int_of (uv_shutdown ∷ s.trace)),
      record s { trace = uv_shutdown ∷ s.trace },
      rw e refl,
    )
  ]

  tls_first :
      (b : Bool) (s : State)
      → Returned (when b (shutdown_tls env inner fuel) >> shutdown_uv env inner fuel) s
  unfolding shutdown_tls
  tls_first true s =
      let (err, s', r) =
        uv_returns (record s { trace = ssl_is_init_finished ∷ ssl_get_verify_result ∷ s.trace }) in
      (err, s', rw (u.not_yet (ssl_get_verify_result ∷ s.trace)) r)
  tls_first false s = uv_returns s

  guarded :
      (b : Bool) (s : State)
      → Returned (λ s. (if b then pure in_progress else shutdown_first env inner fuel) s) s
  unfolding shutdown_first shutdown_rest
  guarded true s = (in_progress, s, refl)
  guarded false s = tls_first s.conn.flags.encrypted _

pub shutdown_returns :
    (env : Env) (fuel : ℕ) (s : State)
    → Unfinished env
    → (e : ErrorCode) × (s' : State) × (shutdown env fuel 2 s ≡ done (e, s'))
unfolding shutdown shutdown_gen
shutdown_returns env fuel s u =
    guarded env (shutdown env fuel 1) fuel u s.conn.flags.shutting_down s
