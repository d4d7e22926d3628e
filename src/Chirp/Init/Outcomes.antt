-- ===== src/Chirp/Init/Outcomes.antt =====
-- When ch_chirp_init succeeds, and what a failure leaves.
use c4irp.Prelude.{
  ℕ, Bool, true, false, ◌≡◌, ◌↔◌, ◌⊎◌, inl, inr, refl, sym, ap, ◌∙◌, replicate, Bool-cases, List,
  length, arith,
}
use mathlib.Core.Path.{subst}
use c4irp.Prelude.Int.{ℤ, is_neg}
use c4irp.Prelude.Outcome.{done}
use c4irp.Prelude.Outcome.Chains.{came_past, done_injective}
use c4irp.Types.{ErrorCode, success, uninit, is_success}
use c4irp.Config.{Config, verify_cfg}
use c4irp.Chirp.{close_ts}
use c4irp.Protocol.Start
use c4irp.Protocol.Start.Serves.{Serves, start-success}
use c4irp.Encryption
use c4irp.Chirp.Init.Identity.{choose_identity_total}
use c4irp.Chirp.Init.{
  Answers, Node, start_encryption, start_protocol, start_async, loaded, after_check, init,
}

-- Everything that ch_chirp_init calls after the configuration is checked succeeds.
pub record Works (a : Answers) (n : Node) : Type 0 where
  pub async_ok : is_neg a.async_init ≡ false
  pub v4_ok : Serves a.codes a.v4
  pub v6_ok : Serves a.codes a.v6
  pub tls_ok : is_success (Encryption.start a.tls n.library).1 ≡ true

-- What a failure leaves of the object and of what the process shares.
pub record GivenUp (n m : Node) : Type 0 where
  pub no_magic : m.chirp.initialized ≡ false
  pub same_process : m.process ≡ n.process
  pub same_signals : m.sig_init ≡ n.sig_init

-- A failure gives up, whatever stage it comes from.
abbrev FailsClean : Node → Node × ErrorCode → Type 0
FailsClean n r = is_success r.1 ≡ false → GivenUp n r.0

start_encryption-FailsClean : (a : Answers) (n : Node) → FailsClean n (start_encryption a n)
unfolding start_encryption
start_encryption-FailsClean a n =
    elim (Bool-cases (is_success (Encryption.start a.tls n.library).1)) [
      | inl ok ↦ rw ok (λ bad. absurd (ground (arith, bad)))
      | inr bad ↦ rw bad (λ _. record { no_magic = refl; same_process = refl; same_signals = refl })
    ]

start_protocol-FailsClean : (a : Answers) (n : Node) → FailsClean n (start_protocol a n)
unfolding start_protocol
start_protocol-FailsClean a n =
    let started = Start.start a.codes a.v4 a.v6 Start.init in
    let m = record n { protocol = started.0 } in
    elim (Bool-cases (is_success started.1)) [
      | inl ok ↦ rw ok (λ bad.
          let g = start_encryption-FailsClean a m bad in
          record {
            no_magic = g.no_magic;
            same_process = g.same_process;
            same_signals = g.same_signals;
          })
      | inr bad ↦ rw bad (λ _. record { no_magic = refl; same_process = refl; same_signals = refl })
    ]

start_async-FailsClean : (a : Answers) (n : Node) → FailsClean n (start_async a n)
unfolding start_async
start_async-FailsClean a n = elim (Bool-cases (is_neg a.async_init)) [
  | inl bad ↦ rw bad (λ _. record { no_magic = refl; same_process = refl; same_signals = refl })
  | inr ok ↦ rw ok (λ bad.
      let g = start_protocol-FailsClean a (record n { in_loop = true }) bad in
      record {
        no_magic = g.no_magic;
        same_process = g.same_process;
        same_signals = g.same_signals;
      })
]

-- ch_chirp_init is on its way to success after the configuration is checked.
start_async-Works : (a : Answers) (n : Node) → (is_success (start_async a n).1 ≡ true) ↔ Works a n
unfolding start_async start_protocol start_encryption
start_async-Works a n =
    let (f, g) = start-success a.codes a.v4 a.v6 in
    (
      λ h. record {
        async_ok = ground (arith, h);
        v4_ok = (f (ground (arith, h))).0;
        v6_ok = (f (ground (arith, h))).1;
        tls_ok = ground (arith, h);
      },
      λ w. rw (w.async_ok, g (w.v4_ok, w.v6_ok), w.tls_ok) refl,
    )

pub is_success_eq : (e : ErrorCode) → is_success e ≡ true → e ≡ success
is_success_eq e h = ground (arith, h)

module _ (a : Answers) (config : Config) (n : Node) (size : length config.identity ≡ 16) where
  pub after_check-accepted :
      (identity : List ℕ) × (after_check a config n success
        ≡ done (start_async a (loaded config identity n)))
  unfolding after_check
  after_check-accepted =
      let (identity, e, _) = choose_identity_total a.rand config.identity size in
      (identity, rw e refl)

  after_check-refused :
      (e : ErrorCode)
      → is_success e ≡ false
      → (m : Node) × (after_check a config n e ≡ done (m, e)) × GivenUp n m
  unfolding after_check
  after_check-refused e bad = (
    (let m = loaded config (replicate 16 0) n in
        record m { chirp = record (m.chirp) { initialized = false } }),
    rw bad refl,
    record { no_magic = refl; same_process = refl; same_signals = refl },
  )

  -- What an answer of the second part comes from: a refused configuration, or the rest.
  after_check_cases :
      (e f : ErrorCode) (m : Node)
      → after_check a config n e ≡ done (m, f)
      → ((e ≡ success) × (identity : List ℕ) × (start_async a (loaded config identity n) ≡ (m, f)))
        ⊎ ((is_success e ≡ false) × (e ≡ f) × GivenUp n m)
  after_check_cases e f m h = elim (Bool-cases (is_success e)) [
    | inl ok ↦
        let same = is_success_eq e ok in
        let (identity, at) = after_check-accepted in
        inl (
          same,
          identity,
          done_injective _ _ (sym at ∙ subst (λ e. after_check a config n e ≡ done (m, f)) same h),
        )
    | inr bad ↦
        let (r, at, given) = after_check-refused e bad in
        let same = done_injective _ _ (sym at ∙ h) in
        inr (
          bad,
          ap (λ (p : Node × ErrorCode). p.1) same,
          subst (λ (p : Node × ErrorCode). GivenUp n p.0) same given,
        )
  ]

module _ (a : Answers) (config : Config) (has_log : Bool) (n : Node)
    (size : length config.identity ≡ 16) where
  -- For a configuration with 16 bytes of identity, ch_chirp_init returns CH_SUCCESS where the
  -- configuration is accepted, uv_async_init does not fail, every call for both servers succeeds and
  -- the encryption starts, and nowhere else.
  pub init-success_iff :
      ((m : Node) × (init a config has_log n ≡ done (m, success)))
      ↔ ((verify_cfg a.access has_log config ≡ done success) × Works a n)
  unfolding init
  init-success_iff = (
    λ r.
        let (e, verified, rest) = came_past (verify_cfg a.access has_log config) _ _ r.1 in
        elim (after_check_cases a config n size e success r.0 rest) [
          | inl c ↦
              let w = (start_async-Works a (loaded config c.1 n)).0 (rw c.2 refl) in
              (
                rw (← c.0) verified,
                record {
                  async_ok = w.async_ok;
                  v4_ok = w.v4_ok;
                  v6_ok = w.v6_ok;
                  tls_ok = w.tls_ok;
                },
              )
          | inr c ↦ absurd (ground (arith, c.0, c.1))
        ],
    λ w.
        let (identity, at) = after_check-accepted a config n size in
        let works : Works a (loaded config identity n) = record {
          async_ok = w.1.async_ok;
          v4_ok = w.1.v4_ok;
          v6_ok = w.1.v6_ok;
          tls_ok = w.1.tls_ok;
        } in
        let r = start_async a (loaded config identity n) in
        let good : r.1 ≡ success = is_success_eq _ ((start_async-Works a _).1 works) in
        let checked : init a config has_log n ≡ after_check a config n success = rw (w.0) refl in
        (r.0, checked ∙ at ∙ ap (λ e. done (r.0, e)) good),
  )

  -- For a configuration with 16 bytes of identity, where ch_chirp_init returns an error, the object
  -- is not initialized, so that ch_chirp_close_ts refuses it with CH_UNINIT, and neither the tree of
  -- objects, the reference count nor the installed signal handlers have changed.
  pub init_failed :
      (m : Node) (e : ErrorCode)
      → init a config has_log n ≡ done (m, e)
      → is_success e ≡ false
      → ((sent : ℤ) → close_ts sent m.chirp ≡ (m.chirp, uninit))
        × (m.process ≡ n.process)
        × (m.sig_init ≡ n.sig_init)
  unfolding init close_ts
  init_failed m e h bad =
      let (e', verified, rest) = came_past (verify_cfg a.access has_log config) _ _ h in
      let given : GivenUp n m = elim (after_check_cases a config n size e' e m rest) [
        | inl c ↦
            let g =
              subst (FailsClean (loaded config c.1 n)) c.2
                (start_async-FailsClean a (loaded config c.1 n)) bad in
            record {
              no_magic = g.no_magic;
              same_process = g.same_process;
              same_signals = g.same_signals;
            }
        | inr c ↦ c.2
      ] in
      (λ sent. rw (given.no_magic) refl, given.same_process, given.same_signals)
