-- ===== src/Config/Verify.antt =====
-- Which configurations _ch_chirp_verify_cfg accepts.
use c4irp.Prelude.{
  ◌≤◌, ◌<◌, ◌≡◌, ◌≢◌, ◌↔◌, ◌⊎◌, refl, Bool, true, false, List, [], ◌∷◌, none, arith, if◌then◌else◌,
  inl, inr,
}
use c4irp.Prelude.Outcome.{done, aborted}
use c4irp.Prelude.Int.{ℤ, negsuc}
use c4irp.Types.{success, value_error}
use c4irp.Config.{CString, Config, validate, conditions, verify_cfg}

abbrev AllTrue : List Bool → Type 0
AllTrue [] = Unit {0}
AllTrue (c ∷ cs) = (c ≡ true) × AllTrue cs

validate_only : (log : Bool) (cs : List Bool) → validate log cs ≡ done success → AllTrue cs
unfolding validate
validate_only log [] h = tt
validate_only log (true ∷ cs) h = (refl, validate_only log cs h)
validate_only true (false ∷ cs) h = cc
validate_only false (false ∷ cs) h = cc

validate_all : (log : Bool) (cs : List Bool) → AllTrue cs → validate log cs ≡ done success
unfolding validate
validate_all log [] h = refl
validate_all log (c ∷ cs) h = rw h.0 (validate_all log cs h.1)

validate_cases :
    (log : Bool) (cs : List Bool)
    → (validate log cs ≡ done success)
      ⊎ (validate log cs ≡ (if log then done value_error else aborted))
unfolding validate
validate_cases log [] = inl refl
validate_cases log (true ∷ cs) = validate_cases log cs
validate_cases log (false ∷ cs) = inr refl

-- What the code asks of a configuration, in the terms of include/chirp_obj.h.
pub record Accepted (access : CString → ℤ) (c : Config) : Type 0 where
  pub dh_params_set : c.dh_params_pem ≢ none
  pub cert_chain_set : c.cert_chain_pem ≢ none
  pub cert_chain_found : access c.cert_chain_pem ≢ negsuc 0
  pub port_unprivileged : 1024 < c.port
  pub backlog_small : c.backlog < 128
  pub timeout_range : (100 ≤ c.timeout) × (c.timeout ≤ 60000) × (c.timeout ≤ c.reuse_time)
  pub reuse_range : (2000 ≤ c.reuse_time) × (c.reuse_time ≤ 3600000)
  pub handlers_range : (1 ≤ c.max_handlers) × (c.max_handlers ≤ 32)
  pub flow_handlers : c.flow_control ≢ 0 → 16 ≤ c.max_handlers
  pub no_acknowledge : c.acknowledge ≡ 0 → (c.retries ≢ 0) × (c.flow_control ≢ 0)
  pub buffer_range : (c.buffer_size ≡ 0) ⊎ (1024 ≤ c.buffer_size)

module _ (access : CString → ℤ) (log : Bool) (c : Config) where
  verify_cfg-Accepted : verify_cfg access log c ≡ done success → Accepted access c
  unfolding verify_cfg
  verify_cfg-Accepted h = let all = validate_only log (conditions access c) h in ground arith

  Accepted-verify_cfg : Accepted access c → verify_cfg access log c ≡ done success
  unfolding verify_cfg
  Accepted-verify_cfg a = validate_all log (conditions access c) (ground arith)

  -- _ch_chirp_verify_cfg returns CH_SUCCESS exactly for the configurations with both PEM paths set,
  -- the certificate found, a port above 1024, a backlog below 128, a timeout of 0.1 to 60 seconds
  -- that is at most the reuse time, a reuse time of 2 to 3600 seconds, 1 to 32 handlers (16 at least
  -- with flow control), a buffer size of 0 or at least 1024, and, where acknowledge is 0, both
  -- retries and flow control not 0.
  pub verify_cfg-success_iff : (verify_cfg access log c ≡ done success) ↔ Accepted access c
  verify_cfg-success_iff = (verify_cfg-Accepted, Accepted-verify_cfg)

  -- A configuration that is not accepted is answered by CH_VALUE_ERROR if there is a log callback,
  -- and stops a debug build if there is none.
  pub verify_cfg_refused :
      ¬ Accepted access c → verify_cfg access log c ≡ (if log then done value_error else aborted)
  unfolding verify_cfg
  verify_cfg_refused no_way = elim (validate_cases log (conditions access c)) [
    | inl h ↦ absurd (no_way (verify_cfg-Accepted h))
    | inr h ↦ h
  ]

  -- With acknowledge 0 and retries 0, or with acknowledge 0 and flow control 0, a configuration is
  -- never accepted, whatever its other fields: the code asks for the contrary of its messages.
  pub verify_cfg_no_acknowledge :
      c.acknowledge ≡ 0
      → (c.retries ≡ 0) ⊎ (c.flow_control ≡ 0)
      → verify_cfg access log c ≢ done success
  verify_cfg_no_acknowledge off zero h =
      let a = verify_cfg-Accepted h in ground (arith, a.no_acknowledge off)
