-- ===== src/Config.antt =====
-- The configuration: ch_config_t of include/chirp_obj.h, and its defaults and its validation in
-- src/chirp.c. The two floats, seconds, are held in thousandths; values between two thousandths,
-- negative values and NaN are not represented.
pub mod Verify
pub mod Tests
use c4irp.Prelude.{
  ℕ, ◌+◌, Bool, true, false, ◌||◌, not, List, [], ◌∷◌, ◌++◌, Option, none, some, ◌==◌, leb, ltb,
  if◌then◌else◌, replicate,
}
use c4irp.Prelude.Outcome.{Outcome, done, aborted}
use c4irp.Prelude.Int.{ℤ, negsuc, eq_ℤ}
use c4irp.Types.{ErrorCode, success, value_error, sizeof_message, sizeof_handshake}

-- A C string, by its bytes; `none` is NULL.
abbrev pub CString : Type 0
CString = Option (List ℕ)

-- ch_config_t
pub record Config : Type 0 where
  pub reuse_time : ℕ  -- float, in thousandths of a second
  pub timeout : ℕ  -- float, in thousandths of a second
  pub port : ℕ  -- uint16_t
  pub backlog : ℕ  -- uint8_t
  pub retries : ℕ  -- uint8_t
  pub max_handlers : ℕ  -- uint8_t
  pub acknowledge : ℕ  -- char
  pub flow_control : ℕ  -- char
  pub close_on_sigint : ℕ  -- char
  pub buffer_size : ℕ  -- uint32_t
  pub bind_v6 : List ℕ
  pub bind_v4 : List ℕ
  pub identity : List ℕ
  pub cert_chain_pem : CString
  pub dh_params_pem : CString

-- _ch_config_defaults, which ch_chirp_config_init copies.
unfoldable pub config_init : Config
config_init = record {
  reuse_time = 30000;
  timeout = 5000;
  port = 2998;
  backlog = 100;
  retries = 1;
  max_handlers = 16;
  acknowledge = 1;
  flow_control = 1;
  close_on_sigint = 1;
  buffer_size = 0;
  bind_v6 = replicate 16 0;
  bind_v4 = replicate 4 0;
  identity = replicate 16 0;
  cert_chain_pem = none;
  dh_params_pem = none;
}

-- CH_LIB_UV_MIN_BUFFER of build/config.defs.h
abbrev pub lib_uv_min_buffer : ℕ
lib_uv_min_buffer = 1024

abbrev is_set : CString → Bool
is_set none = false
is_set (some path) = true

-- The macros V and VE in a row: the first condition that fails is logged and CH_VALUE_ERROR is
-- returned; with no log callback a debug build goes on to `assert(condition)`.
unfoldable pub validate : Bool → List Bool → Outcome ErrorCode
validate has_log [] = done success
validate has_log (c ∷ cs) =
    if c then validate has_log cs else if has_log then done value_error else aborted

-- The conditions of _ch_chirp_verify_cfg, in their order. `access` is the C library's.
unfoldable pub conditions : (CString → ℤ) → Config → List Bool
conditions access conf =
    is_set conf.dh_params_pem
      ∷ is_set conf.cert_chain_pem
      ∷ not (eq_ℤ (access conf.cert_chain_pem) (negsuc 0))
      ∷ ltb 1024 conf.port
      ∷ ltb conf.backlog 128
      ∷ leb conf.timeout 60000
      ∷ leb 100 conf.timeout
      ∷ leb 2000 conf.reuse_time
      ∷ leb conf.reuse_time 3600000
      ∷ leb conf.timeout conf.reuse_time
      ∷ (if not (conf.flow_control == 0) then leb 16 conf.max_handlers else leb 1 conf.max_handlers)
      ∷ (if conf.acknowledge == 0
          then not (conf.retries == 0) ∷ not (conf.flow_control == 0) ∷ []
          else [])
    ++ (leb conf.max_handlers 32
        ∷ (leb lib_uv_min_buffer conf.buffer_size || conf.buffer_size == 0)
        ∷ (leb sizeof_message conf.buffer_size || conf.buffer_size == 0)
        ∷ (leb sizeof_handshake conf.buffer_size || conf.buffer_size == 0)
        ∷ [])

-- _ch_chirp_verify_cfg
unfoldable pub verify_cfg : (CString → ℤ) → Bool → Config → Outcome ErrorCode
unfolding validate conditions
verify_cfg access has_log conf = validate has_log (conditions access conf)
