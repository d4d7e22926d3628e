-- ===== src/Samples.antt =====
-- Concrete data for the tests: an outside in which every call succeeds, a plain connection in which
-- nothing has happened yet, and what belongs to it.
use c4irp.Prelude.{
  ℕ, zero, suc, ◌==◌, refl, if◌then◌else◌, arith, true, false, List, [], ◌∷◌, none, some, length,
  replicate,
}
use c4irp.Prelude.Int.{ℤ, pos, negsuc, sub_ℤ}
use c4irp.Types.{UvCodes}
use c4irp.Config.{Config}
use c4irp.Buffer.{Pool}
use c4irp.Connection.Compare.{bytes_order, Documented}
use c4irp.World.{Env, State, Connection, Chirp, WireMessage, Message, Call, ssl_write, rd_wait}

abbrev pub sample_codes : UvCodes
sample_codes = record {
  uv_eof = negsuc 4094;
  uv_eaddrinuse = negsuc 97;
  uv_enotconn = negsuc 106;
  uv_einval = negsuc 21;
}

-- SSL_write takes all that it is given; every other call returns 0.
abbrev pub int_answer : List Call → ℤ
int_answer [] = pos 0
int_answer (c ∷ t) = elim c [ ssl_write bs ↦ pos (length bs) | _ ↦ pos 0 ]

abbrev pub sample_env : Env
sample_env = record {
  codes = sample_codes;
  int_of = int_answer;
  bytes_of = λ t. (pos 0, []);
  test_of = λ t. false;
  find_of = λ t. none;
  peer_of = λ t. (pos 0, false, []);
}

-- Two handlers, of which none is in use.
abbrev pub two_handlers : Pool
two_handlers = record {
  max_buffers = 2;
  used_buffers = 0;
  free_buffers = 0xC0000000;
  handlers = record { id = 0; used = 0 } ∷ record { id = 1; used = 0 } ∷ [];
}

abbrev pub sample_wire : WireMessage
sample_wire = record {
  identity = replicate 16 1;
  serial = replicate 16 2;
  message_type = 0;
  header_len = 0;
  actor_len = 3;
  data_len = 2;
}

abbrev pub sample_message : Message
sample_message = record {
  wire = sample_wire;
  header = [];
  actor = 97 ∷ 98 ∷ 99 ∷ [];
  payload = 7 ∷ 8 ∷ [];
  ip_protocol = 0;
  address = replicate 16 0;
  port = pos 2998;
}

abbrev pub sample_config : Config
sample_config = record {
  reuse_time = 30000;
  timeout = 5000;
  port = 2998;
  backlog = 100;
  retries = 1;
  max_handlers = 16;
  acknowledge = 1;
  flow_control = 1;
  close_on_sigint = 1;
  buffer_size = 0;
  bind_v6 = replicate 16 0;
  bind_v4 = replicate 4 0;
  identity = replicate 16 0;
  cert_chain_pem = some (99 ∷ []);
  dh_params_pem = some (100 ∷ []);
}

abbrev pub sample_chirp : Chirp
sample_chirp = record {
  config = sample_config;
  closing_tasks = pos 0;
  auto_stop = false;
  closed = false;
  closing = false;
  identity = replicate 16 3;
  public_port = 2998;
}

abbrev pub sample_connection : Connection
sample_connection = record {
  self = 1;
  ip_protocol = 0;
  address = replicate 16 0;
  port = pos 2998;
  remote_identity = replicate 16 0;
  max_timeout = 0;
  buffer_uv = none;
  buffer_wtls = none;
  buffer_rtls = none;
  buffer_wtls_len = 0;
  buffer_size = 8;
  write_callback = none;
  write_written = 0;
  write_size = 0;
  write_buffer = [];
  shutdown_tasks = pos 0;
  flags = record {
    shutting_down = false;
    write_pending = false;
    tls_handshake = false;
    encrypted = false;
    buf_wtls_used = false;
    buf_rtls_used = false;
    buf_uv_used = false;
  };
  tls_handshake_state = pos 0;
  has_ssl = false;
  has_bio_app = false;
  reader = record {
    state = rd_wait;
    hs = record { port = 0; max_timeout = 0; identity = replicate 16 0 };
    msg = sample_wire;
    pool = two_handlers;
    bytes_read = 0;
  };
  writer = record {
    send_cb = true;
    locked = true;
    msg = some sample_message;
    net_msg = sample_wire;
  };
}

abbrev pub sample_state : State
sample_state = record { conn = sample_connection; chirp = sample_chirp; trace = [] }

-- A memcmp: the difference of the first bytes that differ.
abbrev pub first_difference : List ℕ → List ℕ → ℕ → ℤ
first_difference a b zero = pos 0
first_difference [] b (suc n) = pos 0
first_difference (x ∷ a) [] (suc n) = pos 0
first_difference (x ∷ a) (y ∷ b) (suc n) =
    if x == y then first_difference a b n else sub_ℤ (pos x) (pos y)

pub first_difference-Documented : Documented first_difference
unfolding bytes_order
first_difference-Documented a b zero ha hb = refl
first_difference-Documented [] b (suc n) ha hb = absurd (omega (arith, ha))
first_difference-Documented (x ∷ a) [] (suc n) ha hb = absurd (omega (arith, hb))
first_difference-Documented (x ∷ a) (y ∷ b) (suc n) ha hb =
    ground (arith, ha, hb, first_difference-Documented a b n)
