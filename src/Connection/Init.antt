-- ===== src/Connection/Init.antt =====
-- src/connection.c: ch_cn_init and ch_cn_init_enc, with ch_rd_init of src/reader.h and ch_wr_init of
-- src/writer.c. They run on the memory of the new connection.
pub mod InFlight
pub mod Outcomes
use c4irp.Prelude.{Bool, true, false, not, [], none, replicate, if◌then◌else◌}
use c4irp.Prelude.Int.{pos, eq_ℤ}
use c4irp.Types.{ErrorCode, success, tls_error}
use c4irp.World.{
  Env, Connection, Chirp, Reader, WireMessage, rd_start, timer_init, mutex_init, ssl_new,
  bio_new_pair, ssl_set_bio, ssl_free, send_timer, shutdown_timer,
}
use c4irp.World.Monad.{
  M, ◌>>=◌, ◌>>◌, skip, pure, lift, get_conn, get_chirp, set_conn, set_reader, call, ask,
}
use c4irp.Reader

-- The memory of a connection after memset.
abbrev no_message : WireMessage
no_message = record {
  identity = replicate 16 0;
  serial = replicate 16 0;
  message_type = 0;
  header_len = 0;
  actor_len = 0;
  data_len = 0;
}

abbrev pub cleared : Connection → Connection
cleared c = record {
  self = c.self;
  ip_protocol = 0;
  address = replicate 16 0;
  port = pos 0;
  remote_identity = replicate 16 0;
  max_timeout = 0;
  buffer_uv = none;
  buffer_wtls = none;
  buffer_rtls = none;
  buffer_wtls_len = 0;
  buffer_size = 0;
  write_callback = none;
  write_written = 0;
  write_size = 0;
  write_buffer = [];
  shutdown_tasks = pos 0;
  flags = record {
    shutting_down = false;
    write_pending = false;
    tls_handshake = false;
    encrypted = false;
    buf_wtls_used = false;
    buf_rtls_used = false;
    buf_uv_used = false;
  };
  tls_handshake_state = pos 0;
  has_ssl = false;
  has_bio_app = false;
  reader = record {
    state = rd_start;
    hs = record { port = 0; max_timeout = 0; identity = replicate 16 0 };
    msg = no_message;
    pool = record { max_buffers = 0; used_buffers = 0; free_buffers = 0; handlers = [] };
    bytes_read = 0;
  };
  writer = record { send_cb = false; locked = false; msg = none; net_msg = no_message };
}

set_cleared : Bool → M (Unit {0})
set_cleared encrypted =
    set_conn
      (λ c. let z = cleared c in record z { flags = record (z.flags) { encrypted = encrypted } })

module _ (env : Env) where
  -- ch_wr_init. A failure of uv_timer_init is only logged.
  init_writer : M (Unit {0})
  init_writer = do call mutex_init; failed ← ask env.int_of (timer_init send_timer); skip

  -- ch_cn_init_enc. Where BIO_new_bio_pair fails, the pointer `ssl` keeps what it points to.
  unfoldable pub init_enc : M ErrorCode
  init_enc = do
    made ← ask env.test_of ssl_new
    if not made
        then pure tls_error
        else (set_conn (λ c. record c { has_ssl = true }) >> ask env.int_of bio_new_pair >>= λ pair.
            if not (eq_ℤ pair (pos 1))
            then (call ssl_free >> pure tls_error)
            else (set_conn (λ c. record c { has_bio_app = true })
                >> call ssl_set_bio
                >> pure success))

  -- What follows memset and the flags.
  rest_of_init : Bool → Chirp → M ErrorCode
  unfolding init_enc init_writer
  rest_of_init encrypted chirp = do
    c ← get_conn
    reader ← lift (Reader.init c.reader chirp.config.max_handlers)
    set_reader (λ r. reader)
    init_writer
    failed ← ask env.int_of (timer_init shutdown_timer)
    if encrypted then init_enc else pure success

  -- ch_cn_init, where `encrypted` is the flag that is passed.
  unfoldable pub init : Bool → M ErrorCode
  unfolding set_cleared rest_of_init
  init encrypted = do chirp ← get_chirp; set_cleared encrypted; rest_of_init encrypted chirp
