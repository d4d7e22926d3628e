-- ===== src/World.antt =====
-- The data of the program (src/connection.h, src/reader.h, src/writer.h, include/message.h,
-- src/chirp.h), the calls that it makes of libuv, OpenSSL and the sglib trees, and the monad in
-- which its functions run.
--
-- A function of the code runs on one connection and its chirp object. What it asks of the outside
-- is a `Call`, written down in a trace, and the answer is a function of the trace: an `Env`, which
-- every definition takes as a parameter, may answer the same call in another way each time.
pub mod Monad
pub mod Agree
pub mod Keeps
use c4irp.Prelude.{ℕ, Bool, List, Option}
use c4irp.Prelude.Int.{ℤ}
use c4irp.Types.{ErrorCode, UvCodes}
use c4irp.Config.{Config}
use c4irp.Buffer.{Pool}

-- ch_rd_state_t
pub data ReadState : Type 0 where
  rd_start rd_handshake rd_wait rd_header rd_actor rd_data : ReadState

-- ch_rd_handshake_t; the numbers are in network order.
pub record Handshake : Type 0 where
  pub port : ℕ  -- uint16_t
  pub max_timeout : ℕ  -- uint16_t
  pub identity : List ℕ  -- 16 bytes

-- ch_ms_message_t
pub record WireMessage : Type 0 where
  pub identity : List ℕ  -- 16 bytes
  pub serial : List ℕ  -- 16 bytes
  pub message_type : ℕ  -- uint8_t
  pub header_len : ℕ  -- uint16_t
  pub actor_len : ℕ  -- uint16_t
  pub data_len : ℕ  -- uint32_t

-- ch_message_t, without the `free_*` flags, which this code does not touch. The pointers are what
-- they point to.
pub record Message : Type 0 where
  pub wire : WireMessage
  pub open wire use *
  pub header : List ℕ
  pub actor : List ℕ
  pub payload : List ℕ  -- the field `data`
  pub ip_protocol : ℕ  -- uint8_t
  pub address : List ℕ  -- 16 bytes
  pub port : ℤ  -- int32_t

-- ch_reader_t
pub record Reader : Type 0 where
  pub state : ReadState
  pub hs : Handshake
  pub msg : WireMessage
  pub pool : Pool
  pub bytes_read : ℕ  -- size_t

-- ch_writer_t; `locked` is the mutex, and `send_cb` tells whether there is a callback.
pub record Writer : Type 0 where
  pub send_cb : Bool
  pub locked : Bool
  pub msg : Option Message
  pub net_msg : WireMessage

-- The functions that are handed to libuv and to ch_cn_write as callbacks.
pub data Callback : Type 0 where
  send_msg_header_cb send_chirp_header_cb send_actor_cb send_data_cb send_pending_cb write_cb :
      Callback

-- ch_cn_flags_t, a bit set.
pub record Flags : Type 0 where
  pub shutting_down : Bool
  pub write_pending : Bool
  pub tls_handshake : Bool
  pub encrypted : Bool
  pub buf_wtls_used : Bool
  pub buf_rtls_used : Bool
  pub buf_uv_used : Bool

-- ch_connection_t, without the handles and requests of libuv and OpenSSL. `self` is its address. A
-- buffer is the size that was allocated for it; `none` is NULL.
pub record Connection : Type 0 where
  pub self : ℕ
  pub ip_protocol : ℕ  -- uint8_t
  pub address : List ℕ  -- 16 bytes
  pub port : ℤ  -- int32_t
  pub remote_identity : List ℕ  -- 16 bytes
  pub max_timeout : ℕ  -- float
  pub buffer_uv : Option ℕ
  pub buffer_wtls : Option ℕ
  pub buffer_rtls : Option ℕ
  pub buffer_wtls_len : ℕ  -- buffer_wtls_uv.len
  pub buffer_size : ℕ  -- size_t
  pub write_callback : Option Callback
  pub write_written : ℕ  -- size_t
  pub write_size : ℕ  -- size_t
  pub write_buffer : List ℕ
  pub shutdown_tasks : ℤ  -- int8_t
  pub flags : Flags
  pub tls_handshake_state : ℤ  -- int
  pub has_ssl : Bool  -- ssl is not NULL
  pub has_bio_app : Bool  -- bio_app is not NULL
  pub reader : Reader
  pub writer : Writer

-- ch_chirp_int_t, as far as a connection uses it.
pub record Chirp : Type 0 where
  pub config : Config
  pub closing_tasks : ℤ  -- int
  pub auto_stop : Bool
  pub closed : Bool
  pub closing : Bool
  pub identity : List ℕ  -- 16 bytes
  pub public_port : ℕ  -- uint16_t

-- The handles of a connection that are closed.
pub data Handle : Type 0 where
  client shutdown_timeout : Handle

-- The timers of a connection and of its writer.
pub data Timer : Type 0 where
  shutdown_timer send_timer : Timer

-- The calls of libuv, OpenSSL, sglib and the allocator that the code makes, with what it passes.
pub data Call : Type 0 where
  ssl_write : List ℕ → Call
  bio_read : ℕ → ℕ → Call  -- where in the buffer, and how many bytes
  bio_write : List ℕ → Call
  ssl_read : ℕ → Call
  bio_pending ssl_shutdown ssl_do_handshake ssl_is_init_finished ssl_get_verify_result : Call
  ssl_free bio_free : Call
  uv_write : List ℕ → Callback → Call
  uv_shutdown uv_cancel uv_is_closing uv_tcp_getpeername : Call
  uv_close : Handle → Call
  shutdown_timer_start : ℕ → Call
  shutdown_timer_stop : Call
  send_timer_start : ℕ → Call
  send_timer_stop : Call
  alloc : ℕ → Call
  free_buffer free_pool free_connection mutex_destroy : Call
  connections_find connections_add connections_delete_if_member : Call
  connections_delete old_connections_add : ℕ → Call
  send_callback : ErrorCode → Call
  timer_init : Timer → Call
  mutex_init ssl_new bio_new_pair ssl_set_bio ssl_set_accept_state : Call
  alloc_connection tcp_init uv_accept uv_read_start : Call

-- What the outside answers, given the calls made so far, newest first.
pub record Env : Type 0 where
  pub codes : UvCodes
  pub int_of : List Call → ℤ  -- the calls that return an int
  pub bytes_of : List Call → ℤ × List ℕ  -- the calls that also fill a buffer
  pub test_of : List Call → Bool  -- the calls whose int is only tested
  pub find_of : List Call → Option ℕ  -- a connection in the tree, by its address
  pub peer_of : List Call → ℤ × Bool × List ℕ  -- result, whether AF_INET6, address bytes

pub record State : Type 0 where
  pub conn : Connection
  pub chirp : Chirp
  pub trace : List Call
