-- ===== src/Connection/Memory.antt =====
-- src/connection.c, src/protocol.c: what a connection owns, and which calls take it and give it
-- back.
pub mod Rules
pub mod Owns
pub mod Alive
pub mod Closes
use c4irp.Prelude.{
  ℕ, suc, ◌+◌, ◌≡◌, ◌&&◌, Bool, true, false, not, Option, none, some, List, [], ◌∷◌, leb, ltb, ◌==◌,
  if◌then◌else◌,
}
use c4irp.Prelude.Int.{ℤ}
use c4irp.World.{
  State, Connection, Call, alloc, alloc_connection, mutex_init, ssl_new, bio_new_pair, uv_close,
  free_buffer, free_pool, free_connection, mutex_destroy, ssl_free, bio_free, bio_read, ssl_read,
}

-- The fields of a ch_connection_t that say what it owns.
pub record Owned : Type 0 where
  pub tasks : ℤ
  pub uv : Option ℕ
  pub wtls : Option ℕ
  pub rtls : Option ℕ
  pub size : ℕ
  pub tls : Bool
  pub ssl : Bool
  pub bio : Bool

abbrev pub owned : Connection → Owned
owned c = record {
  tasks = c.shutdown_tasks;
  uv = c.buffer_uv;
  wtls = c.buffer_wtls;
  rtls = c.buffer_rtls;
  size = c.buffer_size;
  tls = c.flags.encrypted;
  ssl = c.has_ssl;
  bio = c.has_bio_app;
}

-- A new connection owns its TLS engine and pipe, and no buffer.
abbrev pub fresh : ℤ → Owned
fresh k = record {
  tasks = k;
  uv = none;
  wtls = none;
  rtls = none;
  size = 0;
  tls = true;
  ssl = true;
  bio = true;
}

-- The calls that take something, close a handle, or give something back.
abbrev pub is_life : Call → Bool
is_life (alloc n) = true
is_life alloc_connection = true
is_life mutex_init = true
is_life ssl_new = true
is_life bio_new_pair = true
is_life (uv_close h) = true
is_life free_buffer = true
is_life free_pool = true
is_life free_connection = true
is_life mutex_destroy = true
is_life ssl_free = true
is_life bio_free = true
is_life _ = false

-- Such calls of a trace, in their order.
unfoldable pub life : List Call → List Call
life [] = []
life (c ∷ t) = if is_life c then c ∷ life t else life t

-- A call that writes into a buffer of so many bytes does not write past its end, counted from where
-- in the buffer it begins.
abbrev pub fits : ℕ → Call → Bool
fits size (bio_read at n) = leb (at + n) size
fits size (ssl_read n) = leb n size
fits size _ = true

unfoldable pub all_fit : ℕ → List Call → Bool
all_fit size [] = true
all_fit size (c ∷ t) = fits size c && all_fit size t

-- A call that has nothing to do with what a connection owns.
abbrev pub is_idle : Call → Bool
is_idle c = not (is_life c) && fits 0 c

-- What is owned is `v`, the calls of its life are `l`, and no call wrote past a buffer.
pub record Steady (v : Owned) (l : List Call) (s : State) : Type 0 where
  pub same : owned s.conn ≡ v
  pub lived : life s.trace ≡ l
  pub room : all_fit v.size s.trace ≡ true

-- How many calls of a trace a test picks.
unfoldable pub tally : (Call → Bool) → List Call → ℕ
tally p [] = 0
tally p (c ∷ t) = if p c then suc (tally p t) else tally p t

-- The things that a connection owns beside its handles.
pub data Resource : Type 0 where
  buffers tls_engine tls_pipe lock memory : Resource

abbrev pub takes : Resource → Call → Bool
takes buffers (alloc n) = true
takes tls_engine ssl_new = true
takes tls_pipe bio_new_pair = true
takes lock mutex_init = true
takes memory alloc_connection = true
takes _ _ = false

abbrev pub gives_back : Resource → Call → Bool
gives_back buffers free_buffer = true
gives_back tls_engine ssl_free = true
gives_back tls_pipe bio_free = true
gives_back lock mutex_destroy = true
gives_back memory free_connection = true
gives_back _ _ = false

abbrev pub closes : Call → Bool
closes (uv_close h) = true
closes _ = false

-- How many handles are being closed or closed, and whether all of them are with `n` of the
-- callbacks done.
abbrev pub closing : List Call → ℕ
closing t = tally closes t

abbrev pub is_over : List Call → ℕ → Bool
is_over t n = ltb 0 n && closing t == n
