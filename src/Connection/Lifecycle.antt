-- ===== src/Connection/Lifecycle.antt =====
-- src/connection.c: ch_cn_close_cb, with ch_wr_free of src/writer.h and ch_rd_free of
-- src/reader.h, and ch_cn_read_alloc_cb.
pub mod Semaphores
pub mod TimedOut
pub mod InFlight
pub mod Callbacks
pub mod Returned
pub mod Ownership
use c4irp.Prelude.{ℕ, Bool, true, false, not, Option, none, some, ◌==◌, if◌then◌else◌}
use c4irp.Prelude.Int.{is_neg, is_pos, ◌-ℤ◌}
use c4irp.World.{
  Connection, Chirp, alloc, ssl_free, bio_free, free_buffer, free_pool, free_connection,
  mutex_destroy,
}
use c4irp.World.Monad.{
  ◌>>=◌, M, ◌>>◌, skip, pure, assert, get_conn, get_chirp, set_conn, set_chirp, set_flags, when,
  call,
}

abbrev is_some : Option ℕ → Bool
is_some none = false
is_some (some n) = true

-- The freeing part of ch_cn_close_cb: the buffers, and the rest.
free_buffers : Connection → M (Unit {0})
free_buffers c =
    when (is_some c.buffer_uv)
      (call free_buffer >> when c.flags.encrypted (call free_buffer >> call free_buffer))

unfoldable pub free_all : M (Unit {0})
unfolding free_buffers
free_all = do
  c ← get_conn
  free_buffers c
  when c.has_ssl (call ssl_free)
  when c.has_bio_app (call bio_free)
  call free_pool
  call mutex_destroy
  call free_connection

-- ch_cn_close_cb. In a debug build the assertion comes before the check of a negative semaphore.
unfoldable pub close_cb : M (Unit {0})
unfolding free_all
close_cb = do
  chirp ← get_chirp
  when chirp.closing (set_chirp (λ ch. record ch { closing_tasks = ch.closing_tasks -ℤ 1 }))
  set_conn (λ c. record c { shutdown_tasks = c.shutdown_tasks -ℤ 1 })
  c ← get_conn
  assert (not (is_neg c.shutdown_tasks))
  when (not (is_pos c.shutdown_tasks)) free_all

-- The size that ch_cn_read_alloc_cb allocates.
abbrev pub chosen_size : Chirp → ℕ → ℕ
chosen_size chirp suggested =
    if chirp.config.buffer_size == 0 then suggested else chirp.config.buffer_size

-- The allocation of the buffers in ch_cn_read_alloc_cb.
allocate : ℕ → M (Unit {0})
allocate size = do
  call (alloc size)
  set_conn (λ c. record c { buffer_uv = some size })
  c ← get_conn
  when c.flags.encrypted (
      call (alloc size)
      >> set_conn (λ c. record c { buffer_wtls = some size })
      >> call (alloc size)
      >> set_conn (λ c. record c { buffer_rtls = some size }))
  set_conn (λ c. record c { buffer_size = size; buffer_wtls_len = size })

allocate_once : Option ℕ → ℕ → M (Unit {0})
unfolding allocate
allocate_once none size = allocate size
allocate_once (some n) size = skip

-- ch_cn_read_alloc_cb: the size of the buffer that is handed to libuv.
unfoldable pub read_alloc_cb : ℕ → M ℕ
unfolding allocate_once
read_alloc_cb suggested = do
  chirp ← get_chirp
  c ← get_conn
  assert (not c.flags.buf_uv_used)
  set_flags (λ f. record f { buf_uv_used = true })
  allocate_once c.buffer_uv (chosen_size chirp suggested)
  d ← get_conn
  pure d.buffer_size
