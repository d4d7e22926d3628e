-- ===== src/Connection/Lifecycle/InFlight.antt =====
-- ch_cn_close_cb and ch_cn_read_alloc_cb start no write request.
use c4irp.Prelude.{ℕ, Option, none, some}
use c4irp.World.{Connection}
use c4irp.World.Keeps.{Keeps}
use c4irp.Connection.InFlight.{AtMostOne}
use c4irp.Connection.InFlight.Rules.{in_flight}
use c4irp.Connection.Lifecycle.{
  free_buffers, free_all, close_cb, allocate, allocate_once, read_alloc_cb,
}

module _ {n : ℕ} where
  free_buffers-Keeps : (c : Connection) → Keeps (AtMostOne n) (free_buffers c)
  unfolding free_buffers
  free_buffers-Keeps c = search in_flight depth 9

  free_all-Keeps : Keeps (AtMostOne n) free_all
  unfolding free_all
  free_all-Keeps = search (in_flight, free_buffers-Keeps) depth 15

  pub close_cb-Keeps : Keeps (AtMostOne n) close_cb
  unfolding close_cb
  close_cb-Keeps = search (in_flight, free_all-Keeps) depth 12

  allocate-Keeps : (size : ℕ) → Keeps (AtMostOne n) (allocate size)
  unfolding allocate
  allocate-Keeps size = search in_flight depth 15

  allocate_once-Keeps : (o : Option ℕ) (size : ℕ) → Keeps (AtMostOne n) (allocate_once o size)
  unfolding allocate_once
  allocate_once-Keeps none size = allocate-Keeps size
  allocate_once-Keeps (some k) size = search in_flight

  pub read_alloc_cb-Keeps : (suggested : ℕ) → Keeps (AtMostOne n) (read_alloc_cb suggested)
  unfolding read_alloc_cb
  read_alloc_cb-Keeps suggested = search (in_flight, allocate_once-Keeps) depth 12
