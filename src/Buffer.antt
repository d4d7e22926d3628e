-- ===== src/Buffer.antt =====
-- src/buffer.h: the pool of handler buffers. A `ch_bf_handler_t*` is its index in `handlers`; the
-- preallocated arrays of a handler are never read or written here and are left out.
pub mod Invariant
pub mod Init
pub mod Reserve
pub mod Return
pub mod Tests
use c4irp.Prelude.{
  ℕ, zero, suc, ◌+◌, ◌-◌, ◌%◌, bit_and, bit_or, List, [], ◌∷◌, Option, none, some, ◌==◌, leb, ltb,
  if◌then◌else◌, get_elem?, set,
}
use c4irp.Prelude.Outcome.{◌>>=◌, ◌>>◌, Outcome, done, deref, assert}
use c4irp.Prelude.Bits.Masks.{one_shl, not_one_shl, all_ones_shl}
use c4irp.Util.{msb32}

-- ch_bf_handler_t
pub record Handler : Type 0 where
  pub id : ℕ  -- uint8_t
  pub used : ℕ  -- uint8_t

-- ch_buffer_pool_t
pub record Pool : Type 0 where
  pub max_buffers : ℕ  -- uint8_t
  pub used_buffers : ℕ  -- uint8_t
  pub free_buffers : ℕ  -- uint32_t
  pub handlers : List Handler

-- The loop of ch_bf_init from index `i`, with `n` rounds left.
unfoldable pub init_handlers : ℕ → ℕ → List Handler
init_handlers zero i = []
init_handlers (suc n) i = record { id = i % 256; used = 0 } ∷ init_handlers n (i + 1)

-- ch_bf_init. A shift by 32 is undefined in C, and happens for no buffers at all.
unfoldable pub init : ℕ → Outcome Pool
unfolding init_handlers
init max_buffers = do
  assert (leb max_buffers 32)
  free ← deref (if max_buffers == 0 then none else some (all_ones_shl (32 - max_buffers)))
  done (record {
    max_buffers = max_buffers;
    used_buffers = 0;
    free_buffers = free;
    handlers = init_handlers max_buffers 0;
  })

-- The handler `i` of the pool with its field `used` given anew.
abbrev pub set_used : Pool → ℕ → Handler → ℕ → Pool
set_used pool i h u = record pool { handlers = set pool.handlers i (record h { used = u }) }

-- The part of ch_bf_reserve after the msb `free` is found. `free - 1` and `32 - free` are shift and
-- index: out of their ranges C leaves the code undefined.
take_buffer : Pool → ℕ → Outcome (Pool × Option ℕ)
take_buffer pool free = do
  shift ← deref (if free == 0 then none else some (free - 1))
  let p = record pool { free_buffers = bit_and pool.free_buffers (not_one_shl shift) }
  h ← deref (get_elem? p.handlers (32 - free))
  assert (h.used == 0)
  done (set_used p (32 - free) h 1, some (32 - free))

-- The branch of ch_bf_reserve on a pool that is not used up.
reserve_free : Pool → Outcome (Pool × Option ℕ)
unfolding take_buffer
reserve_free pool = do
  let p = record pool { used_buffers = (pool.used_buffers + 1) % 256 }
  free ← msb32 p.free_buffers
  take_buffer p free

-- ch_bf_reserve: the pool after the call, and the pointer that it returns (`none` is NULL).
unfoldable pub reserve : Pool → Outcome (Pool × Option ℕ)
unfolding reserve_free
reserve pool =
    if ltb pool.used_buffers pool.max_buffers then reserve_free pool else done (pool, none)

-- ch_bf_return. `used_buffers - 1` wraps at 0.
unfoldable pub return : Pool → ℕ → Outcome Pool
return pool i = do
  h ← deref (get_elem? pool.handlers i)
  assert (h.used == 1)
  let p = set_used pool i h 0
  g ← deref (get_elem? p.handlers i)
  assert (g.used == 0)
  shift ← deref (if leb h.id 31 then some (31 - h.id) else none)
  done (record p {
    used_buffers = (p.used_buffers + 255) % 256;
    free_buffers = bit_or p.free_buffers (one_shl shift);
  })
