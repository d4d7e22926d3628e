-- ===== src/Buffer/Init.antt =====
-- ch_bf_init makes a valid pool with every handler free.
use c4irp.Prelude.{ℕ, zero, suc, ◌+◌, ◌-◌, ◌≤◌, ◌<◌, ◌≡◌, refl, some, arith, length, get_elem?, ap}
use c4irp.Prelude.Outcome.{done, aborted, undefined}
use c4irp.Prelude.Bits.Masks.{all_ones_shl, bit-all_ones_shl}
use c4irp.Buffer.{Handler, Pool, init, init_handlers}
use c4irp.Buffer.Invariant.{IsValid, count_used}

length-init_handlers : (n i : ℕ) → length (init_handlers n i) ≡ n
unfolding init_handlers
length-init_handlers zero i = refl
length-init_handlers (suc n) i = ap suc (length-init_handlers n (i + 1))

count_used-init_handlers : (n i : ℕ) → count_used (init_handlers n i) ≡ 0
unfolding init_handlers
count_used-init_handlers zero i = refl
count_used-init_handlers (suc n) i = omega (arith, count_used-init_handlers n (i + 1))

init_handlers_at :
    (n i j : ℕ) (h : Handler)
    → n + i ≤ 32
    → get_elem? (init_handlers n i) j ≡ some h
    → (h.id ≡ i + j) × (h.used ≡ 0) × (j < n)
unfolding init_handlers
init_handlers_at zero i j h le e = ground arith
init_handlers_at (suc n) i zero h le e = ground arith
init_handlers_at (suc n) i (suc j) h le e =
    let (a, b, c) = init_handlers_at n (i + 1) j h (omega arith) e in (omega arith, b, omega arith)

abbrev pub init_pool : ℕ → Pool
init_pool n = record {
  max_buffers = n;
  used_buffers = 0;
  free_buffers = all_ones_shl (32 - n);
  handlers = init_handlers n 0;
}

pub init_pool-IsValid : (n : ℕ) → 1 ≤ n → n ≤ 32 → IsValid (init_pool n)
init_pool-IsValid n lo hi = record {
  max_small = hi;
  sized = length-init_handlers n 0;
  counted = omega (arith, count_used-init_handlers n 0);
  free_word = omega arith;
  unused_low = λ k lt. ground (arith, bit-all_ones_shl (32 - n) k);
  agrees = λ i h e.
      let (a, b, c) = init_handlers_at n 0 i h (omega arith) e in
      ground (arith, bit-all_ones_shl (32 - n) (31 - i));
}

pub init_eq : (n : ℕ) → 1 ≤ n → n ≤ 32 → init n ≡ done (init_pool n)
unfolding init
init_eq n lo hi = ground arith

-- For 1 to 32 buffers ch_bf_init returns, with a valid pool of that size in which none is used.
pub init-IsValid :
    (n : ℕ)
    → 1 ≤ n
    → n ≤ 32
    → (p : Pool) × (init n ≡ done p) × IsValid p × (p.max_buffers ≡ n) × (p.used_buffers ≡ 0)
init-IsValid n lo hi = (init_pool n, init_eq n lo hi, init_pool-IsValid n lo hi, refl, refl)

-- With no buffers ch_bf_init shifts by the full width, and with more than 32 its assertion fails.
pub init_out_of_range : (n : ℕ) → ((n ≡ 0) → init n ≡ undefined) × ((32 < n) → init n ≡ aborted)
unfolding init
init_out_of_range n = (λ e. ground arith, λ lt. ground arith)
