-- ===== src/Util/Random.antt =====
-- ch_random_ints_as_bytes fills its buffer, and writes nothing behind it.
use c4irp.Prelude.{ℕ, zero, suc, ◌+◌, ◌*◌, ◌/◌, ◌%◌, ◌≡◌, refl, List, arith, length, length-append}
use c4irp.Prelude.Bytes.{le32}
use c4irp.Prelude.Outcome.{done}
use c4irp.Util.{random_ints, random_ints_as_bytes}

length-random_ints : (rand : ℕ → ℕ) (n i : ℕ) → length (random_ints rand n i) ≡ 4 * n
unfolding random_ints
length-random_ints rand zero i = refl
length-random_ints rand (suc n) i = omega (
  arith,
  length-append (le32 (rand i)) (random_ints rand n (i + 1)),
  length-random_ints rand n (i + 1),
)

pub random_ints_as_bytes-length :
    (rand : ℕ → ℕ) (len : ℕ)
    → len % 4 ≡ 0
    → (bytes : List ℕ) × (random_ints_as_bytes rand len ≡ done bytes) × (length bytes ≡ len)
unfolding random_ints_as_bytes
random_ints_as_bytes-length rand len h =
    (random_ints rand (len / 4) 0, rw h refl, omega (arith, h, length-random_ints rand (len / 4) 0))
