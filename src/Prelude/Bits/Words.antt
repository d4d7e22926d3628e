-- ===== src/Prelude/Bits/Words.antt =====
-- Halving `k` times, the masks of high digits, and words told apart by their digits.
use Prim.Native.Nat.{
  ℕ, zero, suc, ◌+◌, ◌*◌, ◌/◌, ◌%◌, ◌^◌, ◌≤◌, ◌<◌, bit_and, bit_or, bit_and-bitwise,
}
use mathlib.Core.Path.{◌≡◌, refl}
use native.Mathlib.Nat.{pow-suc}
use native.Mathlib.Omega.{arith}
use c4irp.Prelude.Bits.{bit, zero-bit, bit_and_lowest, bit_or_lowest}

abbrev pub shr : ℕ → ℕ → ℕ
shr zero x = x
shr (suc k) x = shr k (x / 2)

abbrev pub shl : ℕ → ℕ → ℕ
shl zero x = x
shl (suc k) x = 2 * shl k x

-- The word of `n` ones.
abbrev pub ones : ℕ → ℕ
ones zero = 0
ones (suc n) = 2 * ones n + 1

bit_and-shl : (k x m : ℕ) → bit_and x (shl k m) ≡ shl k (bit_and (shr k x) m)
bit_and-shl zero x m = refl
bit_and-shl (suc k) x m =
    let half : 2 * shl k m / 2 ≡ shl k m = omega arith in
    rw (bit_and_lowest x (2 * shl k m), half) (omega (arith, bit_and-shl k (x / 2) m))

bit_and-ones : (n x : ℕ) → shr n x ≡ 0 → bit_and x (ones n) ≡ x
bit_and-ones zero x h = rw h refl
bit_and-ones (suc n) x h =
    let half : (2 * ones n + 1) / 2 ≡ ones n = omega arith in
    rw (bit_and_lowest x (2 * ones n + 1), half) (omega (arith, bit_and-ones n (x / 2) h))

-- A mask of `n` ones above `k` zeros clears the low `k` digits of a word of `k + n` digits.
pub bit_and_high : (k n x : ℕ) → shr n (shr k x) ≡ 0 → bit_and x (shl k (ones n)) ≡ shl k (shr k x)
bit_and_high k n x h = rw (bit_and-shl k x (ones n), bit_and-ones n (shr k x) h) refl

pub shr-shr : (a b x : ℕ) → shr b (shr a x) ≡ shr (a + b) x
shr-shr zero b x = let e : 0 + b ≡ b = omega arith in rw e refl
shr-shr (suc a) b x = let e : suc a + b ≡ suc (a + b) = omega arith in rw e (shr-shr a b (x / 2))

pub bit-shr : (k x : ℕ) → bit x k ≡ shr k x % 2
bit-shr zero x = refl
bit-shr (suc k) x = bit-shr k (x / 2)

zero-shr : (k : ℕ) → shr k 0 ≡ 0
zero-shr zero = refl
zero-shr (suc k) = zero-shr k

-- A number that is 1 after `k` halvings has its highest digit at `k`.
pub shr_one_bounds : (k x : ℕ) → shr k x ≡ 1 → (2 ^ k ≤ x) × (x < 2 ^ suc k)
shr_one_bounds zero x h = omega arith
shr_one_bounds (suc k) x h =
    omega (arith, shr_one_bounds k (x / 2) h, pow-suc 2 k, pow-suc 2 (suc k))

pub shr_one_above : (k x j : ℕ) → shr k x ≡ 1 → k < j → bit x j ≡ 0
shr_one_above zero x zero h lt = absurd (omega arith)
shr_one_above zero x (suc j) h lt = let e : x / 2 ≡ 0 = omega arith in rw e (zero-bit j)
shr_one_above (suc k) x zero h lt = absurd (omega arith)
shr_one_above (suc k) x (suc j) h lt = shr_one_above k (x / 2) j h (omega arith)

-- Words of `n` digits with the same digits are equal.
pub bit_ext : (n a b : ℕ) → a < 2 ^ n → b < 2 ^ n → ((k : ℕ) → k < n → bit a k ≡ bit b k) → a ≡ b
bit_ext zero a b ha hb h = omega arith
bit_ext (suc n) a b ha hb h =
    let half : a / 2 ≡ b / 2 =
      bit_ext n (a / 2) (b / 2) (omega (arith, pow-suc 2 n)) (omega (arith, pow-suc 2 n))
        (λ k lt. h (suc k) (omega arith)) in
    omega (arith, h 0 (omega arith))

-- `&` and `|` stay within the width of their operands.
pub bit_and-lt : (n a b : ℕ) → a < 2 ^ n → bit_and a b < 2 ^ n
bit_and-lt zero a b ha = let e : a ≡ 0 = omega arith in rw (e, bit_and-bitwise 0 b) (omega arith)
bit_and-lt (suc n) a b ha = omega (
  arith,
  bit_and_lowest a b,
  pow-suc 2 n,
  bit_and-lt n (a / 2) (b / 2) (omega (arith, pow-suc 2 n)),
)

pub bit_or-lt : (n a b : ℕ) → a < 2 ^ n → b < 2 ^ n → bit_or a b < 2 ^ n
bit_or-lt zero a b ha hb =
    let e : a ≡ 0 = omega arith in let f : b ≡ 0 = omega arith in rw (e, f) (omega arith)
bit_or-lt (suc n) a b ha hb = omega (
  arith,
  bit_or_lowest a b,
  pow-suc 2 n,
  bit_or-lt n (a / 2) (b / 2) (omega (arith, pow-suc 2 n)) (omega (arith, pow-suc 2 n)),
)
