-- ===== src/Prelude/Bits/Masks.antt =====
-- The 32 one-digit words `1 << j` and their complements `~(1 << j)`, and the word `0xFFFFFFFF << k`,
-- digit by digit. The tables are checked by evaluation.
use Prim.Native.Nat.{ℕ, zero, suc, ◌-◌, ◌*◌, ◌%◌, ◌^◌, ◌<◌}
use mathlib.Core.Path.{◌≡◌, refl}
use mathlib.Core.Bool.{Bool, true, false}
use native.Mathlib.Omega.{arith}
use c4irp.Prelude.Tests.{◌==◌, ==_iff, ltb, if◌then◌else◌}
use c4irp.Prelude.Bits.{bit}

-- `1 << j` on 32 bits.
abbrev pub one_shl : ℕ → ℕ
one_shl j = 2 ^ j

-- `~(1 << j)` on 32 bits.
abbrev pub not_one_shl : ℕ → ℕ
not_one_shl j = 2 ^ 32 - 1 - 2 ^ j

-- `0xFFFFFFFFU << k` on 32 bits.
abbrev pub all_ones_shl : ℕ → ℕ
all_ones_shl k = 0xFFFFFFFF * 2 ^ k % 2 ^ 32

-- Whether a test passes at every number under a bound, by evaluation.
passes : (ℕ → Bool) → ℕ → Bool
passes test zero = true
passes test (suc bound) = if test bound then passes test bound else false

passes_at : (test : ℕ → Bool) (bound i : ℕ) → i < bound → passes test bound ≡ true → test i ≡ true
unfolding passes
passes_at test zero i inside ok = absurd (omega arith)
passes_at test (suc bound) i inside ok =
    let earlier = passes_at test bound i in ground (arith, earlier)

table : (ℕ → ℕ) → (ℕ → ℕ → ℕ) → Bool
unfolding passes
table f g = passes (λ j. passes (λ k. bit (f j) k == g j k) 32) 32

table_sound :
    (f : ℕ → ℕ) (g : ℕ → ℕ → ℕ) (j k : ℕ) → table f g ≡ true → j < 32 → k < 32 → bit (f j) k ≡ g j k
unfolding table
table_sound f g j k h hj hk =
    let row = passes_at (λ j. passes (λ k. bit (f j) k == g j k) 32) 32 j hj h in
    (==_iff _ _).0 (passes_at (λ k. bit (f j) k == g j k) 32 k hk row)

one_shl-table : table one_shl (λ j k. if j == k then 1 else 0) ≡ true
unfolding table
one_shl-table = refl

not_one_shl-table : table not_one_shl (λ j k. if j == k then 0 else 1) ≡ true
unfolding table
not_one_shl-table = refl

all_ones_shl-table : table all_ones_shl (λ j k. if ltb k j then 0 else 1) ≡ true
unfolding table
all_ones_shl-table = refl

pub bit-one_shl : (j k : ℕ) → j < 32 → k < 32 → bit (one_shl j) k ≡ (if j == k then 1 else 0)
bit-one_shl j k hj hk = table_sound one_shl _ j k one_shl-table hj hk

pub bit-not_one_shl :
    (j k : ℕ) → j < 32 → k < 32 → bit (not_one_shl j) k ≡ (if j == k then 0 else 1)
bit-not_one_shl j k hj hk = table_sound not_one_shl _ j k not_one_shl-table hj hk

pub bit-all_ones_shl :
    (j k : ℕ) → j < 32 → k < 32 → bit (all_ones_shl j) k ≡ (if ltb k j then 0 else 1)
bit-all_ones_shl j k hj hk = table_sound all_ones_shl _ j k all_ones_shl-table hj hk

one_shl_bound_table : passes (λ j. ltb (one_shl j) (2 ^ 32)) 32 ≡ true
unfolding passes
one_shl_bound_table = refl

pub one_shl-lt : (j : ℕ) → j < 32 → one_shl j < 2 ^ 32
one_shl-lt j hj =
    let h = passes_at (λ j. ltb (one_shl j) (2 ^ 32)) 32 j hj one_shl_bound_table in ground arith
