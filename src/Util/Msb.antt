-- ===== src/Util/Msb.antt =====
-- ch_msb32 finds the highest digit.
use c4irp.Prelude.{
  ℕ, zero, suc, ◌+◌, ◌-◌, ◌*◌, ◌/◌, ◌%◌, ◌^◌, ◌≤◌, ◌<◌, ◌≡◌, refl, bit_and, arith, get_elem?, some,
}
use c4irp.Prelude.Outcome.{done}
use c4irp.Prelude.Bits.Words.{shr, bit_and_high, shr-shr, shr_one_bounds}
use c4irp.Util.{bval, Scan, narrow, msb32}

-- What a step of the scan keeps: the halvings made so far are counted in `r`, and `x` is not zero.
record Scans (x0 width : ℕ) (s : Scan) : Type 0 where
  halved : shr s.r x0 ≡ s.x
  pos : 0 < s.x
  below : s.x < 2 ^ width
  small : s.r + width ≤ 32

high16 : (x : ℕ) → x < 2 ^ 32 → bit_and x 0xFFFF0000 ≡ x / 65536 * 65536
high16 x h = omega (arith, bit_and_high 16 16 x (omega arith))

high8 : (x : ℕ) → x < 2 ^ 16 → bit_and x 0xFF00 ≡ x / 256 * 256
high8 x h = omega (arith, bit_and_high 8 8 x (omega arith))

high4 : (x : ℕ) → x < 2 ^ 8 → bit_and x 0xF0 ≡ x / 16 * 16
high4 x h = omega (arith, bit_and_high 4 4 x (omega arith))

narrow16-Scans : (x0 : ℕ) (s : Scan) → Scans x0 32 s → Scans x0 16 (narrow 0xFFFF0000 16 s)
unfolding narrow
narrow16-Scans x0 s v = ground (arith, high16 s.x, shr-shr s.r 16 x0)

narrow8-Scans : (x0 : ℕ) (s : Scan) → Scans x0 16 s → Scans x0 8 (narrow 0xFF00 8 s)
unfolding narrow
narrow8-Scans x0 s v = ground (arith, high8 s.x, shr-shr s.r 8 x0)

narrow4-Scans : (x0 : ℕ) (s : Scan) → Scans x0 8 s → Scans x0 4 (narrow 0xF0 4 s)
unfolding narrow
narrow4-Scans x0 s v = ground (arith, high4 s.x, shr-shr s.r 4 x0)

-- The table is right for every index but 0.
bval_lem :
    (x : ℕ)
    → 0 < x
    → x < 2 ^ 4
    → (v : ℕ) × (get_elem? bval x ≡ some v) × (1 ≤ v) × (v ≤ 4) × (shr (v - 1) x ≡ 1)
bval_lem zero p h = absurd (omega arith)
bval_lem (suc zero) p h = (1, refl, omega arith, omega arith, refl)
bval_lem (suc (suc zero)) p h = (2, refl, omega arith, omega arith, refl)
bval_lem (suc (suc (suc zero))) p h = (2, refl, omega arith, omega arith, refl)
bval_lem (suc (suc (suc (suc zero)))) p h = (3, refl, omega arith, omega arith, refl)
bval_lem (suc (suc (suc (suc (suc zero))))) p h = (3, refl, omega arith, omega arith, refl)
bval_lem (suc (suc (suc (suc (suc (suc zero)))))) p h = (3, refl, omega arith, omega arith, refl)
bval_lem (suc (suc (suc (suc (suc (suc (suc zero))))))) p h =
    (3, refl, omega arith, omega arith, refl)
bval_lem (suc (suc (suc (suc (suc (suc (suc (suc zero)))))))) p h =
    (4, refl, omega arith, omega arith, refl)
bval_lem (suc (suc (suc (suc (suc (suc (suc (suc (suc zero))))))))) p h =
    (4, refl, omega arith, omega arith, refl)
bval_lem (suc (suc (suc (suc (suc (suc (suc (suc (suc (suc zero)))))))))) p h =
    (4, refl, omega arith, omega arith, refl)
bval_lem (suc (suc (suc (suc (suc (suc (suc (suc (suc (suc (suc zero))))))))))) p h =
    (4, refl, omega arith, omega arith, refl)
bval_lem (suc (suc (suc (suc (suc (suc (suc (suc (suc (suc (suc (suc zero)))))))))))) p h =
    (4, refl, omega arith, omega arith, refl)
bval_lem (suc (suc (suc (suc (suc (suc (suc (suc (suc (suc (suc (suc (suc zero))))))))))))) p h =
    (4, refl, omega arith, omega arith, refl)
bval_lem (suc (suc (suc (suc (suc (suc (suc (suc (suc (suc (suc (suc (suc (suc zero)))))))))))))) p
      h =
    (4, refl, omega arith, omega arith, refl)
bval_lem
      (suc (suc (suc (suc (suc (suc (suc (suc (suc (suc (suc (suc (suc (suc (suc zero)))))))))))))))
      p h =
    (4, refl, omega arith, omega arith, refl)
bval_lem
      (suc
        (suc (suc (suc (suc (suc (suc (suc (suc (suc (suc (suc (suc (suc (suc (suc x))))))))))))))))
      p h =
    absurd (omega arith)

scan_all : ℕ → Scan
scan_all x = narrow 0xF0 4 (narrow 0xFF00 8 (narrow 0xFFFF0000 16 (record { r = 0; x = x })))

scan_all-Scans : (x : ℕ) → 0 < x → x < 2 ^ 32 → Scans x 4 (scan_all x)
unfolding scan_all
scan_all-Scans x p h = narrow4-Scans x _ (
    narrow8-Scans x _
      (narrow16-Scans x _ (record { halved = refl; pos = p; below = h; small = omega arith })))

-- For a word that is not zero ch_msb32 returns, reads its table in range, and gives the number `r`
-- of the word's digits: halving the word r - 1 times leaves 1.
pub msb32-shr :
    (x : ℕ)
    → 0 < x
    → x < 2 ^ 32
    → (r : ℕ) × (msb32 x ≡ done r) × (1 ≤ r) × (r ≤ 32) × (shr (r - 1) x ≡ 1)
unfolding msb32 scan_all
msb32-shr x p h =
    let s = scan_all x in
    let v = scan_all-Scans x p h in
    let (d, read, lo, hi, top) = bval_lem s.x v.pos v.below in
    let sum : (s.r + d) % 2 ^ 32 ≡ s.r + d = omega (arith, v.small) in
    let split : s.r + d - 1 ≡ s.r + (d - 1) = omega arith in
    (
      s.r + d,
      rw (read, sum) refl,
      omega arith,
      omega (arith, v.small),
      rw (split, ← shr-shr s.r (d - 1) x, v.halved) top,
    )

-- For a word that is not zero ch_msb32 returns the position r of its highest set bit, counted
-- from 1: 2^(r-1) ≤ x < 2^r.
pub msb32_bounds :
    (x : ℕ)
    → 0 < x
    → x < 2 ^ 32
    → (r : ℕ) × (msb32 x ≡ done r) × (1 ≤ r) × (r ≤ 32) × (2 ^ (r - 1) ≤ x) × (x < 2 ^ r)
msb32_bounds x p h =
    let (r, e, lo, hi, top) = msb32-shr x p h in
    let (below, above) = shr_one_bounds (r - 1) x top in
    let back : suc (r - 1) ≡ r = omega arith in (r, e, lo, hi, below, rw back at above)
