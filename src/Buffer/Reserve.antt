-- ===== src/Buffer/Reserve.antt =====
-- ch_bf_reserve hands out the free handler with the lowest index.
use c4irp.Prelude.{
  ℕ, zero, suc, ◌+◌, ◌-◌, ◌%◌, ◌<◌, ◌≡◌, ◌≢◌, refl, some, none, arith, bit_and, get_elem?,
  get_elem?_lt, get_elem?-some, get_elem?-set_self, get_elem?-set_ne, ◌==◌, if◌then◌else◌, lt→ltb,
  false, ◌↔◌,
}
use native.Mathlib.Decide.{dec_lt}
use c4irp.Prelude.Outcome.{done}
use c4irp.Prelude.Bits.{bit, bit-bit_and, bit-le-one, zero-bit}
use c4irp.Prelude.Bits.Words.{bit-shr, shr_one_above, bit_and-lt}
use c4irp.Prelude.Bits.Masks.{not_one_shl, bit-not_one_shl}
use c4irp.Util.{msb32}
use c4irp.Util.Msb.{msb32-shr}
use c4irp.Buffer.{Handler, Pool, reserve}
use c4irp.Buffer.Invariant.{IsValid, some_free, used-le-max, changed, changed-IsValid}

-- What the call of `reserve` does to the pool `p` when it hands out handler `i`.
pub record Reserves (p : Pool) (i : ℕ) (q : Pool) : Type 0 where
  pub valid : IsValid q
  pub inside : i < p.max_buffers
  pub was_free : (h : Handler) → get_elem? p.handlers i ≡ some h → h.used ≡ 0
  pub lowest : (j : ℕ) (h : Handler) → j < i → get_elem? p.handlers j ≡ some h → h.used ≡ 1
  pub now_used :
      (h : Handler)
      → get_elem? p.handlers i ≡ some h
      → get_elem? q.handlers i ≡ some (record h { used = 1 })
  pub others : (j : ℕ) → i ≢ j → get_elem? q.handlers j ≡ get_elem? p.handlers j
  pub one_more : q.used_buffers ≡ p.used_buffers + 1
  pub same_max : q.max_buffers ≡ p.max_buffers

-- The free set after the reservation.
abbrev pub rest : Pool → ℕ → ℕ
rest p shift = bit_and p.free_buffers (not_one_shl shift)

pub rest_digits :
    (p : Pool) (i k : ℕ)
    → i < 32
    → k < 32
    → bit (rest p (31 - i)) k ≡ (if k == 31 - i then 1 - 1 else bit p.free_buffers k)
rest_digits p i k hi hk = ground (
  arith,
  bit-bit_and p.free_buffers (not_one_shl (31 - i)) k,
  bit-not_one_shl (31 - i) k,
  bit-le-one p.free_buffers k,
)

pos_of_bit : (x k : ℕ) → bit x k ≡ 1 → 0 < x
pos_of_bit zero k h = absurd (omega (arith, zero-bit k))
pos_of_bit (suc x) k h = omega arith

-- The free set is not empty, and its highest digit is that of a handler.
pub top_digit :
    (p : Pool)
    → IsValid p
    → p.used_buffers < p.max_buffers
    → (i : ℕ) × (msb32 p.free_buffers ≡ done (32 - i))
      × (i < p.max_buffers)
      × (bit p.free_buffers (31 - i) ≡ 1)
      × ((k : ℕ) → 31 - i < k → bit p.free_buffers k ≡ 0)
top_digit p v lt =
    let (j, g, at, idle) = some_free p.handlers (omega (arith, v.counted, v.sized)) in
    let full : bit p.free_buffers (31 - j) ≡ 1 = omega (arith, v.agrees j g at, idle) in
    let pos = pos_of_bit p.free_buffers (31 - j) full in
    let (r, e, lo, hi, one) = msb32-shr p.free_buffers pos v.free_word in
    let top : bit p.free_buffers (r - 1) ≡ 1 = omega (arith, bit-shr (r - 1) p.free_buffers, one) in
    let back : 32 - (32 - r) ≡ r = omega arith in
    let shift : 31 - (32 - r) ≡ r - 1 = omega arith in
    (
      32 - r,
      rw back e,
      ground (arith, v.unused_low (r - 1), top),
      rw shift top,
      λ k gt. shr_one_above (r - 1) p.free_buffers k one (omega arith),
    )

module _ (p : Pool) (v : IsValid p) (i : ℕ) (h : Handler) where
  -- The call, once the digit of the handler is known.
  pub reserves_at :
      p.used_buffers < p.max_buffers
      → get_elem? p.handlers i ≡ some h
      → msb32 p.free_buffers ≡ done (32 - i)
      → bit p.free_buffers (31 - i) ≡ 1
      → reserve p ≡ done (changed p i h 1 (rest p (31 - i)) (p.used_buffers + 1), some i)
  unfolding reserve
  reserves_at lt at msb digit =
      let inside = get_elem?_lt p.handlers i h at in
      let idle : h.used ≡ 0 = omega (arith, v.agrees i h at, digit) in
      let index : 32 - (32 - i) ≡ i = omega (arith, v.sized, v.max_small) in
      let wrap : (p.used_buffers + 1) % 256 ≡ p.used_buffers + 1 = omega (arith, v.max_small) in
      let some_shift : ((32 - i) == 0) ≡ false = ground (arith, v.sized, v.max_small) in
      let shift : 32 - i - 1 ≡ 31 - i = omega arith in
      rw (lt→ltb _ _ lt, msb, some_shift, index, at, idle, wrap, shift) refl

  pub Reserves-here :
      p.used_buffers < p.max_buffers
      → get_elem? p.handlers i ≡ some h
      → bit p.free_buffers (31 - i) ≡ 1
      → ((k : ℕ) → 31 - i < k → bit p.free_buffers k ≡ 0)
      → Reserves p i (changed p i h 1 (rest p (31 - i)) (p.used_buffers + 1))
  Reserves-here lt at digit above =
      let inside = get_elem?_lt p.handlers i h at in
      let small : i < 32 = omega (arith, v.sized, v.max_small) in
      let word = bit_and-lt 32 p.free_buffers (not_one_shl (31 - i)) v.free_word in
      record {
        valid =
            changed-IsValid p i h 1 _ _ v at (omega arith) word (λ k lt. rest_digits p i k small lt)
              (omega (arith, v.agrees i h at, digit));
        inside = omega (arith, v.sized);
        was_free = λ g e. omega (arith, v.agrees i g e, digit);
        lowest = λ j g lt e. omega (arith, v.agrees j g e, above (31 - j) (omega arith));
        now_used = λ g e.
            ground (arith, get_elem?-set_self p.handlers i (record h { used = 1 }) inside, at, e);
        others = λ j ne. get_elem?-set_ne p.handlers i j (record h { used = 1 }) ne;
        one_more = refl;
        same_max = refl;
      }

-- On a valid pool with a handler left, ch_bf_reserve returns: no assertion fails and nothing is
-- read out of range. The handler it gives is free and is the one with the lowest index; it is
-- used afterwards, no other handler changes, and the pool is valid and counts one more in use.
pub reserve-Reserves :
    (p : Pool)
    → IsValid p
    → p.used_buffers < p.max_buffers
    → (i : ℕ) × (q : Pool) × (reserve p ≡ done (q, some i)) × Reserves p i q
reserve-Reserves p v lt =
    let (i, msb, inside, digit, above) = top_digit p v lt in
    let (h, at) = get_elem?-some p.handlers i (omega (arith, v.sized)) in
    (i, _, reserves_at p v i h lt at msb digit, Reserves-here p v i h lt at digit above)

reserve_full : (p : Pool) → p.used_buffers ≡ p.max_buffers → reserve p ≡ done (p, none)
unfolding reserve
reserve_full p e = ground arith

-- On a valid pool ch_bf_reserve returns NULL, with the pool unchanged, exactly when all handlers
-- are in use.
pub reserve-none_iff :
    (p : Pool) → IsValid p → (reserve p ≡ done (p, none)) ↔ (p.used_buffers ≡ p.max_buffers)
reserve-none_iff p v = (only, reserve_full p)
  where
    only : reserve p ≡ done (p, none) → p.used_buffers ≡ p.max_buffers
    only e = elim (dec_lt p.used_buffers p.max_buffers) [
      | yes lt ↦ let (i, q, call, r) = reserve-Reserves p v lt in cc
      | no ge ↦ omega (arith, used-le-max p v)
    ]
