-- ===== src/Buffer/Return.antt =====
-- ch_bf_return takes a handler back, and undoes ch_bf_reserve.
use c4irp.Prelude.{
  ℕ, ◌+◌, ◌-◌, ◌%◌, ◌<◌, ◌≡◌, ◌≢◌, refl, ◌∙◌, some, true, arith, bit_or, get_elem?, set,
  get_elem?_lt, get_elem?-set_self, get_elem?-set_ne, set-set, set-get_elem?, ◌==◌, leb, ap,
  get_elem?-some, if◌then◌else◌,
}
use c4irp.Prelude.Outcome.{done, aborted}
use c4irp.Prelude.Bits.{bit, bit-bit_or, bit-le-one}
use c4irp.Prelude.Bits.Words.{bit_or-lt, bit_and-lt, bit_ext}
use c4irp.Prelude.Bits.Masks.{one_shl, not_one_shl, bit-one_shl, one_shl-lt}
use c4irp.Buffer.{Handler, Pool, reserve, return}
use c4irp.Buffer.Invariant.{IsValid, count_used-set, used-le-max, changed, changed-IsValid}
use c4irp.Buffer.Reserve.{rest, rest_digits, top_digit, reserves_at, Reserves-here}

-- What the call of `return` does to the pool `p` when it takes handler `i` back.
pub record Returns (p : Pool) (i : ℕ) (q : Pool) : Type 0 where
  pub valid : IsValid q
  pub now_free :
      (h : Handler)
      → get_elem? p.handlers i ≡ some h
      → get_elem? q.handlers i ≡ some (record h { used = 0 })
  pub others : (j : ℕ) → i ≢ j → get_elem? q.handlers j ≡ get_elem? p.handlers j
  pub one_less : q.used_buffers + 1 ≡ p.used_buffers
  pub same_max : q.max_buffers ≡ p.max_buffers

-- The free set after the return.
abbrev more : Pool → ℕ → ℕ
more p shift = bit_or p.free_buffers (one_shl shift)

more_digits :
    (p : Pool) (i k : ℕ)
    → i < 32
    → k < 32
    → bit (more p (31 - i)) k ≡ (if k == 31 - i then 1 - 0 else bit p.free_buffers k)
more_digits p i k hi hk = ground (
  arith,
  bit-bit_or p.free_buffers (one_shl (31 - i)) k,
  bit-one_shl (31 - i) k,
  bit-le-one p.free_buffers k,
)

module _ (p : Pool) (v : IsValid p) (i : ℕ) (h : Handler)
    (at : get_elem? p.handlers i ≡ some h) where
  used_pos : h.used ≡ 1 → 0 < p.used_buffers
  used_pos busy =
      omega (arith, count_used-set p.handlers i h (record h { used = 0 }) at, v.counted, busy)

  returns_at :
      h.used ≡ 1
      → return p i ≡ done (changed p i h 0 (more p (31 - i)) ((p.used_buffers + 255) % 256))
  unfolding return
  returns_at busy =
      let inside = get_elem?_lt p.handlers i h at in
      let self = get_elem?-set_self p.handlers i (record h { used = 0 }) inside in
      let small : leb i 31 ≡ true = ground (arith, v.sized, v.max_small) in
      rw (at, busy, self, (v.agrees i h at).0, small) refl

  Returns-here :
      h.used ≡ 1 → Returns p i (changed p i h 0 (more p (31 - i)) ((p.used_buffers + 255) % 256))
  Returns-here busy =
      let inside = get_elem?_lt p.handlers i h at in
      let small : i < 32 = omega (arith, v.sized, v.max_small) in
      let pos = used_pos busy in
      let le = used-le-max p v in
      let max = v.max_small in
      let word =
        bit_or-lt 32 p.free_buffers (one_shl (31 - i)) v.free_word
          (one_shl-lt (31 - i) (omega arith)) in
      record {
        valid =
            changed-IsValid p i h 0 _ _ v at (omega arith) word (λ k lt. more_digits p i k small lt)
              (omega (arith, busy));
        now_free = λ g e.
            ground (arith, get_elem?-set_self p.handlers i (record h { used = 0 }) inside, at, e);
        others = λ j ne. get_elem?-set_ne p.handlers i j (record h { used = 0 }) ne;
        one_less = omega arith;
        same_max = refl;
      }

  -- On a valid pool and a handler in use, ch_bf_return returns: no assertion fails. The handler is
  -- free afterwards, no other handler changes, and the pool is valid and counts one less in use.
  pub return-Returns : h.used ≡ 1 → (q : Pool) × (return p i ≡ done q) × Returns p i q
  return-Returns busy = (_, returns_at busy, Returns-here busy)

  -- A handler that is not in use is not taken back a second time: the assertion fails.
  pub return_twice : h.used ≡ 0 → return p i ≡ aborted
  unfolding return
  return_twice idle = rw (at, idle) refl

-- Setting a digit that was cleared gives the free set back.
more-rest :
    (p : Pool) (i count : ℕ) (h : Handler)
    → IsValid p
    → i < 32
    → bit p.free_buffers (31 - i) ≡ 1
    → more (changed p i h 1 (rest p (31 - i)) count) (31 - i) ≡ p.free_buffers
more-rest p i count h v hi digit =
    bit_ext 32 _ p.free_buffers
      (bit_or-lt 32 (rest p (31 - i)) (one_shl (31 - i))
        (bit_and-lt 32 p.free_buffers (not_one_shl (31 - i)) v.free_word)
        (one_shl-lt (31 - i) (omega arith)))
      v.free_word
      λ k hk. ground (
        arith,
        bit-bit_or (rest p (31 - i)) (one_shl (31 - i)) k,
        bit-one_shl (31 - i) k,
        rest_digits p i k hi hk,
        bit-le-one p.free_buffers k,
        digit,
      )

-- On a valid pool with a handler left, returning the handler that ch_bf_reserve hands out gives
-- back the very pool that was there before, its free set included.
pub return-reserve :
    (p : Pool)
    → IsValid p
    → p.used_buffers < p.max_buffers
    → (i : ℕ) × (q : Pool) × (reserve p ≡ done (q, some i)) × (return q i ≡ done p)
return-reserve p v lt =
    let (i, msb, inside, digit, above) = top_digit p v lt in
    let (h, at) = get_elem?-some p.handlers i (omega (arith, v.sized)) in
    let r = Reserves-here p v i h lt at digit above in
    let idle = r.was_free h at in
    let word = more-rest p i (p.used_buffers + 1) h v (omega (arith, v.max_small)) digit in
    let count : (p.used_buffers + 1 + 255) % 256 ≡ p.used_buffers = omega (arith, v.max_small) in
    let same : record h { used = 0 } ≡ h = ground (arith, idle) in
    let restored =
      set-set p.handlers i (record h { used = 1 }) (record h { used = 0 })
      ∙ ap (set p.handlers i) same
      ∙ set-get_elem? p.handlers i h at in
    (
      i,
      changed p i h 1 (rest p (31 - i)) (p.used_buffers + 1),
      reserves_at p v i h lt at msb digit,
      returns_at _ r.valid i (record h { used = 1 }) (r.now_used h at) refl
          ∙ ap done (ground (arith, word, count, restored)),
    )
