-- ===== src/Buffer/Invariant.antt =====
-- What holds of a pool between two calls.
use c4irp.Prelude.{
  ℕ, zero, suc, ◌+◌, ◌-◌, ◌^◌, ◌≤◌, ◌<◌, ◌≡◌, refl, List, [], ◌∷◌, some, arith, length, get_elem?,
  set, get_elem?_lt, get_elem?-set_self, get_elem?-set_ne, length-set, sym, ◌∙◌, ◌==◌,
  if◌then◌else◌,
}
use native.Mathlib.Decide.{dec_lt, ℕ_discrete}
use c4irp.Prelude.Bits.{bit}
use c4irp.Buffer.{Handler, Pool, set_used}

-- The number of handlers in use.
abbrev pub count_used : List Handler → ℕ
count_used [] = 0
count_used (h ∷ hs) = h.used + count_used hs

-- The handler at `i` has id `i`, and digit 31 - i of the free set is 1 exactly when it is not used.
abbrev pub Agrees : ℕ → ℕ → Handler → Type 0
Agrees free i h = (h.id ≡ i) × (h.used + bit free (31 - i) ≡ 1)

pub record IsValid (p : Pool) : Type 0 where
  pub max_small : p.max_buffers ≤ 32
  pub sized : length p.handlers ≡ p.max_buffers
  pub counted : p.used_buffers ≡ count_used p.handlers
  pub free_word : p.free_buffers < 2 ^ 32
  pub unused_low : (k : ℕ) → k < 32 - p.max_buffers → bit p.free_buffers k ≡ 0
  pub agrees : (i : ℕ) (h : Handler) → get_elem? p.handlers i ≡ some h → Agrees p.free_buffers i h

-- With fewer in use than there are handlers, one is free.
pub some_free :
    (hs : List Handler)
    → count_used hs < length hs
    → (i : ℕ) × (h : Handler) × (get_elem? hs i ≡ some h) × (h.used ≡ 0)
some_free [] lt = absurd (omega arith)
some_free (h ∷ hs) lt = elim (dec_lt 0 h.used) [
  | yes busy ↦ let (i, g, at, free) = some_free hs (omega (arith, busy, lt)) in (suc i, g, at, free)
  | no idle ↦ (0, h, refl, omega arith)
]

pub count_used-set :
    (hs : List Handler) (i : ℕ) (h g : Handler)
    → get_elem? hs i ≡ some h
    → count_used (set hs i g) + h.used ≡ count_used hs + g.used
count_used-set [] i h g e = cc
count_used-set (x ∷ hs) zero h g e = ground arith
count_used-set (x ∷ hs) (suc i) h g e = omega (arith, count_used-set hs i h g e)

-- No more are in use than there are handlers.
pub count_used-le :
    (hs : List Handler)
    → ((i : ℕ) (h : Handler) → get_elem? hs i ≡ some h → h.used ≤ 1)
    → count_used hs ≤ length hs
count_used-le [] all = omega arith
count_used-le (h ∷ hs) all =
    omega (arith, all 0 h refl, count_used-le hs (λ i g e. all (suc i) g e))

pub used-le-max : (p : Pool) → IsValid p → p.used_buffers ≤ p.max_buffers
used-le-max p v =
    let le = count_used-le p.handlers (λ i h e. omega (arith, v.agrees i h e)) in
    omega (arith, v.counted, v.sized)

-- A handler whose use changes together with its digit of the free set and with the counter.
abbrev pub changed : Pool → ℕ → Handler → ℕ → ℕ → ℕ → Pool
changed p i h used free count = record (set_used p i h used) {
  free_buffers = free;
  used_buffers = count;
}

module _ (p : Pool) (i : ℕ) (h : Handler) (used free count : ℕ) where
  pub changed-IsValid :
      IsValid p
      → get_elem? p.handlers i ≡ some h
      → used ≤ 1
      → free < 2 ^ 32
      → ((k : ℕ) → k < 32 → bit free k ≡ (if k == 31 - i then 1 - used else bit p.free_buffers k))
      → count + h.used ≡ p.used_buffers + used
      → IsValid (changed p i h used free count)
  changed-IsValid v at le word digits sum =
      let inside = get_elem?_lt p.handlers i h at in
      record {
        max_small = v.max_small;
        sized = length-set p.handlers i _ ∙ v.sized;
        counted =
            omega (arith, count_used-set p.handlers i h (record h { used = used }) at, v.counted);
        free_word = word;
        unused_low = λ k lt. ground (arith, digits k, v.unused_low k, v.max_small, v.sized, inside);
        agrees = λ j g e. elim (ℕ_discrete i j) [
          | yes same ↦
              let here = get_elem?-set_self p.handlers i (record h { used = used }) inside in
              ground (arith, digits (31 - i), v.agrees i h at, v.max_small, v.sized, here)
          | no other ↦
              let there =
                sym (get_elem?-set_ne p.handlers i j (record h { used = used }) other) ∙ e in
              let below = get_elem?_lt p.handlers j g there in
              ground (arith, digits (31 - j), v.agrees j g there, v.max_small, v.sized, below)
        ];
      }
