-- ===== src/Chirp/Init/Identity.antt =====
-- The identity of an object: which one ch_chirp_init chooses.
use c4irp.Prelude.{
  ℕ, zero, suc, ◌+◌, ◌≤◌, ◌<◌, ◌≡◌, inl, inr, refl, sym, ◌∙◌, Bool, true, false, ◌==◌, List, [],
  ◌∷◌, some, arith, length, get_elem?, replicate, Bool-cases, Option-cases, if◌then◌else◌,
}
use c4irp.Prelude.Outcome.{done}
use c4irp.Util.Random.{random_ints_as_bytes-length}
use c4irp.Chirp.Init.{first_set, choose_identity}

-- The loop stops in range.
first_set_bound : (bytes : List ℕ) (n i : ℕ) → first_set bytes n i ≤ i + n
unfolding first_set
first_set_bound bytes zero i = omega arith
first_set_bound bytes (suc n) i =
    ground (arith, first_set_bound bytes n (i + 1), Option-cases (get_elem? bytes i))

in_range : (bytes : List ℕ) (i : ℕ) → i < length bytes → (b : ℕ) × (get_elem? bytes i ≡ some b)
in_range [] i h = absurd (omega (arith, h))
in_range (b ∷ bytes) zero h = (b, refl)
in_range (b ∷ bytes) (suc i) h = in_range bytes i (omega (arith, h))

-- For the 16 bytes of a configuration there is always an identity, of 16 bytes.
pub choose_identity_total :
    (rand : ℕ → ℕ) (configured : List ℕ)
    → length configured ≡ 16
    → (id : List ℕ) × (choose_identity rand configured ≡ done id) × (length id ≡ 16)
unfolding choose_identity
choose_identity_total rand configured size =
    let i = first_set configured 15 0 in
    let (value, e) = in_range configured i (omega (arith, size, first_set_bound configured 15 0)) in
    let (first, f) = in_range configured 0 (omega (arith, size)) in
    let (id, g, n) = random_ints_as_bytes-length rand 16 refl in
    elim (Bool-cases (value == 0)) [
      | inl unset ↦ (id, rw (e, unset) g, n)
      | inr set ↦ (first ∷ replicate 15 0, rw (e, set, f) refl, refl)
    ]

abbrev pub all_zero : List ℕ → Bool
all_zero [] = true
all_zero (b ∷ bytes) = if b == 0 then all_zero bytes else false

-- Where the loop stops at a byte that is not set, none that it looked at is set.
first_set_zero :
    (bytes : List ℕ) (n i : ℕ)
    → get_elem? bytes (first_set bytes n i) ≡ some 0
    → (j : ℕ) → i ≤ j
    → j ≤ i + n
    → get_elem? bytes j ≡ some 0
unfolding first_set
first_set_zero bytes zero i h j lo hi = let same : j ≡ i = omega (arith, lo, hi) in rw same h
first_set_zero bytes (suc n) i h j lo hi = elim (Option-cases (get_elem? bytes i)) [
  | inl out ↦ absurd (ground (arith, h, out))
  | inr (b, e) ↦ elim (Bool-cases (b == 0)) [
    | inl unset ↦ elim (Bool-cases (j == i)) [
      | inl here ↦ ground (arith, e, unset, here)
      | inr there ↦
          first_set_zero bytes n (i + 1) (ground (arith, h, e, unset)) j (ground (arith, there, lo))
            (omega (arith, hi))
    ]
    | inr set ↦ absurd (ground (arith, h, e, set))
  ]
]

all_zero_of :
    (bytes : List ℕ)
    → ((j : ℕ) → j < length bytes → get_elem? bytes j ≡ some 0)
    → all_zero bytes ≡ true
all_zero_of [] h = refl
all_zero_of (b ∷ bytes) h =
    ground (arith, h 0 (omega arith), all_zero_of bytes (λ j lt. h (suc j) (omega (arith, lt))))

-- The identity of a configuration with a byte that is set: only its first byte is copied.
choose_identity_first :
    (rand : ℕ → ℕ) (b : ℕ) (rest : List ℕ)
    → length rest ≡ 15
    → all_zero (b ∷ rest) ≡ false
    → choose_identity rand (b ∷ rest) ≡ done (b ∷ replicate 15 0)
unfolding choose_identity
choose_identity_first rand b rest size some_set =
    let bytes = b ∷ rest in
    let i = first_set bytes 15 0 in
    let (value, e) = in_range bytes i (omega (arith, size, first_set_bound bytes 15 0)) in
    elim (Bool-cases (value == 0)) [
      | inl unset ↦
          let zero_at : get_elem? bytes i ≡ some 0 = ground (arith, e, unset) in
          let zeros : all_zero bytes ≡ true =
            all_zero_of bytes (λ j lt.
              first_set_zero bytes 15 0 zero_at j (omega arith) (omega (arith, lt, size))) in
          absurd (ground (arith, zeros, some_set))
      | inr set ↦ rw (e, set) refl
    ]

-- Two configurations with 16 bytes of identity, each with a byte that is set, give two objects the
-- same identity whenever the first bytes are the same, whatever the other 15 are.
pub same_identity :
    (rand rand' : ℕ → ℕ) (b : ℕ) (rest rest' : List ℕ)
    → length rest ≡ 15
    → length rest' ≡ 15
    → all_zero (b ∷ rest) ≡ false
    → all_zero (b ∷ rest') ≡ false
    → choose_identity rand (b ∷ rest) ≡ choose_identity rand' (b ∷ rest')
same_identity rand rand' b rest rest' size size' h h' =
    choose_identity_first rand b rest size h ∙ sym (choose_identity_first rand' b rest' size' h')
