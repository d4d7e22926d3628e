-- ===== src/Util/Memory/Owners.antt =====
-- Which allocator a block goes back to.
use c4irp.Prelude.{ℕ, ◌≡◌, ◌==◌, List, [], ◌∷◌, Option, none, some, if◌then◌else◌, ◌⊎◌}
use c4irp.Util.Memory.{Hooks, Memory, Answer, default_hooks, alloc, realloc, free, set_alloc_funcs}

-- A block that is in use, and the function that returned it.
pub record Block : Type 0 where
  pub address : ℕ
  pub maker : ℕ

-- The first entry of an address is taken out.
unfoldable pub without : ℕ → List Block → List Block
without a [] = []
without a (b ∷ bs) = let rest = without a bs in if b.address == a then bs else b ∷ rest

unfoldable pub maker_of : ℕ → List Block → Option ℕ
maker_of a [] = none
maker_of a (b ∷ bs) = let rest = maker_of a bs in if b.address == a then some b.maker else rest

module _ (IsAllocator : ℕ → ℕ → ℕ → Type 0) (answer : Answer) where
  -- What a program does with memory: the blocks that it has in use. It replaces the functions by the
  -- three of one allocator, which need not be the same function, and only while it has no block in
  -- use.
  pub data Uses : Memory → List Block → Type 0 where
    begun : Uses (record { hooks = default_hooks; calls = [] }) []
    took :
        {m m' : Memory} {bs : List Block} (size a : ℕ)
        → Uses m bs
        → alloc answer size m ≡ (some a, m')
        → Uses m' (record { address = a; maker = m.hooks.alloc_cb } ∷ bs)
    missed :
        {m m' : Memory} {bs : List Block} (size : ℕ)
        → Uses m bs
        → alloc answer size m ≡ (none, m')
        → Uses m' bs
    moved :
        {m m' : Memory} {bs : List Block} (buf size a : ℕ)
        → Uses m bs
        → realloc answer buf size m ≡ (some a, m')
        → Uses m' (record { address = a; maker = m.hooks.realloc_cb } ∷ without buf bs)
    not_moved :
        {m m' : Memory} {bs : List Block} (buf size : ℕ)
        → Uses m bs
        → realloc answer buf size m ≡ (none, m')
        → Uses m' bs
    gave :
        {m m' : Memory} {bs : List Block} (buf : ℕ)
        → Uses m bs
        → free buf m ≡ m'
        → Uses m' (without buf bs)
    replaced :
        {m m' : Memory} (al re fr : ℕ)
        → IsAllocator al re fr
        → Uses m []
        → set_alloc_funcs al re fr m ≡ m'
        → Uses m' []

-- A function that returns blocks of the allocator in use.
Makes : Hooks → ℕ → Type 0
Makes h g = (g ≡ h.alloc_cb) ⊎ (g ≡ h.realloc_cb)

AllMade : Hooks → List Block → Type 0
AllMade h [] = Unit {0}
AllMade h (b ∷ bs) = Makes h b.maker × AllMade h bs

module _ (IsAllocator : ℕ → ℕ → ℕ → Type 0) (c_library : IsAllocator 0 0 0) (answer : Answer) where
  -- The three pointers are those of one allocator, and the blocks in use come from it.
  record IsOne (m : Memory) (bs : List Block) : Type 0 where
    hooked : IsAllocator m.hooks.alloc_cb m.hooks.realloc_cb m.hooks.free_cb
    blocks : AllMade m.hooks bs
