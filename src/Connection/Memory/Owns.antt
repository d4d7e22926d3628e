-- ===== src/Connection/Memory/Owns.antt =====
-- What a connection owns over its life, and how taking, closing and giving back change it.
use c4irp.Prelude.{
  ℕ, ◌-◌, ◌≤◌, ◌≡◌, refl, Bool, true, false, Option, none, some, List, [], ◌∷◌, if◌then◌else◌,
  arith,
}
use c4irp.Prelude.Int.{pos, ◌+ℤ◌, ◌-ℤ◌}
use c4irp.World.{
  Call, alloc, free_buffer, free_pool, free_connection, mutex_destroy, ssl_free, bio_free,
}
use c4irp.Connection.Memory.{
  Owned, is_life, life, tally, Resource, buffers, tls_engine, tls_pipe, lock, memory, takes,
  gives_back, closes, closing, is_over,
}

-- The size of a buffer, and how much of each resource is taken with it.
abbrev pub size_of : Option ℕ → ℕ
size_of none = 0
size_of (some k) = k

abbrev pub amount : Resource → Option ℕ → ℕ
amount buffers none = 0
amount buffers (some k) = 3
amount _ o = 1

abbrev pub frees_pool : Call → Bool
frees_pool free_pool = true
frees_pool _ = false

-- With `n` of the handles' callbacks done.
pub record Owns (n : ℕ) (v : Owned) (l : List Call) : Type 0 where
  pub tls : v.tls ≡ true
  pub ssl : v.ssl ≡ true
  pub bio : v.bio ≡ true
  pub wtls : v.wtls ≡ v.uv
  pub rtls : v.rtls ≡ v.uv
  pub sized : v.size ≡ size_of v.uv
  pub some_due : n ≤ closing l
  pub few : closing l ≤ 2
  pub due : v.tasks ≡ pos (closing l - n)
  pub taken : (r : Resource) → tally (takes r) l ≡ amount r v.uv
  pub back : (r : Resource) → tally (gives_back r) l ≡ (if is_over l n then amount r v.uv else 0)
  pub pool : tally frees_pool l ≡ (if is_over l n then 1 else 0)

-- The changes of what is owned.
abbrev pub with_buffers : ℕ → Owned → Owned
with_buffers k v = record v { uv = some k; wtls = some k; rtls = some k; size = k }

abbrev pub with_two_due : Owned → Owned
with_two_due v = record v { tasks = v.tasks +ℤ 2 }

abbrev pub with_one_done : Owned → Owned
with_one_done v = record v { tasks = v.tasks -ℤ 1 }

-- The calls by which everything is given back, the last one first.
abbrev pub released : Option ℕ → List Call
released none = free_connection ∷ mutex_destroy ∷ free_pool ∷ bio_free ∷ ssl_free ∷ []
released (some k) =
    free_connection ∷ mutex_destroy ∷ free_pool ∷ bio_free ∷ ssl_free ∷ free_buffer ∷ free_buffer
    ∷ free_buffer ∷ []

-- A count is the same over the calls of the life.
pub tally-life :
    (p : Call → Bool) (t : List Call)
    → ((c : Call) → p c ≡ true → is_life c ≡ true)
    → tally p (life t) ≡ tally p t
unfolding tally life
tally-life p [] h = refl
tally-life p (c ∷ t) h = ground (arith, h c, tally-life p t h)

pub closes-is_life : (c : Call) → closes c ≡ true → is_life c ≡ true
closes-is_life c h = ground arith

pub frees_pool-is_life : (c : Call) → frees_pool c ≡ true → is_life c ≡ true
frees_pool-is_life c h = ground arith

pub takes-is_life : (r : Resource) (c : Call) → takes r c ≡ true → is_life c ≡ true
takes-is_life buffers c h = ground arith
takes-is_life tls_engine c h = ground arith
takes-is_life tls_pipe c h = ground arith
takes-is_life lock c h = ground arith
takes-is_life memory c h = ground arith

pub gives_back-is_life : (r : Resource) (c : Call) → gives_back r c ≡ true → is_life c ≡ true
gives_back-is_life buffers c h = ground arith
gives_back-is_life tls_engine c h = ground arith
gives_back-is_life tls_pipe c h = ground arith
gives_back-is_life lock c h = ground arith
gives_back-is_life memory c h = ground arith

module _ {n : ℕ} {v : Owned} {l : List Call} (o : Owns n v l) where
  -- The three buffers are allocated.
  pub Owns-with_buffers :
      (k : ℕ)
      → v.uv ≡ none
      → is_over l n ≡ false
      → Owns n (with_buffers k v) (alloc k ∷ alloc k ∷ alloc k ∷ l)
  unfolding tally
  Owns-with_buffers k none_yet going = record {
    tls = o.tls;
    ssl = o.ssl;
    bio = o.bio;
    wtls = refl;
    rtls = refl;
    sized = refl;
    some_due = o.some_due;
    few = o.few;
    due = o.due;
    taken = taken;
    back = back;
    pool = o.pool;
  }
    where
      taken : (r : Resource) → tally (takes r) (alloc k ∷ alloc k ∷ alloc k ∷ l) ≡ amount r (some k)
      taken buffers = rw (o.taken buffers, none_yet) refl
      taken tls_engine = o.taken tls_engine
      taken tls_pipe = o.taken tls_pipe
      taken lock = o.taken lock
      taken memory = o.taken memory

      back :
          (r : Resource)
          → tally (gives_back r) (alloc k ∷ alloc k ∷ alloc k ∷ l)
            ≡ (if is_over (alloc k ∷ alloc k ∷ alloc k ∷ l) n then amount r (some k) else 0)
      back buffers = rw (o.back buffers, going) refl
      back tls_engine = rw (o.back tls_engine, going) refl
      back tls_pipe = rw (o.back tls_pipe, going) refl
      back lock = rw (o.back lock, going) refl
      back memory = rw (o.back memory, going) refl
