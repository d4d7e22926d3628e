-- ===== src/Buffer/Tests.antt =====
-- The pool of handlers at two buffers.
use c4irp.Prelude.{ℕ, ◌≡◌, refl, some, arith, ◌∷◌, []}
use c4irp.Prelude.Outcome.{done}
use c4irp.Prelude.Bits.Words.{shr_one_above}
use c4irp.Buffer.{Pool, init_handlers, reserve, return}
use c4irp.Buffer.Invariant.{IsValid}
use c4irp.Buffer.Init.{init_pool-IsValid}
use c4irp.Buffer.Reserve.{Reserves, reserve-Reserves, Reserves-here}
use c4irp.Buffer.Return.{Returns, return-Returns, return-reserve}
use c4irp.Samples.{two_handlers}

two_handlers-IsValid : IsValid two_handlers
unfolding init_handlers
two_handlers-IsValid = init_pool-IsValid 2 (omega arith) (omega arith)

-- The pool with its first handler in use.
abbrev one_used : Pool
one_used = record {
  max_buffers = 2;
  used_buffers = 1;
  free_buffers = 0x40000000;
  handlers = record { id = 0; used = 1 } ∷ record { id = 1; used = 0 } ∷ [];
}

one_used-IsValid : IsValid one_used
one_used-IsValid =
    (Reserves-here two_handlers two_handlers-IsValid 0 (record { id = 0; used = 0 }) (omega arith)
      refl refl (λ k gt. shr_one_above 31 0xC0000000 k refl gt)).valid

reserve-Reserves_example :
    (i : ℕ) × (q : Pool) × (reserve two_handlers ≡ done (q, some i)) × Reserves two_handlers i q
reserve-Reserves_example = reserve-Reserves two_handlers two_handlers-IsValid (omega arith)

return-Returns_example : (q : Pool) × (return one_used 0 ≡ done q) × Returns one_used 0 q
return-Returns_example =
    return-Returns one_used one_used-IsValid 0 (record { id = 0; used = 1 }) refl refl

return-reserve_example :
    (i : ℕ) × (q : Pool) × (reserve two_handlers ≡ done (q, some i))
    × (return q i ≡ done two_handlers)
return-reserve_example = return-reserve two_handlers two_handlers-IsValid (omega arith)
