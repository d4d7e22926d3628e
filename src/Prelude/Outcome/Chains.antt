-- ===== src/Prelude/Outcome/Chains.antt =====
-- What is known where a chain of calls returns.
use mathlib.Core.Path.{◌≡◌, refl}
use native.Mathlib.Omega.{arith}
use c4irp.Prelude.Outcome.{Outcome, done, aborted, undefined, blocked, unfinished, ◌>>=◌}

pub done_injective : {A : Type 0} (a b : A) → done a ≡ done b → a ≡ b
done_injective a b h = ground (arith, h)

-- A chain that returns has come past its first part.
pub came_past :
    {A B : Type 0} (o : Outcome A) (f : A → Outcome B) (b : B)
    → o >>= f ≡ done b
    → (a : A) × (o ≡ done a) × (f a ≡ done b)
came_past (done a) f b h = (a, refl, h)
came_past aborted f b h = absurd (ground (arith, h))
came_past undefined f b h = absurd (ground (arith, h))
came_past blocked f b h = absurd (ground (arith, h))
came_past unfinished f b h = absurd (ground (arith, h))

pub chain_assoc :
    {A B C : Type 0} (o : Outcome A) (f : A → Outcome B) (g : B → Outcome C)
    → o >>= f >>= g ≡ o >>= λ a. f a >>= g
chain_assoc (done a) f g = refl
chain_assoc aborted f g = refl
chain_assoc undefined f g = refl
chain_assoc blocked f g = refl
chain_assoc unfinished f g = refl
