-- ===== src/Chirp/System/Balance.antt =====
-- The closing semaphore of a chirp object with all of its connections.
use c4irp.Prelude.{
  ℕ, ◌+◌, ◌-◌, ◌*◌, ◌≤◌, ◌≡◌, refl, ap, sym, ◌∙◌, true, List, [], ◌∷◌, ◌++◌, ◌==◌, arith,
}
use c4irp.Prelude.Int.{ℤ, pos, negsuc, ◌+ℤ◌, ◌-ℤ◌}
use c4irp.Prelude.Outcome.{done}
use mathlib.Core.Path.{subst}
use c4irp.World.{Env, State, Chirp}
use c4irp.World.Keeps.{Ends}
use c4irp.Connection.Callbacks.{owed, Counts}
use c4irp.Connection.Callbacks.Rules.{plus_plus, move_down}
use c4irp.Protocol.Events.{complete}
use c4irp.Protocol.Callbacks.{calls_back, times_out, lowered_eq, complete-Keeps, handle-Ends}
use c4irp.Chirp.{check_closing}
use c4irp.Chirp.System.{
  Link, all_owed, all_down, System, state_of, link_after, system_after, Step, completed, happened,
  own_closed, Run, here, next,
}

-- By how much the semaphore was lowered.
abbrev pub down : System → ℕ
down y = all_down y.links + y.closed

all_down-append :
    (ks : List Link) (k : Link) (ls : List Link)
    → all_down (ks ++ k ∷ ls) ≡ all_down ks + k.down + all_down ls
unfolding all_down
all_down-append [] k ls = omega arith
all_down-append (j ∷ ks) k ls = omega (arith, all_down-append ks k ls)

all_owed-append :
    (ks : List Link) (k : Link) (ls : List Link)
    → all_owed (ks ++ k ∷ ls) ≡ all_owed ks + owed k.env k.trace + all_owed ls
unfolding all_owed
all_owed-append [] k ls = omega arith
all_owed-append (j ∷ ks) k ls = omega (arith, all_owed-append ks k ls)

cancel : (a b : ℤ) (n : ℕ) → a +ℤ n ≡ b +ℤ n → a ≡ b
cancel (pos a) (pos b) n h = ground arith
cancel (pos a) (negsuc b) n h = ground arith
cancel (negsuc a) (pos b) n h = ground arith
cancel (negsuc a) (negsuc b) n h = ground arith

-- An event on one connection, with `o` owed for it before and `o'` after, in a system of which the
-- rest has come to `u` and `d`.
combine :
    (ct ct' base : ℤ) (l o o' u d : ℕ)
    → ct' +ℤ (l + o) ≡ ct +ℤ o'
    → ct +ℤ d ≡ base +ℤ (u + o)
    → ct' +ℤ (l + d) ≡ base +ℤ (u + o')
combine ct ct' base l o o' u d h h' = cancel _ _ o (
    plus_plus ct' (l + d) o
    ∙ ap (λ (n : ℕ). ct' +ℤ n) (omega arith)
    ∙ sym (plus_plus ct' (l + o) d)
    ∙ ap (λ (z : ℤ). z +ℤ d) h
    ∙ plus_plus ct o' d
    ∙ ap (λ (n : ℕ). ct +ℤ n) (omega arith)
    ∙ sym (plus_plus ct d o')
    ∙ ap (λ (z : ℤ). z +ℤ o') h'
    ∙ plus_plus base (u + o) o'
    ∙ ap (λ (n : ℕ). base +ℤ n) (omega arith)
    ∙ sym (plus_plus base (u + o') o))

-- While chirp is closing: what is owed has come into the semaphore since it stood at `base`, and what
-- has called back is out of it.
record Balanced (base : ℤ) (y : System) : Type 0 where
  is_closing : y.chirp.closing ≡ true
  balance : y.chirp.closing_tasks +ℤ down y ≡ base +ℤ all_owed y.links

-- The balance of one connection, from the state before an event on.
at_first :
    (env : Env) (s : State)
    → s.chirp.closing ≡ true
    → Counts env s.chirp.closing_tasks (owed env s.trace) s
at_first env s h = record { is_closing = h; balance = refl }

module _ {base : ℤ} (y : System) (b : Balanced base y) (before after : List Link) (k : Link)
    (at : y.links ≡ before ++ k ∷ after) (l : ℕ) (s : State)
    (c : Counts k.env y.chirp.closing_tasks (l + owed k.env k.trace) s) where
  rest_up : ℕ
  rest_up = all_owed before + all_owed after

  rest_down : ℕ
  rest_down = all_down before + k.down + all_down after + y.closed

  before_lem : y.chirp.closing_tasks +ℤ rest_down ≡ base +ℤ (rest_up + owed k.env k.trace)
  unfolding rest_up rest_down
  before_lem =
      ap (λ (n : ℕ). y.chirp.closing_tasks +ℤ n)
        (sym (
          ap (λ (ks : List Link). all_down ks + y.closed) at
          ∙ ap (λ (n : ℕ). n + y.closed) (all_down-append before k after)))
      ∙ b.balance
      ∙ ap (λ (n : ℕ). base +ℤ n) (ap all_owed at ∙ all_owed-append before k after ∙ omega arith)

  step-Balanced : Balanced base (system_after y (before ++ link_after k l s ∷ after) s)
  unfolding rest_up rest_down
  step-Balanced = record {
    is_closing = c.is_closing;
    balance =
        ap (λ (n : ℕ). s.chirp.closing_tasks +ℤ n)
          (ap (λ (n : ℕ). n + y.closed) (all_down-append before (link_after k l s) after)
            ∙ omega arith)
        ∙ combine y.chirp.closing_tasks s.chirp.closing_tasks base l (owed k.env k.trace)
            (owed k.env s.trace) rest_up rest_down c.balance before_lem
        ∙ ap (λ (n : ℕ). base +ℤ n)
            (omega arith ∙ sym (all_owed-append before (link_after k l s) after));
  }

module _ (fuel : ℕ) {base : ℤ} where
  Step-Balanced : {y z : System} → Step fuel y z → Balanced base y → Balanced base z
  unfolding c4irp.Chirp.close_cb
  Step-Balanced {y} (completed before after k e s at h) b =
      step-Balanced y b before after k at 0 s (
        subst (Ends (λ _. Counts k.env y.chirp.closing_tasks (0 + owed k.env k.trace))) h (
          subst
            (λ x.
              Ends (λ _. Counts k.env y.chirp.closing_tasks x)
                (complete k.env fuel e (state_of y k)))
            (omega arith)
            ((complete-Keeps k.env fuel e).run (state_of y k)
              (at_first k.env (state_of y k) b.is_closing))))
  Step-Balanced {y} (happened before after k e s at inside h) b =
      step-Balanced y b before after k at (calls_back e + 2 * times_out e) s (
        subst (λ x. Counts k.env y.chirp.closing_tasks x s) (lowered_eq e (owed k.env k.trace))
          (subst (Ends (λ _. Counts k.env y.chirp.closing_tasks _)) h (
            handle-Ends k.env fuel e (state_of y k) inside
              (at_first k.env (state_of y k) b.is_closing))))
  Step-Balanced {y} own_closed b = record {
    is_closing = b.is_closing;
    balance =
        ap (λ (n : ℕ). y.chirp.closing_tasks -ℤ 1 +ℤ n) (omega arith)
        ∙ move_down y.chirp.closing_tasks (down y)
        ∙ b.balance;
  }

  Run-Balanced : {y z : System} → Run fuel y z → Balanced base y → Balanced base z
  Run-Balanced here b = b
  Run-Balanced (next r st) b = Step-Balanced st (Run-Balanced r b)

exact : (z : ℤ) (d u : ℕ) → d ≤ u → z +ℤ d ≡ pos u → z ≡ pos (u - d)
exact z d u le h = cancel z (pos (u - d)) d (h ∙ ap pos (omega arith))

check_exact :
    (chirp : Chirp) (d u : ℕ)
    → d ≤ u
    → chirp.closing_tasks ≡ pos (u - d)
    → check_closing chirp ≡ done (d == u)
unfolding check_closing
check_exact chirp d u le h = rw h (ground arith)

module _ (fuel : ℕ) (n m : ℕ) (y z : System) where
  start-Balanced :
      y.chirp.closing ≡ true
      → y.chirp.closing_tasks ≡ pos m
      → m + down y ≡ n + all_owed y.links
      → Balanced (pos n) y
  start-Balanced closing tasks due = record {
    is_closing = closing;
    balance = ap (λ (t : ℤ). t +ℤ down y) tasks ∙ ap pos due;
  }

  -- For a chirp object that is closing, with `n` handles of its own to close and any connections,
  -- encrypted or plain, and a semaphore that stands at what is due: whatever happens on the
  -- connections, in any order and with any answers of libuv and OpenSSL, as long as no more callbacks
  -- have come than are owed, a timeout of a shutdown counted as two, `closing_tasks` is the number of
  -- those that are still due, and the check returns and takes the object down exactly when none is.
  pub semaphore_exact :
      y.chirp.closing ≡ true
      → y.chirp.closing_tasks ≡ pos m
      → m + down y ≡ n + all_owed y.links
      → Run fuel y z
      → down z ≤ n + all_owed z.links
      → (z.chirp.closing_tasks ≡ pos (n + all_owed z.links - down z))
        × (check_closing z.chirp ≡ done (down z == n + all_owed z.links))
  semaphore_exact closing tasks due r le =
      let b = Run-Balanced fuel r (start-Balanced closing tasks due) in
      let counted = exact z.chirp.closing_tasks (down z) (n + all_owed z.links) le b.balance in
      (counted, check_exact z.chirp (down z) (n + all_owed z.links) le counted)
