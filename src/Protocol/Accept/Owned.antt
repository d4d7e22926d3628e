-- ===== src/Protocol/Accept/Owned.antt =====
-- What a connection owns when _ch_pr_new_connection_cb returns.
use c4irp.Prelude.{
  ℕ, ◌≤◌, ◌≡◌, refl, ap, sym, ◌∙◌, inl, inr, Bool, true, false, none, List, [], ◌∷◌, arith,
}
use c4irp.Prelude.Int.{ℤ, pos, is_neg}
use c4irp.Prelude.Outcome.{done}
use c4irp.Prelude.Outcome.Chains.{done_injective}
use mathlib.Core.Path.{subst}
use c4irp.World.{
  Env, State, Call, alloc_connection, mutex_init, ssl_new, bio_new_pair, uv_close, client,
}
use c4irp.Connection.Memory.{
  life, all_fit, tally, Resource, buffers, tls_engine, tls_pipe, lock, memory, takes, gives_back,
  fresh,
}
use c4irp.Connection.Memory.Owns.{Owns, amount}
use c4irp.Connection.Memory.Alive.{Alive, settled}
use c4irp.Protocol.Accept.{new_connection_cb}
use c4irp.Protocol.Accept.Outcomes.{Outcomes, new_connection_cb_cases}

-- The calls by which everything was taken, the last one first, and the closing of a refused one.
abbrev taking : List Call
taking = bio_new_pair ∷ ssl_new ∷ mutex_init ∷ alloc_connection ∷ []

abbrev first : Bool → List Call
first true = taking
first false = uv_close client ∷ taking

abbrev tasks_of : Bool → ℤ
tasks_of true = pos 0
tasks_of false = pos 1

first_taken : (b : Bool) (r : Resource) → tally (takes r) (first b) ≡ amount r none
unfolding tally
first_taken true buffers = refl
first_taken true tls_engine = refl
first_taken true tls_pipe = refl
first_taken true lock = refl
first_taken true memory = refl
first_taken false buffers = refl
first_taken false tls_engine = refl
first_taken false tls_pipe = refl
first_taken false lock = refl
first_taken false memory = refl

first_back : (b : Bool) (r : Resource) → tally (gives_back r) (first b) ≡ 0
unfolding tally
first_back true buffers = refl
first_back true tls_engine = refl
first_back true tls_pipe = refl
first_back true lock = refl
first_back true memory = refl
first_back false buffers = refl
first_back false tls_engine = refl
first_back false tls_pipe = refl
first_back false lock = refl
first_back false memory = refl

first-Owns : Owns 0 (fresh (tasks_of true)) (first true)
unfolding tally
first-Owns = record {
  tls = refl;
  ssl = refl;
  bio = refl;
  wtls = refl;
  rtls = refl;
  sized = refl;
  some_due = omega arith;
  few = omega arith;
  due = refl;
  taken = first_taken true;
  back = first_back true;
  pool = refl;
}

refused-Owns : Owns 0 (fresh (tasks_of false)) (first false)
unfolding tally
refused-Owns = record {
  tls = refl;
  ssl = refl;
  bio = refl;
  wtls = refl;
  rtls = refl;
  sized = refl;
  some_due = omega arith;
  few = omega arith;
  due = refl;
  taken = first_taken false;
  back = first_back false;
  pool = refl;
}

module _ (env : Env) (fuel : ℕ) (status : ℤ) (s : State) (clean : s.trace ≡ []) where
  outcome-Alive :
      (o : Outcomes env fuel status s) → tally (gives_back memory) (o.0).trace ≡ 0 → Alive 0 o.0
  unfolding tally life all_fit
  outcome-Alive (s', e, inl (is_ready, owns, calls)) h =
      settled first-Owns s'
        (record { same = owns; lived = rw (calls, clean) refl; room = rw (calls, clean) refl })
  outcome-Alive (s', e, inr (inl (owns, calls))) h =
      settled refused-Owns s'
        (record { same = owns; lived = rw (calls, clean) refl; room = rw (calls, clean) refl })
  outcome-Alive (s', e, inr (inr (inl calls))) h =
      absurd (omega (arith, sym h ∙ ap (tally (gives_back memory)) calls))
  outcome-Alive (s', e, inr (inr (inr calls))) h =
      absurd (omega (arith, sym h ∙ ap (tally (gives_back memory)) calls))

  pub new_connection_cb-Alive :
      (s' : State)
      → is_neg status ≡ false
      → 1 ≤ s.chirp.config.max_handlers
      → s.chirp.config.max_handlers ≤ 32
      → new_connection_cb env fuel status s ≡ done (tt, s')
      → tally (gives_back memory) s'.trace ≡ 0
      → Alive 0 s'
  new_connection_cb-Alive s' ok lo hi e h =
      let o = new_connection_cb_cases env fuel status s ok lo hi in
      let same : o.0 ≡ s' =
        ap (λ (r : Unit {0} × State). r.1) (done_injective _ _ (sym (o.1) ∙ e)) in
      subst (Alive 0) same
        (outcome-Alive o (subst (λ t. tally (gives_back memory) t.trace ≡ 0) (sym same) h))
