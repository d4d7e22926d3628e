-- ===== src/Chirp/Stop.antt =====
-- What ch_pr_stop does to the connections and to the closing semaphore, whichever connections the
-- iterators of sglib give it, in whatever order.
pub mod Begins
use c4irp.Prelude.{
  ℕ, ◌+◌, ◌<◌, ◌≡◌, ◌≢◌, refl, ap, ◌∙◌, Bool, true, false, ◌||◌, List, [], ◌∷◌, Option, none, some,
  length, get_elem?, set, get_elem?-set_self, get_elem?-set_ne, get_elem?_lt, get_elem?-some,
  length-set, ◌==◌, arith, Bool-cases, inl, inr,
}
use mathlib.Core.Path.{subst}
use c4irp.Prelude.Outcome.{done, deref}
use c4irp.Prelude.Outcome.Chains.{came_past, done_injective}
use c4irp.Prelude.Int.{ℤ, ◌+ℤ◌}
use c4irp.Types.{ErrorCode}
use c4irp.World.{Env, State, Connection, Chirp, Call}
use c4irp.World.Keeps.{Ends}
use c4irp.Connection.Callbacks.{owed, Counts}
use c4irp.Connection.Callbacks.Rules.{move_up}
use c4irp.Connection.Shutdown.{shutdown}
use c4irp.Connection.Shutdown.Depth.{shutdown-IsShutting}
use c4irp.Connection.Shutdown.Frame.{shutdown-Keeps}
use c4irp.Connection.Shutdown.Callbacks.{Counts-Kept}
use c4irp.Connection.Shutdown.Returns.{Unfinished, shutdown_returns}
use c4irp.Chirp.{Visits, close_connections, stop}

-- Whether a position is among those that an iterator gives.
unfoldable pub is_visited : ℕ → List ℕ → Bool
is_visited i [] = false
is_visited i (j ∷ js) = (i == j) || is_visited i js

-- The connections before and after a loop: those that were given to it are shutting down, the others
-- are as they were.
pub record Visited (visits : List ℕ) (before after : List Connection) : Type 0 where
  pub shut :
      (i : ℕ)
      → is_visited i visits ≡ true
      → (c : Connection) × (get_elem? after i ≡ some c) × (c.flags.shutting_down ≡ true)
  pub others : (i : ℕ) → is_visited i visits ≡ false → get_elem? after i ≡ get_elem? before i

-- While chirp is closing: the semaphore has risen from `base` by what is owed now, less `x`.
record Tasks (env : Env) (base : ℤ) (x : ℕ) (chirp : Chirp) (trace : List Call) : Type 0 where
  is_closing : chirp.closing ≡ true
  balance : chirp.closing_tasks +ℤ x ≡ base +ℤ owed env trace

deref_done : {A : Type 0} (o : Option A) (a : A) → deref o ≡ done a → o ≡ some a
deref_done none a h = absurd (ground (arith, h))
deref_done (some b) a h = ap some (done_injective b a h)

same_place : (i j : ℕ) → (i == j) ≡ true → i ≡ j
same_place i j h = ground (arith, h)

other_place : (i j : ℕ) → (i == j) ≡ false → j ≢ i
other_place i j h e = ground (arith, h, e)

-- A visit before those of a loop.
visit_first :
    (i : ℕ) (is : List ℕ) (before after : List Connection) (c : Connection)
    → i < length before
    → c.flags.shutting_down ≡ true
    → Visited is (set before i c) after
    → Visited (i ∷ is) before after
unfolding is_visited
visit_first i is before after c lt down v = record {
  shut = λ k h. elim (Bool-cases (is_visited k is)) [
    | inl again ↦ v.shut k again
    | inr not_again ↦
        let at : k ≡ i = same_place k i (ground (arith, h, not_again)) in
        (
          c,
          v.others k not_again
              ∙ ap (λ (n : ℕ). get_elem? (set before i c) n) at
              ∙ get_elem?-set_self before i c lt,
          down,
        )
  ];
  others = λ k h.
      v.others k (ground (arith, h))
      ∙ get_elem?-set_ne before i k c (other_place k i (ground (arith, h)));
}

module _ (env : Env) (fuel : ℕ) {base : ℤ} {x : ℕ} where
  shutdown-Tasks :
      (c : Connection) (chirp : Chirp) (trace : List Call) (e : ErrorCode) (s : State)
      → Tasks env base x chirp trace
      → shutdown env fuel 2 (record { conn = c; chirp = chirp; trace = trace }) ≡ done (e, s)
      → Tasks env base x s.chirp s.trace
  shutdown-Tasks c chirp trace e s t h =
      let k = subst (Ends (λ _. Counts env base x)) h (
        (shutdown-Keeps (Counts-Kept fuel) 2).run
          (record { conn = c; chirp = chirp; trace = trace })
          (record { is_closing = t.is_closing; balance = t.balance })) in
      record { is_closing = k.is_closing; balance = k.balance }

  close_connections-Visited :
      (is : List ℕ) (cs : List Connection) (chirp : Chirp) (trace : List Call)
      (r : List Connection × Chirp × List Call)
      → Tasks env base x chirp trace
      → close_connections env fuel is cs chirp trace ≡ done r
      → Visited is cs r.0 × Tasks env base x r.1 r.2
  unfolding close_connections is_visited
  close_connections-Visited [] cs chirp trace r t h =
      subst
        (λ (r : List Connection × Chirp × List Call). Visited [] cs r.0 × Tasks env base x r.1 r.2)
        (done_injective _ r h)
        (record { shut = λ i e. absurd (ground (arith, e)); others = λ i e. refl }, t)
  close_connections-Visited (i ∷ is) cs chirp trace r t h =
      let (c, found, h1) = came_past _ _ r h in
      let ((e, s), shuts, h2) = came_past _ _ r h1 in
      let (v, t') =
        close_connections-Visited is (set cs i s.conn) s.chirp s.trace r
          (shutdown-Tasks c chirp trace e s t shuts) h2 in
      (
        visit_first i is cs r.0 s.conn (get_elem?_lt cs i c (deref_done (get_elem? cs i) c found))
            (shutdown-IsShutting env fuel 0 _ s e shuts) v,
        t',
      )

-- On a closing chirp object, whatever connections it has and whatever sglib's iterators, libuv and
-- OpenSSL give: if ch_pr_stop returns, every connection that an iterator has given is shutting
-- down, the others are as they were, and the closing semaphore has risen by the callbacks that
-- libuv has come to owe for the connections, and by two for the servers.
pub stop-Visited :
    (env : Env) (fuel : ℕ) (visits : Visits) (connections old : List Connection) (chirp : Chirp)
    (trace : List Call) (r : (List Connection × List Connection) × Chirp × List Call)
    → chirp.closing ≡ true
    → stop env fuel visits connections old chirp trace ≡ done r
    → Visited visits.in_use connections r.0.0
      × Visited visits.set_aside old r.0.1
      × (r.1.closing_tasks +ℤ owed env trace ≡ chirp.closing_tasks +ℤ (owed env r.2 + 2))
unfolding stop
stop-Visited env fuel visits connections old chirp trace r closing h =
    let ((cs, ch, t), h1, h') = came_past _ _ r h in
    let ((ds, ch', t'), h2, h'') = came_past _ _ r h' in
    let (v, k) =
      close_connections-Visited env fuel visits.in_use connections chirp trace (cs, ch, t)
        (record { is_closing = closing; balance = refl }) h1 in
    let (v', k') =
      close_connections-Visited env fuel visits.set_aside old ch t (ds, ch', t') k h2 in
    subst
      (λ (r : (List Connection × List Connection) × Chirp × List Call).
        Visited visits.in_use connections r.0.0
        × Visited visits.set_aside old r.0.1
        × (r.1.closing_tasks +ℤ owed env trace ≡ chirp.closing_tasks +ℤ (owed env r.2 + 2)))
      (done_injective _ r h'')
      (
        v,
        v',
        move_up ch'.closing_tasks chirp.closing_tasks 2 (owed env trace) (owed env t') _ refl
            k'.balance,
      )

-- Every position that an iterator gives is one of the connections.
pub record AreThere (visits : List ℕ) (cs : List Connection) : Type 0 where
  pub in_range : (i : ℕ) → is_visited i visits ≡ true → i < length cs

there_next :
    (i : ℕ) (is : List ℕ) (cs : List Connection) (c : Connection)
    → AreThere (i ∷ is) cs
    → AreThere is (set cs i c)
unfolding is_visited
there_next i is cs c a = record {
  in_range = λ k h. omega (arith, length-set cs i c, a.in_range k (ground (arith, h)));
}

there_first : (i : ℕ) (is : List ℕ) (cs : List Connection) → AreThere (i ∷ is) cs → i < length cs
unfolding is_visited
there_first i is cs a = a.in_range i (ground arith)

close_connections_returns :
    (env : Env) (fuel : ℕ) (is : List ℕ) (cs : List Connection) (chirp : Chirp) (trace : List Call)
    → Unfinished env
    → AreThere is cs
    → (r : List Connection × Chirp × List Call) × (close_connections env fuel is cs chirp trace
        ≡ done r)
unfolding close_connections
close_connections_returns env fuel [] cs chirp trace u a = (_, refl)
close_connections_returns env fuel (i ∷ is) cs chirp trace u a =
    let (c, found) = get_elem?-some cs i (there_first i is cs a) in
    let (e, s, shuts) =
      shutdown_returns env fuel (record { conn = c; chirp = chirp; trace = trace }) u in
    let (r, rest) =
      close_connections_returns env fuel is (set cs i s.conn) s.chirp s.trace u
        (there_next i is cs s.conn a) in
    (r, rw (found, shuts) rest)

pub stop_returns :
    (env : Env) (fuel : ℕ) (visits : Visits) (connections old : List Connection) (chirp : Chirp)
    (trace : List Call)
    → chirp.closing ≡ true
    → Unfinished env
    → AreThere visits.in_use connections
    → AreThere visits.set_aside old
    → (r : (List Connection × List Connection) × Chirp × List Call) × (stop env fuel visits
          connections old chirp trace
        ≡ done r)
      × Visited visits.in_use connections r.0.0
      × Visited visits.set_aside old r.0.1
unfolding stop
stop_returns env fuel visits connections old chirp trace closing u a b =
    let ((cs, ch, t), e) =
      close_connections_returns env fuel visits.in_use connections chirp trace u a in
    let ((ds, ch', t'), e') = close_connections_returns env fuel visits.set_aside old ch t u b in
    let r : (List Connection × List Connection) × Chirp × List Call =
      ((cs, ds), record ch' { closing_tasks = ch'.closing_tasks +ℤ 2 }, t') in
    let returned : stop env fuel visits connections old chirp trace ≡ done r = rw (e, e') refl in
    let (v, w, tasks) =
      stop-Visited env fuel visits connections old chirp trace r closing returned in
    (r, returned, v, w)
