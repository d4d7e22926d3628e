-- ===== src/Connection/Lifecycle/Returned.antt =====
-- ch_cn_close_cb on a connection that owns what it should: the assertion holds, and the last of the
-- callbacks gives everything back.
use c4irp.Prelude.{
  ℕ, suc, ◌-◌, ◌<◌, ◌≡◌, ◌≢◌, refl, ap, ◌∙◌, Bool, true, false, Option, none, some, ltb, List, [],
  ◌++◌, ◌⊎◌, inl, inr, if◌then◌else◌, arith,
}
use c4irp.Prelude.Outcome.{done}
use c4irp.Prelude.Int.{pos, ◌-ℤ◌}
use native.Mathlib.Decide.{ℕ_discrete}
use c4irp.World.{State, Connection, Chirp, Call}
use c4irp.Connection.Memory.{owned, life, all_fit, closing}
use c4irp.Connection.Memory.Owns.{Owns, released}
use c4irp.Connection.Memory.Closes.{
  due_suc, closing_still, Owns-with_one_done, Owns-released, minus_one,
}
use c4irp.Connection.Memory.Alive.{Alive}
use c4irp.Connection.Lifecycle.{close_cb}
use c4irp.Connection.Lifecycle.Semaphores.{freed, free_all_lem}

same_or_not : (a b : ℕ) → (a ≡ b) ⊎ (a ≢ b)
same_or_not a b = elim (ℕ_discrete a b) [ yes e ↦ inl e | no ne ↦ inr ne ]

-- The chirp object after a callback that it may wait for.
abbrev lowered : Chirp → Chirp
lowered ch = if ch.closing then record ch { closing_tasks = ch.closing_tasks -ℤ 1 } else ch

-- The state after the callback, with `calls` made.
abbrev after : State → List Call → State
after s calls = record s {
  conn = record (s.conn) { shutdown_tasks = s.conn.shutdown_tasks -ℤ 1 };
  chirp = lowered s.chirp;
  trace = calls ++ s.trace;
}

is_pos_suc : (k : ℕ) → ltb 0 (suc k) ≡ true
is_pos_suc k = ground arith

one_left :
    (b : Bool) (k : ℕ) (s : State)
    → s.chirp.closing ≡ b
    → s.conn.shutdown_tasks ≡ pos (suc (suc k))
    → close_cb s ≡ done (tt, after s [])
unfolding close_cb
one_left true k s e tasks = rw (e, tasks, minus_one (suc k)) (rw (is_pos_suc k) refl)
one_left false k s e tasks = rw (e, tasks, minus_one (suc k)) (rw (is_pos_suc k) refl)

none_left :
    (b : Bool) (s : State)
    → s.chirp.closing ≡ b
    → s.conn.shutdown_tasks ≡ pos 1
    → close_cb s ≡ done (tt, after s (freed s.conn))
unfolding close_cb
none_left true s e tasks = rw (e, tasks) (free_all_lem _)
none_left false s e tasks = rw (e, tasks) (free_all_lem _)

-- What is freed is what is owned.
freed-released :
    (c : Connection) (o : Option ℕ)
    → c.buffer_uv ≡ o
    → c.flags.encrypted ≡ true
    → c.has_ssl ≡ true
    → c.has_bio_app ≡ true
    → freed c ≡ released o
freed-released c none e tls ssl bio = rw (e, ssl, bio) refl
freed-released c (some k) e tls ssl bio = rw (e, tls, ssl, bio) refl

life-released : (o : Option ℕ) (t : List Call) → life (released o ++ t) ≡ released o ++ life t
unfolding life
life-released none t = refl
life-released (some k) t = refl

all_fit-released :
    (o : Option ℕ) (n : ℕ) (t : List Call) → all_fit n (released o ++ t) ≡ all_fit n t
unfolding all_fit
all_fit-released none n t = refl
all_fit-released (some k) n t = refl

freed_now :
    {n : ℕ} (s : State)
    → Owns n (owned s.conn) (life s.trace)
    → freed s.conn ≡ released s.conn.buffer_uv
freed_now s o = freed-released s.conn s.conn.buffer_uv refl o.tls o.ssl o.bio

-- The connection after the callback is as it should be.
module _ {n : ℕ} (s : State) (a : Alive n s) (under_way : n < closing (life s.trace)) where
  abbrev pub ReturnsAlive : Type 0
  ReturnsAlive =
      (s' : State) × (close_cb s ≡ done (tt, s'))
      × Alive (suc n) s'
      × (closing (life s'.trace) ≡ closing (life s.trace))

  still_closing : closing (life s.trace) ≢ suc n → ReturnsAlive
  still_closing more = (
    after s [],
    one_left s.chirp.closing (closing (life s.trace) - suc (suc n)) s refl
        (due_suc a.owns under_way ∙ ap pos (ap suc (omega arith))),
    record { owns = Owns-with_one_done a.owns under_way more; room = a.room },
    refl,
  )

  released_Alive :
      (calls : List Call)
      → closing (life s.trace) ≡ suc n
      → calls ≡ released s.conn.buffer_uv
      → Alive (suc n) (after s calls)
  released_Alive calls last e = record {
    owns = rw (e, life-released s.conn.buffer_uv s.trace) (Owns-released a.owns under_way last);
    room = rw (e, all_fit-released s.conn.buffer_uv s.conn.buffer_size s.trace) a.room;
  }

  closing_released :
      (calls : List Call)
      → closing (life s.trace) ≡ suc n
      → calls ≡ released s.conn.buffer_uv
      → closing (life (calls ++ s.trace)) ≡ closing (life s.trace)
  closing_released calls last e =
      rw (e, life-released s.conn.buffer_uv s.trace)
        (closing_still a.owns under_way last s.conn.buffer_uv)

  gave_back : closing (life s.trace) ≡ suc n → ReturnsAlive
  gave_back last = (
    after s (freed s.conn),
    none_left s.chirp.closing s refl (due_suc a.owns under_way ∙ ap pos (omega (arith, last))),
    released_Alive (freed s.conn) last (freed_now s a.owns),
    closing_released (freed s.conn) last (freed_now s a.owns),
  )

  pub close_cb-Alive : ReturnsAlive
  close_cb-Alive = elim (same_or_not (closing (life s.trace)) (suc n)) [
    | inl last ↦ gave_back last
    | inr more ↦ still_closing more
  ]
