-- ===== src/Protocol/Life/Balance.antt =====
-- What a connection gives back, and how much it lets OpenSSL write, in every state of its life.
use c4irp.Prelude.{
  ℕ, suc, ◌-◌, ◌≤◌, ◌<◌, ◌≡◌, ◌&&◌, ltb, ◌==◌, ap, sym, ◌∙◌, true, none, List, arith, if◌then◌else◌,
}
use c4irp.Prelude.Int.{pos}
use c4irp.Prelude.Outcome.{done}
use c4irp.World.{Env, State, Call}
use c4irp.Connection.Memory.{
  life, all_fit, tally, Resource, memory, takes, gives_back, closes, closing, is_over,
}
use c4irp.Connection.Memory.Owns.{
  amount, frees_pool, size_of, tally-life, closes-is_life, gives_back-is_life, takes-is_life,
  frees_pool-is_life,
}
use c4irp.Connection.Memory.Closes.{nothing_back}
use c4irp.Connection.Shutdown.Ownership.{TellsClosing}
use c4irp.Connection.Lifecycle.{close_cb}
use c4irp.Connection.Lifecycle.Returned.{close_cb-Alive}
use c4irp.Protocol.Life.{IsThere, Life, Life-Alive, closing_life, under_way_life}

over_now :
    (n c : ℕ)
    → (if ltb 0 (suc n) && c == suc n then amount memory none else 0)
      ≡ (if c == suc n then 1 else 0)
over_now n c = ground arith

counted_over :
    (t : List Call) (n : ℕ) (k : ℕ)
    → (if is_over (life t) n then k else 0) ≡ (if is_over t n then k else 0)
counted_over t n k =
    ap (λ (c : ℕ). if ltb 0 n && c == n then k else 0) (tally-life closes t closes-is_life)

module _ (env : Env) (fuel : ℕ) (tells : TellsClosing env) where
  -- Given that uv_is_closing tells whether uv_close was called, and nothing but the callbacks of
  -- closed handles is called on a connection whose memory is freed: in every state that a connection
  -- reaches over its life, if it was accepted with 1 to 32 handlers and without an error of OpenSSL,
  -- and `n` of the callbacks of its closed handles are done, at most two handles were closed,
  -- `shutdown_tasks` is the number of the callbacks that are still due, and each of the buffers, the
  -- TLS engine, its pipe, the mutex and the memory is given back exactly as often as it was taken,
  -- and the pool once, if a handle was closed and all of them have called back; before that nothing
  -- is given back.
  pub given_back_once :
      (s : State) (n : ℕ)
      → Life env fuel s n
      → (n ≤ closing s.trace)
        × (closing s.trace ≤ 2)
        × (s.conn.shutdown_tasks ≡ pos (closing s.trace - n))
        × ((r : Resource)
            → tally (gives_back r) s.trace
              ≡ (if is_over s.trace n then tally (takes r) s.trace else 0))
        × (tally frees_pool s.trace ≡ (if is_over s.trace n then 1 else 0))
  given_back_once s n r =
      let a = Life-Alive env fuel tells r in
      let o = a.owns in
      (
        rw (← closing_life s) o.some_due,
        rw (← closing_life s) o.few,
        o.due ∙ ap (λ c. pos (c - n)) (closing_life s),
        λ q.
            sym (tally-life (gives_back q) s.trace (gives_back-is_life q))
            ∙ o.back q
            ∙ counted_over s.trace n (amount q s.conn.buffer_uv)
            ∙ ap (λ (k : ℕ). if is_over s.trace n then k else 0)
                (sym (o.taken q) ∙ tally-life (takes q) s.trace (takes-is_life q)),
        sym (tally-life frees_pool s.trace frees_pool-is_life) ∙ o.pool ∙ counted_over s.trace n 1,
      )

  -- Given that uv_is_closing tells whether uv_close was called, and nothing but the callbacks of
  -- closed handles is called on a connection whose memory is freed: whenever libuv owes a connection the
  -- callback of a closed handle, its memory is still there, and ch_cn_close_cb returns, so that its
  -- assertion on the semaphore holds, and frees the memory exactly when no other callback is due.
  pub close_cb_returns :
      (s : State) (n : ℕ)
      → Life env fuel s n
      → n < closing s.trace
      → IsThere s
        × (s' : State) × (close_cb s ≡ done (tt, s'))
        × (tally (gives_back memory) s'.trace ≡ (if closing s.trace == suc n then 1 else 0))
  close_cb_returns s n r under_way =
      let a = Life-Alive env fuel tells r in
      let (s', returned, a', same) = close_cb-Alive s a (under_way_life s under_way) in
      (
        sym (tally-life (gives_back memory) s.trace (gives_back-is_life memory))
            ∙ nothing_back a.owns (under_way_life s under_way) memory,
        s',
        returned,
        sym (tally-life (gives_back memory) s'.trace (gives_back-is_life memory))
            ∙ a'.owns.back memory
            ∙ over_now n (closing (life s'.trace))
            ∙ ap (λ (c : ℕ). if c == suc n then 1 else 0) (same ∙ closing_life s),
      )

  -- Given that uv_is_closing tells whether uv_close was called, and nothing but the callbacks of
  -- closed handles is called on a connection whose memory is freed: in every state that a connection
  -- reaches over its life, no call of BIO_read or SSL_read was given a place and a length that
  -- together go beyond `buffer_size`, the three buffers are allocated together, and `buffer_size` is the size of each of them, 0
  -- before they are allocated.
  pub within_buffers :
      (s : State) (n : ℕ)
      → Life env fuel s n
      → (all_fit s.conn.buffer_size s.trace ≡ true)
        × (s.conn.buffer_wtls ≡ s.conn.buffer_uv)
        × (s.conn.buffer_rtls ≡ s.conn.buffer_uv)
        × (s.conn.buffer_size ≡ size_of s.conn.buffer_uv)
  within_buffers s n r =
      let a = Life-Alive env fuel tells r in (a.room, a.owns.wtls, a.owns.rtls, a.owns.sized)
