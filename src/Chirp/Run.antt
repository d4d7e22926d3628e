-- ===== src/Chirp/Run.antt =====
-- src/chirp.c: ch_chirp_run, with ch_run, ch_loop_init and ch_loop_close of include/wrappers.h.
--
-- What happens while the loop runs is the business of the callbacks; here stands what the function
-- does before and after. Its result is an int: it hands on what uv_run returns.
pub mod Outcomes
use c4irp.Prelude.{Bool, true, false, not, some, if◌then◌else◌}
use c4irp.Prelude.Int.{ℤ, is_zero}
use c4irp.Prelude.Outcome.{Outcome, done, deref, ◌>>=◌, ◌>>◌}
use c4irp.Types.{ErrorCode, success, uv_error, uninit, uv_error_map, is_success, number}
use c4irp.Config.{Config}
use c4irp.Chirp.Init
use c4irp.Chirp.Init.{Answers, Node}

-- What the calls of uv_loop_init, uv_run and uv_loop_close return.
pub record LoopAnswers : Type 0 where
  pub loop_init : ℤ
  pub first_run : ℤ  -- UV_RUN_DEFAULT
  pub second_run : ℤ  -- UV_RUN_ONCE
  pub loop_close : ℤ

-- The object, whether its loop is open, and the result.
pub record Ran : Type 0 where
  pub node : Node
  pub loop_open : Bool
  pub result : ℤ

-- ch_run
unfoldable pub run_loop : LoopAnswers → ℤ
run_loop l = if is_zero l.first_run then l.first_run else l.second_run

-- From the call of ch_run on.
run_and_close : LoopAnswers → Node → Ran
unfolding run_loop
run_and_close l n =
    if not (is_zero (run_loop l))
    then record { node = n; loop_open = true; result = run_loop l }
    else if not (is_zero l.loop_close)
    then record { node = n; loop_open = true; result = number uv_error }
    else record { node = n; loop_open = false; result = number success }

-- What follows ch_chirp_init.
after_init : LoopAnswers → Node × ErrorCode → Outcome Ran
unfolding run_and_close
after_init l (n, e) =
    if is_success e
    then (deref n.chirp.internal >>= λ i. done (
        run_and_close l (record n {
          chirp = record (n.chirp) { internal = some (record i { auto_stop = true }) };
        })))
    else done (record { node = n; loop_open = true; result = number e })

-- ch_chirp_run. `has_out` tells whether `chirp_out` is not NULL.
unfoldable pub run : Answers → LoopAnswers → Config → Bool → Node → Outcome Ran
unfolding after_init
run a l config has_out n =
    let e = uv_error_map a.codes l.loop_init in
    if not has_out
    then done (record { node = n; loop_open = false; result = number uninit })
    else if not (is_success e)
    then done (record { node = n; loop_open = false; result = number e })
    else (Init.init a config false n >>= λ r. after_init l r)
