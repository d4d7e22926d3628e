-- ===== src/Util/Memory.antt =====
-- src/util.c: ch_alloc, ch_realloc and ch_free call through pointers, which ch_set_alloc_funcs
-- replaces.
--
-- A function that a pointer may point to is named by a number; 0 is that of the C library. What it
-- returns is a parameter, an address or NULL.
pub mod Owners
use c4irp.Prelude.{ℕ, List, [], ◌∷◌, Option}

-- _ch_alloc_cb, _ch_realloc_cb and _ch_free_cb
pub record Hooks : Type 0 where
  pub alloc_cb : ℕ
  pub realloc_cb : ℕ
  pub free_cb : ℕ

-- The calls of these functions, with the function that is called.
pub data HookCall : Type 0 where
  alloc_by : ℕ → ℕ → HookCall
  realloc_by : ℕ → ℕ → ℕ → HookCall
  free_by : ℕ → ℕ → HookCall

-- The pointers, and the calls made so far, newest first.
pub record Memory : Type 0 where
  pub hooks : Hooks
  pub calls : List HookCall

-- The values that the pointers are defined with.
abbrev pub default_hooks : Hooks
default_hooks = record { alloc_cb = 0; realloc_cb = 0; free_cb = 0 }

-- An address, or NULL, for the calls made so far.
abbrev pub Answer : Type 0
Answer = List HookCall → Option ℕ

-- ch_alloc
unfoldable pub alloc : Answer → ℕ → Memory → Option ℕ × Memory
alloc answer size m =
    let calls = alloc_by m.hooks.alloc_cb size ∷ m.calls in
    (answer calls, record m { calls = calls })

-- ch_realloc
unfoldable pub realloc : Answer → ℕ → ℕ → Memory → Option ℕ × Memory
realloc answer buf size m =
    let calls = realloc_by m.hooks.realloc_cb buf size ∷ m.calls in
    (answer calls, record m { calls = calls })

-- ch_free
unfoldable pub free : ℕ → Memory → Memory
free buf m = record m { calls = free_by m.hooks.free_cb buf ∷ m.calls }

-- ch_set_alloc_funcs
unfoldable pub set_alloc_funcs : ℕ → ℕ → ℕ → Memory → Memory
set_alloc_funcs alloc realloc free m = record m {
  hooks = record { alloc_cb = alloc; realloc_cb = realloc; free_cb = free };
}
