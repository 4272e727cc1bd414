-- ===== src/Registry.antt =====
-- registry/src/main.cpp: the methods of `registry_impl`, behind which stands a `registry` object
-- that is declared in common/include/common/registry.hpp and is a parameter here.
pub mod Replies
mod Tests
use smoljudge.Prelude.{ℕ, Bool, true, false, Option, none, some, [], ◌∷◌}
use smoljudge.Prelude.Outcome.{Error}
use smoljudge.Prelude.Run.{Run, wild}
use smoljudge.Prelude.Text.{Text}
use smoljudge.Wire.Types.{Bytes}
use smoljudge.Async.{Cell, Transformed, gives, fresh_cell}
use smoljudge.Async.Handlers.{
  Handler, Handled, ran, terminated, ExceptionHandler, catch_, else_, handle,
}
use smoljudge.Async.Void.{VoidCell, attach_void}

-- The two members of `registry`, on the state `W` of the program. Each returns a promise; what is
-- chained to the promise of `store` changes the promise that the method returns.
pub record RegistryObject (W : Type 0) : Type 0 where
  pub store : Text → ℕ → Bytes → W → VoidCell (Cell Bool W × W) × W
  pub retrieve : Text → ℕ → W → Cell (Option Bytes) W × W

-- `async::catch_([](std::runtime_error& ex) { return false; }).else_([]() { return true; })`, where
-- `is_runtime_error` tells which exceptions are a `std::runtime_error`.
unfoldable pub store_handler : {W : Type 0} → (Error → Bool) → ExceptionHandler Bool W
unfolding catch_ else_
store_handler is_runtime_error =
    else_ (catch_ (record { is_a = is_runtime_error; catches = λ ex w. gives false w }))
      λ w. gives true w

-- A program that has ended does nothing any more.
abbrev pub to_run : {S : Type 0} → Handled S → Run S
to_run (ran r) = r
to_run terminated = wild

-- The callback that `operator|` makes of a handler.
unfoldable pub handles :
    {R W : Type 0} → ExceptionHandler R W → Option Error → Cell R W × W → Run (Cell R W × W)
unfolding handle
handles h ex s = to_run (handle h ex s)

-- `... | async::catch_(...).else_(...)` on the promise of the registry, which comes with the promise
-- that is returned.
unfoldable pub chain_reply :
    {W : Type 0}
    → (Error → Bool)
    → VoidCell (Cell Bool W × W) × W
    → Run (VoidCell (Cell Bool W × W) × (Cell Bool W × W))
unfolding store_handler handles attach_void fresh_cell
chain_reply is_runtime_error (c, w) =
    attach_void (handles (store_handler is_runtime_error)) (c, (fresh_cell, w))

module _ {W : Type 0} (reg : RegistryObject W) where
  -- `registry_impl::store`
  unfoldable pub store :
      (Error → Bool) → Text → ℕ → Bytes → W → Run (VoidCell (Cell Bool W × W) × (Cell Bool W × W))
  unfolding chain_reply
  store is_runtime_error data_class id bytes w =
      chain_reply is_runtime_error (reg.store data_class id bytes w)

  -- `registry_impl::retrieve`
  unfoldable pub retrieve : Text → ℕ → W → Cell (Option Bytes) W × W
  retrieve data_class id w = reg.retrieve data_class id w
