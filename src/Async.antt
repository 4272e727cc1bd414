-- ===== src/Async.antt =====
-- common/include/common/async.hpp: promises. A promise is a cell that is settled and that a
-- continuation is attached to, in either order.
pub mod Order
pub mod Void
pub mod Handlers
mod Tests
use smoljudge.Prelude.{Option, none, some}
use smoljudge.Prelude.Outcome.{Error}
use smoljudge.Prelude.Run.{Run, done, raised, wild, ◌>>=◌}

-- What `callback` is called with: a pointer to a value, or an exception.
pub data Settled (A : Type 0) : Type 0 where
  value : A → Settled A
  failure : Error → Settled A

-- `_promise_impl<T>`. A callback changes the rest of the program's state. A value that a callback
-- moves out of a cell is left in it here: the program attaches one continuation to a promise.
pub record Cell (A : Type 0) (W : Type 0) : Type 0 where
  pub callback : Option (Settled A → W → Run W)
  pub stored : Option A
  pub ex : Option Error

unfoldable pub fresh_cell : {A W : Type 0} → Cell A W
fresh_cell = record { callback = none; stored = none; ex = none }

-- `create_resolved`, as `to_promise` uses it.
unfoldable pub resolved_cell : {A W : Type 0} → A → Cell A W
resolved_cell a = record { callback = none; stored = some a; ex = none }

-- What a transform comes to when it is called.
pub data Transformed (B : Type 0) (W : Type 0) : Type 0 where
  gives : B → W → Transformed B W
  throws_from : Error → W → Transformed B W

module _ {A W : Type 0} where
  abbrev pub with_cell : Cell A W → Run W → Run (Cell A W × W)
  with_cell c (done w) = done (c, w)
  with_cell c (raised e w) = raised e (c, w)
  with_cell c wild = wild

  -- The state without the cell.
  abbrev pub world : Run (Cell A W × W) → Run W
  world (done (c, w)) = done w
  world (raised e (c, w)) = raised e w
  world wild = wild

  unfoldable pub set : A → Cell A W × W → Run (Cell A W × W)
  set a (c, w) = elim c.callback [
    | none ↦ done (record c { stored = some a }, w)
    | some call ↦ with_cell c (call (value a) w)
  ]

  unfoldable pub throw_ : Error → Cell A W × W → Run (Cell A W × W)
  throw_ e (c, w) = elim c.callback [
    | none ↦ done (record c { ex = some e }, w)
    | some call ↦ with_cell c (call (failure e) w)
  ]

  pub settle : Settled A → Cell A W × W → Run (Cell A W × W)
  unfolding set throw_
  settle (value a) s = set a s
  settle (failure e) s = throw_ e s

  -- `operator|`: the callback is stored, and called at once if the promise is settled.
  unfoldable pub attach : (Settled A → W → Run W) → Cell A W × W → Run (Cell A W × W)
  attach call (c, w) =
      let c' = record c { callback = some call } in
      elim c.stored [
        | some a ↦ with_cell c' (call (value a) w)
        | none ↦ elim c.ex [ some e ↦ with_cell c' (call (failure e) w) | none ↦ done (c', w) ]
      ]

module _ {B W : Type 0} where
  -- `result->set(transform(std::move(*value)))`: when the transform throws, the result is not set
  -- and the exception goes to whoever settled the promise.
  unfoldable pub set_transformed : Transformed B W → Cell B W → Run (Cell B W × W)
  unfolding set
  set_transformed (gives b w) c = set b (c, w)
  set_transformed (throws_from e w) c = raised e (c, w)

  -- The callback that `operator|` makes of a transform; the promise that it returns is part of the
  -- state that the callback changes.
  pub transforms :
      {A : Type 0} → (A → W → Transformed B W) → Settled A → Cell B W × W → Run (Cell B W × W)
  unfolding set_transformed throw_
  transforms f (value a) (c, w) = set_transformed (f a w) c
  transforms f (failure e) (c, w) = throw_ e (c, w)
