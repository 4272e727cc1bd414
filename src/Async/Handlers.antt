-- ===== src/Async/Handlers.antt =====
-- common/include/common/async.hpp: the handlers of exceptions that `catch_` and `else_` chain to a
-- promise.
use smoljudge.Prelude.{◌≡◌, refl, Bool, List, [], ◌∷◌, ◌++◌, if◌then◌else◌, Option, none, some}
use smoljudge.Prelude.Outcome.{Error}
use smoljudge.Prelude.Run.{Run, wild}
use smoljudge.Async.{Cell, Transformed, set_transformed}

-- A handler with the type of its argument: `is_a` tells which exceptions are of that type or of one
-- derived from it.
pub record Handler (R W : Type 0) : Type 0 where
  pub is_a : Error → Bool
  pub catches : Error → W → Transformed R W

-- What a `dynamic_cast` comes to. On a pointer it gives a null pointer where the type does not
-- match; only on a reference it would throw `std::bad_cast`.
pub data Cast : Type 0 where
  pointer : Option Error → Cast
  bad_cast : Cast

unfoldable pub dynamic_cast : (Error → Bool) → Error → Cast
dynamic_cast is_a ex = pointer (if is_a ex then some ex else none)

-- A call that returns, throws or is undefined, or ends the program by `std::terminate`.
pub data Handled (S : Type 0) : Type 0 where
  ran : Run S → Handled S
  terminated : Handled S

module _ {R W : Type 0} where
  unfoldable pub exception_handler_impl :
      List (Handler R W) → Error → Cell R W × W → Handled (Cell R W × W)
  unfolding dynamic_cast set_transformed
  exception_handler_impl [] ex s = terminated
  exception_handler_impl (h ∷ hs) ex (c, w) = elim (dynamic_cast h.is_a ex) [
    | bad_cast ↦ exception_handler_impl hs ex (c, w)
    | pointer none ↦ ran wild
    | pointer (some caught) ↦ ran (set_transformed (h.catches caught w) c)
  ]

-- `exception_handler<Else, Catch...>` for promises without a value.
pub record ExceptionHandler (R W : Type 0) : Type 0 where
  pub else_handler : W → Transformed R W
  pub catch_handlers : List (Handler R W)

-- `exception_handler<std::monostate, Catch...>`, which has no `else_handler` yet.
pub record CatchHandler (R W : Type 0) : Type 0 where
  pub catch_handlers : List (Handler R W)

module _ {R W : Type 0} where
  -- `async::catch_(handler)`
  unfoldable pub catch_ : Handler R W → CatchHandler R W
  catch_ h = record { catch_handlers = h ∷ [] }

  -- `.catch_(handler)`, before and behind an `.else_(handler)`.
  unfoldable catch_also : CatchHandler R W → Handler R W → CatchHandler R W
  catch_also hs h = record { catch_handlers = hs.catch_handlers ++ h ∷ [] }

  unfoldable catch_too : ExceptionHandler R W → Handler R W → ExceptionHandler R W
  catch_too hs h = record {
    else_handler = hs.else_handler;
    catch_handlers = hs.catch_handlers ++ h ∷ [];
  }

  -- `.else_(handler)`
  unfoldable pub else_ : CatchHandler R W → (W → Transformed R W) → ExceptionHandler R W
  else_ hs otherwise = record { else_handler = otherwise; catch_handlers = hs.catch_handlers }

  -- `handle(Promise& result, std::exception_ptr ex)`. Each `Error` is a `std::exception`.
  unfoldable pub handle :
      ExceptionHandler R W → Option Error → Cell R W × W → Handled (Cell R W × W)
  unfolding exception_handler_impl set_transformed
  handle h none (c, w) = ran (set_transformed (h.else_handler w) c)
  handle h (some ex) s = exception_handler_impl h.catch_handlers ex s

-- Before or behind an `.else_`, a `.catch_` adds the handler behind the others.
catch_too-else_ :
    {R W : Type 0} (hs : CatchHandler R W) (h : Handler R W) (otherwise : W → Transformed R W)
    → catch_too (else_ hs otherwise) h ≡ else_ (catch_also hs h) otherwise
unfolding catch_too catch_also else_
catch_too-else_ hs h otherwise = refl
