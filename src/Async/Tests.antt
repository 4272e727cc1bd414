-- ===== src/Async/Tests.antt =====
-- Promises on concrete values, and the theorems at concrete inputs.
use smoljudge.Prelude.{ℕ, ◌+◌, ◌≡◌, refl, true, false, [], ◌∷◌, Option, none, some}
use smoljudge.Prelude.Outcome.{Error, not_connected}
use smoljudge.Prelude.Run.{Run, done, raised, wild, ◌>>=◌}
use smoljudge.Async.{
  Settled, value, failure, Cell, fresh_cell, resolved_cell, Transformed, gives, world, settle,
  attach, transforms, set, throw_,
}
use smoljudge.Async.Handlers.{Handler, ran, dynamic_cast, exception_handler_impl}
use smoljudge.Async.Order.{on_result, new_chain, transforms-behind}
use smoljudge.Async.Void.{
  VoidCell, set_void, throw_void, attach_void, transforms_void, transforms_to_void,
  transforms_void_to_void, as_callback, as_cell, error_of, in_cell, void-cell,
}

-- The state adds up what the continuation is called with.
abbrev sum_up : Settled ℕ → ℕ → Run ℕ
sum_up (value a) total = done (total + a)
sum_up (failure e) total = raised e total

abbrev next : ℕ → ℕ → Transformed ℕ ℕ
next a total = gives (a + 1) total

resolved_before : world (attach sum_up (resolved_cell 5, 100)) ≡ done 105
unfolding attach resolved_cell
resolved_before = refl

transforms-behind_example :
    (world (
        world (
          attach (transforms next) (new_chain 100)
          >>= on_result (attach sum_up)
          >>= settle (value 5)))
      ≡ done 106)
    × (world (
          world (
            attach (transforms next) (new_chain 100)
            >>= settle (value 5)
            >>= on_result (attach sum_up)))
        ≡ done 106)
    × (world (
          world (
            settle (value 5) (new_chain 100)
            >>= attach (transforms next)
            >>= on_result (attach sum_up)))
        ≡ done 106)
transforms-behind_example = transforms-behind next sum_up (value 5) 100

abbrev waiting : VoidCell ℕ
waiting = record { callback = some (λ ex total. done (total + 7)); is_set = false; ex = none }

void-cell_example :
    (in_cell (set_void (waiting, 100)) ≡ set tt (as_cell waiting, 100))
    × ((e : Error) → in_cell (throw_void e (waiting, 100)) ≡ throw_ e (as_cell waiting, 100))
    × ((call : Option Error → ℕ → Run ℕ)
        → in_cell (attach_void call (waiting, 100))
          ≡ attach (as_callback call) (as_cell waiting, 100))
    × ((A : Type 0) (f : A → ℕ → Transformed (Unit {0}) ℕ) (s : Settled A)
        → in_cell (transforms_to_void f s (waiting, 100)) ≡ transforms f s (as_cell waiting, 100))
    × ((f : ℕ → Transformed (Unit {0}) ℕ) (s : Settled (Unit {0}))
        → in_cell (transforms_void_to_void f (error_of s) (waiting, 100))
          ≡ transforms (λ u w. f w) s (as_cell waiting, 100))
    × ((B : Type 0) (f : ℕ → Transformed B ℕ) (s : Settled (Unit {0})) (d : Cell B ℕ)
        → transforms_void f (error_of s) (d, 100) ≡ transforms (λ u w. f w) s (d, 100))
void-cell_example = void-cell waiting 100

abbrev never : Handler ℕ ℕ
never = record { is_a = λ e. false; catches = λ e total. gives 1 total }

abbrev always : Handler ℕ ℕ
always = record { is_a = λ e. true; catches = λ e total. gives 2 total }

-- The second handler was meant to run.
second_handler :
    exception_handler_impl (never ∷ always ∷ []) not_connected (fresh_cell, 100) ≡ ran wild
unfolding exception_handler_impl dynamic_cast
second_handler = refl
