-- ===== src/Async/Void.antt =====
-- common/include/common/async.hpp: `_promise_impl<void>`, the promise that is settled without a value,
-- against `_promise_impl<T>`.
use smoljudge.Prelude.{◌≡◌, refl, Bool, true, false, if◌then◌else◌, Option, none, some}
use smoljudge.Prelude.Outcome.{Error}
use smoljudge.Prelude.Run.{Run, done, raised, wild}
use smoljudge.Async.{
  Settled, value, failure, Cell, Transformed, gives, throws_from, with_cell, set, throw_, attach,
  set_transformed, transforms,
}

-- Its callback is called with an exception or none.
pub record VoidCell (W : Type 0) : Type 0 where
  pub callback : Option (Option Error → W → Run W)
  pub is_set : Bool
  pub ex : Option Error

unfoldable pub fresh_void : {W : Type 0} → VoidCell W
fresh_void = record { callback = none; is_set = false; ex = none }

-- `create_resolved`
unfoldable pub resolved_void : {W : Type 0} → VoidCell W
resolved_void = record { callback = none; is_set = true; ex = none }

module _ {W : Type 0} where
  abbrev pub with_void : VoidCell W → Run W → Run (VoidCell W × W)
  with_void c (done w) = done (c, w)
  with_void c (raised e w) = raised e (c, w)
  with_void c wild = wild

  -- The state without the cell.
  abbrev pub void_world : Run (VoidCell W × W) → Run W
  void_world (done (c, w)) = done w
  void_world (raised e (c, w)) = raised e w
  void_world wild = wild

  unfoldable pub set_void : VoidCell W × W → Run (VoidCell W × W)
  set_void (c, w) = elim c.callback [
    | none ↦ done (record c { is_set = true }, w)
    | some call ↦ with_void c (call none w)
  ]

  unfoldable pub throw_void : Error → VoidCell W × W → Run (VoidCell W × W)
  throw_void e (c, w) = elim c.callback [
    | none ↦ done (record c { ex = some e }, w)
    | some call ↦ with_void c (call (some e) w)
  ]

  unfoldable pub settle_void : Option Error → VoidCell W × W → Run (VoidCell W × W)
  unfolding set_void throw_void
  settle_void none s = set_void s
  settle_void (some e) s = throw_void e s

  unfoldable pub attach_void : (Option Error → W → Run W) → VoidCell W × W → Run (VoidCell W × W)
  attach_void call (c, w) =
      let c' = record c { callback = some call } in
      if c.is_set
      then with_void c' (call none w)
      else elim c.ex [ some e ↦ with_void c' (call (some e) w) | none ↦ done (c', w) ]

-- The callback that `operator|` makes of a transform that returns a value.
unfoldable pub transforms_void :
    {B W : Type 0} → (W → Transformed B W) → Option Error → Cell B W × W → Run (Cell B W × W)
unfolding set_transformed throw_
transforms_void f none (c, w) = set_transformed (f w) c
transforms_void f (some e) (c, w) = throw_ e (c, w)

-- `transform(...); result->set();`
unfoldable pub set_after :
    {W : Type 0} → Transformed (Unit {0}) W → VoidCell W → Run (VoidCell W × W)
unfolding set_void
set_after (gives u w) c = set_void (c, w)
set_after (throws_from e w) c = raised e (c, w)

-- The callbacks that `operator|` makes of a transform that returns nothing.
unfoldable pub transforms_to_void :
    {A W : Type 0}
    → (A → W → Transformed (Unit {0}) W)
    → Settled A
    → VoidCell W × W
    → Run (VoidCell W × W)
unfolding set_after throw_void
transforms_to_void f (value a) (c, w) = set_after (f a w) c
transforms_to_void f (failure e) (c, w) = throw_void e (c, w)

unfoldable pub transforms_void_to_void :
    {W : Type 0}
    → (W → Transformed (Unit {0}) W)
    → Option Error
    → VoidCell W × W
    → Run (VoidCell W × W)
unfolding set_after throw_void
transforms_void_to_void f none (c, w) = set_after (f w) c
transforms_void_to_void f (some e) (c, w) = throw_void e (c, w)

-- A promise without a value as one whose value is of the unit type.
abbrev pub error_of : Settled (Unit {0}) → Option Error
error_of (value u) = none
error_of (failure e) = some e

abbrev pub as_callback : {W : Type 0} → (Option Error → W → Run W) → Settled (Unit {0}) → W → Run W
as_callback call s w = call (error_of s) w

abbrev as_callback? :
    {W : Type 0} → Option (Option Error → W → Run W) → Option (Settled (Unit {0}) → W → Run W)
as_callback? none = none
as_callback? (some call) = some (as_callback call)

abbrev pub as_cell : {W : Type 0} → VoidCell W → Cell (Unit {0}) W
as_cell c = record {
  callback = as_callback? c.callback;
  stored = if c.is_set then some tt else none;
  ex = c.ex;
}

abbrev pub in_cell : {W : Type 0} → Run (VoidCell W × W) → Run (Cell (Unit {0}) W × W)
in_cell (done (c, w)) = done (as_cell c, w)
in_cell (raised e (c, w)) = raised e (as_cell c, w)
in_cell wild = wild

module _ {W : Type 0} where
  in_cell-with_void :
      (c : VoidCell W) (r : Run W) → in_cell (with_void c r) ≡ with_cell (as_cell c) r
  in_cell-with_void c (done w) = refl
  in_cell-with_void c (raised e w) = refl
  in_cell-with_void c wild = refl

  abbrev parts : Option (Option Error → W → Run W) → Bool → Option Error → VoidCell W
  parts call is_set ex = record { callback = call; is_set = is_set; ex = ex }

  set_lem :
      (call : Option (Option Error → W → Run W)) (b : Bool) (ex : Option Error) (w : W)
      → in_cell (set_void (parts call b ex, w)) ≡ set tt (as_cell (parts call b ex), w)
  unfolding set_void set
  set_lem none b ex w = refl
  set_lem (some call) b ex w = in_cell-with_void (parts (some call) b ex) (call none w)

  throw_lem :
      (e : Error) (call : Option (Option Error → W → Run W)) (b : Bool) (ex : Option Error) (w : W)
      → in_cell (throw_void e (parts call b ex, w)) ≡ throw_ e (as_cell (parts call b ex), w)
  unfolding throw_void throw_
  throw_lem e none b ex w = refl
  throw_lem e (some call) b ex w = in_cell-with_void (parts (some call) b ex) (call (some e) w)

  attach_lem :
      (call : Option Error → W → Run W) (old : Option (Option Error → W → Run W)) (b : Bool)
      (ex : Option Error) (w : W)
      → in_cell (attach_void call (parts old b ex, w))
        ≡ attach (as_callback call) (as_cell (parts old b ex), w)
  unfolding attach_void attach
  attach_lem call old true ex w = in_cell-with_void (parts (some call) true ex) (call none w)
  attach_lem call old false none w = refl
  attach_lem call old false (some e) w =
      in_cell-with_void (parts (some call) false (some e)) (call (some e) w)

  set_after_lem :
      (t : Transformed (Unit {0}) W) (c : VoidCell W)
      → in_cell (set_after t c) ≡ set_transformed t (as_cell c)
  unfolding set_after set_transformed
  set_after_lem (gives tt w) c = set_lem c.callback c.is_set c.ex w
  set_after_lem (throws_from e w) c = refl

  to_void_lem :
      {A : Type 0} (f : A → W → Transformed (Unit {0}) W) (s : Settled A) (c : VoidCell W) (w : W)
      → in_cell (transforms_to_void f s (c, w)) ≡ transforms f s (as_cell c, w)
  unfolding transforms_to_void transforms
  to_void_lem f (value a) c w = set_after_lem (f a w) c
  to_void_lem f (failure e) c w = throw_lem e c.callback c.is_set c.ex w

  void_to_void_lem :
      (f : W → Transformed (Unit {0}) W) (s : Settled (Unit {0})) (c : VoidCell W) (w : W)
      → in_cell (transforms_void_to_void f (error_of s) (c, w))
        ≡ transforms (λ u w. f w) s (as_cell c, w)
  unfolding transforms_void_to_void transforms
  void_to_void_lem f (value u) c w = set_after_lem (f w) c
  void_to_void_lem f (failure e) c w = throw_lem e c.callback c.is_set c.ex w

  from_void_lem :
      {B : Type 0} (f : W → Transformed B W) (s : Settled (Unit {0})) (c : Cell B W) (w : W)
      → transforms_void f (error_of s) (c, w) ≡ transforms (λ u w. f w) s (c, w)
  unfolding transforms_void transforms
  from_void_lem f (value u) c w = refl
  from_void_lem f (failure e) c w = refl

  -- The class for promises without a value does what the general class does for values of the unit
  -- type: settling it, with or without an exception, attaching a continuation in any state, and chaining
  -- a transform, from such a promise, to one or both.
  pub void-cell :
      (c : VoidCell W) (w : W)
      → (in_cell (set_void (c, w)) ≡ set tt (as_cell c, w))
        × ((e : Error) → in_cell (throw_void e (c, w)) ≡ throw_ e (as_cell c, w))
        × ((call : Option Error → W → Run W)
            → in_cell (attach_void call (c, w)) ≡ attach (as_callback call) (as_cell c, w))
        × ((A : Type 0) (f : A → W → Transformed (Unit {0}) W) (s : Settled A)
            → in_cell (transforms_to_void f s (c, w)) ≡ transforms f s (as_cell c, w))
        × ((f : W → Transformed (Unit {0}) W) (s : Settled (Unit {0}))
            → in_cell (transforms_void_to_void f (error_of s) (c, w))
              ≡ transforms (λ u w. f w) s (as_cell c, w))
        × ((B : Type 0) (f : W → Transformed B W) (s : Settled (Unit {0})) (d : Cell B W)
            → transforms_void f (error_of s) (d, w) ≡ transforms (λ u w. f w) s (d, w))
  void-cell c w = (
    set_lem c.callback c.is_set c.ex w,
    (λ e. throw_lem e c.callback c.is_set c.ex w),
    (λ call. attach_lem call c.callback c.is_set c.ex w),
    (λ A f s. to_void_lem f s c w),
    (λ f s. void_to_void_lem f s c w),
    λ B f s d. from_void_lem f s d w,
  )
