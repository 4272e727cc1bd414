-- ===== src/Async/Order.antt =====
-- The order in which promises are chained and settled does not matter.
use smoljudge.Prelude.{◌≡◌, ◌⊎◌, inl, inr, refl}
use smoljudge.Prelude.Outcome.{Error}
use smoljudge.Prelude.Run.{Run, done, raised, wild, ◌>>=◌}
use smoljudge.Async.{
  Settled, value, failure, Cell, fresh_cell, Transformed, gives, throws_from, with_cell, world, set,
  throw_, settle, attach, set_transformed, transforms,
}

module _ {A W : Type 0} (call : Settled A → W → Run W) where
  world-with_cell : (c : Cell A W) (r : Run W) → world (with_cell c r) ≡ r
  world-with_cell c (done w) = refl
  world-with_cell c (raised e w) = refl
  world-with_cell c wild = refl

  -- A continuation that is attached to a new promise and one that is attached to a settled promise
  -- are called with the same: what the promise was settled with.
  pub attach-settle :
      (s : Settled A) (w : W)
      → (world (settle s (fresh_cell, w) >>= attach call) ≡ call s w)
        × (world (attach call (fresh_cell, w) >>= settle s) ≡ call s w)
  unfolding settle set throw_ attach fresh_cell
  attach-settle (value a) w =
      (world-with_cell _ (call (value a) w), world-with_cell _ (call (value a) w))
  attach-settle (failure e) w =
      (world-with_cell _ (call (failure e) w), world-with_cell _ (call (failure e) w))

Transformed-cases :
    {B W : Type 0} (t : Transformed B W)
    → ((b : B) × (w : W) × (t ≡ gives b w)) ⊎ ((e : Error) × (w : W) × (t ≡ throws_from e w))
Transformed-cases (gives b w) = inl (b, w, refl)
Transformed-cases (throws_from e w) = inr (e, w, refl)

-- The continuation behind a transform is called with the transformed value, or with the failure.
abbrev after_transform : {B W : Type 0} → Transformed B W → (Settled B → W → Run W) → Run W
after_transform (gives b w) k = k (value b) w
after_transform (throws_from e w) k = raised e w

abbrev pub behind :
    {A B W : Type 0} → (A → W → Transformed B W) → (Settled B → W → Run W) → Settled A → W → Run W
behind f k (value a) w = after_transform (f a w) k
behind f k (failure e) w = k (failure e) w

-- Two promises, the second of which is to be the result of the first.
abbrev pub Chain : Type 0 → Type 0 → Type 0 → Type 0
Chain A B W = Cell A (Cell B W × W) × (Cell B W × W)

abbrev pub on_result :
    {A B W : Type 0} → (Cell B W × W → Run (Cell B W × W)) → Chain A B W → Run (Chain A B W)
on_result step (c, rest) = with_cell c (step rest)

abbrev pub new_chain : {A B W : Type 0} → W → Chain A B W
new_chain w = (fresh_cell, (fresh_cell, w))

module _ {A B W : Type 0} (f : A → W → Transformed B W) (k : Settled B → W → Run W) where
  world-world :
      (c : Cell A (Cell B W × W)) (r : Cell B W) (run : Run W)
      → world (world (with_cell c (with_cell r run))) ≡ run
  world-world c r (done w) = refl
  world-world c r (raised e w) = refl
  world-world c r wild = refl

  -- A promise is transformed by `f`, and `k` is attached to the result. Whether the promise is settled
  -- after both, between them or before both, `k` is called once with what `f` makes of the value,
  -- and where `f` throws, the exception leaves the call at that point and `k` is not called.
  pub transforms-behind :
      (s : Settled A) (w : W)
      → (world (world (attach (transforms f) (new_chain w) >>= on_result (attach k) >>= settle s))
          ≡ behind f k s w)
        × (world (world (attach (transforms f) (new_chain w) >>= settle s >>= on_result (attach k)))
            ≡ behind f k s w)
        × (world (world (settle s (new_chain w) >>= attach (transforms f) >>= on_result (attach k)))
            ≡ behind f k s w)
  unfolding settle set throw_ attach fresh_cell transforms set_transformed
  transforms-behind (failure e) w = (
    world-world _ _ (k (failure e) w),
    world-world _ _ (k (failure e) w),
    world-world _ _ (k (failure e) w),
  )
  transforms-behind (value a) w = elim (Transformed-cases (f a w)) [
    | inl (b, w', gave) ↦
        rw (gave, set_transformed)
          (
            world-world _ _ (k (value b) w'),
            world-world _ _ (k (value b) w'),
            world-world _ _ (k (value b) w'),
          )
    | inr (e, w', threw) ↦ rw (threw, set_transformed) (refl, refl, refl)
  ]
