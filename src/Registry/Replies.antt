-- ===== src/Registry/Replies.antt =====
-- What the promise of `store` is settled with.
use smoljudge.Prelude.{
  ℕ, ◌≡◌, refl, ap, ◌∙◌, Bool, true, false, Option, none, some, Bool-cases, inl, inr, if◌then◌else◌,
}
use smoljudge.Prelude.Outcome.{Error}
use smoljudge.Prelude.Run.{Run, done, raised, wild, ◌>>=◌}
use smoljudge.Prelude.Text.{Text}
use smoljudge.Wire.Types.{Bytes}
use smoljudge.Async.{
  Settled, value, Cell, fresh_cell, with_cell, world, attach, set, set_transformed,
}
use smoljudge.Async.Handlers.{handle, exception_handler_impl, dynamic_cast, catch_, else_}
use smoljudge.Async.Void.{
  VoidCell, fresh_void, resolved_void, with_void, void_world, set_void, throw_void, settle_void,
  attach_void,
}
use smoljudge.Registry.{RegistryObject, store_handler, handles, chain_reply, store}

-- A promise of the registry that has been settled, with an exception or without.
unfoldable pub settled_void : {W : Type 0} → Option Error → VoidCell W
unfolding resolved_void
settled_void none = resolved_void
settled_void (some ex) = record { callback = none; is_set = false; ex = some ex }

-- What comes of the reply, where `k` is what is chained to it.
abbrev pub replied_with :
    {W : Type 0} → (Error → Bool) → Option Error → (Settled Bool → W → Run W) → W → Run W
replied_with is_runtime_error none k w = k (value true) w
replied_with is_runtime_error (some ex) k w =
    if is_runtime_error ex then k (value false) w else wild

-- A step on the promise that `store` returns.
abbrev pub on_reply :
    {W : Type 0}
    → (Cell Bool W × W → Run (Cell Bool W × W))
    → VoidCell (Cell Bool W × W) × (Cell Bool W × W)
    → Run (VoidCell (Cell Bool W × W) × (Cell Bool W × W))
on_reply step (c, rest) = with_void c (step rest)

module _ {W : Type 0} (reg : RegistryObject W) (is_runtime_error : Error → Bool)
    (k : Settled Bool → W → Run W) (data_class : Text) (id : ℕ) (bytes : Bytes) (w w' : W) where
  world-world :
      (c : VoidCell (Cell Bool W × W)) (r : Cell Bool W) (run : Run W)
      → world (void_world (with_void c (with_cell r run))) ≡ run
  world-world c r (done w) = refl
  world-world c r (raised e w) = refl
  world-world c r wild = refl

  -- What the handler makes of an exception.
  handled :
      (ex : Error) (c : Cell Bool W)
      → handles (store_handler is_runtime_error) (some ex) (c, w')
        ≡ (if is_runtime_error ex then set false (c, w') else wild)
  unfolding handles handle store_handler catch_ else_ set_transformed
  handled ex c = elim (Bool-cases (is_runtime_error ex)) [
    | inl same ↦ rw (exception_handler_impl, dynamic_cast, same) refl
    | inr other ↦ rw (exception_handler_impl, dynamic_cast, other) refl
  ]

  later :
      (ex : Option Error)
      → world (
          void_world (
            chain_reply is_runtime_error (fresh_void, w')
            >>= on_reply (attach k)
            >>= settle_void ex))
        ≡ replied_with is_runtime_error ex k w'
  unfolding chain_reply fresh_void attach_void attach fresh_cell settle_void set_void throw_void set
  later none = world-world _ _ (k (value true) w')
  later (some ex) = elim (Bool-cases (is_runtime_error ex)) [
    | inl same ↦
        rw (handled ex (record fresh_cell { callback = some k }), same)
          (world-world _ _ (k (value false) w'))
    | inr other ↦ rw (handled ex (record fresh_cell { callback = some k }), other) refl
  ]

  before :
      (ex : Option Error)
      → world
          (void_world (chain_reply is_runtime_error (settled_void ex, w') >>= on_reply (attach k)))
        ≡ replied_with is_runtime_error ex k w'
  unfolding chain_reply settled_void resolved_void attach_void attach fresh_cell set
  before none = world-world _ _ (k (value true) w')
  before (some ex) = elim (Bool-cases (is_runtime_error ex)) [
    | inl same ↦ rw (handled ex fresh_cell, same) (world-world _ _ (k (value false) w'))
    | inr other ↦ rw (handled ex fresh_cell, other) refl
  ]

  -- What is chained to the reply of `store` is called once with `true` when the promise of the registry
  -- is settled without an exception, and with `false` when it is settled with a `std::runtime_error`,
  -- whether that promise is settled after the call of `store` returns or before. With any other exception
  -- the behaviour is undefined.
  pub store-replied_with :
      (ex : Option Error)
      → (reg.store data_class id bytes w ≡ (fresh_void, w')
          → world (
              void_world (
                store reg is_runtime_error data_class id bytes w
                >>= on_reply (attach k)
                >>= settle_void ex))
            ≡ replied_with is_runtime_error ex k w')
        × (reg.store data_class id bytes w ≡ (settled_void ex, w')
            → world (
                void_world
                  (store reg is_runtime_error data_class id bytes w >>= on_reply (attach k)))
              ≡ replied_with is_runtime_error ex k w')
  unfolding store
  store-replied_with ex = (
    (λ e.
        ap
          (λ r. world (
            void_world (chain_reply is_runtime_error r >>= on_reply (attach k) >>= settle_void ex)))
          e
        ∙ later ex),
    λ e.
        ap (λ r. world (void_world (chain_reply is_runtime_error r >>= on_reply (attach k)))) e
        ∙ before ex,
  )
