-- ===== src/Registry/Tests.antt =====
-- `store` with a registry whose promise is settled with an exception later.
use smoljudge.Prelude.{ℕ, ◌+◌, ◌≡◌, Bool, true, false, some, [], ◌∷◌}
use smoljudge.Prelude.Outcome.{Error, not_connected}
use smoljudge.Prelude.Run.{Run, done, raised, ◌>>=◌}
use smoljudge.Async.{Settled, value, failure, fresh_cell, world, attach}
use smoljudge.Async.Void.{fresh_void, void_world, settle_void}
use smoljudge.Registry.{RegistryObject, store}
use smoljudge.Registry.Replies.{settled_void, on_reply, store-replied_with}

-- The state counts what is stored, and the replies.
abbrev counting : RegistryObject ℕ
counting = record {
  store = λ data_class id bytes w. (fresh_void, w + 1);
  retrieve = λ data_class id w. (fresh_cell, w);
}

abbrev is_not_connected : Error → Bool
is_not_connected not_connected = true
is_not_connected _ = false

abbrev count_reply : Settled Bool → ℕ → Run ℕ
count_reply (value true) w = done (w + 10)
count_reply (value false) w = done (w + 20)
count_reply (failure e) w = raised e w

store-replied_with_example :
    (counting.store (b'c' ∷ []) 7 [] 5 ≡ (fresh_void, 6)
      → world (
          void_world (
            store counting is_not_connected (b'c' ∷ []) 7 [] 5
            >>= on_reply (attach count_reply)
            >>= settle_void (some not_connected)))
        ≡ done 26)
    × (counting.store (b'c' ∷ []) 7 [] 5 ≡ (settled_void (some not_connected), 6)
        → world (
            void_world (
              store counting is_not_connected (b'c' ∷ []) 7 [] 5 >>= on_reply (attach count_reply)))
          ≡ done 26)
store-replied_with_example =
    store-replied_with counting is_not_connected count_reply (b'c' ∷ []) 7 [] 5 6
      (some not_connected)
