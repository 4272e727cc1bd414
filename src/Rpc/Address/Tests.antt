-- ===== src/Rpc/Address/Tests.antt =====
-- Addresses, and the theorem at a concrete input.
use smoljudge.Prelude.{ℕ, ◌≡◌, refl, true, false, [], ◌∷◌, ◌++◌, length, Option, none, some}
use smoljudge.Prelude.Outcome.{ok, throws, ◌>>=◌, no_port}
use smoljudge.Prelude.Run.{raised}
use smoljudge.Prelude.Text.{Text, codes}
use smoljudge.Rpc.Listener.{new_listener}
use smoljudge.Rpc.Address.{is_path, rfind, char_at, tcp, resolve_name, client_target, bound, bind}
use smoljudge.Rpc.Address.Splitting.{client_target-bind}

path_is_path : is_path (codes "./broker.sock") ≡ true
unfolding is_path char_at
path_is_path = refl

empty_is_no_path : is_path [] ≡ false
unfolding is_path char_at
empty_is_no_path = refl

ipv6_last_colon : rfind b':' (codes "::1:80") ≡ some 3
unfolding rfind
ipv6_last_colon = refl

-- Hosts with a name of three bytes can be resolve_name.
abbrev resolve : Text → Text → Option ℕ
resolve (a ∷ (b ∷ (c ∷ []))) port = some (length port)
resolve _ port = none

client_target-bind_example :
    (client_target resolve (codes "::1" ++ b':' ∷ codes "80")
      ≡ (resolve_name resolve (codes "::1") (codes "80") >>= λ a. ok (tcp a)))
    × (bind resolve (λ f. false) (codes "::1" ++ b':' ∷ codes "80") 4 new_listener
        ≡ bound (resolve_name resolve (codes "::1") (codes "80")) 4 new_listener)
    × (client_target resolve (codes "host") ≡ throws no_port)
    × (bind resolve (λ f. false) (codes "host") 4 new_listener ≡ raised no_port new_listener)
unfolding is_path char_at
client_target-bind_example =
    client_target-bind resolve (codes "::1") (codes "80") (codes "host") (λ f. false) 4 new_listener
      (refl, (refl, tt)) refl (refl, (refl, (refl, (refl, tt)))) refl
