-- ===== src/Rpc/Agreement/Tests.antt =====
-- Two ends that agree, at a concrete input.
use smoljudge.Prelude.{ℕ, zero, suc, ◌≡◌, refl, false, [], ◌∷◌, get_elem?, some}
use smoljudge.Prelude.Int.{pos}
use smoljudge.Prelude.Dict.{lookup, text_eq}
use smoljudge.Prelude.Run.{done}
use smoljudge.Messages.{seal_server_hello}
use smoljudge.Rpc.Session.{Endpoint, User, Method, MethodImpl, resolved}
use smoljudge.Rpc.Server.{new_server, accepted, match_server_methods, hello_with}
use smoljudge.Rpc.Server.Table.{IsTable, DistinctNames}
use smoljudge.Rpc.Server.Handshake.{match_server_methods-Answers}
use smoljudge.Rpc.Client.{ClientSpec, greeting_of, is_refused, assign_ids}
use smoljudge.Rpc.Agreement.{Reaches, is_refused-match_server_methods}

abbrev echo : MethodImpl (Endpoint ℕ)
echo = record { name = b'e' ∷ []; signature = b's' ∷ []; fn = λ args p. resolved args p }

abbrev other : MethodImpl (Endpoint ℕ)
other = record { name = b'e' ∷ b'o' ∷ []; signature = b't' ∷ []; fn = λ args p. resolved [] p }

abbrev user : User (Endpoint ℕ)
user = record { methods = other ∷ echo ∷ []; set_promise = λ k args p. done p }

abbrev wanted : Method
wanted = record { name = b'e' ∷ []; signature = b's' ∷ [] }

abbrev spec : ClientSpec
spec = record {
  server_protocol_name = b'P' ∷ [];
  server_methods = wanted ∷ [];
  client_protocol_name = b'C' ∷ [];
  user = record { methods = []; set_promise = λ k args p. done p };
}

user-DistinctNames : DistinctNames user.methods
user-DistinctNames zero zero m n at at' same = refl
user-DistinctNames zero (suc zero) m n at at' same = cc
user-DistinctNames zero (suc (suc j)) m n at at' same = cc
user-DistinctNames (suc zero) zero m n at at' same = cc
user-DistinctNames (suc zero) (suc zero) m n at at' same = refl
user-DistinctNames (suc zero) (suc (suc j)) m n at at' same = cc
user-DistinctNames (suc (suc i)) j m n at at' same = cc

nothing-IsTable : IsTable user.methods []
unfolding lookup
nothing-IsTable name id e = cc

spec_answered :
    match_server_methods
      (new_server (b'P' ∷ []) (b'C' ∷ []) [] user)
      (greeting_of spec).requested_server_methods
      []
    ≡ some (accepted (pos 1 ∷ []))
unfolding greeting_of
spec_answered =
    match_server_methods-Answers (b'P' ∷ []) (b'C' ∷ []) [] user user-DistinctNames
      ((b'e' ∷ [], b's' ∷ []) ∷ []) [] (pos 1 ∷ []) ((1, echo, refl, refl, refl, refl), tt)

is_refused-match_server_methods_example :
    (is_refused spec (seal_server_hello (hello_with [] (pos 1 ∷ []))) ≡ false)
    × ((k : ℕ) (m : Method)
        → get_elem? spec.server_methods k ≡ some m
        → Reaches user.methods (assign_ids spec.server_methods (pos 1 ∷ []) []) m)
is_refused-match_server_methods_example =
    is_refused-match_server_methods (b'P' ∷ []) (b'C' ∷ []) [] user spec (pos 1 ∷ []) []
      user-DistinctNames nothing-IsTable spec_answered
