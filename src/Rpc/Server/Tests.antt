-- ===== src/Rpc/Server/Tests.antt =====
-- A server on concrete messages, and the theorems at concrete inputs.
use smoljudge.Prelude.{
  ℕ, zero, suc, ◌+◌, ◌≡◌, refl, true, false, [], ◌∷◌, ◌==◌, bytes_eq, ap, get_elem?, none, some,
  All, arith,
}
use smoljudge.Prelude.Dict.{Dict, lookup, text_eq, nat_eq}
use smoljudge.Prelude.Int.{ℤ, pos, negsuc}
use smoljudge.Prelude.Run.{done}
use smoljudge.Prelude.Text.{Text}
use smoljudge.Messages.{RpcMessage, ClientHello, client_hello_bytes, message_bytes, seal}
use smoljudge.Messages.Laws.{IsClientHello, read_client_hello-client_hello_bytes}
use smoljudge.Socket.{Peer, new_socket, writes}
use smoljudge.Rpc.Session.{
  Endpoint, User, Method, MethodImpl, PromiseId, resolved, new_session, on_message,
}
use smoljudge.Rpc.Session.Responses.{IsIssued}
use smoljudge.Rpc.Server.{
  Server, new_server, upper_magic, on_incoming_handshake, invoke_client, set_ids, magic_eq, int_eq,
}
use smoljudge.Rpc.Server.Acceptance.{DistinctKeys, DistinctMethods, on_incoming_handshake_accepts}
use smoljudge.Rpc.Server.Calls.{invoke_client-on_message}
use smoljudge.Rpc.Server.Clients.{Provided}
use smoljudge.Rpc.Server.Ends.{answered, Ending, on_incoming_handshake-Ending}
use smoljudge.Rpc.Server.Table.{DistinctNames}
use mathlib.Core.Option

abbrev echo : MethodImpl (Endpoint ℕ)
echo = record { name = b'e' ∷ []; signature = b's' ∷ []; fn = λ args p. resolved args p }

-- The state counts the responses.
abbrev user : User (Endpoint ℕ)
user = record {
  methods = echo ∷ [];
  set_promise =
      λ k args p. done (record p { owner = record p.owner { state = p.owner.state + 1 } });
}

abbrev notify : Method
notify = record { name = b'n' ∷ []; signature = b't' ∷ [] }

abbrev server : Server ℕ
server = new_server (b'P' ∷ []) (b'C' ∷ []) (notify ∷ []) user

abbrev hello : ClientHello
hello = record {
  hello_size = 80;
  magic = upper_magic;
  requested_server_protocol_name = b'P' ∷ [];
  requested_server_methods = (b'e' ∷ [], b's' ∷ []) ∷ [];
  advertised_client_protocol_name = b'C' ∷ [];
  advertised_client_methods = (b'n' ∷ [], b't' ∷ []) ∷ [];
}

hello-IsClientHello : IsClientHello hello
hello-IsClientHello = record {
  size_fits = omega arith;
  magic_fits = omega arith;
  server_name_fits = omega arith;
  client_name_fits = omega arith;
  requested_fit = omega arith;
  advertised_fit = omega arith;
}

abbrev peer : Peer (Endpoint ℕ)
peer = record { socket = new_socket true; owner = record { session = new_session; state = 0 } }

on_incoming_handshake-Ending_example :
    Ending user
      (notify ∷ [])
      hello
      peer
      (on_incoming_handshake server (client_hello_bytes hello) peer)
unfolding new_socket new_session
on_incoming_handshake-Ending_example =
    on_incoming_handshake-Ending (b'P' ∷ []) (b'C' ∷ []) (notify ∷ []) user
      (client_hello_bytes hello) hello peer
      (read_client_hello-client_hello_bytes hello hello-IsClientHello) refl refl

user-DistinctNames : DistinctNames user.methods
user-DistinctNames zero zero m n at at' same = refl
user-DistinctNames zero (suc j) m n at at' same = cc
user-DistinctNames (suc i) j m n at at' same = cc

abbrev greeted : Peer (Endpoint ℕ)
greeted = record {
  socket = new_socket true;
  owner = record {
    session = record {
      ids_of_methods = (b'n' ∷ [], pos 0) ∷ [];
      promises = (3, 3) ∷ [];
      next_message_id = 5;
      pending_replies = [];
    };
    state = 0;
  };
}

greeted-IsIssued : IsIssued (greeted).owner.session
unfolding lookup
greeted-IsIssued k v e = ground (arith, e)

invoke_client-on_message_example :
    (q : Peer (Endpoint ℕ)) × (invoke_client server (b'n' ∷ []) (1 ∷ []) greeted ≡ done q)
    × (q.socket.calls
        ≡ writes (
            message_bytes (
              seal (record { message_size = 0; method_id = pos 0; message_id = 5; args = 1 ∷ [] })))
          ∷ [])
    × IsIssued q.owner.session
    × (q.owner.session.next_message_id ≡ 6)
    × ((m : RpcMessage)
        → m.method_id ≡ negsuc 0
        → m.message_id ≡ 5
        → (r : Peer (Endpoint ℕ)) × (on_message user m q ≡ (user).set_promise 5 m.args r)
          × ((j : ℕ) → lookup j r.owner.session.promises ≡ lookup j ((3, 3) ∷ [])))
    × ((m : RpcMessage)
        → m.method_id ≡ negsuc 0
        → m.message_id == 5 ≡ false
        → lookup {V = ℕ} m.message_id ((3, 3) ∷ []) ≡ none
        → on_message user m q ≡ done q)
    × ((m : RpcMessage) (k : PromiseId)
        → m.method_id ≡ negsuc 0
        → m.message_id == 5 ≡ false
        → lookup {V = ℕ} m.message_id ((3, 3) ∷ []) ≡ some k
        → (k ≡ m.message_id)
          × ((r : Peer (Endpoint ℕ)) × (on_message user m q ≡ (user).set_promise k m.args r)
              × (lookup 5 r.owner.session.promises ≡ some 5)))
unfolding new_socket lookup new_server bytes_eq
invoke_client-on_message_example =
    invoke_client-on_message server greeted (b'n' ∷ []) (1 ∷ []) (pos 0) greeted-IsIssued refl refl
      (omega arith)

advertised-DistinctKeys : DistinctKeys hello.advertised_client_methods
advertised-DistinctKeys zero zero m n at at' same = refl
advertised-DistinctKeys zero (suc j) m n at at' same = cc
advertised-DistinctKeys (suc i) j m n at at' same = cc

wanted-DistinctMethods : DistinctMethods (notify ∷ [])
wanted-DistinctMethods zero zero m n at at' same = refl
wanted-DistinctMethods zero (suc j) m n at at' same = cc
wanted-DistinctMethods (suc i) j m n at at' same = cc

all_advertised :
    (k : ℕ) (m : Method)
    → get_elem? (notify ∷ []) k ≡ some m
    → (i : ℕ) × (get_elem? hello.advertised_client_methods i ≡ some (m.name, m.signature))
all_advertised zero m at = (0, ap (Option.map (λ (m : Method). (m.name, m.signature))) at)
all_advertised (suc k) m at = cc

on_incoming_handshake_accepts_example :
    (ids : Dict Text ℤ) × (on_incoming_handshake server (client_hello_bytes hello) peer
      ≡ done (answered [] (pos 0 ∷ []) (set_ids ids peer)))
    × All (Provided hello.advertised_client_methods ids) (notify ∷ [])
unfolding new_socket new_session magic_eq int_eq
on_incoming_handshake_accepts_example =
    on_incoming_handshake_accepts (b'P' ∷ []) (b'C' ∷ []) (notify ∷ []) user
      (client_hello_bytes hello) hello (pos 0 ∷ []) peer
      (read_client_hello-client_hello_bytes hello hello-IsClientHello) refl refl refl refl refl
      user-DistinctNames ((0, echo, refl, refl, refl, refl), tt) advertised-DistinctKeys
      wanted-DistinctMethods all_advertised
