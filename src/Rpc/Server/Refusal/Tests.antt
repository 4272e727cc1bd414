-- ===== src/Rpc/Server/Refusal/Tests.antt =====
-- A client that asks for another protocol, and calls a method at once.
use smoljudge.Prelude.{
  ℕ, zero, suc, ◌+◌, ◌*◌, ◌≤◌, ◌≡◌, refl, subst, true, false, [], ◌∷◌, ◌++◌, length, get_elem?,
  bytes_eq, some, arith,
}
use smoljudge.Prelude.Int.{pos}
use smoljudge.Prelude.Outcome.{out_of_range}
use smoljudge.Prelude.Run.{done}
use smoljudge.Wire.Types.{Bytes}
use smoljudge.Messages.{
  RpcMessage, ClientHello, client_hello_bytes, seal_client_hello, message_bytes, seal,
}
use smoljudge.Messages.Exact.{seal_size, seal-IsMessage}
use smoljudge.Messages.Laws.{IsClientHello}
use smoljudge.Socket.{Peer, new_socket, quiet, resume, mark_finished, on_data}
use smoljudge.Socket.Delivery.{IsSealed}
use smoljudge.Rpc.Session.{Endpoint, User, MethodImpl, threw, new_session, after_call}
use smoljudge.Rpc.Session.Responses.{CalledFinished, UserKeeps}
use smoljudge.Rpc.Server.{Server, new_server, upper_magic, callbacks}
use smoljudge.Rpc.Server.Refusal.{turned_away, on_data-turned_away}
use smoljudge.Rpc.Protocol.HelloSizes.{named_size, length-client_hello_bytes}
use mathlib.Core.Option.{some-injective}

-- The method throws, and counts that it was run.
abbrev judge : MethodImpl (Endpoint ℕ)
judge = record {
  name = b'j' ∷ [];
  signature = b's' ∷ [];
  fn = λ args p.
      threw out_of_range (record p { owner = record p.owner { state = p.owner.state + 1 } });
}

abbrev user : User (Endpoint ℕ)
user = record { methods = judge ∷ []; set_promise = λ k args p. done p }

user-UserKeeps : UserKeeps user
user-UserKeeps = record { methods_keep = keep; promises_keep = λ k args p h. h }
  where
    keep :
        (i : ℕ) (m : MethodImpl (Endpoint ℕ)) (args : Bytes) (p : Peer (Endpoint ℕ))
        → get_elem? (judge ∷ []) i ≡ some m
        → p.socket.handshake_finished ≡ true
        → CalledFinished (m.fn args p)
    keep zero m args p at h =
        subst (λ (f : MethodImpl (Endpoint ℕ)). CalledFinished (f.fn args p))
          (some-injective judge m at) tt
    keep (suc i) m args p at h = cc

abbrev server : Server ℕ
server = new_server (b'P' ∷ []) (b'C' ∷ []) [] user

abbrev stranger : ClientHello
stranger = record {
  hello_size = 0;
  magic = upper_magic;
  requested_server_protocol_name = b'Q' ∷ [];
  requested_server_methods = [];
  advertised_client_protocol_name = b'C' ∷ [];
  advertised_client_methods = [];
}

stranger-IsClientHello : IsClientHello stranger
stranger-IsClientHello = record {
  size_fits = omega arith;
  magic_fits = omega arith;
  server_name_fits = omega arith;
  client_name_fits = omega arith;
  requested_fit = omega arith;
  advertised_fit = omega arith;
}

stranger_size : length (client_hello_bytes stranger) ≤ 8 * 1024
unfolding named_size
stranger_size = rw (length-client_hello_bytes stranger) (omega arith)

abbrev call : RpcMessage
call = record { message_size = 0; method_id = pos 0; message_id = 7; args = 1 ∷ 255 ∷ [] }

call-IsSealed : IsSealed (seal call)
call-IsSealed = record {
  fits = seal-IsMessage call (omega arith) (omega arith) (omega arith);
  states_length = seal_size call (omega arith);
}

abbrev peer : Peer (Endpoint ℕ)
peer = record { socket = new_socket true; owner = record { session = new_session; state = 0 } }

on_data-turned_away_example :
    let q = mark_finished (turned_away server stranger peer) in
    (q.socket.is_connected ≡ false)
    × (q.socket.is_open ≡ false)
    × (on_data
          (callbacks server)
          (client_hello_bytes (seal_client_hello stranger) ++ message_bytes (seal call))
          (quiet peer)
        ≡ resume [] (after_call 7 (judge.fn (1 ∷ 255 ∷ []) q)) λ r. done (quiet r))
unfolding new_server new_socket seal bytes_eq
on_data-turned_away_example =
    on_data-turned_away server user-UserKeeps stranger peer (seal call) 0 judge
      stranger-IsClientHello stranger_size refl refl refl refl refl call-IsSealed refl refl
