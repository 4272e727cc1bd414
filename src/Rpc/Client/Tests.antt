-- ===== src/Rpc/Client/Tests.antt =====
-- A client on concrete messages, and the theorems at concrete inputs.
use smoljudge.Prelude.{ℕ, ◌≡◌, refl, true, false, [], ◌∷◌, ◌++◌, bytes_eq, take, some, arith}
use smoljudge.Prelude.Dict.{lookup, assign, text_eq, nat_eq}
use smoljudge.Prelude.Int.{pos}
use smoljudge.Prelude.Outcome.{ok}
use smoljudge.Prelude.Run.{done, wild}
use smoljudge.Wire.Codec.{
  deserialize_to, deserialize_array, deserialize_string, deserialize_elems, finish,
}
use smoljudge.Wire.Integers.{deserialize_num, to_pattern, of_pattern}
use smoljudge.Wire.Types.{Bytes}
use smoljudge.Messages.{
  GenericHello, ServerHello, deserialize_generic_hello, deserialize_server_hello,
  read_generic_hello, read_server_hello,
}
use smoljudge.Socket.{new_socket, is_smol, to_lower, on_data}
use smoljudge.Rpc.Session.{Endpoint, User}
use smoljudge.Rpc.Session.Responses.{UserKeeps}
use smoljudge.Rpc.Server.{lower_magic, magic_eq, int_eq}
use smoljudge.Rpc.Client.{
  PendingMessage, ClientState, ClientPeer, ClientSpec, stop_client, reconnect, assign_ids,
  is_refused, on_server_hello, client_callbacks,
}
use smoljudge.Rpc.Client.Greeting.{requests, on_server_hello-requests}
use smoljudge.Rpc.Client.Refusal.{on_data-is_refused}
use smoljudge.Rpc.Client.Stopping.{
  IsAtRest, IsIdle, reconnects, reconnects-stop_client, stop_client-reconnect_twice,
}

abbrev user : User (Endpoint ClientState)
user = record { methods = []; set_promise = λ k args p. done p }

user-UserKeeps : UserKeeps user
user-UserKeeps = record { methods_keep = λ i m args p at h. cc; promises_keep = λ k args p h. h }

abbrev spec : ClientSpec
spec = record {
  server_protocol_name = b'P' ∷ [];
  server_methods = record { name = b'e' ∷ []; signature = b's' ∷ [] } ∷ [];
  client_protocol_name = b'C' ∷ [];
  user = user;
}

abbrev waiting : PendingMessage
waiting = record { method_name = b'e' ∷ []; message_id = 0; args = 1 ∷ 2 ∷ [] }

-- A client that has connected, with one call waiting.
abbrev peer : ClientPeer
peer = record {
  socket = new_socket true;
  owner = record {
    session = record {
      ids_of_methods = [];
      promises = [];
      next_message_id = 1;
      pending_replies = [];
    };
    state = record {
      has_sock = true;
      is_active = true;
      n_failures = 4;
      timer = some 6;
      timers = (6, 2) ∷ [];
      started_timers = 7;
      pending_messages = waiting ∷ [];
    };
  };
}

reconnects-stop_client_example :
    IsAtRest (reconnects (true ∷ (false ∷ [])) (stop_client peer))
    × IsIdle (stop_client peer) (reconnects (true ∷ (false ∷ [])) (stop_client peer))
reconnects-stop_client_example = reconnects-stop_client peer (true ∷ (false ∷ []))

stop_client-reconnect_twice_example :
    (seconds : ℕ) × (lookup 7
        (stop_client (reconnect true (reconnect true peer))).owner.state.timers
      ≡ some seconds)
unfolding lookup
stop_client-reconnect_twice_example = stop_client-reconnect_twice peer true true refl refl refl

abbrev accepting : ServerHello
accepting = record {
  hello_size = 28;
  magic = lower_magic;
  error_message = [];
  method_ids = pos 3 ∷ [];
}

on_server_hello-requests_example :
    let ids = assign_ids spec.server_methods accepting.method_ids [] in
    (q : ClientPeer) × (on_server_hello spec accepting peer ≡ done q)
    × (q.socket.calls ≡ requests ids (waiting ∷ []))
    × (q.socket.is_connected ≡ true)
    × (q.owner.state.pending_messages ≡ [])
    × (q.owner.session ≡ record peer.owner.session { ids_of_methods = ids })
unfolding is_refused magic_eq int_eq new_socket assign_ids assign lookup bytes_eq
on_server_hello-requests_example =
    on_server_hello-requests spec accepting peer refl refl ((pos 3, refl), tt)

-- A server's hello with the error "x".
abbrev refusing : ServerHello
refusing = record {
  hello_size = 25;
  magic = lower_magic;
  error_message = b'x' ∷ [];
  method_ids = [];
}

abbrev refusing_bytes : Bytes
refusing_bytes =
    0 ∷ 0 ∷ 0 ∷ 25 ∷ b's' ∷ b'm' ∷ b'o' ∷ b'l' ∷ 0 ∷ 0 ∷ 0 ∷ 0 ∷ 0 ∷ 0 ∷ 0 ∷ 1 ∷ b'x' ∷ 0 ∷ 0 ∷ 0
    ∷ 0 ∷ 0 ∷ 0 ∷ 0 ∷ 0 ∷ []

abbrev header : GenericHello
header = record { hello_size = 25; magic = lower_magic }

header_read : read_generic_hello (take 8 refusing_bytes) ≡ ok header
unfolding read_generic_hello deserialize_generic_hello deserialize_to deserialize_array
    deserialize_num of_pattern finish
header_read = refl

refusing_read : read_server_hello refusing_bytes ≡ ok refusing
unfolding read_server_hello deserialize_server_hello deserialize_to deserialize_array
    deserialize_string deserialize_elems deserialize_num of_pattern finish
refusing_read = refl

on_data-is_refused_example :
    on_data
      (client_callbacks spec)
      (refusing_bytes ++ [])
      (record { message_piece = []; peer = peer })
    ≡ wild
unfolding new_socket is_smol to_lower to_pattern is_refused magic_eq int_eq
on_data-is_refused_example =
    on_data-is_refused spec user-UserKeeps refusing_bytes [] header refusing peer refl (omega arith)
      (omega arith) header_read refl refl refusing_read refl refl refl
