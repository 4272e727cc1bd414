-- ===== src/Rpc/Reflection/Tests.antt =====
-- A typed call at a concrete input.
use smoljudge.Prelude.{ℕ, ◌+◌, ◌≡◌, refl, true, [], ◌∷◌, some, arith}
use smoljudge.Prelude.Int.{pos, negsuc}
use smoljudge.Prelude.Outcome.{ok}
use smoljudge.Prelude.Run.{done}
use smoljudge.Wire.Types.{Tys, int, bool, nil, cons, Bytes, Fields}
use smoljudge.Messages.{RpcMessage, message_bytes, seal}
use smoljudge.Socket.{Peer, new_socket, calls, writes}
use smoljudge.Rpc.Session.{Endpoint, User, new_session, on_message}
use smoljudge.Rpc.Reflection.{Result, Answer, returns, typed_method, proxy_args, proxy_result}
use smoljudge.Rpc.Reflection.Calls.{reply_message, on_message-proxy_args}

abbrev two_args : Tys
two_args = cons (int 4) (cons bool nil)

-- The method returns its first argument and counts its calls.
abbrev first_arg : Fields two_args → Peer (Endpoint ℕ) → Answer (Endpoint ℕ) (Result (some (int 4)))
first_arg args p =
    returns args.0 (record p { owner = record p.owner { state = p.owner.state + 1 } })

abbrev user : User (Endpoint ℕ)
user = record {
  methods = typed_method (b'f' ∷ []) (b's' ∷ []) two_args (some (int 4)) first_arg ∷ [];
  set_promise = λ k args p. done p;
}

abbrev peer : ℕ → Peer (Endpoint ℕ)
peer count = record {
  socket = new_socket true;
  owner = record { session = new_session; state = count };
}

abbrev request : RpcMessage
request = record {
  message_size = 0;
  method_id = pos 0;
  message_id = 9;
  args = proxy_args two_args (negsuc 4, (true, tt));
}

on_message-proxy_args_example :
    (result : Bytes) × (on_message user request (peer 0)
      ≡ done (record (peer 1) {
        socket = calls (writes (message_bytes (seal (reply_message 9 result)))) (new_socket true);
      }))
    × (proxy_result (some (int 4)) result ≡ ok (negsuc 4))
unfolding new_socket
on_message-proxy_args_example =
    on_message-proxy_args user 0 (b'f' ∷ []) (b's' ∷ []) two_args (some (int 4)) first_arg refl
      request (peer 0) (peer 1) (negsuc 4, (true, tt)) (negsuc 4) refl refl (omega arith)
      (omega arith) refl refl (omega arith)
