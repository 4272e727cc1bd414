-- ===== src/Rpc/Server/Lives/Tests.antt =====
-- A call and its response, on a new connection.
use smoljudge.Prelude.{ℕ, ◌+◌, ◌≡◌, refl, true, [], ◌∷◌, bytes_eq, inl, inr, arith}
use smoljudge.Prelude.Dict.{lookup, emplace, erase}
use smoljudge.Prelude.Int.{pos, negsuc}
use smoljudge.Prelude.Outcome.{out_of_range}
use smoljudge.Prelude.Run.{done, raised}
use smoljudge.Messages.{RpcMessage, message_bytes, seal}
use smoljudge.Socket.{Peer, new_socket, calls, writes, write, invoke}
use smoljudge.Rpc.Session.{User, new_session, on_message, dispatch, on_response}
use smoljudge.Rpc.Server.{Server, new_server, invoke_client}
use smoljudge.Rpc.Server.Lives.{
  UserLogs, nothing, changes, calls_client, Lives, opens, acts, receives, Lives-IsSetOnce,
}
use smoljudge.Rpc.Server.Once.{Logging, Log, logged, IsSetOnce}

-- Its own state counts the promises that have been set, and the last of them makes it throw.
abbrev counted : Peer (Log ℕ) → Peer (Log ℕ)
counted p = record p {
  owner = record p.owner { state = record p.owner.state { own = p.owner.state.own + 1 } };
}

abbrev user : User (Log ℕ)
user = record { methods = []; set_promise = λ k args p. raised out_of_range (counted (logged k p)) }

abbrev server : Server (Logging ℕ)
server = new_server (b'P' ∷ []) (b'C' ∷ []) [] user

user-UserLogs : UserLogs server
unfolding new_server
user-UserLogs = record {
  methods_do = λ i m args p at. cc;
  sets_logged = λ k args p. changes nothing (refl, refl, refl);
}

abbrev at_start : Peer (Log ℕ)
at_start = record {
  socket = new_socket true;
  owner = record { session = new_session; state = record { own = 0; log = [] } };
}

-- A call of a method that the client does not have has thrown, and the handshake has come after it.
abbrev failed : Peer (Log ℕ)
failed = record at_start {
  owner = record (at_start).owner { session = record new_session { next_message_id = 1 } };
}

abbrev greeted : Peer (Log ℕ)
greeted = record failed {
  owner = record (failed).owner {
    session = record (failed).owner.session { ids_of_methods = (b'n' ∷ [], pos 0) ∷ [] };
  };
}

abbrev called : Peer (Log ℕ)
called = record {
  socket =
      calls
        (writes (
          message_bytes
            (seal (record { message_size = 0; method_id = pos 0; message_id = 1; args = 1 ∷ [] }))))
        (new_socket true);
  owner = record (greeted).owner {
    session = record (greeted).owner.session { promises = (1, 1) ∷ []; next_message_id = 2 };
  };
}

abbrev answered : Peer (Log ℕ)
answered = record called {
  owner = record {
    session = record (called).owner.session { promises = [] };
    state = record { own = 1; log = 1 ∷ [] };
  };
}

abbrev response : RpcMessage
response = record { message_size = 0; method_id = negsuc 0; message_id = 1; args = [] }

call_fails : invoke_client server (b'n' ∷ []) [] at_start ≡ raised out_of_range failed
unfolding invoke_client lookup new_session
call_fails = refl

call_runs : invoke_client server (b'n' ∷ []) (1 ∷ []) greeted ≡ done called
unfolding invoke_client invoke write lookup emplace bytes_eq new_session new_socket
call_runs = refl

response_throws : on_message (server).user response called ≡ raised out_of_range answered
unfolding on_message dispatch on_response lookup erase new_session new_server new_socket
response_throws = refl

answered-Lives : Lives server answered
unfolding new_session
answered-Lives =
    receives response
      (acts (opens {p = at_start} refl refl) (
        calls_client (b'n' ∷ []) (1 ∷ [])
          (changes {r = greeted}
            (calls_client {r = failed} (b'n' ∷ []) [] nothing (omega arith)
              (inr (out_of_range, call_fails)))
            (refl, refl, refl))
          (omega arith) (inl call_runs)))
      (inr (out_of_range, response_throws))

Lives-IsSetOnce_example : IsSetOnce answered
Lives-IsSetOnce_example = Lives-IsSetOnce server answered user-UserLogs answered-Lives
