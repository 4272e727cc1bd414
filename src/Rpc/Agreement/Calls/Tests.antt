-- ===== src/Rpc/Agreement/Calls/Tests.antt =====
-- A whole call at a concrete input.
use smoljudge.Prelude.{
  ℕ, zero, suc, ◌+◌, ◌≡◌, refl, true, [], ◌∷◌, some, get_elem?, none, length, length-append, ◌++◌,
  subst, bytes_eq, arith,
}
use smoljudge.Prelude.Dict.{lookup, nat_eq}
use smoljudge.Prelude.Int.{pos, negsuc}
use smoljudge.Prelude.Outcome.{ok}
use smoljudge.Prelude.Run.{done}
use smoljudge.Wire.Codec.Format.{encode, encode_bool, serialize-encode}
use smoljudge.Wire.Integers.{to_pattern}
use smoljudge.Wire.Integers.Laws.{be_bytes, length-be_bytes}
use smoljudge.Wire.Types.{Tys, int, bool, tuple, nil, cons, Bytes, Fields}
use smoljudge.Socket.{Socket, Peer, calls, writes, resume, quiet, on_data}
use smoljudge.Socket.Stream.{IsFinished}
use smoljudge.Rpc.Session.{Endpoint, User, MethodImpl, new_session}
use smoljudge.Rpc.Session.Responses.{IsIssued, UserKeeps, CalledFinished}
use smoljudge.Rpc.Reflection.{
  Result, Answer, returns, typed_method, result_bytes, proxy_args, proxy_result,
}
use smoljudge.Rpc.Reflection.Calls.{typed_method-CalledFinished}
use smoljudge.Rpc.Server.{Server, new_server, callbacks}
use smoljudge.Rpc.Client.{ClientPeer, ClientSpec, invoke_server, client_callbacks}
use smoljudge.Rpc.Agreement.Calls.{replied, invoke_server-on_data}
use mathlib.Core.Option.{some-injective}

abbrev two_args : Tys
two_args = cons (int 4) (cons bool nil)

abbrev first_arg : Fields two_args → Peer (Endpoint ℕ) → Answer (Endpoint ℕ) (Result (some (int 4)))
first_arg args p =
    returns args.0 (record p { owner = record p.owner { state = p.owner.state + 1 } })

abbrev user : User (Endpoint ℕ)
user = record {
  methods = typed_method (b'f' ∷ []) (b's' ∷ []) two_args (some (int 4)) first_arg ∷ [];
  set_promise = λ k args p. done p;
}

abbrev server : Server ℕ
server = new_server (b'P' ∷ []) (b'C' ∷ []) [] user

abbrev spec : ClientSpec
spec = record {
  server_protocol_name = b'P' ∷ [];
  server_methods = record { name = b'f' ∷ []; signature = b's' ∷ [] } ∷ [];
  client_protocol_name = b'C' ∷ [];
  user = record { methods = []; set_promise = λ k args p. done p };
}

abbrev open_socket : Socket
open_socket = record {
  is_open = true;
  is_connected = true;
  handshake_finished = true;
  calls = [];
  holders = 1;
}

abbrev there : ℕ → Peer (Endpoint ℕ)
there count = record {
  socket = open_socket;
  owner = record { session = new_session; state = count };
}

abbrev caller : ClientPeer
caller = record {
  socket = open_socket;
  owner = record {
    session = record {
      ids_of_methods = (b'f' ∷ [], pos 0) ∷ [];
      promises = [];
      next_message_id = 7;
      pending_replies = [];
    };
    state = record {
      has_sock = true;
      is_active = true;
      n_failures = 0;
      timer = none;
      timers = [];
      started_timers = 0;
      pending_messages = [];
    };
  };
}

nothing-IsIssued : IsIssued caller.owner.session
unfolding lookup
nothing-IsIssued k v e = cc

methods-CalledFinished :
    (i : ℕ) (m : MethodImpl (Endpoint ℕ)) (args : Bytes) (p : Peer (Endpoint ℕ))
    → get_elem? user.methods i ≡ some m
    → IsFinished p
    → CalledFinished (m.fn args p)
methods-CalledFinished zero m args p found h =
    subst (λ m. CalledFinished (m.fn args p))
      (some-injective (typed_method (b'f' ∷ []) (b's' ∷ []) two_args (some (int 4)) first_arg) m
        found)
      (typed_method-CalledFinished two_args (some (int 4)) first_arg (λ args p h. h) (b'f' ∷ [])
        (b's' ∷ []) args p h)
methods-CalledFinished (suc i) m args p found h = cc

user-UserKeeps : UserKeeps user
user-UserKeeps = record { methods_keep = methods-CalledFinished; promises_keep = λ k args p h. h }

spec-UserKeeps : UserKeeps spec.user
spec-UserKeeps = record { methods_keep = λ i m args p found h. cc; promises_keep = λ k args p h. h }

args_size : length (proxy_args two_args (negsuc 4, (true, tt))) ≡ 5
unfolding proxy_args encode encode_bool
args_size =
    rw
      (
        serialize-encode (tuple two_args) (negsuc 4, (true, tt)),
        length-append (be_bytes 4 (to_pattern 4 (negsuc 4))) (be_bytes 1 1 ++ []),
        length-be_bytes 4 (to_pattern 4 (negsuc 4)),
        length-append (be_bytes 1 1) [],
        length-be_bytes 1 1,
      )
      refl

result_size : length (result_bytes (some (int 4)) (negsuc 4)) ≡ 4
unfolding result_bytes encode
result_size = rw (serialize-encode (int 4) (negsuc 4)) (length-be_bytes 4 (to_pattern 4 (negsuc 4)))

invoke_server-on_data_example :
    (asked : Bytes) × (answer : Bytes) × (result : Bytes) × (c1 : ClientPeer) × (c2 : ClientPeer)
    × (invoke_server (b'f' ∷ []) (proxy_args two_args (negsuc 4, (true, tt))) caller ≡ done c1)
    × (c1.socket ≡ calls (writes asked) open_socket)
    × (on_data (callbacks server) asked (quiet (there 0)) ≡ done (quiet (replied (there 1) answer)))
    × (on_data (client_callbacks spec) answer (quiet c1)
        ≡ resume [] (spec.user.set_promise 7 result c2) (λ r. done (quiet r)))
    × (c2.socket ≡ c1.socket)
    × ((j : ℕ) → lookup j c2.owner.session.promises ≡ lookup j caller.owner.session.promises)
    × (proxy_result (some (int 4)) result ≡ ok (negsuc 4))
unfolding lookup new_server bytes_eq
invoke_server-on_data_example =
    invoke_server-on_data server spec 0 (b'f' ∷ []) (b's' ∷ []) two_args (some (int 4)) first_arg
      refl user-UserKeeps spec-UserKeeps caller (there 0) (there 1) (b'f' ∷ [])
      (negsuc 4, (true, tt)) (negsuc 4) refl refl refl refl nothing-IsIssued (omega arith)
      (omega arith) (omega arith) (omega arith) (omega (arith, args_size)) refl refl refl refl
      (omega arith) (omega (arith, result_size))
