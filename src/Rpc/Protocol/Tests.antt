-- ===== src/Rpc/Protocol/Tests.antt =====
-- Two ends of two small protocols.
use smoljudge.Prelude.{
  length-append, ℕ, zero, suc, ◌*◌, ◌≤◌, ◌≡◌, refl, true, false, [], ◌∷◌, ◌++◌, length, none, some,
  arith,
}
use smoljudge.Prelude.Decimal.{to_string, digits}
use smoljudge.Prelude.Dict.{lookup, text_eq}
use smoljudge.Prelude.Int.{negsuc}
use smoljudge.Prelude.Outcome.{ok}
use smoljudge.Prelude.Run.{done}
use smoljudge.Prelude.Text.{Text, codes}
use smoljudge.Wire.Codec.Format.{encode, encode_bool, serialize-encode}
use smoljudge.Wire.Integers.{to_pattern}
use smoljudge.Wire.Integers.Laws.{be_bytes, length-be_bytes}
use smoljudge.Wire.TypeString.{
  signature_string, return_string, type_string, type_strings, join_strings, join_more,
}
use smoljudge.Wire.Types.{int, bool, string, tuple, nil, cons, Bytes}
use smoljudge.Messages.{client_hello_bytes}
use smoljudge.Messages.Laws.{IsClientHello}
use smoljudge.Socket.{Socket, Peer, quiet, calls, writes, on_data, resume}
use smoljudge.Rpc.Session.{Endpoint, new_session}
use smoljudge.Rpc.Session.Responses.{UserKeeps, IsIssued}
use smoljudge.Rpc.Reflection.{returns, result_bytes, typed_method, proxy_args, proxy_result}
use smoljudge.Rpc.Server.{Server, new_server, callbacks}
use smoljudge.Rpc.Server.Table.{IsTable}
use smoljudge.Rpc.Client.{
  invoke_server, ClientState, ClientPeer, ClientSpec, greeting_of, send_greeting, client_callbacks,
}
use smoljudge.Rpc.Client.Greeting.{requests}
use smoljudge.Rpc.Agreement.Calls.{replied}
use smoljudge.Rpc.Protocol.{
  Protocol, Member, generic_methods, generic_impls, announce_methods, announce_impls,
  announced_impl, server_of, client_of,
}
use smoljudge.Rpc.Protocol.Finished.{generic_impls-CalledFinished}
use smoljudge.Rpc.Protocol.FirstCall.{invoke_server-send_greeting}
use smoljudge.Rpc.Protocol.Greeting.{on_data-send_greeting}
use smoljudge.Rpc.Protocol.HelloSizes.{named_size, length-client_hello_bytes}
use smoljudge.Rpc.Protocol.Lists.{DistinctAnnouncements}
use smoljudge.Rpc.Protocol.Numbers.{IsNumbered}

abbrev judge : Protocol
judge = record {
  name = codes "judge";
  announcements =
      record { method_name = codes "f"; ret = some (int 4); args = cons (int 4) (cons bool nil) }
      ∷ [];
}

abbrev worker : Protocol
worker = record {
  name = codes "worker";
  announcements = record { method_name = codes "log"; ret = none; args = cons string nil } ∷ [];
}

abbrev member : Text → Member (Endpoint ℕ)
member name = record {
  ret = some (int 4);
  args = cons (int 4) (cons bool nil);
  body = λ args p. returns args.0 p;
}

abbrev worker_member : Text → Member (Endpoint ClientState)
worker_member name = record { ret = none; args = cons string nil; body = λ args p. returns tt p }

abbrev server : Server ℕ
server = server_of judge member worker (λ k args p. done p)

abbrev spec : ClientSpec
spec = client_of judge worker worker_member (λ k args p. done p)

judge-DistinctAnnouncements : DistinctAnnouncements judge.announcements
judge-DistinctAnnouncements zero zero a b at at' same = refl
judge-DistinctAnnouncements zero (suc j) a b at at' same = cc
judge-DistinctAnnouncements (suc i) j a b at at' same = cc

worker-DistinctAnnouncements : DistinctAnnouncements worker.announcements
worker-DistinctAnnouncements zero zero a b at at' same = refl
worker-DistinctAnnouncements zero (suc j) a b at at' same = cc
worker-DistinctAnnouncements (suc i) j a b at at' same = cc

judge_text :
    signature_string (some (int 4)) (cons (int 4) (cons bool nil))
    ≡ codes "int32_t(int32_t, uint8_t)"
unfolding signature_string return_string type_string type_strings join_strings join_more to_string
    digits
judge_text = refl

worker_text : signature_string none (cons string nil) ≡ codes "void(string)"
unfolding signature_string return_string type_string type_strings join_strings join_more
worker_text = refl

abbrev fresh_socket : Socket
fresh_socket = record {
  is_open = true;
  is_connected = true;
  handshake_finished = false;
  holders = 1;
  calls = [];
}

abbrev connected : Peer (Endpoint ℕ)
connected = record { socket = fresh_socket; owner = record { session = new_session; state = 0 } }

-- One call waits.
abbrev caller : ClientPeer
caller = record {
  socket = fresh_socket;
  owner = record {
    session = new_session;
    state = record {
      has_sock = true;
      is_active = true;
      n_failures = 0;
      timer = none;
      timers = [];
      started_timers = 0;
      pending_messages =
          record { method_name = codes "f"; message_id = 0; args = 1 ∷ 2 ∷ 3 ∷ 4 ∷ 0 ∷ [] } ∷ [];
    };
  };
}

server-UserKeeps : UserKeeps server.user
unfolding server_of new_server
server-UserKeeps = record {
  methods_keep = generic_impls-CalledFinished member judge (λ name args p h. h);
  promises_keep = λ k args p h. h;
}

spec-UserKeeps : UserKeeps spec.user
unfolding client_of
spec-UserKeeps = record {
  methods_keep = generic_impls-CalledFinished worker_member worker (λ name args p h. h);
  promises_keep = λ k args p h. h;
}

greeting-IsClientHello : IsClientHello (greeting_of spec)
unfolding greeting_of client_of generic_methods announce_methods generic_impls announce_impls
    announced_impl signature_string return_string type_string type_strings join_strings join_more
    to_string digits typed_method
greeting-IsClientHello = record {
  size_fits = omega arith;
  magic_fits = omega arith;
  server_name_fits = omega arith;
  client_name_fits = omega arith;
  requested_fit = omega arith;
  advertised_fit = omega arith;
}

greeting_size : length (client_hello_bytes (greeting_of spec)) ≤ 8 * 1024
unfolding named_size greeting_of client_of generic_methods announce_methods generic_impls
    announce_impls announced_impl signature_string return_string type_string type_strings
    join_strings join_more to_string digits typed_method
greeting_size = rw (length-client_hello_bytes (greeting_of spec)) (omega arith)

nothing-IsTable : IsTable (generic_impls member judge) []
unfolding lookup
nothing-IsTable name id e = cc

on_data-send_greeting_example :
    (hello : Bytes) × (reply : Bytes) × (c1 : ClientPeer) × (p1 : Peer (Endpoint ℕ))
    × (c2 : ClientPeer) × (send_greeting spec caller ≡ done c1)
    × (c1.socket ≡ calls (writes hello) fresh_socket)
    × (on_data (callbacks server) hello (quiet connected) ≡ done (quiet p1))
    × (p1.socket ≡ calls (writes reply) (record fresh_socket { handshake_finished = true }))
    × IsNumbered worker.announcements p1.owner.session.ids_of_methods
    × (on_data (client_callbacks spec) reply (quiet c1) ≡ done (quiet c2))
    × (c2.socket.handshake_finished ≡ true)
    × (c2.socket.calls
        ≡ c1.socket.calls
          ++ requests c2.owner.session.ids_of_methods caller.owner.state.pending_messages)
    × (c2.owner.state.pending_messages ≡ [])
    × IsNumbered judge.announcements c2.owner.session.ids_of_methods
    × (c2.socket.is_connected ≡ true)
    × (c2.owner.state.has_sock ≡ true)
    × (c2.owner.session
        ≡ record (caller).owner.session { ids_of_methods = c2.owner.session.ids_of_methods })
unfolding new_session
on_data-send_greeting_example =
    on_data-send_greeting judge worker member (λ k args p. done p) worker_member
      (λ k args p. done p) judge-DistinctAnnouncements worker-DistinctAnnouncements server-UserKeeps
      spec-UserKeeps greeting-IsClientHello greeting_size (omega arith) caller connected
      (refl, refl, refl) (refl, refl, refl) nothing-IsTable
      (
        (
          0,
          record {
            method_name = codes "f";
            ret = some (int 4);
            args = cons (int 4) (cons bool nil);
          },
          refl,
          refl,
        ),
        tt,
      )
      refl

args_size : length (proxy_args (cons (int 4) (cons bool nil)) (negsuc 4, (true, tt))) ≡ 5
unfolding proxy_args encode encode_bool
args_size =
    rw
      (
        serialize-encode (tuple (cons (int 4) (cons bool nil))) (negsuc 4, (true, tt)),
        length-append (be_bytes 4 (to_pattern 4 (negsuc 4))) (be_bytes 1 1 ++ []),
        length-be_bytes 4 (to_pattern 4 (negsuc 4)),
        length-append (be_bytes 1 1) [],
        length-be_bytes 1 1,
      )
      refl

result_size : length (result_bytes (some (int 4)) (negsuc 4)) ≡ 4
unfolding result_bytes encode
result_size = rw (serialize-encode (int 4) (negsuc 4)) (length-be_bytes 4 (to_pattern 4 (negsuc 4)))

-- No call waits.
abbrev idle : ClientPeer
idle = record caller {
  owner = record (caller).owner { state = record (caller).owner.state { pending_messages = [] } };
}

idle-IsIssued : IsIssued (idle).owner.session
unfolding lookup new_session
idle-IsIssued k v e = cc

invoke_server-send_greeting_example :
    (hello : Bytes) × (reply : Bytes) × (asked : Bytes) × (answer : Bytes) × (result : Bytes)
    × (c1 : ClientPeer) × (p1 : Peer (Endpoint ℕ)) × (c2 : ClientPeer) × (c3 : ClientPeer)
    × (c4 : ClientPeer) × (send_greeting spec idle ≡ done c1)
    × (c1.socket ≡ calls (writes hello) fresh_socket)
    × (on_data (callbacks server) hello (quiet connected) ≡ done (quiet p1))
    × (p1.socket ≡ calls (writes reply) (record fresh_socket { handshake_finished = true }))
    × (on_data (client_callbacks spec) reply (quiet c1) ≡ done (quiet c2))
    × (invoke_server
          (codes "f")
          (proxy_args (cons (int 4) (cons bool nil)) (negsuc 4, (true, tt)))
          c2
        ≡ done c3)
    × (c3.socket ≡ calls (writes asked) c2.socket)
    × (on_data (callbacks server) asked (quiet p1) ≡ done (quiet (replied p1 answer)))
    × (on_data (client_callbacks spec) answer (quiet c3)
        ≡ resume [] ((spec).user.set_promise 0 result c4) (λ r. done (quiet r)))
    × (proxy_result (some (int 4)) result ≡ ok (negsuc 4))
unfolding new_session
invoke_server-send_greeting_example =
    invoke_server-send_greeting judge worker member (λ k args p. done p) worker_member
      (λ k args p. done p) judge-DistinctAnnouncements worker-DistinctAnnouncements server-UserKeeps
      spec-UserKeeps greeting-IsClientHello greeting_size (omega arith) idle connected
      (refl, refl, refl) (refl, refl, refl) refl refl nothing-IsTable idle-IsIssued (omega arith)
      refl 0
      (record { method_name = codes "f"; ret = some (int 4); args = cons (int 4) (cons bool nil) })
      (λ args. args.0) (negsuc 4, (true, tt)) refl refl (omega arith) (omega arith)
      (omega (arith, args_size)) (omega arith) (omega (arith, result_size))
