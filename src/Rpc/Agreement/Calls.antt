-- ===== src/Rpc/Agreement/Calls.antt =====
-- A call over the whole way: from `invoke` of a client through the bytes to the method of the server,
-- and through the bytes of the reply to the promise of the caller.
mod Tests
use smoljudge.Prelude.{
  ℕ, ◌+◌, ◌*◌, ◌%◌, ◌^◌, ◌<◌, ◌≡◌, refl, sym, ap, ◌∙◌, true, false, ◌&&◌, List, [], ◌∷◌, ◌++◌,
  length, get_elem?, if◌then◌else◌, ◌==◌, eq_refl, Option, none, some, All, Bool-cases, inl, inr,
  ==_iff, arith,
}
use smoljudge.Prelude.Dict.{lookup, emplace, erase, nat_eq, text_eq, lookup-emplace, lookup-erase}
use smoljudge.Prelude.Int.{ℤ, pos, negsuc}
use smoljudge.Prelude.Outcome.{ok}
use smoljudge.Prelude.Run.{Run, done}
use smoljudge.Prelude.Text.{Text}
use smoljudge.Wire.Codec.Range.{serialize-IsByte}
use smoljudge.Wire.Types.{
  Ty, Tys, tuple, vector, byte, Bytes, Fields, IsFields, FieldsHoldFirst, IsByte, IsValue, IsInt,
  IsUint,
}
use smoljudge.Messages.{RpcMessage, message_bytes, seal}
use smoljudge.Messages.Exact.{seal_size, seal-IsMessage}
use smoljudge.Socket.{
  Socket, Peer, Conn, Call, writes, calls, write, invoke, resume, quiet, on_data, on_socket,
}
use smoljudge.Socket.Delivery.{IsSealed, on_data-message_bytes}
use smoljudge.Socket.Stream.{IsFinished}
use smoljudge.Rpc.Session.{Session, Endpoint, User, PromiseId, with_session, on_message}
use smoljudge.Rpc.Session.Responses.{IsIssued, UserKeeps, with_call, fresh_id, on_message-waiting}
use smoljudge.Rpc.Reflection.{
  Result, Answer, returns, typed_method, result_bytes, proxy_args, proxy_result,
}
use smoljudge.Rpc.Reflection.Calls.{
  IsSendable, reply_message, on_message_reply, proxy_result-result_bytes,
}
use smoljudge.Rpc.Server.{Server, callbacks}
use smoljudge.Rpc.Server.Calls.{callbacks-KeepsFinished}
use smoljudge.Rpc.Client.{
  ClientState, ClientPeer, ClientSpec, send_or_keep, invoke_server, client_callbacks,
}
use smoljudge.Rpc.Client.Refusal.{client_callbacks-KeepsFinished}

abbrev request : ℕ → ℤ → Bytes → RpcMessage
request id method_id args = record {
  message_size = 0;
  method_id = method_id;
  message_id = id;
  args = args;
}

abbrev called : ClientPeer → RpcMessage → ClientPeer
called c m = record {
  socket = calls (writes (message_bytes (seal m))) c.socket;
  owner = record c.owner { session = with_call c.owner.session };
}

invoke_server_direct :
    (name : Text) (args : Bytes) (c : ClientPeer) (method_id : ℤ)
    → c.owner.state.has_sock ≡ true
    → IsFinished c
    → c.socket.is_connected ≡ true
    → lookup name c.owner.session.ids_of_methods ≡ some method_id
    → invoke_server name args c
      ≡ done (called c (request c.owner.session.next_message_id method_id args))
unfolding invoke_server send_or_keep invoke write
invoke_server_direct name args c method_id here finished up known =
    rw (here, finished, send_or_keep, known, up) refl

called-args :
    (m : RpcMessage)
    → IsInt 4 m.method_id
    → IsUint 8 m.message_id
    → All IsByte m.args
    → 24 + length m.args < 2 ^ 32
    → IsSealed (seal m)
called-args m method_fits id_fits bytes fits = record {
  fits = seal-IsMessage m method_fits id_fits (bytes, omega (arith, fits));
  states_length = seal_size m fits;
}

result_bytes-IsByte :
    (ret : Option Ty) (v : Result ret) → IsSendable ret v → All IsByte (result_bytes ret v)
unfolding result_bytes
result_bytes-IsByte none v h = tt
result_bytes-IsByte (some t) v h = serialize-IsByte t v h.0

proxy_args-IsByte :
    (ts : Tys) (args : Fields ts) → IsFields ts args → All IsByte (proxy_args ts args)
unfolding proxy_args
proxy_args-IsByte ts args h = serialize-IsByte (tuple ts) args h

abbrev pub replied : {S : Type 0} → Peer S → Bytes → Peer S
replied q bytes = record q { socket = calls (writes bytes) q.socket }

-- The new promise comes and goes, and the others are what they were.
settled :
    (c : ClientPeer)
    → IsIssued c.owner.session
    → let s = c.owner.session in
      (j : ℕ)
      → (if s.next_message_id == j then none else lookup j (with_call s).promises)
        ≡ lookup j s.promises
settled c issued j =
    let s = c.owner.session in
    let id = s.next_message_id in
    elim (Bool-cases (id == j)) [
      | inl here ↦ rw (here, ← (==_iff id j).0 here) (sym (fresh_id s issued))
      | inr other ↦ rw (other, lookup-emplace id j id s.promises (fresh_id s issued), other) refl
    ]

module _ {O : Type 0} (server : Server O) (spec : ClientSpec) (i : ℕ) (name signature : Text)
    (ts : Tys) (ret : Option Ty)
    (body : Fields ts → Peer (Endpoint O) → Answer (Endpoint O) (Result ret))
    (listed : get_elem? server.user.methods i ≡ some (typed_method name signature ts ret body))
    (server_keeps : UserKeeps server.user) (client_keeps : UserKeeps spec.user) where
  on_data-request :
      (m : RpcMessage) (p q : Peer (Endpoint O)) (args : Fields ts) (v : Result ret)
      → IsSealed (seal m)
      → m.method_id ≡ pos i
      → m.args ≡ proxy_args ts args
      → IsFields ts args
      → FieldsHoldFirst ts args
      → body args p ≡ returns v q
      → q.socket.is_connected ≡ true
      → q.socket.holders == 0 ≡ false
      → IsFinished p
      → on_data (callbacks server) (message_bytes (seal m)) (quiet p)
        ≡ done (
            quiet
              (replied q (message_bytes (seal (reply_message m.message_id (result_bytes ret v))))))
  unfolding seal calls
  on_data-request m p q args v sealed id sent fits first ran up held finished =
      on_data-message_bytes (callbacks server) (callbacks-KeepsFinished server server_keeps)
        (seal m) p sealed finished
      ∙ rw
          (
            on_message_reply server.user i name signature ts ret body listed (seal m) p q args v id
                sent fits first ran up,
            held,
          )
          refl

  on_data-reply :
      (id : ℕ) (result : Bytes) (c : ClientPeer)
      → IsSealed (seal (reply_message id result))
      → lookup id c.owner.session.promises ≡ some id
      → IsFinished c
      → (c' : ClientPeer) × (on_data
            (client_callbacks spec)
            (message_bytes (seal (reply_message id result)))
            (quiet c)
          ≡ resume [] (spec.user.set_promise id result c') (λ r. done (quiet r)))
        × (c'.socket ≡ c.socket)
        × ((j : ℕ)
            → lookup j c'.owner.session.promises
              ≡ (if id == j then none else lookup j c.owner.session.promises))
  unfolding seal
  on_data-reply id result c sealed waits finished =
      let m = seal (reply_message id result) in
      let (c', run, same, others) = on_message-waiting spec.user m c id refl waits in
      (
        c',
        on_data-message_bytes (client_callbacks spec)
              (client_callbacks-KeepsFinished spec client_keeps) m c sealed finished
            ∙ ap (λ r. resume [] r (λ r. done (quiet r))) run,
        same,
        others,
      )

  -- A call goes the whole way. A client calls a method that it knows by its position in the
  -- server's list, on a connection that is greeted at both ends: it writes one request. When the
  -- bytes of that request reach the server, the method runs on the very arguments, and the server
  -- writes one reply. When the bytes of the reply reach the client, they go to the promise of
  -- this call and to no other, which waits no more, and the caller reads from them the very value
  -- that the method returned. The method returns, on a socket that is connected and exists;
  -- arguments and result are in range, their variants hold their first alternatives, and each
  -- message fits in 32 bits of length. The promises of the client that wait are of ids given out,
  -- of which not all are spent. The code of the users does not take back that the handshake is
  -- finished, and nothing else reaches the two ends in between.
  pub invoke_server-on_data :
      (c : ClientPeer) (p q : Peer (Endpoint O)) (key : Text) (args : Fields ts) (v : Result ret)
      → c.owner.state.has_sock ≡ true
      → IsFinished c
      → c.socket.is_connected ≡ true
      → lookup key c.owner.session.ids_of_methods ≡ some (pos i)
      → IsIssued c.owner.session
      → c.owner.session.next_message_id + 1 < 2 ^ 64
      → IsInt 4 (pos i)
      → IsFields ts args
      → FieldsHoldFirst ts args
      → 24 + length (proxy_args ts args) < 2 ^ 32
      → IsFinished p
      → body args p ≡ returns v q
      → q.socket.is_connected ≡ true
      → q.socket.holders == 0 ≡ false
      → IsSendable ret v
      → 24 + length (result_bytes ret v) < 2 ^ 32
      → let id = c.owner.session.next_message_id in
        (asked : Bytes) × (answer : Bytes) × (result : Bytes) × (c1 : ClientPeer)
        × (c2 : ClientPeer) × (invoke_server key (proxy_args ts args) c ≡ done c1)
        × (c1.socket ≡ calls (writes asked) c.socket)
        × (on_data (callbacks server) asked (quiet p) ≡ done (quiet (replied q answer)))
        × (on_data (client_callbacks spec) answer (quiet c1)
            ≡ resume [] (spec.user.set_promise id result c2) (λ r. done (quiet r)))
        × (c2.socket ≡ c1.socket)
        × ((j : ℕ) → lookup j c2.owner.session.promises ≡ lookup j c.owner.session.promises)
        × (proxy_result ret result ≡ ok v)
  unfolding calls
  invoke_server-on_data c p q key args v here greeted up known issued room at fits first short
        finished ran live held sendable small =
      let id = c.owner.session.next_message_id in
      let asked = request id (pos i) (proxy_args ts args) in
      let result = result_bytes ret v in
      let answer = reply_message id result in
      let c1 = called c asked in
      let added = λ (j : ℕ).
        lookup-emplace id j id c.owner.session.promises (fresh_id c.owner.session issued) in
      let (c2, run, same, others) =
        on_data-reply id result c1
          (called-args answer (omega arith) (omega (arith, room))
            (result_bytes-IsByte ret v sendable) small)
          (added id ∙ rw (eq_refl id) refl) greeted in
      (
        message_bytes (seal asked),
        message_bytes (seal answer),
        result,
        c1,
        c2,
        invoke_server_direct key (proxy_args ts args) c (pos i) here greeted up known,
        refl,
        on_data-request asked p q args v
            (called-args asked at (omega (arith, room)) (proxy_args-IsByte ts args fits) short) refl
            refl fits first ran live held finished,
        run,
        same,
        λ j. others j ∙ settled c issued j,
        proxy_result-result_bytes ret v sendable,
      )
