-- ===== src/Rpc/Client/Greeting.antt =====
-- The client's side of the handshake, and the calls that wait for it.
use smoljudge.Prelude.{
  ◌+◌, ◌≡◌, refl, ◌∙◌, true, false, List, [], ◌∷◌, ◌++◌, append_assoc, append-nil, none, some, All,
}
use smoljudge.Prelude.Dict.{Dict, lookup, nat_eq, text_eq}
use smoljudge.Prelude.Int.{ℤ}
use smoljudge.Prelude.Outcome.{ok}
use smoljudge.Prelude.Run.{Run, done}
use smoljudge.Prelude.Text.{Text}
use smoljudge.Wire.Types.{Bytes}
use smoljudge.Messages.{ServerHello, read_server_hello, message_bytes, seal}
use smoljudge.Socket.{Call, writes, calls, write, invoke}
use smoljudge.Rpc.Session.{Session, with_session}
use smoljudge.Rpc.Session.Responses.{IsIssued}
use smoljudge.Rpc.Client.{
  PendingMessage, ClientPeer, ClientSpec, assign_ids, flush_one, flush, is_refused, on_server_hello,
  on_client_handshake,
}

abbrev pub IsKnown : Dict Text ℤ → PendingMessage → Type 0
IsKnown ids m = (method_id : ℤ) × (lookup m.method_name ids ≡ some method_id)

-- The messages of the calls that waited, in order.
pub requests : Dict Text ℤ → List PendingMessage → List Call
requests ids [] = []
requests ids (m ∷ ms) = elim (lookup m.method_name ids) [
  | none ↦ requests ids ms
  | some method_id ↦
      writes (
        message_bytes (
          seal (record {
            message_size = 0;
            method_id = method_id;
            message_id = m.message_id;
            args = m.args;
          })))
      ∷ requests ids ms
]

abbrev pub flushed : List PendingMessage → ClientPeer → ClientPeer
flushed rest p = record {
  socket = record p.socket {
    calls = p.socket.calls ++ requests p.owner.session.ids_of_methods rest;
  };
  owner = record p.owner { state = record p.owner.state { pending_messages = [] } };
}

-- One pending call goes out.
abbrev sent_one :
    List PendingMessage → PendingMessage → List PendingMessage → ℤ → ClientPeer → ClientPeer
sent_one sent m rest method_id p = record {
  socket =
      calls
        (writes (
          message_bytes (
            seal (record {
              message_size = 0;
              method_id = method_id;
              message_id = m.message_id;
              args = m.args;
            }))))
        p.socket;
  owner = record p.owner {
    state = record p.owner.state { pending_messages = sent ++ record m { args = [] } ∷ rest };
  };
}

flush_one_known :
    (sent : List PendingMessage) (m : PendingMessage) (rest : List PendingMessage)
    (more : ClientPeer → Run ClientPeer) (p : ClientPeer) (method_id : ℤ)
    → p.socket.is_connected ≡ true
    → lookup m.method_name p.owner.session.ids_of_methods ≡ some method_id
    → flush_one sent m rest more p ≡ more (sent_one sent m rest method_id p)
unfolding flush_one invoke write
flush_one_known sent m rest more p method_id up found = rw (flush_one, found, up)

pub flush-requests :
    (sent rest : List PendingMessage) (p : ClientPeer)
    → p.socket.is_connected ≡ true
    → All (IsKnown p.owner.session.ids_of_methods) rest
    → flush sent rest p ≡ done (flushed rest p)
unfolding flush requests calls
flush-requests sent [] p up known = rw (append-nil p.socket.calls)
flush-requests sent (m ∷ rest) p up ((method_id, found), known) =
    let first = sent_one sent m rest method_id p in
    flush_one_known sent m rest (flush (sent ++ record m { args = [] } ∷ []) rest) p method_id up
      found
    ∙ flush-requests (sent ++ record m { args = [] } ∷ []) rest first up known
    ∙ rw (requests, found, append_assoc p.socket.calls)

-- When the server's hello is in order, the socket is connected and the methods of all calls that
-- wait have ids after it, one message for each of them goes out, in the order of the calls, with
-- the id that the call was given and the id of its method, and none waits any more.
pub on_server_hello-requests :
    (spec : ClientSpec) (hello : ServerHello) (p : ClientPeer)
    → is_refused spec hello ≡ false
    → p.socket.is_connected ≡ true
    → let ids = assign_ids spec.server_methods hello.method_ids p.owner.session.ids_of_methods in
      All (IsKnown ids) p.owner.state.pending_messages
      → (q : ClientPeer) × (on_server_hello spec hello p ≡ done q)
        × (q.socket.calls ≡ p.socket.calls ++ requests ids p.owner.state.pending_messages)
        × (q.socket.is_connected ≡ true)
        × (q.owner.state.pending_messages ≡ [])
        × (q.owner.session ≡ record p.owner.session { ids_of_methods = ids })
unfolding on_server_hello
on_server_hello-requests spec hello p fine up known =
    let ids = assign_ids spec.server_methods hello.method_ids p.owner.session.ids_of_methods in
    let p' = with_session p (record p.owner.session { ids_of_methods = ids }) in
    (
      flushed p.owner.state.pending_messages p',
      rw fine (flush-requests [] p.owner.state.pending_messages p' up known),
      refl,
      up,
      refl,
      refl,
    )

-- The next id has been given out, to a promise that waits.
abbrev pub IsCalled : Session → Session → Type 0
IsCalled s t =
    IsIssued t
    × (t.next_message_id ≡ s.next_message_id + 1)
    × (lookup s.next_message_id t.promises ≡ some s.next_message_id)

-- The same from the bytes of the hello, with the state that the client comes to.
pub on_client_handshake-flushed :
    (spec : ClientSpec) (span : Bytes) (hello : ServerHello) (p : ClientPeer)
    → read_server_hello span ≡ ok hello
    → is_refused spec hello ≡ false
    → p.socket.is_connected ≡ true
    → let ids = assign_ids spec.server_methods hello.method_ids p.owner.session.ids_of_methods in
      All (IsKnown ids) p.owner.state.pending_messages
      → on_client_handshake spec span p
        ≡ done (
            flushed p.owner.state.pending_messages
              (with_session p (record p.owner.session { ids_of_methods = ids })))
unfolding on_client_handshake on_server_hello
on_client_handshake-flushed spec span hello p got fine up known =
    rw (got, fine)
      (flush-requests [] p.owner.state.pending_messages
        (with_session p (record p.owner.session {
          ids_of_methods =
              assign_ids spec.server_methods hello.method_ids p.owner.session.ids_of_methods;
        }))
        up known)
