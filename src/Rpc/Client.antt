-- ===== src/Rpc/Client.antt =====
-- rpc/src/client.cpp and rpc/include/rpc/client.hpp: `generic_client`, which reconnects when the
-- connection fails and keeps the calls that are made before the handshake.
pub mod Backoff
pub mod Stopping
pub mod Greeting
pub mod Refusal
mod Tests
use smoljudge.Prelude.{
  ℕ, zero, suc, ◌+◌, ◌-◌, ◌*◌, ◌%◌, ◌^◌, Bool, true, false, not, ◌&&◌, ◌||◌, List, [], ◌∷◌, ◌++◌,
  map, length, ltb, leb, ◌==◌, if◌then◌else◌, Option, none, some,
}
use smoljudge.Prelude.Text.{Text}
use smoljudge.Prelude.Int.{ℤ}
use smoljudge.Prelude.Dict.{Dict, lookup, erase, assign, emplace, nat_eq, text_eq}
use smoljudge.Prelude.Outcome.{out_of_range}
use smoljudge.Prelude.Run.{Run, done, raised, ◌>>=◌, with_value}
use smoljudge.Wire.Types.{Bytes}
use smoljudge.Messages.{
  RpcMessage, ClientHello, ServerHello, read_server_hello, client_hello_bytes, seal_client_hello,
  message_bytes, seal,
}
use smoljudge.Socket.{
  Socket, Peer, Conn, Callbacks, new_socket, write, invoke, on_socket, stop_peer,
}
use smoljudge.Rpc.Session.{
  Session, Endpoint, User, Method, MethodImpl, with_session, drop_holder, on_message,
}
use smoljudge.Rpc.Server.{magic_eq, lower_magic, upper_magic}

pub record PendingMessage : Type 0 where
  pub method_name : Text
  pub message_id : ℕ
  pub args : Bytes

-- The members of `generic_client` that are not in `Session`. `has_sock` tells whether `sock` holds
-- the socket of the peer; `timer` points to one of the `timers` of the loop that run, each with its
-- seconds.
pub record ClientState : Type 0 where
  pub has_sock : Bool
  pub is_active : Bool
  pub n_failures : ℕ
  pub timer : Option ℕ
  pub timers : Dict ℕ ℕ
  pub started_timers : ℕ
  pub pending_messages : List PendingMessage

abbrev pub ClientPeer : Type 0
ClientPeer = Peer (Endpoint ClientState)

-- What a client is made from.
pub record ClientSpec : Type 0 where
  pub server_protocol_name : Text
  pub server_methods : List Method
  pub client_protocol_name : Text
  pub user : User (Endpoint ClientState)

abbrev pub with_state : ClientPeer → ClientState → ClientPeer
with_state p c = record p { owner = record p.owner { state = c } }

-- `n_seconds` of `reconnect`.
pub doubled : ℕ → ℕ → ℕ
doubled zero n_seconds = n_seconds
doubled (suc rounds) n_seconds = doubled rounds (n_seconds * 2)

abbrev min : ℕ → ℕ → ℕ
min a b = if leb a b then a else b

unfoldable pub backoff : ℕ → ℕ
unfolding doubled
backoff n_failures =
    if n_failures == 0
    then 0
    else if leb n_failures 3
    then 1
    else doubled (min 6 (n_failures - 3)) 1

-- `if(sock) { sock->stop(); sock.reset(); }`
pub release : ClientPeer → ClientPeer
release p =
    let p' = with_state p (record p.owner.state { has_sock = false }) in
    if p.owner.state.has_sock then drop_holder (stop_peer p') else p'

-- `if(timer) { timer->close(); timer = nullptr; }`
pub close_timer : ClientState → ClientState
close_timer c = elim c.timer [
  | none ↦ c
  | some t ↦ record c { timer = none; timers = erase t c.timers }
]

-- The pointer is overwritten: a timer that it pointed to before runs on.
pub start_timer : ℕ → ClientState → ClientState
start_timer n_seconds c = record c {
  timer = some c.started_timers;
  timers = emplace c.started_timers n_seconds c.timers;
  started_timers = c.started_timers + 1;
}

pub stop_client : ClientPeer → ClientPeer
unfolding release close_timer
stop_client p =
    let p' = release (with_state p (record p.owner.state { is_active = false })) in
    with_state p' (close_timer p'.owner.state)

pub count_failure : Bool → ClientState → ClientState
count_failure due_to_failure c = record c {
  n_failures = if due_to_failure then c.n_failures + 1 else 0;
}

pub start_if_active : ClientPeer → ClientPeer
unfolding start_timer backoff
start_if_active p =
    if not p.owner.state.is_active
    then p
    else with_state p (start_timer (backoff p.owner.state.n_failures) p.owner.state)

pub reconnect : Bool → ClientPeer → ClientPeer
unfolding count_failure release start_if_active
reconnect due_to_failure p =
    start_if_active (release (with_state p (count_failure due_to_failure p.owner.state)))

-- The handler of `uvw::CloseEvent`.
pub on_close : ClientPeer → ClientPeer
unfolding reconnect
on_close p = reconnect true p

-- `_connect_impl`: a new socket takes the place of the one before, and the replies that wait are
-- left with that one.
unfoldable pub connect : ClientPeer → Conn (Endpoint ClientState)
unfolding new_socket
connect p = record {
  message_piece = [];
  peer = record {
    socket = new_socket false;
    owner = record {
      session = record p.owner.session { pending_replies = [] };
      state = record p.owner.state { has_sock = true };
    };
  };
}

-- The handler of `uvw::TimerEvent`, for the timer `t`.
pub on_timer : ℕ → ClientPeer → Conn (Endpoint ClientState)
unfolding connect
on_timer t p =
    connect
      (with_state p (record p.owner.state { timer = none; timers = erase t p.owner.state.timers }))

abbrev pub named : Method → Text × Text
named m = (m.name, m.signature)

abbrev pub named_impl : {S : Type 0} → MethodImpl S → Text × Text
named_impl m = (m.name, m.signature)

unfoldable pub greeting_of : ClientSpec → ClientHello
greeting_of spec = record {
  hello_size = 0;
  magic = upper_magic;
  requested_server_protocol_name = spec.server_protocol_name;
  requested_server_methods = map named spec.server_methods;
  advertised_client_protocol_name = spec.client_protocol_name;
  advertised_client_methods = map named_impl spec.user.methods;
}

-- The client's handler of `uvw::ConnectEvent`; the socket has one of its own.
unfoldable pub send_greeting : ClientSpec → ClientPeer → Run ClientPeer
unfolding greeting_of
send_greeting spec p =
    on_socket p (write (client_hello_bytes (seal_client_hello (greeting_of spec))) p.socket)

-- `server_ids_of_methods[server_protocol.methods[i].name] = hello.method_ids[i]`, for lists of one
-- length.
unfoldable pub assign_ids : List Method → List ℤ → Dict Text ℤ → Dict Text ℤ
assign_ids [] ids known = known
assign_ids (m ∷ ms) [] known = known
assign_ids (m ∷ ms) (id ∷ ids) known = assign_ids ms ids (assign m.name id known)

-- One call of the loop over `pending_messages`; `sent` are the ones before it, whose arguments have
-- been moved out, `rest` the ones after it, and `more` is the rest of the loop.
pub flush_one :
    List PendingMessage
    → PendingMessage
    → List PendingMessage
    → (ClientPeer → Run ClientPeer)
    → ClientPeer
    → Run ClientPeer
flush_one sent m rest more p = elim (lookup m.method_name p.owner.session.ids_of_methods) [
  | none ↦ raised out_of_range p
  | some method_id ↦
      let moved = sent ++ record m { args = [] } ∷ rest in
      let p' = with_state p (record p.owner.state { pending_messages = moved }) in
      on_socket p' (invoke method_id m.message_id m.args p'.socket) >>= more
]

-- The loop, and `pending_messages.clear()`.
pub flush : List PendingMessage → List PendingMessage → ClientPeer → Run ClientPeer
unfolding flush_one
flush sent [] p = done (with_state p (record p.owner.state { pending_messages = [] }))
flush sent (m ∷ rest) p = flush_one sent m rest (flush (sent ++ record m { args = [] } ∷ []) rest) p

unfoldable pub is_refused : ClientSpec → ServerHello → Bool
is_refused spec hello =
    not (magic_eq hello.magic lower_magic)
    || (not (length hello.error_message == 0)
        || not (length hello.method_ids == length spec.server_methods))

pub on_server_hello : ClientSpec → ServerHello → ClientPeer → Run ClientPeer
unfolding is_refused assign_ids flush reconnect
on_server_hello spec hello p =
    if is_refused spec hello
    then done (reconnect true p)
    else let s = p.owner.session in
      flush [] p.owner.state.pending_messages (
        with_session p (record s {
          ids_of_methods = assign_ids spec.server_methods hello.method_ids s.ids_of_methods;
        }))

pub on_client_handshake : ClientSpec → Bytes → ClientPeer → Run ClientPeer
unfolding on_server_hello
on_client_handshake spec span p =
    with_value p (read_server_hello span) λ hello. on_server_hello spec hello p

-- `generic_client::invoke`.
unfoldable pub send_or_keep : Bool → Text → ℕ → Bytes → ClientPeer → Run ClientPeer
send_or_keep true name id args p = elim (lookup name p.owner.session.ids_of_methods) [
  | none ↦ raised out_of_range p
  | some method_id ↦ on_socket p (invoke method_id id args p.socket)
]
send_or_keep false name id args p = done (
    with_state p (record p.owner.state {
      pending_messages =
          p.owner.state.pending_messages
          ++ record { method_name = name; message_id = id; args = args } ∷ [];
    }))

unfoldable pub invoke_server : Text → Bytes → ClientPeer → Run ClientPeer
unfolding send_or_keep
invoke_server name args p =
    let s = p.owner.session in
    let id = s.next_message_id in
    let p' = with_session p (record s { next_message_id = (id + 1) % 2 ^ 64 }) in
    send_or_keep (p.owner.state.has_sock && p.socket.handshake_finished) name id args p' >>= λ q.
    done (
      with_session q (record q.owner.session { promises = emplace id id q.owner.session.promises }))

-- What `_connect_impl` gives to the socket.
abbrev pub client_callbacks : ClientSpec → Callbacks (Endpoint ClientState)
client_callbacks spec = record {
  on_message = on_message spec.user;
  on_incoming_handshake = on_client_handshake spec;
}
