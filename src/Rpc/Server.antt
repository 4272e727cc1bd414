-- ===== src/Rpc/Server.antt =====
-- rpc/src/server.cpp: `generic_server::server_client`, one for each connection, and the tables of
-- `generic_server` that it reads.
pub mod Table
pub mod Handshake
pub mod Clients
pub mod Ends
pub mod Calls
pub mod Acceptance
pub mod Once
pub mod Lives
pub mod Refusal
mod Tests
use smoljudge.Prelude.{
  ℕ, zero, suc, ◌+◌, ◌%◌, ◌^◌, Bool, true, false, not, ◌&&◌, List, [], ◌∷◌, ◌++◌, length, get_elem?,
  ◌==◌, bytes_eq, if◌then◌else◌, Option, none, some,
}
use smoljudge.Prelude.Text.{Text, codes}
use smoljudge.Prelude.Int.{ℤ, pos, negsuc}
use smoljudge.Prelude.Dict.{Dict, lookup, erase, assign, emplace, nat_eq, text_eq}
use smoljudge.Prelude.Outcome.{Error, out_of_range}
use smoljudge.Prelude.Run.{Run, done, raised, wild, ◌>>=◌, with_value}
use smoljudge.Wire.Types.{Bytes}
use smoljudge.Messages.{
  RpcMessage, Magic, ClientHello, ServerHello, read_client_hello, server_hello_bytes,
  seal_server_hello,
}
use smoljudge.Socket.{Socket, Peer, Callbacks, write, stop, stop_peer, invoke, on_socket}
use smoljudge.Rpc.Session.{
  Session, Endpoint, User, Method, MethodImpl, PromiseId, with_session, on_message,
}

pub record Server (O : Type 0) : Type 0 where
  pub protocol_name : Text
  pub client_protocol_name : Text
  pub client_methods : List Method
  pub user : User (Endpoint O)
  pub server_method_name_to_id : Dict Text ℤ

-- The loop of the constructor: a later method takes the name of an earlier one over.
pub register_methods : {S : Type 0} → List (MethodImpl S) → ℕ → Dict Text ℤ → Dict Text ℤ
register_methods [] i ids = ids
register_methods (m ∷ ms) i ids = register_methods ms (i + 1) (assign m.name (pos i) ids)

unfoldable pub new_server : {O : Type 0} → Text → Text → List Method → User (Endpoint O) → Server O
unfolding register_methods
new_server protocol_name client_protocol_name client_methods user = record {
  protocol_name = protocol_name;
  client_protocol_name = client_protocol_name;
  client_methods = client_methods;
  user = user;
  server_method_name_to_id = register_methods user.methods 0 [];
}

abbrev pub char : ℕ → ℤ
char = pos

abbrev pub lower_magic : Magic
lower_magic = (char b's', (char b'm', (char b'o', (char b'l', tt))))

abbrev pub upper_magic : Magic
upper_magic = (char b'S', (char b'M', (char b'O', (char b'L', tt))))

unfoldable pub int_eq : ℤ → ℤ → Bool
int_eq (pos a) (pos b) = a == b
int_eq (negsuc a) (negsuc b) = a == b
int_eq (pos a) (negsuc b) = false
int_eq (negsuc a) (pos b) = false

-- `std::array::operator==`.
unfoldable pub magic_eq : Magic → Magic → Bool
unfolding int_eq
magic_eq (a0, (a1, (a2, (a3, _)))) (b0, (b1, (b2, (b3, _)))) =
    int_eq a0 b0 && (int_eq a1 b1 && (int_eq a2 b2 && int_eq a3 b3))

-- The map from the names of the advertised methods to their signatures and positions; of two
-- methods with one name the first is kept.
pub index_advertised : List (Text × Text) → ℕ → Dict Text (Text × ℤ) → Dict Text (Text × ℤ)
index_advertised [] i known = known
index_advertised ((name, signature) ∷ rest) i known =
    index_advertised rest (i + 1) (emplace name (signature, pos i) known)

-- A loop over methods ends with the message of an error, or it runs through.
pub data Checked (A : Type 0) : Type 0 where
  accepted : A → Checked A
  refused : Text → Checked A

abbrev pub mismatch : Text → Text → Text → Text → Text
mismatch whose name expected present =
    codes "The "
    ++ (whose
        ++ (codes " method "
            ++ (name
                ++ (codes " has mismatching signature. Expected: "
                    ++ (expected ++ (codes ", present: " ++ present))))))

abbrev pub unsupported : Text → Text → Text
unsupported whose name =
    codes "The " ++ (whose ++ (codes " method " ++ (name ++ codes " is not supported")))

-- One round of the loop over `server.client_protocol.methods`; `more` is the rest of it with the id
-- of the method.
pub match_client_method :
    Method
    → Dict Text (Text × ℤ)
    → Dict Text ℤ
    → (ℤ → Dict Text ℤ × Checked (Unit {0}))
    → Dict Text ℤ × Checked (Unit {0})
match_client_method m advertised ids more = elim (lookup m.name advertised) [
  | none ↦ (ids, refused (unsupported (codes "client") m.name))
  | some (signature, id) ↦
      if not (bytes_eq m.signature signature)
      then (ids, refused (mismatch (codes "client") m.name m.signature signature))
      else more id
]

-- The loop fills `client_ids_of_methods` as it goes, and what it has filled in stays there when it
-- ends with an error.
pub match_client_methods :
    List Method → Dict Text (Text × ℤ) → Dict Text ℤ → Dict Text ℤ × Checked (Unit {0})
unfolding match_client_method
match_client_methods [] advertised ids = (ids, accepted tt)
match_client_methods (m ∷ ms) advertised ids =
    match_client_method m advertised ids
      λ id. match_client_methods ms (erase m.name advertised) (emplace m.name id ids)

abbrev pub hello_with : Text → List ℤ → ServerHello
hello_with error_message method_ids = record {
  hello_size = 0;
  magic = lower_magic;
  error_message = error_message;
  method_ids = method_ids;
}

module _ {O : Type 0} where
  abbrev pub send_hello : Text → List ℤ → Peer (Endpoint O) → Run (Peer (Endpoint O))
  send_hello error_message method_ids p = on_socket p (
      write (server_hello_bytes (seal_server_hello (hello_with error_message method_ids))) p.socket)

  pub report_handshake_error : Text → Peer (Endpoint O) → Run (Peer (Endpoint O))
  report_handshake_error text p = send_hello text [] p >>= λ q. done (stop_peer q)

  abbrev pub set_ids : Dict Text ℤ → Peer (Endpoint O) → Peer (Endpoint O)
  set_ids ids p = with_session p (record p.owner.session { ids_of_methods = ids })

module _ {O : Type 0} (server : Server O) where
  -- `server.server_impl.methods[method_id].signature`; the table holds no other ids.
  pub signature_of : ℤ → Option Text
  signature_of (negsuc n) = none
  signature_of (pos i) = elim (get_elem? server.user.methods i) [
    | none ↦ none
    | some m ↦ some m.signature
  ]

  -- One round of the loop over `hello.requested_server_methods`; `more` is the rest of it with the
  -- id that `reply.method_ids` gets. `none` stands for an access out of bounds.
  pub answer_request : Text → Text → (ℤ → Option (Checked (List ℤ))) → Option (Checked (List ℤ))
  unfolding signature_of
  answer_request name signature more = elim (lookup name server.server_method_name_to_id) [
    | none ↦ some (refused (unsupported (codes "server") name))
    | some id ↦ elim (signature_of id) [
      | none ↦ none
      | some present ↦
          if not (bytes_eq present signature)
          then some (refused (mismatch (codes "server") name signature present))
          else more id
    ]
  ]

  pub match_server_methods : List (Text × Text) → List ℤ → Option (Checked (List ℤ))
  unfolding answer_request
  match_server_methods [] ids = some (accepted ids)
  match_server_methods ((name, signature) ∷ rest) ids =
      answer_request name signature λ id. match_server_methods rest (ids ++ id ∷ [])

  pub reply_hello : Option (Checked (List ℤ)) → Peer (Endpoint O) → Run (Peer (Endpoint O))
  unfolding report_handshake_error
  reply_hello none p = wild
  reply_hello (some (refused text)) p = report_handshake_error text p
  reply_hello (some (accepted ids)) p = send_hello [] ids p

  pub match_methods :
      ClientHello → Dict Text ℤ × Checked (Unit {0}) → Peer (Endpoint O) → Run (Peer (Endpoint O))
  unfolding report_handshake_error reply_hello
  match_methods hello (ids, refused text) p = report_handshake_error text (set_ids ids p)
  match_methods hello (ids, accepted _) p =
      reply_hello (match_server_methods hello.requested_server_methods []) (set_ids ids p)

  pub greet : ClientHello → Peer (Endpoint O) → Run (Peer (Endpoint O))
  unfolding match_methods
  greet hello p =
      if not (magic_eq hello.magic upper_magic)
      then done (stop_peer p)
      else if not (bytes_eq hello.requested_server_protocol_name server.protocol_name)
      then report_handshake_error
          (codes "This server only supports " ++ (server.protocol_name ++ codes " protocol")) p
      else if not (bytes_eq hello.advertised_client_protocol_name server.client_protocol_name)
      then report_handshake_error
          (codes "This server requires the client to support "
            ++ (server.client_protocol_name ++ codes " protocol"))
          p
      else match_methods hello
          (match_client_methods server.client_methods
            (index_advertised hello.advertised_client_methods 0 []) p.owner.session.ids_of_methods)
          p

  -- `on_incoming_handshake`.
  pub on_incoming_handshake : Bytes → Peer (Endpoint O) → Run (Peer (Endpoint O))
  unfolding greet
  on_incoming_handshake span p = with_value p (read_client_hello span) λ hello. greet hello p

  -- `server_client::invoke`. The id of the message is the identity of the new promise.
  unfoldable pub invoke_client : Text → Bytes → Peer (Endpoint O) → Run (Peer (Endpoint O))
  invoke_client method_name args p =
      let s = p.owner.session in
      let id = s.next_message_id in
      let p' = with_session p (record s { next_message_id = (id + 1) % 2 ^ 64 }) in
      elim (lookup method_name s.ids_of_methods) [
        | none ↦ raised out_of_range p'
        | some method_id ↦ on_socket p' (invoke method_id id args p'.socket) >>= λ q. done (
            with_session q
              (record q.owner.session { promises = emplace id id q.owner.session.promises }))
      ]

  -- What `_bind_impl` gives to the socket of a new connection.
  abbrev pub callbacks : Callbacks (Endpoint O)
  callbacks = record {
    on_message = on_message server.user;
    on_incoming_handshake = on_incoming_handshake;
  }
