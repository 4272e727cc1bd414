-- ===== src/Rpc/Protocol.antt =====
-- rpc/include/rpc/reflection.hpp: protocols and the lists of methods that are made of them, by
-- `reflective_protocol` for the end that calls and by `duplex_impl` and `simplex_impl` for the end
-- that is called; and the ends that rpc/include/rpc/server.hpp and rpc/include/rpc/client.hpp make
-- of protocols.
pub mod Lists
pub mod Hellos
pub mod HelloSizes
pub mod Numbers
pub mod Finished
pub mod Greeting
pub mod FirstCall
mod Tests
use smoljudge.Prelude.{List, [], ◌∷◌, ◌++◌, Option}
use smoljudge.Prelude.Run.{Run}
use smoljudge.Prelude.Text.{Text}
use smoljudge.Wire.TypeString.{signature_string}
use smoljudge.Wire.Types.{Ty, Tys, Bytes, Fields}
use smoljudge.Socket.{Peer}
use smoljudge.Rpc.Session.{Endpoint, User, Method, MethodImpl, PromiseId}
use smoljudge.Rpc.Reflection.{Result, Answer, typed_method}
use smoljudge.Rpc.Server.{Server, new_server}
use smoljudge.Rpc.Client.{ClientState, ClientSpec}

-- `RPC_METHOD(name) ret (args)`
pub record Announcement : Type 0 where
  pub method_name : Text
  pub ret : Option Ty
  pub args : Tys

-- `RPC_PROTOCOL(name, body)`, with the announcements of the body in order.
pub record Protocol : Type 0 where
  pub name : Text
  pub announcements : List Announcement

-- A member function, with the types that it is declared with, which need not be those of the
-- announcement.
pub record Member (S : Type 0) : Type 0 where
  pub ret : Option Ty
  pub args : Tys
  pub body : Fields args → Peer S → Answer S (Result ret)

-- The announcements of `proxy_strategy::reflection_t::strategy`, in order, each of which pushes a
-- method.
unfoldable pub announce_methods : List Announcement → List Method → List Method
announce_methods [] methods = methods
announce_methods (a ∷ rest) methods =
    announce_methods rest
      (methods ++ record { name = a.method_name; signature = signature_string a.ret a.args } ∷ [])

unfoldable pub generic_methods : Protocol → List Method
unfolding announce_methods
generic_methods protocol = announce_methods protocol.announcements []

module _ {S : Type 0} (member : Text → Member S) where
  -- One announcement of an implementation: the member function of that name, under the signature of
  -- the protocol.
  unfoldable pub announced_impl : Announcement → MethodImpl S
  announced_impl a =
      let m = member a.method_name in
      typed_method a.method_name (signature_string a.ret a.args) m.args m.ret m.body

  unfoldable pub announce_impls : List Announcement → List (MethodImpl S) → List (MethodImpl S)
  unfolding announced_impl
  announce_impls [] methods = methods
  announce_impls (a ∷ rest) methods = announce_impls rest (methods ++ announced_impl a ∷ [])

  unfoldable pub generic_impls : Protocol → List (MethodImpl S)
  unfolding announce_impls
  generic_impls protocol = announce_impls protocol.announcements []

-- `rpc::server<ServerImpl, ClientProtocol>`; `set_promise` is what the program chains to promises.
unfoldable pub server_of :
    {O : Type 0}
    → Protocol
    → (Text → Member (Endpoint O))
    → Protocol
    → (PromiseId → Bytes → Peer (Endpoint O) → Run (Peer (Endpoint O)))
    → Server O
unfolding generic_methods generic_impls
server_of protocol member client_protocol set_promise =
    new_server protocol.name client_protocol.name (generic_methods client_protocol)
      (record { methods = generic_impls member protocol; set_promise = set_promise })

-- `rpc::client<ServerProtocol, ClientImpl>`
unfoldable pub client_of :
    Protocol
    → Protocol
    → (Text → Member (Endpoint ClientState))
    → (PromiseId → Bytes → Peer (Endpoint ClientState) → Run (Peer (Endpoint ClientState)))
    → ClientSpec
unfolding generic_methods generic_impls
client_of server_protocol protocol member set_promise = record {
  server_protocol_name = server_protocol.name;
  server_methods = generic_methods server_protocol;
  client_protocol_name = protocol.name;
  user = record { methods = generic_impls member protocol; set_promise = set_promise };
}
