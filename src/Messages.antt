-- ===== src/Messages.antt =====
-- rpc/include/rpc/common.hpp: the messages on the wire. `RPC_DEFINE_SERIALIZE` writes and reads the
-- fields of a struct in the order in which they are listed.
pub mod Laws
pub mod Exact
mod Tests
use smoljudge.Prelude.{ℕ, ◌+◌, ◌%◌, ◌^◌, List, [], ◌∷◌, length, map}
use smoljudge.Prelude.Text.{Text}
use smoljudge.Prelude.Int.{ℤ, pos, negsuc}
use smoljudge.Prelude.Outcome.{Outcome, ok, ◌>>=◌}
use smoljudge.Wire.Types.{
  Ty, Tys, uint, int, byte, string, vector, tuple, pair, array, nil, cons, Bytes, Array, El, Fields,
}
use smoljudge.Wire.Codec.{serialize_to, deserialize_to, finish}

-- `std::array<char, 4>`.
abbrev pub Magic : Type 0
Magic = Array ℤ 4

abbrev pub char_type : Ty
char_type = int 1

abbrev pub magic_type : Ty
magic_type = array char_type 4

-- A method's name and its signature.
abbrev pub named_type : Ty
named_type = pair string string

pub record GenericHello : Type 0 where
  pub hello_size : ℕ
  pub magic : Magic

pub record ClientHello : Type 0 where
  pub hello_size : ℕ
  pub magic : Magic
  pub requested_server_protocol_name : Text
  pub advertised_client_protocol_name : Text
  pub requested_server_methods : List (Text × Text)
  pub advertised_client_methods : List (Text × Text)

pub record ServerHello : Type 0 where
  pub hello_size : ℕ
  pub magic : Magic
  pub error_message : Text
  pub method_ids : List ℤ

pub record RpcMessage : Type 0 where
  pub message_size : ℕ
  pub method_id : ℤ
  pub message_id : ℕ
  pub args : Bytes

pub serialize_generic_hello : GenericHello → Bytes → Bytes
serialize_generic_hello h to =
    serialize_to magic_type h.magic (serialize_to (uint 4) h.hello_size to)

unfoldable pub deserialize_generic_hello : Bytes → Outcome (GenericHello × Bytes)
deserialize_generic_hello bs = do
  (hello_size, bs) ← deserialize_to (uint 4) bs
  (magic, bs) ← deserialize_to magic_type bs
  ok (record { hello_size = hello_size; magic = magic }, bs)

pub serialize_client_hello : ClientHello → Bytes → Bytes
serialize_client_hello h to =
    let to = serialize_to (uint 4) h.hello_size to in
    let to = serialize_to magic_type h.magic to in
    let to = serialize_to string h.requested_server_protocol_name to in
    let to = serialize_to string h.advertised_client_protocol_name to in
    let to = serialize_to (vector named_type) h.requested_server_methods to in
    serialize_to (vector named_type) h.advertised_client_methods to

unfoldable pub deserialize_client_hello : Bytes → Outcome (ClientHello × Bytes)
deserialize_client_hello bs = do
  (hello_size, bs) ← deserialize_to (uint 4) bs
  (magic, bs) ← deserialize_to magic_type bs
  (requested_name, bs) ← deserialize_to string bs
  (advertised_name, bs) ← deserialize_to string bs
  (requested, bs) ← deserialize_to (vector named_type) bs
  (advertised, bs) ← deserialize_to (vector named_type) bs
  ok (
    record {
      hello_size = hello_size;
      magic = magic;
      requested_server_protocol_name = requested_name;
      advertised_client_protocol_name = advertised_name;
      requested_server_methods = requested;
      advertised_client_methods = advertised;
    },
    bs,
  )

pub serialize_server_hello : ServerHello → Bytes → Bytes
serialize_server_hello h to =
    let to = serialize_to (uint 4) h.hello_size to in
    let to = serialize_to magic_type h.magic to in
    let to = serialize_to string h.error_message to in serialize_to (vector (int 4)) h.method_ids to

unfoldable pub deserialize_server_hello : Bytes → Outcome (ServerHello × Bytes)
deserialize_server_hello bs = do
  (hello_size, bs) ← deserialize_to (uint 4) bs
  (magic, bs) ← deserialize_to magic_type bs
  (error_message, bs) ← deserialize_to string bs
  (method_ids, bs) ← deserialize_to (vector (int 4)) bs
  ok (
    record {
      hello_size = hello_size;
      magic = magic;
      error_message = error_message;
      method_ids = method_ids;
    },
    bs,
  )

pub serialize_message : RpcMessage → Bytes → Bytes
serialize_message m to =
    let to = serialize_to (uint 4) m.message_size to in
    let to = serialize_to (int 4) m.method_id to in
    let to = serialize_to (uint 8) m.message_id to in serialize_to (vector byte) m.args to

pub deserialize_message : Bytes → Outcome (RpcMessage × Bytes)
deserialize_message bs = do
  (message_size, bs) ← deserialize_to (uint 4) bs
  (method_id, bs) ← deserialize_to (int 4) bs
  (message_id, bs) ← deserialize_to (uint 8) bs
  (args, bs) ← deserialize_to (vector byte) bs
  ok (
    record {
      message_size = message_size;
      method_id = method_id;
      message_id = message_id;
      args = args;
    },
    bs,
  )

-- `serialize(message)` and `deserialize<T>(span)` at the four structs.
pub message_bytes : RpcMessage → Bytes
unfolding serialize_message
message_bytes m = serialize_message m []

pub client_hello_bytes : ClientHello → Bytes
unfolding serialize_client_hello
client_hello_bytes h = serialize_client_hello h []

pub server_hello_bytes : ServerHello → Bytes
unfolding serialize_server_hello
server_hello_bytes h = serialize_server_hello h []

pub read_message : Bytes → Outcome RpcMessage
read_message bs = do r ← deserialize_message bs; finish r

unfoldable pub read_generic_hello : Bytes → Outcome GenericHello
read_generic_hello bs = do r ← deserialize_generic_hello bs; finish r

unfoldable pub read_client_hello : Bytes → Outcome ClientHello
read_client_hello bs = do r ← deserialize_client_hello bs; finish r

unfoldable pub read_server_hello : Bytes → Outcome ServerHello
read_server_hello bs = do r ← deserialize_server_hello bs; finish r

-- `message.message_size = 0; ... message.message_size = serialize(message).size();`
-- The size is a `size_t` that is stored in 32 bits.
unfoldable pub seal : RpcMessage → RpcMessage
unfolding message_bytes
seal m = record m { message_size = length (message_bytes (record m { message_size = 0 })) % 2 ^ 32 }

unfoldable pub seal_client_hello : ClientHello → ClientHello
unfolding client_hello_bytes
seal_client_hello h = record h {
  hello_size = length (client_hello_bytes (record h { hello_size = 0 })) % 2 ^ 32;
}

unfoldable pub seal_server_hello : ServerHello → ServerHello
unfolding server_hello_bytes
seal_server_hello h = record h {
  hello_size = length (server_hello_bytes (record h { hello_size = 0 })) % 2 ^ 32;
}
