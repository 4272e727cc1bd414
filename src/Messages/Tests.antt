-- ===== src/Messages/Tests.antt =====
-- Messages on concrete values, and the theorems at concrete inputs.
use smoljudge.Prelude.{◌≡◌, refl, [], ◌∷◌, length, arith}
use smoljudge.Prelude.Int.{pos, negsuc}
use smoljudge.Prelude.Outcome.{ok}
use smoljudge.Wire.Types.{Bytes}
use smoljudge.Messages.{
  RpcMessage, Magic, ClientHello, ServerHello, message_bytes, client_hello_bytes,
  server_hello_bytes, deserialize_message, read_message, read_client_hello, read_server_hello, seal,
}
use smoljudge.Wire.Integers.{deserialize_num, of_pattern}
use smoljudge.Wire.Codec.{deserialize_to, deserialize_elems, deserialize_byte, finish}
use smoljudge.Messages.Laws.{
  IsMessage, IsClientHello, IsServerHello, read_message-message_bytes,
  read_client_hello-client_hello_bytes, read_server_hello-server_hello_bytes,
}
use smoljudge.Messages.Exact.{message_bytes-read_message, seal_size}

abbrev ping : RpcMessage
ping = record { message_size = 26; method_id = negsuc 0; message_id = 7; args = 1 ∷ 255 ∷ [] }

ping-IsMessage : IsMessage ping
ping-IsMessage = record {
  size_fits = omega arith;
  method_fits = omega arith;
  id_fits = omega arith;
  args_fit = omega arith;
}

abbrev magic : Magic
magic = (pos b'S', (pos b'M', (pos b'O', (pos b'L', tt))))

abbrev client_hello : ClientHello
client_hello = record {
  hello_size = 60;
  magic = magic;
  requested_server_protocol_name = b'p' ∷ [];
  requested_server_methods = (b'f' ∷ [], b's' ∷ []) ∷ [];
  advertised_client_protocol_name = [];
  advertised_client_methods = [];
}

client_hello-IsClientHello : IsClientHello client_hello
client_hello-IsClientHello = record {
  size_fits = omega arith;
  magic_fits = omega arith;
  server_name_fits = omega arith;
  client_name_fits = omega arith;
  requested_fit = omega arith;
  advertised_fit = omega arith;
}

abbrev server_hello : ServerHello
server_hello = record {
  hello_size = 29;
  magic = magic;
  error_message = b'x' ∷ [];
  method_ids = pos 3 ∷ [];
}

server_hello-IsServerHello : IsServerHello server_hello
server_hello-IsServerHello = record {
  size_fits = omega arith;
  magic_fits = omega arith;
  error_fits = omega arith;
  ids_fit = omega arith;
}

read_message-message_bytes_example : read_message (message_bytes ping) ≡ ok ping
read_message-message_bytes_example = read_message-message_bytes ping ping-IsMessage

read_client_hello-client_hello_bytes_example :
    read_client_hello (client_hello_bytes client_hello) ≡ ok client_hello
read_client_hello-client_hello_bytes_example =
    read_client_hello-client_hello_bytes client_hello client_hello-IsClientHello

read_server_hello-server_hello_bytes_example :
    read_server_hello (server_hello_bytes server_hello) ≡ ok server_hello
read_server_hello-server_hello_bytes_example =
    read_server_hello-server_hello_bytes server_hello server_hello-IsServerHello

abbrev ping_bytes : Bytes
ping_bytes =
    0 ∷ 0 ∷ 0 ∷ 26 ∷ 255 ∷ 255 ∷ 255 ∷ 255 ∷ 0 ∷ 0 ∷ 0 ∷ 0 ∷ 0 ∷ 0 ∷ 0 ∷ 7 ∷ 0 ∷ 0 ∷ 0 ∷ 0 ∷ 0 ∷ 0
    ∷ 0 ∷ 2 ∷ 1 ∷ 255 ∷ []

ping_read : read_message ping_bytes ≡ ok ping
unfolding read_message deserialize_message deserialize_to deserialize_num deserialize_elems
    deserialize_byte of_pattern finish
ping_read = refl

message_bytes-read_message_example : (message_bytes ping ≡ ping_bytes) × IsMessage ping
message_bytes-read_message_example =
    message_bytes-read_message ping_bytes ping (omega arith) ping_read

seal_size_example : (seal ping).message_size ≡ length (message_bytes (seal ping))
seal_size_example = seal_size ping (omega arith)
