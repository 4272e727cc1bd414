-- ===== src/Messages/Laws.antt =====
-- The four structs against their bytes.
use smoljudge.Prelude.{ℕ, ◌≡◌, List, [], ◌∷◌, ◌++◌, append_assoc, All}
use smoljudge.Prelude.Outcome.{ok}
use smoljudge.Wire.Types.{
  uint, int, byte, string, vector, Bytes, IsValue, IsUint, IsInt, El, Ty, HoldsFirst,
}
use smoljudge.Wire.Codec.{deserialize_to, finish}
use smoljudge.Wire.Codec.Format.{encode, serialize_to-encode}
use smoljudge.Wire.Codec.RoundTrip.{deserialize_to-encode, deserialize_to-encode_all}
use smoljudge.Messages.{
  Magic, magic_type, named_type, ClientHello, ServerHello, RpcMessage, deserialize_generic_hello,
  deserialize_client_hello, deserialize_server_hello, deserialize_message, message_bytes,
  client_hello_bytes, server_hello_bytes, read_message, read_generic_hello, read_client_hello,
  read_server_hello,
}

abbrev pub IsMagic : Magic → Type 0
IsMagic = IsValue magic_type

-- The fields are within the ranges of their C++ types.
pub record IsMessage (m : RpcMessage) : Type 0 where
  pub size_fits : IsUint 4 m.message_size
  pub method_fits : IsInt 4 m.method_id
  pub id_fits : IsUint 8 m.message_id
  pub args_fit : IsValue (vector byte) m.args

pub record IsClientHello (h : ClientHello) : Type 0 where
  pub size_fits : IsUint 4 h.hello_size
  pub magic_fits : IsMagic h.magic
  pub server_name_fits : IsValue string h.requested_server_protocol_name
  pub client_name_fits : IsValue string h.advertised_client_protocol_name
  pub requested_fit : IsValue (vector named_type) h.requested_server_methods
  pub advertised_fit : IsValue (vector named_type) h.advertised_client_methods

pub record IsServerHello (h : ServerHello) : Type 0 where
  pub size_fits : IsUint 4 h.hello_size
  pub magic_fits : IsMagic h.magic
  pub error_fits : IsValue string h.error_message
  pub ids_fit : IsValue (vector (int 4)) h.method_ids

-- No field of a message is a variant.
first_elems : {A : Type 0} (xs : List A) → All (λ x. Unit {0}) xs
first_elems [] = tt
first_elems (x ∷ xs) = (tt, first_elems xs)

first_named : {A : Type 0} (xs : List A) → All (λ x. Unit {0} × Unit {0}) xs
first_named [] = tt
first_named (x ∷ xs) = ((tt, tt), first_named xs)

abbrev first_magic : Unit {0} × (Unit {0} × (Unit {0} × (Unit {0} × Unit {0})))
first_magic = (tt, (tt, (tt, (tt, tt))))

unfoldable pub hello_prefix : ℕ → Magic → Bytes
hello_prefix size magic = encode (uint 4) size ++ encode magic_type magic

pub message_bytes-encode :
    (m : RpcMessage)
    → message_bytes m
      ≡ encode (uint 4) m.message_size
        ++ (encode (int 4) m.method_id
            ++ (encode (uint 8) m.message_id ++ encode (vector byte) m.args))
unfolding message_bytes
message_bytes-encode m = simp (serialize_to-encode, append_assoc)

pub client_hello_bytes-encode :
    (h : ClientHello)
    → client_hello_bytes h
      ≡ encode (uint 4) h.hello_size
        ++ (encode magic_type h.magic
            ++ (encode string h.requested_server_protocol_name
                ++ (encode string h.advertised_client_protocol_name
                    ++ (encode (vector named_type) h.requested_server_methods
                        ++ encode (vector named_type) h.advertised_client_methods))))
unfolding client_hello_bytes
client_hello_bytes-encode h = simp (serialize_to-encode, append_assoc)

pub server_hello_bytes-encode :
    (h : ServerHello)
    → server_hello_bytes h
      ≡ encode (uint 4) h.hello_size
        ++ (encode magic_type h.magic
            ++ (encode string h.error_message ++ encode (vector (int 4)) h.method_ids))
unfolding server_hello_bytes
server_hello_bytes-encode h = simp (serialize_to-encode, append_assoc)

-- A field at the front of what is still to be read.
front :
    (t : Ty) (v : El t) (rest : Bytes)
    → IsValue t v
    → HoldsFirst t v
    → deserialize_to t (encode t v ++ rest) ≡ ok (v, rest)
front = deserialize_to-encode

last :
    (t : Ty) (v : El t) → IsValue t v → HoldsFirst t v → deserialize_to t (encode t v) ≡ ok (v, [])
last = deserialize_to-encode_all

-- A message whose fields are in range is read back from its bytes, with nothing left over.
pub read_message-message_bytes :
    (m : RpcMessage) → IsMessage m → read_message (message_bytes m) ≡ ok m
unfolding read_message deserialize_message finish
read_message-message_bytes m v = rw (
  message_bytes-encode m,
  front (uint 4) m.message_size _ v.size_fits tt,
  front (int 4) m.method_id _ v.method_fits tt,
  front (uint 8) m.message_id _ v.id_fits tt,
  last (vector byte) m.args v.args_fit (first_elems m.args),
)

-- The hello of a client whose fields are in range is read back from its bytes.
pub read_client_hello-client_hello_bytes :
    (h : ClientHello) → IsClientHello h → read_client_hello (client_hello_bytes h) ≡ ok h
unfolding read_client_hello deserialize_client_hello finish
read_client_hello-client_hello_bytes h v = rw (
  client_hello_bytes-encode h,
  front (uint 4) h.hello_size _ v.size_fits tt,
  front magic_type h.magic _ v.magic_fits first_magic,
  front string h.requested_server_protocol_name _ v.server_name_fits tt,
  front string h.advertised_client_protocol_name _ v.client_name_fits tt,
  front (vector named_type) h.requested_server_methods _ v.requested_fit
      (first_named h.requested_server_methods),
  last (vector named_type) h.advertised_client_methods v.advertised_fit
      (first_named h.advertised_client_methods),
)

-- The hello of a server whose fields are in range is read back from its bytes.
pub read_server_hello-server_hello_bytes :
    (h : ServerHello) → IsServerHello h → read_server_hello (server_hello_bytes h) ≡ ok h
unfolding read_server_hello deserialize_server_hello finish
read_server_hello-server_hello_bytes h v = rw (
  server_hello_bytes-encode h,
  front (uint 4) h.hello_size _ v.size_fits tt,
  front magic_type h.magic _ v.magic_fits first_magic,
  front string h.error_message _ v.error_fits tt,
  last (vector (int 4)) h.method_ids v.ids_fit (first_elems h.method_ids),
)

-- Eight bytes hold the header of any hello, whatever follows.
pub read_generic_hello-encode :
    (size : ℕ) (magic : Magic)
    → IsUint 4 size
    → IsMagic magic
    → read_generic_hello (hello_prefix size magic)
      ≡ ok (record { hello_size = size; magic = magic })
unfolding read_generic_hello deserialize_generic_hello finish hello_prefix
read_generic_hello-encode size magic p q =
    rw (front (uint 4) size _ p tt, last magic_type magic q first_magic)
