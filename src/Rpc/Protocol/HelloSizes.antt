-- ===== src/Rpc/Protocol/HelloSizes.antt =====
-- How long the hello of a client is.
use smoljudge.Prelude.{ℕ, ◌+◌, ◌≡◌, refl, List, [], ◌∷◌, ◌++◌, length, length-append, arith}
use smoljudge.Prelude.Text.{Text}
use smoljudge.Wire.Codec.Format.{encode, encode_elems}
use smoljudge.Wire.Integers.Laws.{be_bytes, length-be_bytes}
use smoljudge.Wire.Types.{string, vector}
use smoljudge.Messages.{named_type, ClientHello, client_hello_bytes}
use smoljudge.Rpc.Protocol.Hellos.{length_client}

-- The bytes of a list of names and signatures.
unfoldable pub named_size : List (Text × Text) → ℕ
named_size [] = 0
named_size ((name, signature) ∷ rest) = 16 + length name + length signature + named_size rest

length-encode_named :
    (xs : List (Text × Text)) → length (encode_elems (encode named_type) xs) ≡ named_size xs
unfolding encode_elems encode named_size
length-encode_named [] = refl
length-encode_named ((name, signature) ∷ rest) = omega (
  arith,
  length-append ((be_bytes 8 (length name) ++ name) ++ (be_bytes 8 (length signature) ++ signature))
      (encode_elems (encode named_type) rest),
  length-append (be_bytes 8 (length name) ++ name) (be_bytes 8 (length signature) ++ signature),
  length-append (be_bytes 8 (length name)) name,
  length-append (be_bytes 8 (length signature)) signature,
  length-be_bytes 8 (length name),
  length-be_bytes 8 (length signature),
  length-encode_named rest,
)

length-encode_text : (t : Text) → length (encode string t) ≡ 8 + length t
unfolding encode
length-encode_text t =
    omega (arith, length-append (be_bytes 8 (length t)) t, length-be_bytes 8 (length t))

length-encode_names :
    (xs : List (Text × Text)) → length (encode (vector named_type) xs) ≡ 8 + named_size xs
unfolding encode
length-encode_names xs = omega (
  arith,
  length-append (be_bytes 8 (length xs)) (encode_elems (encode named_type) xs),
  length-be_bytes 8 (length xs),
  length-encode_named xs,
)

-- The size of a client's hello.
pub length-client_hello_bytes :
    (h : ClientHello)
    → length (client_hello_bytes h)
      ≡ 40
        + length h.requested_server_protocol_name
        + length h.advertised_client_protocol_name
        + named_size h.requested_server_methods
        + named_size h.advertised_client_methods
length-client_hello_bytes h =
    let a = encode string h.requested_server_protocol_name in
    let b = encode string h.advertised_client_protocol_name in
    let c = encode (vector named_type) h.requested_server_methods in
    let d = encode (vector named_type) h.advertised_client_methods in
    omega (
      arith,
      length_client h,
      length-append a (b ++ (c ++ d)),
      length-append b (c ++ d),
      length-append c d,
      length-encode_text h.requested_server_protocol_name,
      length-encode_text h.advertised_client_protocol_name,
      length-encode_names h.requested_server_methods,
      length-encode_names h.advertised_client_methods,
    )
