-- ===== src/Rpc/Protocol/Hellos.antt =====
-- The hellos of the two ends as bytes: their header, and the size that they state.
use smoljudge.Prelude.{
  ℕ, zero, suc, ◌+◌, ◌*◌, ◌^◌, ◌≤◌, ◌≡◌, refl, sym, ap, ◌∙◌, List, [], ◌∷◌, ◌++◌, append_assoc,
  length, length-append, take-append_length, All, arith,
}
use smoljudge.Prelude.Int.{ℤ}
use smoljudge.Wire.Codec.Format.{encode, encode_elems, encode_array}
use smoljudge.Wire.Integers.{to_pattern}
use smoljudge.Wire.Integers.Laws.{be_bytes, length-be_bytes}
use smoljudge.Wire.Types.{uint, int, string, vector, IsUint, IsInt, Bytes, Array}
use smoljudge.Messages.{
  Magic, magic_type, named_type, ClientHello, ServerHello, client_hello_bytes, server_hello_bytes,
  seal_client_hello, seal_server_hello,
}
use smoljudge.Messages.Laws.{
  IsMagic, IsClientHello, IsServerHello, hello_prefix, client_hello_bytes-encode,
  server_hello_bytes-encode, read_generic_hello-encode,
}
use smoljudge.Socket.Greeting.{Headed, IsGreeting}
use smoljudge.Rpc.Server.{hello_with, lower_magic}
use smoljudge.Rpc.Protocol.Lists.{positions}

-- Where every element takes `w` bytes.
module _ {A : Type 0} (g : A → Bytes) (w : ℕ) (each : (x : A) → length (g x) ≡ w) where
  length-encode_array : (n : ℕ) (xs : Array A n) → length (encode_array g n xs) ≡ n * w
  unfolding encode_array
  length-encode_array zero xs = omega arith
  length-encode_array (suc n) (x, xs) =
      omega (arith, length-append (g x) (encode_array g n xs), each x, length-encode_array n xs)

  length-encode_elems : (xs : List A) → length (encode_elems g xs) ≡ length xs * w
  unfolding encode_elems
  length-encode_elems [] = omega arith
  length-encode_elems (x ∷ xs) =
      omega (arith, length-append (g x) (encode_elems g xs), each x, length-encode_elems xs)

length-hello_prefix : (size : ℕ) (magic : Magic) → length (hello_prefix size magic) ≡ 8
unfolding hello_prefix encode
length-hello_prefix size magic = omega (
  arith,
  length-append (be_bytes 4 size) (encode_array (λ x. be_bytes 1 (to_pattern 1 x)) 4 magic),
  length-be_bytes 4 size,
  length-encode_array (λ x. be_bytes 1 (to_pattern 1 x)) 1 (λ x. length-be_bytes 1 (to_pattern 1 x))
      4 magic,
)

prefix-Headed :
    (size : ℕ) (magic : Magic) (rest : Bytes)
    → IsUint 4 size
    → IsMagic magic
    → Headed size magic (hello_prefix size magic ++ rest)
prefix-Headed size magic rest size_fits magic_fits = (
  omega (arith, length-append (hello_prefix size magic) rest, length-hello_prefix size magic),
  rw (take-append_length 8 (hello_prefix size magic) rest (length-hello_prefix size magic))
      (read_generic_hello-encode size magic size_fits magic_fits),
)

abbrev client_rest : ClientHello → Bytes
client_rest h =
    encode string h.requested_server_protocol_name
    ++ (encode string h.advertised_client_protocol_name
        ++ (encode (vector named_type) h.requested_server_methods
            ++ encode (vector named_type) h.advertised_client_methods))

abbrev server_rest : ServerHello → Bytes
server_rest h = encode string h.error_message ++ encode (vector (int 4)) h.method_ids

client_hello_bytes-prefix :
    (h : ClientHello) → client_hello_bytes h ≡ hello_prefix h.hello_size h.magic ++ client_rest h
unfolding hello_prefix
client_hello_bytes-prefix h =
    client_hello_bytes-encode h
    ∙ sym (append_assoc (encode (uint 4) h.hello_size) (encode magic_type h.magic) (client_rest h))

server_hello_bytes-prefix :
    (h : ServerHello) → server_hello_bytes h ≡ hello_prefix h.hello_size h.magic ++ server_rest h
unfolding hello_prefix
server_hello_bytes-prefix h =
    server_hello_bytes-encode h
    ∙ sym (append_assoc (encode (uint 4) h.hello_size) (encode magic_type h.magic) (server_rest h))

pub length_client : (h : ClientHello) → length (client_hello_bytes h) ≡ 8 + length (client_rest h)
length_client h =
    ap length (client_hello_bytes-prefix h)
    ∙ length-append (hello_prefix h.hello_size h.magic) (client_rest h)
    ∙ ap (λ n. n + length (client_rest h)) (length-hello_prefix h.hello_size h.magic)

length_server : (h : ServerHello) → length (server_hello_bytes h) ≡ 8 + length (server_rest h)
length_server h =
    ap length (server_hello_bytes-prefix h)
    ∙ length-append (hello_prefix h.hello_size h.magic) (server_rest h)
    ∙ ap (λ n. n + length (server_rest h)) (length-hello_prefix h.hello_size h.magic)

pub seal_client_hello-IsGreeting :
    (h : ClientHello)
    → IsMagic h.magic
    → length (client_hello_bytes h) ≤ 8 * 1024
    → IsGreeting (seal_client_hello h).hello_size h.magic (client_hello_bytes (seal_client_hello h))
unfolding seal_client_hello
seal_client_hello-IsGreeting h magic_fits small =
    let sealed = seal_client_hello h in
    record {
      headed =
          rw (client_hello_bytes-prefix sealed)
            (prefix-Headed sealed.hello_size h.magic (client_rest h) (omega arith) magic_fits);
      states_length = omega (
        arith,
        length_client sealed,
        length_client h,
        length_client (record h { hello_size = 0 }),
      );
      fits = omega (arith, length_client sealed, length_client h);
    }

pub seal_server_hello-IsGreeting :
    (h : ServerHello)
    → IsMagic h.magic
    → length (server_hello_bytes h) ≤ 8 * 1024
    → IsGreeting (seal_server_hello h).hello_size h.magic (server_hello_bytes (seal_server_hello h))
unfolding seal_server_hello
seal_server_hello-IsGreeting h magic_fits small =
    let sealed = seal_server_hello h in
    record {
      headed =
          rw (server_hello_bytes-prefix sealed)
            (prefix-Headed sealed.hello_size h.magic (server_rest h) (omega arith) magic_fits);
      states_length = omega (
        arith,
        length_server sealed,
        length_server h,
        length_server (record h { hello_size = 0 }),
      );
      fits = omega (arith, length_server sealed, length_server h);
    }

pub seal_client_hello-IsClientHello :
    (h : ClientHello) → IsClientHello h → IsClientHello (seal_client_hello h)
unfolding seal_client_hello
seal_client_hello-IsClientHello h v = record {
  size_fits = omega arith;
  magic_fits = v.magic_fits;
  server_name_fits = v.server_name_fits;
  client_name_fits = v.client_name_fits;
  requested_fit = v.requested_fit;
  advertised_fit = v.advertised_fit;
}

-- The answer to a hello: 24 bytes and four for each id.
length-server_hello_bytes :
    (ids : List ℤ) → length (server_hello_bytes (hello_with [] ids)) ≡ 24 + 4 * length ids
unfolding encode
length-server_hello_bytes ids = omega (
  arith,
  length_server (hello_with [] ids),
  length-append (be_bytes 8 0 ++ []) (be_bytes 8 (length ids) ++ encode_elems (encode (int 4)) ids),
  length-append (be_bytes 8 0) [],
  length-append (be_bytes 8 (length ids)) (encode_elems (encode (int 4)) ids),
  length-be_bytes 8 0,
  length-be_bytes 8 (length ids),
  length-encode_elems (encode (int 4)) 4 (λ z. length-be_bytes 4 (to_pattern 4 z)) ids,
)

positions-IsInt : (i n : ℕ) → 2 * (i + n) ≤ 256 ^ 4 → All (IsInt 4) (positions i n)
unfolding positions
positions-IsInt i zero h = tt
positions-IsInt i (suc n) h = (omega (arith, h), positions-IsInt (i + 1) n (omega (arith, h)))

length-positions : (i n : ℕ) → length (positions i n) ≡ n
unfolding positions
length-positions i zero = refl
length-positions i (suc n) = ap suc (length-positions (i + 1) n)

-- The answer to the hello of a client of the server's own protocol.
abbrev pub answer : ℕ → ServerHello
answer n = hello_with [] (positions 0 n)

pub answer-IsGreeting :
    (n : ℕ)
    → n ≤ 2042
    → IsGreeting
        (seal_server_hello (answer n)).hello_size
        lower_magic
        (server_hello_bytes (seal_server_hello (answer n)))
answer-IsGreeting n small =
    seal_server_hello-IsGreeting (answer n) (omega arith)
      (omega (arith, length-server_hello_bytes (positions 0 n), length-positions 0 n))

pub answer-IsServerHello : (n : ℕ) → n ≤ 2042 → IsServerHello (seal_server_hello (answer n))
unfolding seal_server_hello
answer-IsServerHello n small = record {
  size_fits = omega arith;
  magic_fits = omega arith;
  error_fits = omega arith;
  ids_fit = (positions-IsInt 0 n (omega arith), omega (arith, length-positions 0 n));
}
