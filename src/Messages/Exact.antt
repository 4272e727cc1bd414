-- ===== src/Messages/Exact.antt =====
-- What is accepted as a message, and the size that a message states of itself.
use smoljudge.Prelude.{
  suc, ◌+◌, ◌^◌, ◌<◌, ◌≡◌, refl, sym, ap, ◌∙◌, [], ◌∷◌, ◌++◌, append-nil, length, length-append,
  All, arith,
}
use smoljudge.Prelude.Outcome.{
  ok, throws, invalid_integral, Ensures, returns, threw, Ensures-bind, Ensures-ok,
}
use smoljudge.Wire.Types.{uint, int, byte, vector, Bytes, IsByte, IsValue, IsUint, IsInt}
use smoljudge.Wire.Integers.{to_pattern}
use smoljudge.Wire.Integers.Laws.{be_bytes, length-be_bytes}
use smoljudge.Wire.Codec.RoundTrip.{deserialize_to_short}
use smoljudge.Wire.Codec.{finish}
use smoljudge.Wire.Codec.Format.{encode, encode_elems}
use smoljudge.Wire.Codec.Exact.{chain, deserialize_to-Exact}
use smoljudge.Messages.{RpcMessage, deserialize_message, message_bytes, read_message, seal}
use smoljudge.Messages.Laws.{IsMessage, message_bytes-encode}

pub Ensures-finish :
    {A : Type 0} (P : A → Type 0) (v : A) (rest : Bytes)
    → (rest ≡ [] → P v)
    → Ensures P (finish (v, rest))
unfolding finish
Ensures-finish P v [] k = returns (k refl)
Ensures-finish P v (b ∷ bs) k = threw

deserialize_message-Takes :
    (bs : Bytes)
    → All IsByte bs
    → Ensures
        (λ ((m, rest) : RpcMessage × Bytes). (bs ≡ message_bytes m ++ rest) × IsMessage m)
        (deserialize_message bs)
unfolding deserialize_message
deserialize_message-Takes bs h =
    Ensures-bind (deserialize_to-Exact (uint 4) bs h) λ (size, b1) (e1, h1, p1, _).
      Ensures-bind (deserialize_to-Exact (int 4) b1 h1) λ (id, b2) (e2, h2, p2, _).
        Ensures-bind (deserialize_to-Exact (uint 8) b2 h2) λ (mid, b3) (e3, h3, p3, _).
          Ensures-bind (deserialize_to-Exact (vector byte) b3 h3) λ (args, b4) (e4, h4, p4, _).
            let m : RpcMessage = record {
              message_size = size;
              method_id = id;
              message_id = mid;
              args = args;
            } in
            returns (
              rw (message_bytes-encode m) (chain _ _ _ e1 (chain _ _ _ e2 (chain _ _ _ e3 e4))),
              record { size_fits = p1; method_fits = p2; id_fits = p3; args_fit = p4 },
            )

-- Whatever is read as a message is in range, and is written with the very bytes that were read.
pub message_bytes-read_message :
    (bs : Bytes) (m : RpcMessage)
    → All IsByte bs
    → read_message bs ≡ ok m
    → (message_bytes m ≡ bs) × IsMessage m
unfolding read_message
message_bytes-read_message bs m h e =
    Ensures-ok {P = λ m. (message_bytes m ≡ bs) × IsMessage m}
      (Ensures-bind (deserialize_message-Takes bs h) λ (m, rest) (bytes, fits).
        Ensures-finish _ m rest
          λ none_left. (sym (append-nil (message_bytes m)) ∙ rw none_left at (sym bytes), fits))
      e

length-encode_bytes : (bs : Bytes) → length (encode_elems (encode byte) bs) ≡ length bs
unfolding encode_elems encode
length-encode_bytes [] = refl
length-encode_bytes (b ∷ bs) = ap suc (length-encode_bytes bs)

length_four :
    (a b c d : Bytes) → length (a ++ (b ++ (c ++ d))) ≡ length a + length b + length c + length d
length_four a b c d =
    omega (arith, length-append a (b ++ (c ++ d)), length-append b (c ++ d), length-append c d)

-- A message takes 24 bytes and its arguments.
pub length-message_bytes : (m : RpcMessage) → length (message_bytes m) ≡ 24 + length m.args
unfolding encode
length-message_bytes m =
    rw
      (
        message_bytes-encode m,
        length_four (be_bytes 4 m.message_size) (be_bytes 4 (to_pattern 4 m.method_id))
            (be_bytes 8 m.message_id)
            (be_bytes 8 (length m.args) ++ encode_elems (encode byte) m.args),
        length-append (be_bytes 8 (length m.args)) (encode_elems (encode byte) m.args),
        length-be_bytes 4 m.message_size,
        length-be_bytes 4 (to_pattern 4 m.method_id),
        length-be_bytes 8 m.message_id,
        length-be_bytes 8 (length m.args),
        length-encode_bytes m.args,
      )
      (omega arith)

-- A sealed message states its own length, as long as 32 bits hold it.
pub seal_size :
    (m : RpcMessage)
    → 24 + length m.args < 2 ^ 32
    → (seal m).message_size ≡ length (message_bytes (seal m))
unfolding seal
seal_size m h =
    omega
      (arith, length-message_bytes (seal m), length-message_bytes (record m { message_size = 0 }))

pub seal-IsMessage :
    (m : RpcMessage)
    → IsInt 4 m.method_id
    → IsUint 8 m.message_id
    → IsValue (vector byte) m.args
    → IsMessage (seal m)
unfolding seal
seal-IsMessage m p q r = record {
  size_fits = omega arith;
  method_fits = p;
  id_fits = q;
  args_fit = r;
}

-- Fewer than four bytes are no message.
pub read_message_short : (bs : Bytes) → length bs < 4 → read_message bs ≡ throws invalid_integral
unfolding read_message deserialize_message
read_message_short bs h = rw (deserialize_to_short 4 bs h)
