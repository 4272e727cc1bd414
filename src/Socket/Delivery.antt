-- ===== src/Socket/Delivery.antt =====
-- From the bytes on the wire to the callbacks: messages arrive in order, each once and whole.
use smoljudge.Prelude.{
  ◌+◌, ◌*◌, ◌≤◌, ◌≡◌, refl, sym, ap, ◌∙◌, true, false, List, [], ◌∷◌, ◌++◌, append_assoc,
  append-nil, length, length-append, take, take-append_le, take-append_length, drop-append_length,
  All, le→ltb, arith,
}
use smoljudge.Prelude.Outcome.{ok}
use smoljudge.Prelude.Run.{Run, done, raised, wild, ◌>>=◌ as run_then}
use smoljudge.Wire.Types.{Bytes, uint}
use smoljudge.Wire.Codec.Format.{encode}
use smoljudge.Wire.Codec.RoundTrip.{deserialize-encode}
use smoljudge.Wire.Integers.Laws.{be_bytes, length-be_bytes}
use smoljudge.Messages.{RpcMessage, message_bytes, read_generic_hello, GenericHello}
use smoljudge.Messages.Laws.{IsMessage, message_bytes-encode, read_message-message_bytes}
use smoljudge.Messages.Exact.{length-message_bytes}
use smoljudge.Socket.{
  Peer, Conn, Callbacks, resume, drain_loop, drain, mark_finished, is_smol, handshake, on_data,
}
use smoljudge.Socket.Frames.{frame, next_frame, act, drain-act, next_frame_enough}
use smoljudge.Socket.Chunks.{then_bytes}
use smoljudge.Socket.Stream.{
  KeepsFinished, IsFinished, on_data_finished, on_data_greeting, on_data-append,
}
use mathlib.Core.Path.{fun_ext}
use mathlib.Core.List.{flatten}

-- A message that states its own length.
pub record IsSealed (m : RpcMessage) : Type 0 where
  pub fits : IsMessage m
  pub states_length : m.message_size ≡ length (message_bytes m)

unfoldable pub wires : List RpcMessage → Bytes
wires [] = []
wires (m ∷ ms) = message_bytes m ++ wires ms

size_field :
    (m : RpcMessage) (rest : Bytes)
    → take 4 (message_bytes m ++ rest) ≡ encode (uint 4) m.message_size
unfolding encode
size_field m rest =
    rw (message_bytes-encode m, append_assoc)
      (take-append_length 4 (be_bytes 4 m.message_size) _ (length-be_bytes 4 m.message_size))

-- A sealed message in front of any bytes is found as the first frame.
pub next_frame-message_bytes :
    (m : RpcMessage) (rest : Bytes)
    → IsSealed m
    → next_frame (message_bytes m ++ rest) ≡ frame m (length (message_bytes m))
next_frame-message_bytes m rest s =
    next_frame_enough (message_bytes m ++ rest) m.message_size (length (message_bytes m)) m
      (omega (arith, total, length-append (message_bytes m) rest))
      (rw (size_field m rest) (deserialize-encode (uint 4) m.message_size s.fits.size_fits tt))
      s.states_length (omega (arith, length-append (message_bytes m) rest))
      (rw (take-append_length (length (message_bytes m)) (message_bytes m) rest refl)
        (read_message-message_bytes m s.fits))
  where
    total : length (message_bytes m) ≡ 24 + length m.args
    total = length-message_bytes m

module _ {S : Type 0} (cb : Callbacks S) where
  -- The messages are handed over one after the other, each while those behind it and `rest` wait.
  unfoldable pub deliver : List RpcMessage → Bytes → Peer S → Run (Conn S)
  deliver [] rest p = drain cb rest p
  deliver (m ∷ ms) rest p = resume (wires ms ++ rest) (cb.on_message m p) λ p'. deliver ms rest p'

  drain-message_bytes :
      (m : RpcMessage) (tail : Bytes) (p : Peer S)
      → IsSealed m
      → drain cb (message_bytes m ++ tail) p
        ≡ resume tail (cb.on_message m p) (λ p'. drain cb tail p')
  unfolding act
  drain-message_bytes m tail p s =
      drain-act cb (message_bytes m ++ tail) p
      ∙ rw (
        next_frame-message_bytes m tail s,
        drop-append_length (length (message_bytes m)) (message_bytes m) tail refl,
      )

  -- The loop over the bytes of sealed messages is the loop over the messages.
  pub drain-wires :
      (ms : List RpcMessage) (rest : Bytes) (p : Peer S)
      → All IsSealed ms
      → drain cb (wires ms ++ rest) p ≡ deliver ms rest p
  unfolding wires deliver
  drain-wires [] rest p s = refl
  drain-wires (m ∷ ms) rest p s = rw append_assoc (
      drain-message_bytes m (wires ms ++ rest) p s.0
      ∙ ap (resume (wires ms ++ rest) (cb.on_message m p)) (fun_ext λ q. drain-wires ms rest q s.1))

  -- The bytes arrive in pieces.
  unfoldable pub receive : List Bytes → Conn S → Run (Conn S)
  receive [] c = done c
  receive (b ∷ bs) c = run_then (on_data cb b c) λ c'. receive bs c'

  receive_one : (r : Run (Conn S)) → run_then r (λ c'. done c') ≡ r
  receive_one (done d) = refl
  receive_one (raised e d) = refl
  receive_one wild = refl

  later :
      (b : Bytes) (r : Run (Conn S)) (k : Conn S → Run (Conn S)) (d : Conn S)
      → ((c : Conn S) → on_data cb b c ≡ done d → k c ≡ done d)
      → then_bytes (on_data cb) b r ≡ done d
      → run_then r k ≡ done d
  later b (done c) k d h e = h c e
  later b (raised x c) k d h e = cc
  later b wild k d h e = cc

  -- If the whole stream is taken without a failure, then so is every way of cutting it up, to the
  -- same end.
  pub receive-flatten :
      KeepsFinished cb
      → (b : Bytes) (bs : List Bytes) (c d : Conn S) → on_data cb (b ++ flatten bs) c ≡ done d
      → receive (b ∷ bs) c ≡ done d
  unfolding receive flatten
  receive-flatten keeps b [] c d e = receive_one (on_data cb b c) ∙ rw append-nil at e
  receive-flatten keeps b (b' ∷ bs) c d e =
      later (b' ++ flatten bs) (on_data cb b c) (λ c'. receive (b' ∷ bs) c') d
        (λ c' h. receive-flatten keeps b' bs c' d h)
        (sym (on_data-append cb keeps b (b' ++ flatten bs) c) ∙ e)

  -- Cut in any way, the bytes of sealed messages reach the callback as those messages, in order
  -- and each once, on a connection whose handshake is finished and that holds no bytes back. The
  -- callback returns for each of them and does not take back that the handshake is finished.
  pub receive-wires :
      KeepsFinished cb
      → (ms : List RpcMessage) (b : Bytes) (bs : List Bytes) (p : Peer S) (d : Conn S)
      → All IsSealed ms
      → b ++ flatten bs ≡ wires ms
      → IsFinished p
      → deliver ms [] p ≡ done d
      → receive (b ∷ bs) (record { message_piece = []; peer = p }) ≡ done d
  receive-wires keeps ms b bs p d s cut finished e =
      receive-flatten keeps b bs (record { message_piece = []; peer = p }) d
        (on_data_finished cb keeps (b ++ flatten bs) (record { message_piece = []; peer = p })
            finished
          ∙ ap (λ piece. drain cb piece p) (cut ∙ sym (append-nil (wires ms)))
          ∙ drain-wires ms [] p s
          ∙ e)

  -- One sealed message that arrives alone is handed over alone.
  pub on_data-message_bytes :
      KeepsFinished cb
      → (m : RpcMessage) (p : Peer S) → IsSealed m
      → IsFinished p
      → on_data cb (message_bytes m) (record { message_piece = []; peer = p })
        ≡ resume [] (cb.on_message m p) (λ q. done (record { message_piece = []; peer = q }))
  unfolding wires deliver drain drain_loop
  on_data-message_bytes keeps m p s finished =
      on_data_finished cb keeps (message_bytes m) (record { message_piece = []; peer = p }) finished
      ∙ ap (λ piece. drain cb piece p) (sym (append-nil (message_bytes m)))
      ∙ drain-message_bytes m [] p s

  handshake_lem :
      (hello : Bytes) (more : Bytes) (p : Peer S) (header : GenericHello)
      → 8 ≤ length hello
      → read_generic_hello (take 8 hello) ≡ ok header
      → is_smol header.magic ≡ true
      → header.hello_size ≡ length hello
      → length hello ≤ 8 * 1024
      → handshake cb (hello ++ more) p
        ≡ resume
            (hello ++ more)
            (cb.on_incoming_handshake hello p)
            (λ p'. drain cb more (mark_finished p'))
  unfolding handshake
  handshake_lem hello more p header eight got smol states fits = rw (
    le→ltb (length (hello ++ more)) 8 (omega (arith, length-append hello more)),
    take-append_le 8 hello more eight,
    got,
    smol,
    states,
    le→ltb (8 * 1024) (length hello) fits,
    le→ltb (length (hello ++ more)) (length hello) (omega (arith, length-append hello more)),
    take-append_length (length hello) hello more refl,
    drop-append_length (length hello) hello more refl,
  )

  -- On a new connection, a hello of 8 to 8192 bytes that can be read, has the magic `smol` in any
  -- case of letters and states its own length goes to the handshake callback whole, and only after
  -- that does what follows it count as messages. The callback for messages must not take back that
  -- the handshake is finished.
  pub on_data_hello :
      KeepsFinished cb
      → (hello more : Bytes) (p : Peer S) (header : GenericHello)
      → p.socket.handshake_finished ≡ false
      → 8 ≤ length hello
      → length hello ≤ 8 * 1024
      → read_generic_hello (take 8 hello) ≡ ok header
      → is_smol header.magic ≡ true
      → header.hello_size ≡ length hello
      → on_data cb (hello ++ more) (record { message_piece = []; peer = p })
        ≡ resume
            (hello ++ more)
            (cb.on_incoming_handshake hello p)
            λ p'. drain cb more (mark_finished p')
  on_data_hello keeps hello more p header fresh eight fits got smol states =
      on_data_greeting cb keeps (hello ++ more) (record { message_piece = []; peer = p }) fresh
      ∙ handshake_lem hello more p header eight got smol states fits
