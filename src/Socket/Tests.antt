-- ===== src/Socket/Tests.antt =====
-- Connections on concrete bytes, and the theorems at concrete inputs.
use smoljudge.Prelude.{
  ◌≡◌, refl, ap, ◌∙◌, true, List, [], ◌∷◌, ◌++◌, append-nil, take, drop, take-append-drop, arith,
}
use smoljudge.Prelude.Int.{pos, negsuc}
use smoljudge.Prelude.Run.{done}
use smoljudge.Wire.Types.{Bytes}
use smoljudge.Messages.{RpcMessage, seal}
use smoljudge.Messages.Exact.{seal_size, seal-IsMessage}
use smoljudge.Socket.{Peer, Conn, Callbacks, new_socket, drain_loop, drain, drain_round, on_data}
use smoljudge.Socket.Chunks.{then_bytes}
use smoljudge.Socket.Delivery.{IsSealed, wires, deliver, receive, receive-wires}
use smoljudge.Socket.Frames.{drain-drain_round}
use smoljudge.Socket.Stream.{KeepsFinished, on_data-append}
use mathlib.Core.List.{flatten}

-- The owner keeps the messages that arrive.
abbrev recorder : Callbacks (List RpcMessage)
recorder = record {
  on_message = λ m p. done (record p { owner = p.owner ++ m ∷ [] });
  on_incoming_handshake = λ span p. done p;
}

recorder-KeepsFinished : KeepsFinished recorder
recorder-KeepsFinished = λ m p h. h

abbrev ready : Peer (List RpcMessage)
ready = record { socket = record (new_socket true) { handshake_finished = true }; owner = [] }

abbrev fresh : Peer (List RpcMessage)
fresh = record { socket = new_socket true; owner = [] }

abbrev ping : RpcMessage
ping = record { message_size = 0; method_id = pos 0; message_id = 7; args = 1 ∷ 255 ∷ [] }

abbrev pong : RpcMessage
pong = record { message_size = 0; method_id = negsuc 0; message_id = 7; args = [] }

abbrev both : List RpcMessage
both = seal ping ∷ seal pong ∷ []

ping-IsSealed : IsSealed (seal ping)
ping-IsSealed = record {
  fits = seal-IsMessage ping (omega arith) (omega arith) (omega arith);
  states_length = seal_size ping (omega arith);
}

pong-IsSealed : IsSealed (seal pong)
pong-IsSealed = record {
  fits = seal-IsMessage pong (omega arith) (omega arith) (omega arith);
  states_length = seal_size pong (omega arith);
}

abbrev conn : Bytes → Peer (List RpcMessage) → Conn (List RpcMessage)
conn piece p = record { message_piece = piece; peer = p }

on_data-append_example :
    on_data recorder (take 10 (wires both) ++ drop 10 (wires both)) (conn (0 ∷ []) fresh)
    ≡ then_bytes
        (on_data recorder)
        (drop 10 (wires both))
        (on_data recorder (take 10 (wires both)) (conn (0 ∷ []) fresh))
on_data-append_example =
    on_data-append recorder recorder-KeepsFinished (take 10 (wires both)) (drop 10 (wires both))
      (conn (0 ∷ []) fresh)

drain-drain_round_example :
    drain recorder (wires both) ready ≡ drain_round recorder (drain recorder) (wires both) ready
drain-drain_round_example = drain-drain_round recorder (wires both) ready

abbrev received : Conn (List RpcMessage)
received = conn [] (record ready { owner = both })

delivered : deliver recorder both [] ready ≡ done received
unfolding deliver drain drain_loop new_socket
delivered = refl

receive-wires_example :
    receive recorder (take 30 (wires both) ∷ drop 30 (wires both) ∷ []) (conn [] ready)
    ≡ done received
unfolding new_socket flatten
receive-wires_example =
    receive-wires recorder recorder-KeepsFinished both (take 30 (wires both))
      (drop 30 (wires both) ∷ []) ready received (ping-IsSealed, (pong-IsSealed, tt))
      (ap (λ bs. take 30 (wires both) ++ bs) (append-nil (drop 30 (wires both)))
        ∙ take-append-drop 30 (wires both))
      refl delivered
