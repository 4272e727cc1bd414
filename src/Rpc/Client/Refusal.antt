-- ===== src/Rpc/Client/Refusal.antt =====
-- A refused handshake, seen from the socket that runs it.
use smoljudge.Prelude.{
  ◌≤◌, ◌≡◌, refl, ap, Bool, ◌*◌, arith, ◌∙◌, true, false, Bool-cases, inl, inr, [], ◌++◌, length,
  take,
}
use smoljudge.Prelude.Outcome.{ok}
use smoljudge.Prelude.Run.{wild}
use smoljudge.Wire.Types.{Bytes}
use smoljudge.Messages.{GenericHello, ServerHello, read_server_hello, read_generic_hello}
use smoljudge.Socket.{is_smol, on_data}
use smoljudge.Socket.Delivery.{on_data_hello}
use smoljudge.Socket.Stream.{KeepsFinished, stop-holders}
use smoljudge.Rpc.Session.Responses.{UserKeeps, on_message-IsFinished}
use smoljudge.Rpc.Client.{
  ClientPeer, ClientSpec, with_state, release, start_if_active, count_failure, reconnect,
  is_refused, on_server_hello, on_client_handshake, client_callbacks,
}

pub client_callbacks-KeepsFinished :
    (spec : ClientSpec) → UserKeeps spec.user → KeepsFinished (client_callbacks spec)
client_callbacks-KeepsFinished spec keeps m p h = on_message-IsFinished spec.user keeps m p h

start_if_active-socket : (p : ClientPeer) → (start_if_active p).socket ≡ p.socket
unfolding start_if_active
start_if_active-socket p = elim (Bool-cases p.owner.state.is_active) [
  | inl on ↦ rw on refl
  | inr off ↦ rw off refl
]

reconnect-holders :
    (due_to_failure : Bool) (p : ClientPeer)
    → p.owner.state.has_sock ≡ true
    → p.socket.holders ≡ 1
    → (reconnect due_to_failure p).socket.holders ≡ 0
unfolding reconnect release count_failure
reconnect-holders due_to_failure p here only =
    ap (λ s. s.holders)
      (start_if_active-socket (release (with_state p (count_failure due_to_failure p.owner.state))))
    ∙ rw here (omega (arith, stop-holders p.socket, only))

-- When a hello of the server arrives whole on a new connection, with at most 8192 bytes and the
-- magic `smol` in any case of letters, and the client refuses it while it holds the only reference
-- to the socket, `on_data` goes on with the members of a socket that no longer exists. The user's
-- code does not take back that a handshake is finished.
pub on_data-is_refused :
    (spec : ClientSpec)
    → UserKeeps spec.user
    → (bytes more : Bytes) (header : GenericHello) (hello : ServerHello) (p : ClientPeer)
    → p.socket.handshake_finished ≡ false
    → 8 ≤ length bytes
    → length bytes ≤ 8 * 1024
    → read_generic_hello (take 8 bytes) ≡ ok header
    → is_smol header.magic ≡ true
    → header.hello_size ≡ length bytes
    → read_server_hello bytes ≡ ok hello
    → is_refused spec hello ≡ true
    → p.owner.state.has_sock ≡ true
    → p.socket.holders ≡ 1
    → on_data (client_callbacks spec) (bytes ++ more) (record { message_piece = []; peer = p })
      ≡ wild
unfolding on_client_handshake on_server_hello
on_data-is_refused spec keeps bytes more header hello p fresh eight fits got smol states read
      refused here only =
    let cb = client_callbacks spec in
    on_data_hello cb (client_callbacks-KeepsFinished spec keeps) bytes more p header fresh eight
      fits got smol states
    ∙ rw (read, refused, reconnect-holders true p here only)
