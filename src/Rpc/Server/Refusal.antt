-- ===== src/Rpc/Server/Refusal.antt =====
-- What becomes of the messages that follow a hello which the server refuses.
mod Tests
use smoljudge.Prelude.{
  ℕ, ◌*◌, ◌≤◌, ◌≡◌, refl, sym, ap, ◌∙◌, true, false, [], ◌++◌, length, get_elem?, ◌==◌, bytes_eq,
  some,
}
use smoljudge.Prelude.Int.{pos}
use smoljudge.Prelude.Run.{done}
use smoljudge.Prelude.Text.{codes}
use smoljudge.Wire.Integers.{to_pattern}
use smoljudge.Messages.{
  RpcMessage, ClientHello, client_hello_bytes, seal_client_hello, message_bytes,
}
use smoljudge.Messages.Laws.{IsClientHello, read_client_hello-client_hello_bytes}
use smoljudge.Socket.{Peer, quiet, calls, resume, mark_finished, stop_peer, is_smol, on_data}
use smoljudge.Socket.Delivery.{IsSealed, on_data_hello, on_data-message_bytes}
use smoljudge.Socket.Stream.{stop-holders, stop-IsStopped, on_data_finished}
use smoljudge.Rpc.Session.{Endpoint, MethodImpl, after_call, call_method, dispatch, on_message}
use smoljudge.Rpc.Session.Responses.{UserKeeps}
use smoljudge.Rpc.Server.{
  Server, upper_magic, magic_eq, int_eq, callbacks, greet, on_incoming_handshake,
}
use smoljudge.Rpc.Server.Calls.{callbacks-KeepsFinished}
use smoljudge.Rpc.Server.Ends.{answered, report_lem}
use smoljudge.Rpc.Protocol.Hellos.{seal_client_hello-IsClientHello, seal_client_hello-IsGreeting}

module _ {O : Type 0} (server : Server O) (h : ClientHello) (p : Peer (Endpoint O)) where
  -- The connection of a client that asks for another protocol, once its hello has been handled.
  abbrev pub turned_away : Peer (Endpoint O)
  turned_away = stop_peer (
      answered (codes "This server only supports " ++ (server.protocol_name ++ codes " protocol"))
        [] p)

  on_incoming_handshake-turned_away :
      IsClientHello h
      → length (client_hello_bytes h) ≤ 8 * 1024
      → h.magic ≡ upper_magic
      → bytes_eq h.requested_server_protocol_name server.protocol_name ≡ false
      → p.socket.is_connected ≡ true
      → on_incoming_handshake server (client_hello_bytes (seal_client_hello h)) p ≡ done turned_away
  unfolding on_incoming_handshake greet seal_client_hello magic_eq int_eq
  on_incoming_handshake-turned_away valid small magic other up =
      rw
        (
          read_client_hello-client_hello_bytes (seal_client_hello h)
              (seal_client_hello-IsClientHello h valid),
          magic,
          other,
        )
        (report_lem _ p up)

  call_served :
      (m : RpcMessage) (i : ℕ) (f : MethodImpl (Endpoint O)) (q : Peer (Endpoint O))
      → m.method_id ≡ pos i
      → get_elem? server.user.methods i ≡ some f
      → on_message server.user m q ≡ after_call m.message_id (f.fn m.args q)
  unfolding on_message dispatch call_method
  call_served m i f q id found = rw (id, dispatch, found, call_method)

  holders-turned_away : (turned_away).socket.holders ≡ p.socket.holders
  unfolding calls
  holders-turned_away = stop-holders (answered _ [] p).socket

-- A client whose whole hello asks for a protocol that the server does not have is told so, and its
-- connection is stopped; but a call that lies behind the hello in the same piece of data is served
-- all the same: the method is run with its arguments, on the connection that has been stopped. The
-- client is newly connected, its socket is referenced, and its hello has at most 8192 bytes.
pub on_data-turned_away :
    {O : Type 0} (server : Server O)
    → UserKeeps server.user
    → (h : ClientHello) (p : Peer (Endpoint O)) (m : RpcMessage) (i : ℕ)
      (f : MethodImpl (Endpoint O))
    → IsClientHello h
    → length (client_hello_bytes h) ≤ 8 * 1024
    → h.magic ≡ upper_magic
    → bytes_eq h.requested_server_protocol_name server.protocol_name ≡ false
    → p.socket.handshake_finished ≡ false
    → p.socket.is_connected ≡ true
    → p.socket.holders == 0 ≡ false
    → IsSealed m
    → m.method_id ≡ pos i
    → get_elem? server.user.methods i ≡ some f
    → let q = mark_finished (turned_away server h p) in
      (q.socket.is_connected ≡ false)
      × (q.socket.is_open ≡ false)
      × (on_data
            (callbacks server)
            (client_hello_bytes (seal_client_hello h) ++ message_bytes m)
            (quiet p)
          ≡ resume [] (after_call m.message_id (f.fn m.args q)) λ r. done (quiet r))
unfolding is_smol to_pattern
on_data-turned_away server keeps h p m i f valid small magic other fresh up held sealed id found =
    let cb = callbacks server in
    let cb_keeps = callbacks-KeepsFinished server keeps in
    let g = seal_client_hello-IsGreeting h valid.magic_fits small in
    let q = mark_finished (turned_away server h p) in
    let (down, shut) = stop-IsStopped (answered _ [] p).socket in
    (
      down,
      shut,
      on_data_hello cb cb_keeps (client_hello_bytes (seal_client_hello h)) (message_bytes m) p
            (record { hello_size = (seal_client_hello h).hello_size; magic = h.magic }) fresh
            g.headed.0 g.fits g.headed.1 (ap is_smol magic) g.states_length
          ∙ rw
              (
                on_incoming_handshake-turned_away server h p valid small magic other up,
                holders-turned_away server h p,
                held,
              )
              refl
          ∙ sym (on_data_finished cb cb_keeps (message_bytes m) (quiet q) refl)
          ∙ on_data-message_bytes cb cb_keeps m q sealed refl
          ∙ ap (λ run. resume [] run λ r. done (quiet r)) (call_served server h p m i f q id found),
    )
