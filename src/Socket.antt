-- ===== src/Socket.antt =====
-- rpc/include/rpc/socket.hpp: a connection, and the reassembly of messages from the bytes that
-- arrive. The handle is libuv's; the model keeps the calls that are made on it, in order.
pub mod Frames
pub mod Chunks
pub mod Stream
pub mod Delivery
pub mod Greeting
mod Tests
use smoljudge.Prelude.{
  ℕ, zero, suc, ◌+◌, ◌*◌, ◌%◌, ◌^◌, Bool, true, false, ◌&&◌, not, List, [], ◌∷◌, ◌++◌, length, take,
  drop, ltb, leb, ◌==◌, if◌then◌else◌,
}
use smoljudge.Prelude.Text.{Text}
use smoljudge.Prelude.Int.{ℤ, pos, negsuc}
use smoljudge.Prelude.Outcome.{Outcome, ok, throws, undefined, not_connected}
use smoljudge.Prelude.Run.{Run, done, raised, wild, with_value}
use smoljudge.Wire.Types.{Bytes, uint, string}
use smoljudge.Wire.Integers.{to_pattern}
use smoljudge.Wire.Codec.{deserialize, serialize}
use smoljudge.Messages.{
  RpcMessage, Magic, GenericHello, message_bytes, read_message, read_generic_hello, seal,
}

-- A call on the uvw handle.
pub data Call : Type 0 where
  reads shuts_down stops closes : Call
  writes : Bytes → Call

-- `generic_socket` without `message_piece`. `holders` counts the `shared_ptr`s to the object: at 0
-- it has been destroyed.
pub record Socket : Type 0 where
  pub is_open : Bool
  pub is_connected : Bool
  pub handshake_finished : Bool
  pub holders : ℕ
  pub calls : List Call

-- The socket with the object that owns it, on which the callbacks work.
pub record Peer (S : Type 0) : Type 0 where
  pub socket : Socket
  pub owner : S

-- `message_piece`, the bytes that are not handled yet: no callback can reach them.
pub record Conn (S : Type 0) : Type 0 where
  pub message_piece : Bytes
  pub peer : Peer S

-- `_on_message` and `_on_incoming_handshake`.
pub record Callbacks (S : Type 0) : Type 0 where
  pub on_message : RpcMessage → Peer S → Run (Peer S)
  pub on_incoming_handshake : Bytes → Peer S → Run (Peer S)

unfoldable pub new_socket : Bool → Socket
new_socket is_preconnected = record {
  is_open = true;
  is_connected = is_preconnected;
  handshake_finished = false;
  holders = 1;
  calls = [];
}

unfoldable pub calls : Call → Socket → Socket
calls c s = record s { calls = s.calls ++ c ∷ [] }

-- `socket::stop`.
unfoldable pub shutdown_if_connected : Socket → Socket
unfolding calls
shutdown_if_connected s =
    if s.is_connected then record (calls shuts_down s) { is_connected = false } else s

unfoldable pub close_if_open : Socket → Socket
unfolding calls
close_if_open s = if s.is_open then record (calls closes (calls stops s)) { is_open = false } else s

unfoldable pub stop : Socket → Socket
unfolding shutdown_if_connected close_if_open
stop s = close_if_open (shutdown_if_connected s)

-- `socket::write`.
unfoldable pub write : Bytes → Socket → Run Socket
unfolding calls
write bytes s = if s.is_connected then done (calls (writes bytes) s) else raised not_connected s

-- The handlers for the events that carry no bytes.
unfoldable pub on_connect : Socket → Socket
unfolding calls
on_connect s = calls reads (record s { is_connected = true })

unfoldable pub on_end_or_error : Socket → Socket
unfolding calls
on_end_or_error s = calls closes (record s { is_open = false; is_connected = false })

-- `reply`, `report_error` and `invoke` of `generic_socket`.
unfoldable pub reply : ℕ → Bytes → Socket → Run Socket
unfolding write
reply message_id response = write (
    message_bytes (
      seal (record {
        message_size = 0;
        method_id = negsuc 0;
        message_id = message_id;
        args = response;
      })))

unfoldable pub report_error : ℕ → Text → Socket → Run Socket
unfolding write
report_error message_id text = write (
    message_bytes (
      seal (record {
        message_size = 0;
        method_id = negsuc 1;
        message_id = message_id;
        args = serialize string text;
      })))

unfoldable pub invoke : ℤ → ℕ → Bytes → Socket → Run Socket
unfolding write
invoke method_id message_id args = write (
    message_bytes (
      seal
        (record { message_size = 0; method_id = method_id; message_id = message_id; args = args })))

-- `std::tolower` of a byte, in the "C" locale.
unfoldable pub to_lower : ℕ → ℕ
to_lower c = if leb b'A' c && leb c b'Z' then c + 32 else c

unfoldable pub is_smol : Magic → Bool
unfolding to_lower
is_smol (m0, (m1, (m2, (m3, _)))) =
    (to_lower (to_pattern 1 m0) == b's')
    && ((to_lower (to_pattern 1 m1) == b'm')
        && ((to_lower (to_pattern 1 m2) == b'o') && (to_lower (to_pattern 1 m3) == b'l')))

module _ {S : Type 0} where
  abbrev pub on_socket : Peer S → Run Socket → Run (Peer S)
  on_socket p (done s) = done (record p { socket = s })
  on_socket p (raised e s) = raised e (record p { socket = s })
  on_socket p wild = wild

  -- A callback returned: the object goes on with its own members, if it still exists.
  abbrev pub resume : Bytes → Run (Peer S) → (Peer S → Run (Conn S)) → Run (Conn S)
  resume piece (done p) k = if p.socket.holders == 0 then wild else k p
  resume piece (raised e p) k = raised e (record { message_piece = piece; peer = p })
  resume piece wild k = wild

  -- No bytes wait.
  abbrev pub quiet : Peer S → Conn S
  quiet p = record { message_piece = []; peer = p }

  abbrev pub mark_finished : Peer S → Peer S
  mark_finished p = record p { socket = record p.socket { handshake_finished = true } }

  abbrev pub stop_peer : Peer S → Peer S
  stop_peer p = record p { socket = stop p.socket }

  -- The handler of `uvw::DataEvent`: an exception stops the socket.
  abbrev pub stop_on_exception : Run (Conn S) → Run (Conn S)
  stop_on_exception (done c) = done c
  stop_on_exception (raised e c) =
      if c.peer.socket.holders == 0 then wild else done (record c { peer = stop_peer c.peer })
  stop_on_exception wild = wild

module _ {S : Type 0} (cb : Callbacks S) where
  -- One round of `while(message_piece.size() >= 4)`; `again` is the rest of the loop.
  pub drain_round : (Bytes → Peer S → Run (Conn S)) → Bytes → Peer S → Run (Conn S)
  drain_round again piece p =
      let here : Conn S = record { message_piece = piece; peer = p } in
      if ltb (length piece) 4
      then done here
      else with_value here (deserialize (uint 4) (take 4 piece)) λ message_size.
        if ltb (length piece) message_size
        then done here
        else with_value here (read_message (take message_size piece)) λ message.
          let rest = drop message_size piece in
          resume rest (cb.on_message message p) λ p'. again rest p'

  -- Each round that goes on takes at least four bytes off the piece, so its length is enough fuel.
  pub drain_loop : ℕ → Bytes → Peer S → Run (Conn S)
  drain_loop zero piece p = done (record { message_piece = piece; peer = p })
  drain_loop (suc fuel) piece p = drain_round (drain_loop fuel) piece p

  pub drain : Bytes → Peer S → Run (Conn S)
  drain piece p = drain_loop (length piece) piece p

  -- The part of `on_data` under `if(!_handshake_finished)`, and the loop after it.
  pub handshake : Bytes → Peer S → Run (Conn S)
  handshake piece p =
      let here : Conn S = record { message_piece = piece; peer = p } in
      let stopped : Conn S = record { message_piece = piece; peer = stop_peer p } in
      if ltb (length piece) 8
      then done here
      else with_value here (read_generic_hello (take 8 piece)) λ header.
        if not (is_smol header.magic)
        then done stopped
        else if ltb (8 * 1024) header.hello_size
        then done stopped
        else if ltb (length piece) header.hello_size
        then done here
        else resume piece (cb.on_incoming_handshake (take header.hello_size piece) p)
            λ p'. drain (drop header.hello_size piece) (mark_finished p')

  -- `on_data`: the bytes join the piece.
  pub on_data : Bytes → Conn S → Run (Conn S)
  on_data bytes c =
      let piece = c.message_piece ++ bytes in
      if c.peer.socket.handshake_finished then drain piece c.peer else handshake piece c.peer

  pub on_data_event : Bytes → Conn S → Run (Conn S)
  on_data_event bytes c = stop_on_exception (on_data bytes c)
