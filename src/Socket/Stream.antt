-- ===== src/Socket/Stream.antt =====
-- The whole of `on_data` over a stream of bytes, with the handshake.
use smoljudge.Prelude.{
  ℕ, zero, suc, ◌*◌, ◌≤◌, ◌<◌, ◌≡◌, refl, sym, ap, ◌∙◌, inl, inr, true, false, not, ◌++◌,
  append_assoc, length, length-append, take, drop, take-append_le, drop-append_le, length-drop, ltb,
  ◌==◌, if◌then◌else◌, Bool-cases, le→ltb, arith, tests,
}
use smoljudge.Prelude.Outcome.{ok, Outcome-cases}
use smoljudge.Prelude.Run.{Run, done, raised, wild, RunEnsures}
use smoljudge.Wire.Types.{Bytes}
use smoljudge.Messages.{RpcMessage, GenericHello, read_generic_hello}
use smoljudge.Socket.{
  Socket, Peer, Conn, Callbacks, resume, drain, stop, stop_peer, mark_finished, is_smol, handshake,
  on_data,
}
use smoljudge.Socket.Chunks.{then_bytes, drain-append, resume-then_bytes}
use smoljudge.Socket.Frames.{
  Frame, incomplete, broken, unknown, frame, next_frame, next_frame-eq_frame, act, drain-act,
}

abbrev pub IsFinished : {S : Type 0} → Peer S → Type 0
IsFinished p = p.socket.handshake_finished ≡ true

-- No member of `socket` that a callback can call takes back that the handshake is finished.
abbrev pub KeepsFinished : {S : Type 0} → Callbacks S → Type 0
KeepsFinished {S} cb =
    (m : RpcMessage) (p : Peer S) → IsFinished p → RunEnsures IsFinished (cb.on_message m p)

pub stop-holders : (s : Socket) → (stop s).holders ≡ s.holders
unfolding stop
stop-holders s = ground arith

-- A stopped socket is neither connected nor open.
pub stop-IsStopped : (s : Socket) → ((stop s).is_connected ≡ false) × ((stop s).is_open ≡ false)
unfolding stop
stop-IsStopped s = ground arith

-- Stopping a stopped socket makes no call and changes nothing.
pub stop-stop : (s : Socket) → stop (stop s) ≡ stop s
unfolding stop
stop-stop s = ground arith

module _ {S : Type 0} (cb : Callbacks S) (keeps : KeepsFinished cb) where
  abbrev ConnFinished : Conn S → Type 0
  ConnFinished c = IsFinished c.peer

  resume-finished :
      (piece : Bytes) (r : Run (Peer S)) (k : Peer S → Run (Conn S))
      → RunEnsures IsFinished r
      → ((q : Peer S) → IsFinished q → RunEnsures ConnFinished (k q))
      → RunEnsures ConnFinished (resume piece r k)
  resume-finished piece (done q) k h hk = elim (Bool-cases (q.socket.holders == 0)) [
    | inl gone ↦ rw gone tt
    | inr alive ↦ rw alive (hk q h)
  ]
  resume-finished piece (raised e q) k h hk = tt
  resume-finished piece wild k h hk = tt

  act-finished :
      (again : Bytes → Peer S → Run (Conn S)) (piece : Bytes) (p : Peer S) (fr : Frame)
      → next_frame piece ≡ fr
      → IsFinished p
      → ((rest : Bytes) (q : Peer S)
          → length rest < length piece
          → IsFinished q
          → RunEnsures ConnFinished (again rest q))
      → RunEnsures ConnFinished (act cb again piece p fr)
  unfolding act
  act-finished again piece p incomplete e h ih = h
  act-finished again piece p (broken x) e h ih = tt
  act-finished again piece p unknown e h ih = tt
  act-finished again piece p (frame m n) e h ih =
      let (pos, le, _) = next_frame-eq_frame piece m n e in
      resume-finished (drop n piece) (cb.on_message m p) (λ q. again (drop n piece) q) (keeps m p h)
        (λ q hq. ih (drop n piece) q (omega (arith, length-drop n piece)) hq)

  drain-finished_below :
      (k : ℕ) (piece : Bytes) (p : Peer S)
      → length piece < k
      → IsFinished p
      → RunEnsures ConnFinished (drain cb piece p)
  drain-finished_below zero piece p less h = absurd (omega arith)
  drain-finished_below (suc k) piece p less h = rw (drain-act cb piece p) (
      act-finished (drain cb) piece p (next_frame piece) refl h
        (λ rest q l hq. drain-finished_below k rest q (omega arith) hq))

  pub on_data_finished :
      (b : Bytes) (c : Conn S)
      → IsFinished c.peer
      → on_data cb b c ≡ drain cb (c.message_piece ++ b) c.peer
  unfolding on_data
  on_data_finished b c h = rw h

  pub on_data_greeting :
      (b : Bytes) (c : Conn S)
      → c.peer.socket.handshake_finished ≡ false
      → on_data cb b c ≡ handshake cb (c.message_piece ++ b) c.peer
  unfolding on_data
  on_data_greeting b c h = rw h

  then_on_data :
      (b : Bytes) (r : Run (Conn S))
      → RunEnsures ConnFinished r
      → then_bytes (λ b c. drain cb (c.message_piece ++ b) c.peer) b r ≡ then_bytes (on_data cb) b r
  then_on_data b (done c) h = sym (on_data_finished b c h)
  then_on_data b (raised e c) h = refl
  then_on_data b wild h = refl

  drain-on_data :
      (a b : Bytes) (p : Peer S)
      → IsFinished p
      → drain cb (a ++ b) p ≡ then_bytes (on_data cb) b (drain cb a p)
  drain-on_data a b p h =
      drain-append cb a b p
      ∙ then_on_data b (drain cb a p) (drain-finished_below (suc (length a)) a p (omega arith) h)

  -- `on_data` once the header of the hello has been read.
  greet : Bytes → Peer S → GenericHello → Run (Conn S)
  greet piece p header =
      let here : Conn S = record { message_piece = piece; peer = p } in
      let stopped : Conn S = record { message_piece = piece; peer = stop_peer p } in
      if not (is_smol header.magic)
      then done stopped
      else if ltb (8 * 1024) header.hello_size
      then done stopped
      else if ltb (length piece) header.hello_size
      then done here
      else resume piece (cb.on_incoming_handshake (take header.hello_size piece) p)
          λ p'. drain cb (drop header.hello_size piece) (mark_finished p')

  handshake-greet :
      (piece : Bytes) (p : Peer S) (header : GenericHello)
      → ltb (length piece) 8 ≡ false
      → read_generic_hello (take 8 piece) ≡ ok header
      → handshake cb piece p ≡ greet piece p header
  unfolding handshake greet
  handshake-greet piece p header enough got = rw (enough, got)

  abbrev conn : Bytes → Peer S → Conn S
  conn piece p = record { message_piece = piece; peer = p }

  greet_short :
      (a : Bytes) (p : Peer S) (header : GenericHello)
      → is_smol header.magic ≡ true
      → ltb (8 * 1024) header.hello_size ≡ false
      → ltb (length a) header.hello_size ≡ true
      → greet a p header ≡ done (conn a p)
  unfolding greet
  greet_short a p header smol fits short = rw (smol, fits, short)

  stop-finished :
      (p : Peer S)
      → p.socket.handshake_finished ≡ false
      → (stop_peer p).socket.handshake_finished ≡ false
  unfolding stop
  stop-finished p fresh = ground arith

  stopped_again :
      (a b : Bytes) (p : Peer S) (header : GenericHello)
      → p.socket.handshake_finished ≡ false
      → ((q : Peer S) → handshake cb (a ++ b) q ≡ greet (a ++ b) q header)
      → greet (a ++ b) (stop_peer p) header ≡ done (conn (a ++ b) (stop_peer (stop_peer p)))
      → on_data cb b (conn a (stop_peer p)) ≡ done (conn (a ++ b) (stop_peer p))
  stopped_again a b p header fresh whole refused =
      on_data_greeting b (conn a (stop_peer p)) (stop-finished p fresh)
      ∙ whole (stop_peer p)
      ∙ refused
      ∙ ap (λ s. done (conn (a ++ b) (record { socket = s; owner = p.owner }))) (stop-stop p.socket)

  greet-append :
      (a b : Bytes) (p : Peer S) (header : GenericHello)
      → p.socket.handshake_finished ≡ false
      → ((q : Peer S) → handshake cb (a ++ b) q ≡ greet (a ++ b) q header)
      → greet (a ++ b) p header ≡ then_bytes (on_data cb) b (greet a p header)
  greet-append a b p header fresh whole = elim (Bool-cases (is_smol header.magic)) [
    | inr other ↦
        unfold greet in
        rw other (sym (stopped_again a b p header fresh whole (unfold greet in rw other)))
    | inl smol ↦ elim (Bool-cases (ltb (8 * 1024) header.hello_size)) [
      | inl long ↦
          unfold greet in
          rw (smol, long)
            (sym (stopped_again a b p header fresh whole (unfold greet in rw (smol, long))))
      | inr fits ↦ elim (Bool-cases (ltb (length a) header.hello_size)) [
        | inl short ↦
            sym (whole p)
            ∙ sym (on_data_greeting b (conn a p) fresh)
            ∙ ap (then_bytes (on_data cb) b) (sym (greet_short a p header smol fits short))
        | inr enough ↦
            let size : ℕ = header.hello_size in
            let le : size ≤ length a = omega (tests, enough) in
            unfold greet in
            rw
              (
                smol,
                fits,
                enough,
                le→ltb (length (a ++ b)) size (omega (arith, le, length-append a b)),
                take-append_le size a b le,
                drop-append_le size a b le,
              )
              (resume-then_bytes (on_data cb) a b (cb.on_incoming_handshake (take size a) p)
                (λ q. drain cb (drop size a) (mark_finished q))
                (λ q. drain cb (drop size a ++ b) (mark_finished q))
                (λ q. drain-on_data (drop size a) b (mark_finished q) refl))
      ]
    ]
  ]

  handshake_short :
      (a : Bytes) (p : Peer S) → ltb (length a) 8 ≡ true → handshake cb a p ≡ done (conn a p)
  unfolding handshake
  handshake_short a p short = rw short

  handshake-append :
      (a b : Bytes) (p : Peer S)
      → p.socket.handshake_finished ≡ false
      → handshake cb (a ++ b) p ≡ then_bytes (on_data cb) b (handshake cb a p)
  handshake-append a b p fresh = elim (Bool-cases (ltb (length a) 8)) [
    | inl short ↦
        sym (on_data_greeting b (conn a p) fresh)
        ∙ ap (then_bytes (on_data cb) b) (sym (handshake_short a p short))
    | inr enough ↦
        let le : 8 ≤ length a = omega (tests, enough) in
        let enough' : ltb (length (a ++ b)) 8 ≡ false =
          le→ltb (length (a ++ b)) 8 (omega (arith, le, length-append a b)) in
        elim (Outcome-cases (read_generic_hello (take 8 a))) [
          | inl (header, got) ↦
              let whole = λ (q : Peer S).
                handshake-greet (a ++ b) q header enough' (rw (take-append_le 8 a b le) got) in
              whole p
              ∙ greet-append a b p header fresh whole
              ∙ ap (then_bytes (on_data cb) b) (sym (handshake-greet a p header enough got))
          | inr (inl (e, got)) ↦
              unfold handshake in rw (enough', enough, take-append_le 8 a b le, got)
          | inr (inr got) ↦ unfold handshake in rw (enough', enough, take-append_le 8 a b le, got)
        ]
  ]

  -- However the network cuts the bytes, the connection ends up the same: `a` and then `b` is `a ++
  -- b` at once. If `a` alone fails, then `a ++ b` fails in the same way, with `b` behind the bytes
  -- left. The callback for messages must not take back that the handshake is finished.
  pub on_data-append :
      (a b : Bytes) (c : Conn S)
      → on_data cb (a ++ b) c ≡ then_bytes (on_data cb) b (on_data cb a c)
  on_data-append a b c = elim (Bool-cases c.peer.socket.handshake_finished) [
    | inl finished ↦
        on_data_finished (a ++ b) c finished
        ∙ ap (λ piece. drain cb piece c.peer) (sym (append_assoc c.message_piece a b))
        ∙ drain-on_data (c.message_piece ++ a) b c.peer finished
        ∙ ap (then_bytes (on_data cb) b) (sym (on_data_finished a c finished))
    | inr fresh ↦
        on_data_greeting (a ++ b) c fresh
        ∙ ap (λ piece. handshake cb piece c.peer) (sym (append_assoc c.message_piece a b))
        ∙ handshake-append (c.message_piece ++ a) b c.peer fresh
        ∙ ap (then_bytes (on_data cb) b) (sym (on_data_greeting a c fresh))
  ]
