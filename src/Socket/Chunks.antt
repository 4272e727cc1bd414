-- ===== src/Socket/Chunks.antt =====
-- Where the network cuts the stream of bytes does not matter.
use smoljudge.Prelude.{
  ℕ, zero, suc, ◌<◌, ◌≡◌, refl, sym, ap, ◌∙◌, inl, inr, ◌++◌, length, drop, drop-append_le,
  length-drop, ◌==◌, Bool-cases, arith,
}
use smoljudge.Prelude.Run.{Run, done, raised, wild}
use smoljudge.Wire.Types.{Bytes}
use smoljudge.Socket.{Peer, Conn, Callbacks, resume, drain}
use smoljudge.Socket.Frames.{
  Frame, incomplete, broken, unknown, frame, next_frame, next_frame-eq_frame, next_frame-append,
  act, drain-act,
}

module _ {S : Type 0} where
  -- More bytes arrive after a run: a connection that is left standing goes on with them, and one
  -- that failed has them behind its piece.
  abbrev pub then_bytes : (Bytes → Conn S → Run (Conn S)) → Bytes → Run (Conn S) → Run (Conn S)
  then_bytes more b (done c) = more b c
  then_bytes more b (raised e c) = raised e (record c { message_piece = c.message_piece ++ b })
  then_bytes more b wild = wild

  pub resume-then_bytes :
      (more : Bytes → Conn S → Run (Conn S)) (piece b : Bytes) (r : Run (Peer S))
      (k k' : Peer S → Run (Conn S))
      → ((p : Peer S) → k' p ≡ then_bytes more b (k p))
      → resume (piece ++ b) r k' ≡ then_bytes more b (resume piece r k)
  resume-then_bytes more piece b (done p) k k' h = elim (Bool-cases (p.socket.holders == 0)) [
    | inl gone ↦ rw gone
    | inr alive ↦ rw alive (h p)
  ]
  resume-then_bytes more piece b (raised e p) k k' h = refl
  resume-then_bytes more piece b wild k k' h = refl

module _ {S : Type 0} (cb : Callbacks S) where
  abbrev drain_more : Bytes → Conn S → Run (Conn S)
  drain_more b c = drain cb (c.message_piece ++ b) c.peer

  act-append :
      (a b : Bytes) (p : Peer S)
      → ((rest : Bytes) (q : Peer S)
          → length rest < length a
          → drain cb (rest ++ b) q ≡ then_bytes drain_more b (drain cb rest q))
      → (fr : Frame) → next_frame a ≡ fr
      → drain cb (a ++ b) p ≡ then_bytes drain_more b (act cb (drain cb) a p fr)
  unfolding act
  act-append a b p ih incomplete e = refl
  act-append a b p ih (broken x) e = drain-act cb (a ++ b) p ∙ rw (next_frame-append a b (cc), e)
  act-append a b p ih unknown e = drain-act cb (a ++ b) p ∙ rw (next_frame-append a b (cc), e)
  act-append a b p ih (frame m n) e =
      let (pos, le, _) = next_frame-eq_frame a m n e in
      drain-act cb (a ++ b) p
      ∙ rw (next_frame-append a b (cc), e, drop-append_le n a b le)
          (resume-then_bytes drain_more (drop n a) b (cb.on_message m p)
            (λ q. drain cb (drop n a) q) (λ q. drain cb (drop n a ++ b) q)
            (λ q. ih (drop n a) q (omega (arith, length-drop n a))))

  drain-append_below :
      (k : ℕ) (a b : Bytes) (p : Peer S)
      → length a < k
      → drain cb (a ++ b) p ≡ then_bytes drain_more b (drain cb a p)
  drain-append_below zero a b p h = absurd (omega arith)
  drain-append_below (suc k) a b p h =
      act-append a b p (λ rest q less. drain-append_below k rest b q (omega arith)) (next_frame a)
        refl
      ∙ ap (then_bytes drain_more b) (sym (drain-act cb a p))

  -- Messages cut out of `a ++ b` are those cut out of `a`, and then of what `a` left with `b`.
  pub drain-append :
      (a b : Bytes) (p : Peer S) → drain cb (a ++ b) p ≡ then_bytes drain_more b (drain cb a p)
  drain-append a b p = drain-append_below (suc (length a)) a b p (omega arith)
