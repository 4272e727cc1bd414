-- ===== src/Socket/Frames.antt =====
-- The receive loop: where messages begin and end, and that the loop ends by its own test.
use smoljudge.Prelude.{
  ℕ, zero, suc, ◌≤◌, ◌<◌, ◌≡◌, refl, sym, ap, ◌∙◌, ◌≢◌, inl, inr, [], ◌∷◌, ◌++◌, length,
  length-append, take, drop, take-append_le, length-take_le, length-drop, ltb, if◌then◌else◌,
  Bool-cases, le→ltb, arith, tests,
}
use smoljudge.Prelude.Outcome.{Error, Outcome, ok, throws, undefined}
use smoljudge.Prelude.Run.{Run, done, raised, wild, with_value}
use smoljudge.Wire.Types.{Bytes, uint}
use smoljudge.Wire.Codec.{deserialize}
use smoljudge.Messages.{RpcMessage, read_message}
use smoljudge.Messages.Exact.{read_message_short}
use smoljudge.Socket.{Peer, Conn, Callbacks, resume, drain_round, drain_loop, drain}
use mathlib.Core.Path.{fun_ext}

-- What stands at the front of the bytes: a message with its length, the start of one, or bytes that
-- cannot be read.
pub data Frame : Type 0 where
  incomplete : Frame
  broken : Error → Frame
  unknown : Frame
  frame : RpcMessage → ℕ → Frame

frame_of : ℕ → Outcome RpcMessage → Frame
frame_of n (ok m) = frame m n
frame_of n (throws e) = broken e
frame_of n undefined = unknown

sized : Bytes → Outcome ℕ → Frame
unfolding frame_of
sized piece (ok n) =
    if ltb (length piece) n then incomplete else frame_of n (read_message (take n piece))
sized piece (throws e) = broken e
sized piece undefined = unknown

pub next_frame : Bytes → Frame
unfolding sized
next_frame piece =
    if ltb (length piece) 4 then incomplete else sized piece (deserialize (uint 4) (take 4 piece))

frame_of-eq_frame :
    (k : ℕ) (o : Outcome RpcMessage) (m : RpcMessage) (n : ℕ)
    → frame_of k o ≡ frame m n
    → (o ≡ ok m) × (k ≡ n)
unfolding frame_of
frame_of-eq_frame k (ok x) m n e = (cc, cc)
frame_of-eq_frame k (throws x) m n e = cc
frame_of-eq_frame k undefined m n e = cc

sized-eq_frame :
    (piece : Bytes) (o : Outcome ℕ) (m : RpcMessage) (n : ℕ)
    → sized piece o ≡ frame m n
    → (n ≤ length piece) × (read_message (take n piece) ≡ ok m)
unfolding sized
sized-eq_frame piece (ok k) m n e = elim (Bool-cases (ltb (length piece) k)) [
  | inl short ↦ cc (rw short at e)
  | inr enough ↦
      let (got, same) = frame_of-eq_frame k _ m n (rw enough at e) in
      (omega (tests, enough, same), rw (sym same) got)
]
sized-eq_frame piece (throws x) m n e = cc
sized-eq_frame piece undefined m n e = cc

four_le :
    (piece : Bytes) (m : RpcMessage) (n : ℕ)
    → n ≤ length piece
    → read_message (take n piece) ≡ ok m
    → 4 ≤ n
four_le piece m n le got = elim (Bool-cases (ltb n 4)) [
  | inl short ↦
      let few : length (take n piece) < 4 = omega (tests, length-take_le n piece le, short) in
      cc (got, read_message_short (take n piece) few)
  | inr enough ↦ omega (tests, enough)
]

-- A frame lies within the bytes, reads as its message, and is not shorter than its size field.
pub next_frame-eq_frame :
    (piece : Bytes) (m : RpcMessage) (n : ℕ)
    → next_frame piece ≡ frame m n
    → (4 ≤ n) × (n ≤ length piece) × (read_message (take n piece) ≡ ok m)
unfolding next_frame
next_frame-eq_frame piece m n e = elim (Bool-cases (ltb (length piece) 4)) [
  | inl short ↦ cc (rw short at e)
  | inr enough ↦
      let (le, got) =
        sized-eq_frame piece (deserialize (uint 4) (take 4 piece)) m n (rw enough at e) in
      (four_le piece m n le got, le, got)
]

-- Enough bytes for the stated size, and a message in them.
pub next_frame_enough :
    (piece : Bytes) (size n : ℕ) (m : RpcMessage)
    → 4 ≤ length piece
    → deserialize (uint 4) (take 4 piece) ≡ ok size
    → size ≡ n
    → n ≤ length piece
    → read_message (take n piece) ≡ ok m
    → next_frame piece ≡ frame m n
unfolding next_frame sized frame_of
next_frame_enough piece size n m four got same le read =
    rw (le→ltb (length piece) 4 four, got, same, le→ltb (length piece) n le, read)

sized-append : (a b : Bytes) (o : Outcome ℕ) → sized a o ≢ incomplete → sized (a ++ b) o ≡ sized a o
unfolding sized
sized-append a b (ok n) h = elim (Bool-cases (ltb (length a) n)) [
  | inl short ↦ absurd (h (rw short))
  | inr enough ↦
      let le : n ≤ length a = omega (tests, enough) in
      rw (
        le→ltb (length (a ++ b)) n (omega (arith, le, length-append a b)),
        enough,
        take-append_le n a b le,
      )
]
sized-append a b (throws e) h = refl
sized-append a b undefined h = refl

-- More bytes behind do not change what stands at the front, once it is complete.
pub next_frame-append :
    (a b : Bytes) → next_frame a ≢ incomplete → next_frame (a ++ b) ≡ next_frame a
unfolding next_frame
next_frame-append a b h = elim (Bool-cases (ltb (length a) 4)) [
  | inl short ↦ absurd (h (rw short))
  | inr enough ↦
      let le : 4 ≤ length a = omega (tests, enough) in
      rw
        (
          le→ltb (length (a ++ b)) 4 (omega (arith, le, length-append a b)),
          enough,
          take-append_le 4 a b le,
        )
        (sized-append a b (deserialize (uint 4) (take 4 a)) (rw enough at h))
]

module _ {S : Type 0} (cb : Callbacks S) where
  -- What a round does with the frame at the front.
  unfoldable pub act : (Bytes → Peer S → Run (Conn S)) → Bytes → Peer S → Frame → Run (Conn S)
  act again piece p incomplete = done (record { message_piece = piece; peer = p })
  act again piece p (broken e) = raised e (record { message_piece = piece; peer = p })
  act again piece p unknown = wild
  act again piece p (frame m n) =
      resume (drop n piece) (cb.on_message m p) λ p'. again (drop n piece) p'

  act-frame_of :
      (again : Bytes → Peer S → Run (Conn S)) (piece : Bytes) (p : Peer S) (n : ℕ)
      (o : Outcome RpcMessage)
      → with_value
          (record { message_piece = piece; peer = p })
          o
          (λ m. resume (drop n piece) (cb.on_message m p) λ p'. again (drop n piece) p')
        ≡ act again piece p (frame_of n o)
  unfolding act frame_of
  act-frame_of again piece p n (ok m) = refl
  act-frame_of again piece p n (throws e) = refl
  act-frame_of again piece p n undefined = refl

  act-sized :
      (again : Bytes → Peer S → Run (Conn S)) (piece : Bytes) (p : Peer S) (o : Outcome ℕ)
      → with_value {A = ℕ}
          (record { message_piece = piece; peer = p })
          o
          (λ n.
            if ltb (length piece) n
            then done (record { message_piece = piece; peer = p })
            else with_value
                (record { message_piece = piece; peer = p })
                (read_message (take n piece))
                λ m. resume (drop n piece) (cb.on_message m p) λ p'. again (drop n piece) p')
        ≡ act again piece p (sized piece o)
  unfolding sized
  act-sized again piece p (ok n) = elim (Bool-cases (ltb (length piece) n)) [
    | inl short ↦ rw short (unfold act in refl)
    | inr enough ↦ rw enough (act-frame_of again piece p n (read_message (take n piece)))
  ]
  act-sized again piece p (throws e) = unfold act in refl
  act-sized again piece p undefined = unfold act in refl

  -- A round of the loop acts on the frame at the front.
  pub drain_round-next_frame :
      (again : Bytes → Peer S → Run (Conn S)) (piece : Bytes) (p : Peer S)
      → drain_round cb again piece p ≡ act again piece p (next_frame piece)
  unfolding drain_round next_frame
  drain_round-next_frame again piece p = elim (Bool-cases (ltb (length piece) 4)) [
    | inl short ↦ rw short (unfold act in refl)
    | inr enough ↦ rw enough (act-sized again piece p (deserialize (uint 4) (take 4 piece)))
  ]

  act-cong :
      (f g : Bytes → Peer S → Run (Conn S)) (piece : Bytes) (p : Peer S)
      → ((rest : Bytes) (q : Peer S) → length rest < length piece → f rest q ≡ g rest q)
      → (fr : Frame) → next_frame piece ≡ fr
      → act f piece p fr ≡ act g piece p fr
  unfolding act
  act-cong f g piece p same incomplete e = refl
  act-cong f g piece p same (broken x) e = refl
  act-cong f g piece p same unknown e = refl
  act-cong f g piece p same (frame m n) e =
      let (pos, le, _) = next_frame-eq_frame piece m n e in
      ap (resume (drop n piece) (cb.on_message m p))
        (fun_ext λ q. same (drop n piece) q (omega (arith, length-drop n piece)))

  -- Any two amounts of fuel that reach the length of the piece run the same loop.
  drain_loop_fuel :
      (f g : ℕ) (piece : Bytes) (p : Peer S)
      → length piece ≤ f
      → length piece ≤ g
      → drain_loop cb f piece p ≡ drain_loop cb g piece p
  unfolding drain_loop
  drain_loop_fuel zero zero piece p hf hg = refl
  drain_loop_fuel zero (suc g) [] p hf hg = unfold drain_round in refl
  drain_loop_fuel zero (suc g) (x ∷ xs) p hf hg = absurd (omega arith)
  drain_loop_fuel (suc f) zero [] p hf hg = unfold drain_round in refl
  drain_loop_fuel (suc f) zero (x ∷ xs) p hf hg = absurd (omega arith)
  drain_loop_fuel (suc f) (suc g) piece p hf hg =
      drain_round-next_frame (drain_loop cb f) piece p
      ∙ act-cong (drain_loop cb f) (drain_loop cb g) piece p
          (λ rest q h. drain_loop_fuel f g rest q (omega arith) (omega arith)) (next_frame piece)
          refl
      ∙ sym (drain_round-next_frame (drain_loop cb g) piece p)

  -- The loop is the `while` loop of the source: one round, and then the loop again. So its fuel
  -- never runs out.
  pub drain-drain_round :
      (piece : Bytes) (p : Peer S) → drain cb piece p ≡ drain_round cb (drain cb) piece p
  unfolding drain drain_loop
  drain-drain_round piece p =
      let n = length piece in
      drain_loop_fuel n (suc n) piece p (omega arith) (omega arith)
      ∙ drain_round-next_frame (drain_loop cb n) piece p
      ∙ act-cong (drain_loop cb n) (drain cb) piece p
          (λ rest q h. drain_loop_fuel n (length rest) rest q (omega arith) (omega arith))
          (next_frame piece) refl
      ∙ sym (drain_round-next_frame (drain cb) piece p)

  pub drain-act :
      (piece : Bytes) (p : Peer S) → drain cb piece p ≡ act (drain cb) piece p (next_frame piece)
  drain-act piece p = drain-drain_round piece p ∙ drain_round-next_frame (drain cb) piece p
