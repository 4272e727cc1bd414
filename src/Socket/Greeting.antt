-- ===== src/Socket/Greeting.antt =====
-- A hello that arrives whole and alone, and what `on_data` asks of it.
use smoljudge.Prelude.{
  ℕ, ◌*◌, ◌≤◌, ◌≡◌, refl, sym, ap, ◌∙◌, true, false, [], append-nil, length, take, ◌==◌,
}
use smoljudge.Prelude.Outcome.{ok}
use smoljudge.Prelude.Run.{done}
use smoljudge.Wire.Types.{Bytes}
use smoljudge.Messages.{Magic, read_generic_hello}
use smoljudge.Socket.{Peer, Callbacks, mark_finished, quiet, is_smol, drain, drain_loop, on_data}
use smoljudge.Socket.Delivery.{on_data_hello}
use smoljudge.Socket.Stream.{KeepsFinished}

-- Bytes that start with a header: eight at least, of which the first eight are the header.
abbrev pub Headed : ℕ → Magic → Bytes → Type 0
Headed size magic bytes =
    (8 ≤ length bytes)
    × (read_generic_hello (take 8 bytes) ≡ ok (record { hello_size = size; magic = magic }))

-- What `on_data` asks of a hello.
pub record IsGreeting (size : ℕ) (magic : Magic) (bytes : Bytes) : Type 0 where
  pub headed : Headed size magic bytes
  pub states_length : size ≡ length bytes
  pub fits : length bytes ≤ 8 * 1024

-- A hello that arrives alone goes to the callback, and the handshake is finished.
pub on_data-IsGreeting :
    {S : Type 0} (cb : Callbacks S)
    → KeepsFinished cb
    → (size : ℕ) (magic : Magic) (hello : Bytes) (p q : Peer S) → IsGreeting size magic hello
    → is_smol magic ≡ true
    → p.socket.handshake_finished ≡ false
    → cb.on_incoming_handshake hello p ≡ done q
    → q.socket.holders == 0 ≡ false
    → on_data cb hello (quiet p) ≡ done (quiet (mark_finished q))
unfolding drain drain_loop
on_data-IsGreeting cb keeps size magic hello p q g smol fresh ran held =
    ap (λ b. on_data cb b (quiet p)) (sym (append-nil hello))
    ∙ on_data_hello cb keeps hello [] p (record { hello_size = size; magic = magic }) fresh
        g.headed.0 g.fits g.headed.1 smol g.states_length
    ∙ rw (ran, held) refl
