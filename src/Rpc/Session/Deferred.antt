-- ===== src/Rpc/Session/Deferred.antt =====
-- Replies that wait for the promise of a method.
mod Tests
use smoljudge.Prelude.{
  ℕ, ◌+◌, ◌≡◌, refl, sym, ap, ◌∙◌, true, false, List, [], ◌∷◌, ◌++◌, append_assoc, append-nil, map,
  ◌==◌, eq_refl, if◌then◌else◌, some,
}
use smoljudge.Prelude.Dict.{lookup, assign, nat_eq, lookup-assign}
use smoljudge.Prelude.Int.{negsuc}
use smoljudge.Prelude.Run.{Run, done, ◌>>=◌}
use smoljudge.Wire.Types.{Bytes}
use smoljudge.Messages.{message_bytes, seal}
use smoljudge.Socket.{Peer, Call, writes, calls, write, reply}
use smoljudge.Rpc.Session.{Endpoint, PromiseId, deferred, attach_reply, after_call, on_resolved}

-- The write of a reply.
abbrev pub replies : ℕ → Bytes → Call
replies id result = writes (
    message_bytes
      (seal (record { message_size = 0; method_id = negsuc 0; message_id = id; args = result })))

module _ {O : Type 0} where
  -- A promise is set again and again.
  unfoldable pub resolves : PromiseId → List Bytes → Peer (Endpoint O) → Run (Peer (Endpoint O))
  resolves k [] p = done p
  resolves k (result ∷ results) p = on_resolved k result p >>= λ q. resolves k results q

  abbrev with_calls : Peer (Endpoint O) → List Call → Peer (Endpoint O)
  with_calls p cs = record p { socket = record p.socket { calls = cs } }

  on_resolved-replies :
      (k : PromiseId) (id : ℕ) (result : Bytes) (p : Peer (Endpoint O))
      → p.socket.is_connected ≡ true
      → lookup k p.owner.session.pending_replies ≡ some id
      → on_resolved k result p ≡ done (with_calls p (p.socket.calls ++ replies id result ∷ []))
  unfolding on_resolved reply write calls
  on_resolved-replies k id result p up waits = rw (waits, on_resolved, up)

  resolves-replies :
      (k : PromiseId) (id : ℕ) (results : List Bytes) (p : Peer (Endpoint O))
      → p.socket.is_connected ≡ true
      → lookup k p.owner.session.pending_replies ≡ some id
      → resolves k results p ≡ done (with_calls p (p.socket.calls ++ map (replies id) results))
  unfolding resolves
  resolves-replies k id [] p up waits =
      ap (λ cs. done (with_calls p cs)) (sym (append-nil p.socket.calls))
  resolves-replies k id (result ∷ results) p up waits =
      ap (λ r. r >>= λ q. resolves k results q) (on_resolved-replies k id result p up waits)
      ∙ resolves-replies k id results (with_calls p (p.socket.calls ++ replies id result ∷ [])) up
          waits
      ∙ ap (λ cs. done (with_calls p cs))
          (append_assoc p.socket.calls (replies id result ∷ []) (map (replies id) results))

-- When a method returns a promise that is not set yet, each value that the promise is set to
-- afterwards is sent as a reply to the call, in order, also when it is set more than once, and also
-- when the reply to an earlier call was waiting for the same promise: that call is no longer
-- answered by it. The replies that wait for other promises wait on. The socket is connected.
pub resolves-after_call :
    {O : Type 0} (k : PromiseId) (id : ℕ) (results : List Bytes) (p : Peer (Endpoint O))
    → p.socket.is_connected ≡ true
    → (q : Peer (Endpoint O)) × (after_call id (deferred k p) >>= (λ r. resolves k results r)
        ≡ done q)
      × (q.socket.calls ≡ p.socket.calls ++ map (replies id) results)
      × ((j : PromiseId)
          → lookup j q.owner.session.pending_replies
            ≡ (if k == j then some id else lookup j p.owner.session.pending_replies))
      × (q.owner.session.promises ≡ p.owner.session.promises)
unfolding after_call attach_reply
resolves-after_call k id results p up =
    let attached = attach_reply k id p in
    let waits : lookup k attached.owner.session.pending_replies ≡ some id =
      lookup-assign k k id p.owner.session.pending_replies ∙ rw (eq_refl k) refl in
    (
      record attached {
        socket = record attached.socket {
          calls = attached.socket.calls ++ map (replies id) results;
        };
      },
      resolves-replies k id results attached up waits,
      refl,
      λ j. lookup-assign k j id p.owner.session.pending_replies,
      refl,
    )
