-- ===== src/Rpc/Session/Deferred/Tests.antt =====
-- A promise that replies to an earlier call wait for, and that is set twice.
use smoljudge.Prelude.{ℕ, ◌≡◌, refl, true, [], ◌∷◌, ◌++◌, List, map, ◌==◌, if◌then◌else◌, some}
use smoljudge.Prelude.Dict.{lookup, nat_eq}
use smoljudge.Prelude.Run.{done, ◌>>=◌}
use smoljudge.Wire.Types.{Bytes}
use smoljudge.Socket.{Peer, new_socket}
use smoljudge.Rpc.Session.{Endpoint, PromiseId, new_session, deferred, after_call}
use smoljudge.Rpc.Session.Deferred.{replies, resolves, resolves-after_call}

abbrev peer : Peer (Endpoint ℕ)
peer = record {
  socket = new_socket true;
  owner = record {
    session = record new_session { pending_replies = (4, 1) ∷ ((5, 2) ∷ []) };
    state = 0;
  };
}

abbrev results : List Bytes
results = (7 ∷ []) ∷ ((8 ∷ []) ∷ [])

resolves-after_call_example :
    (q : Peer (Endpoint ℕ)) × (after_call 3 (deferred 4 peer) >>= (λ r. resolves 4 results r)
      ≡ done q)
    × (q.socket.calls ≡ (peer).socket.calls ++ map (replies 3) results)
    × ((j : PromiseId)
        → lookup j q.owner.session.pending_replies
          ≡ (if 4 == j then some 3 else lookup j (peer).owner.session.pending_replies))
    × (q.owner.session.promises ≡ (peer).owner.session.promises)
unfolding new_socket
resolves-after_call_example = resolves-after_call 4 3 results peer refl
