-- ===== src/Rpc/Listener/Tests.antt =====
-- A server with two connections, and the theorems at concrete inputs.
use smoljudge.Prelude.{ℕ, ◌≡◌, ◌<◌, ◌⊎◌, refl, [], ◌∷◌, ◌++◌, map, Bool, false, true, All}
use smoljudge.Prelude.Outcome.{filesystem_error}
use smoljudge.Prelude.Run.{done, raised}
use smoljudge.Prelude.Text.{Text}
use smoljudge.Socket.{new_socket, calls, reads}
use smoljudge.Rpc.Listener.{
  ServerClient, Listener, new_listener, on_listen, bind_path, bind_impl, stop_server, listens,
  binds_path, Reachable, starts, goes_on,
}
use smoljudge.Rpc.Listener.Identities.{Reachable-client_id}
use smoljudge.Rpc.Listener.Stopping.{IsStopped, CanRemove, Stuck, stop_server-IsStopped}

abbrev busy : Listener
busy = on_listen (on_listen (bind_path false (b'/' ∷ b's' ∷ []) 4 new_listener))

busy-Reachable : Reachable busy
busy-Reachable =
    goes_on (goes_on (goes_on starts (binds_path false (b'/' ∷ b's' ∷ []) 4)) listens) listens

abbrev client : ℕ → ServerClient
client id = record { client_id = id; socket = calls reads (new_socket true) }

Reachable-client_id_example : (1 < busy.n_clients) × (◌≡◌ {A = ℕ} 1 0 → ◌≡◌ {A = ℕ} 0 1)
unfolding on_listen bind_path bind_impl new_listener
Reachable-client_id_example =
    Reachable-client_id busy busy-Reachable 0 1 (client 1) (client 0) refl refl

abbrev no_file : Text → Bool
no_file path = false

stop_server-IsStopped_example :
    (All (CanRemove no_file) busy.unix_domain_sockets
      × ((q : Listener) × (stop_server no_file busy ≡ done q)
          × All IsStopped q.clients
          × (map (λ c. c.client_id) q.clients ≡ map (λ c. c.client_id) busy.clients)
          × (q.removed ≡ busy.removed ++ busy.unix_domain_sockets)
          × (q.closed ≡ busy.closed ++ busy.server_stop_methods)
          × ((can_now : Text → Bool) → stop_server can_now q ≡ done q)))
    ⊎ ((s : Stuck no_file busy.unix_domain_sockets) × (stop_server no_file busy
          ≡ raised filesystem_error (record busy { removed = busy.removed ++ s.before })))
stop_server-IsStopped_example = stop_server-IsStopped no_file busy
