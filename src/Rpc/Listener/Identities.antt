-- ===== src/Rpc/Listener/Identities.antt =====
-- The ids of the clients of a server.
use smoljudge.Prelude.{
  ℕ, zero, suc, ◌<◌, ◌≤◌, ◌≡◌, refl, Bool, true, false, List, [], ◌∷◌, map, get_elem?, some, ◌==◌,
  Bool-cases, inl, inr, arith,
}
use smoljudge.Prelude.Run.{Run, done, raised, wild, RunLeaves, RunLeaves-EndsIn, ◌>>=◌}
use smoljudge.Prelude.Text.{Text}
use smoljudge.Socket.{Socket}
use smoljudge.Rpc.Listener.{
  ServerClient, Listener, new_listener, on_listen, erase_client, on_client_close, bind_impl,
  bind_path, stop_connection, remove_files, stop_handles, stop_server, serve, Step, listens,
  closes_client, binds, binds_path, serves, stops_server, Reachable, starts, goes_on,
}

-- The ids fall strictly from the front of the list on, all of them below a bound.
abbrev IsBelow : ℕ → List ServerClient → Type 0
IsBelow bound [] = Unit {0}
IsBelow bound (c ∷ cs) = (c.client_id < bound) × IsBelow c.client_id cs

IsBelow-weaken : (a b : ℕ) (cs : List ServerClient) → a ≤ b → IsBelow a cs → IsBelow b cs
IsBelow-weaken a b [] le h = tt
IsBelow-weaken a b (c ∷ cs) le (lt, h) = (omega arith, h)

erase_client-IsBelow :
    (id bound : ℕ) (cs : List ServerClient) → IsBelow bound cs → IsBelow bound (erase_client id cs)
unfolding erase_client
erase_client-IsBelow id bound [] h = tt
erase_client-IsBelow id bound (c ∷ cs) (lt, h) = elim (Bool-cases (c.client_id == id)) [
  | inl here ↦ rw here (IsBelow-weaken c.client_id bound cs (omega arith) h)
  | inr other ↦ rw other (lt, erase_client-IsBelow id c.client_id cs h)
]

serve-IsBelow :
    (id : ℕ) (change : Socket → Socket) (bound : ℕ) (cs : List ServerClient)
    → IsBelow bound cs
    → IsBelow bound (serve id change cs)
unfolding serve
serve-IsBelow id change bound [] h = tt
serve-IsBelow id change bound (c ∷ cs) (lt, h) = elim (Bool-cases (c.client_id == id)) [
  | inl here ↦ rw here (lt, serve-IsBelow id change c.client_id cs h)
  | inr other ↦ rw other (lt, serve-IsBelow id change c.client_id cs h)
]

stop_connection-IsBelow :
    (bound : ℕ) (cs : List ServerClient) → IsBelow bound cs → IsBelow bound (map stop_connection cs)
unfolding stop_connection
stop_connection-IsBelow bound [] h = tt
stop_connection-IsBelow bound (c ∷ cs) (lt, h) = (lt, stop_connection-IsBelow c.client_id cs h)

abbrev IsFine : Listener → Type 0
IsFine l = IsBelow l.n_clients l.clients

remove_files-IsFine :
    (can_remove : Text → Bool) (paths : List Text) (l : Listener)
    → IsFine l
    → RunLeaves IsFine (remove_files can_remove paths l)
unfolding remove_files
remove_files-IsFine can_remove [] l h = h
remove_files-IsFine can_remove (path ∷ paths) l h = elim (Bool-cases (can_remove path)) [
  | inl can ↦ rw can (remove_files-IsFine can_remove paths _ h)
  | inr cannot ↦ rw cannot h
]

stop_handles-IsFine :
    (r : Run Listener) → RunLeaves IsFine r → RunLeaves IsFine (r >>= λ l. done (stop_handles l))
unfolding stop_handles
stop_handles-IsFine (done l) h = stop_connection-IsBelow l.n_clients l.clients h
stop_handles-IsFine (raised e l) h = h
stop_handles-IsFine wild h = tt

Step-IsFine : {l l' : Listener} → Step l l' → IsFine l → IsFine l'
unfolding on_listen on_client_close bind_impl bind_path stop_server
Step-IsFine (listens {l}) h = (omega arith, h)
Step-IsFine (closes_client {l} id) h = erase_client-IsBelow id l.n_clients l.clients h
Step-IsFine (binds handle) h = h
Step-IsFine (binds_path {l} true path handle) h = h
Step-IsFine (binds_path {l} false path handle) h = h
Step-IsFine (serves {l} id change) h = serve-IsBelow id change l.n_clients l.clients h
Step-IsFine {l' = q} (stops_server {l} can_remove ran) h =
    RunLeaves-EndsIn IsFine (stop_server can_remove l) q
      (stop_handles-IsFine (remove_files can_remove l.unix_domain_sockets l)
        (remove_files-IsFine can_remove l.unix_domain_sockets l h))
      ran

Reachable-IsFine : {l : Listener} → Reachable l → IsFine l
unfolding new_listener
Reachable-IsFine starts = tt
Reachable-IsFine (goes_on r s) = Step-IsFine s (Reachable-IsFine r)

IsBelow-get_elem? :
    (bound i : ℕ) (cs : List ServerClient) (c : ServerClient)
    → IsBelow bound cs
    → get_elem? cs i ≡ some c
    → c.client_id < bound
IsBelow-get_elem? bound i [] c h at = cc
IsBelow-get_elem? bound zero (x ∷ cs) c (lt, h) at = ground (arith, lt, at)
IsBelow-get_elem? bound (suc i) (x ∷ cs) c (lt, h) at =
    omega (arith, IsBelow-get_elem? x.client_id i cs c h at, lt)

IsBelow-distinct :
    (bound i j : ℕ) (cs : List ServerClient) (c d : ServerClient)
    → IsBelow bound cs
    → get_elem? cs i ≡ some c
    → get_elem? cs j ≡ some d
    → c.client_id ≡ d.client_id
    → i ≡ j
IsBelow-distinct bound i j [] c d h at at' same = cc
IsBelow-distinct bound zero zero (x ∷ cs) c d h at at' same = refl
IsBelow-distinct bound zero (suc j) (x ∷ cs) c d (lt, h) at at' same =
    ground (arith, at, same, IsBelow-get_elem? x.client_id j cs d h at')
IsBelow-distinct bound (suc i) zero (x ∷ cs) c d (lt, h) at at' same =
    ground (arith, at', same, IsBelow-get_elem? x.client_id i cs c h at)
IsBelow-distinct bound (suc i) (suc j) (x ∷ cs) c d (lt, h) at at' same =
    omega (arith, IsBelow-distinct x.client_id i j cs c d h at at' same)

-- Whatever connections come, are served and go, no two clients in the list of a server have one id,
-- and all of them have ids below the one that the next client gets.
pub Reachable-client_id :
    (l : Listener)
    → Reachable l
    → (i j : ℕ) (c d : ServerClient) → get_elem? l.clients i ≡ some c
    → get_elem? l.clients j ≡ some d
    → (c.client_id < l.n_clients) × (c.client_id ≡ d.client_id → i ≡ j)
Reachable-client_id l r i j c d at at' = (
  IsBelow-get_elem? l.n_clients i l.clients c (Reachable-IsFine r) at,
  IsBelow-distinct l.n_clients i j l.clients c d (Reachable-IsFine r) at at',
)
