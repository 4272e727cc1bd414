-- ===== src/Rpc/Listener.antt =====
-- rpc/src/server.cpp: the connections and the listening sockets of `generic_server`. Files and
-- handles of the system are known by the calls on them, which are kept in order.
pub mod Identities
pub mod Stopping
mod Tests
use smoljudge.Prelude.{ℕ, ◌+◌, Bool, true, List, [], ◌∷◌, ◌++◌, map, ◌==◌, if◌then◌else◌}
use smoljudge.Prelude.Outcome.{filesystem_error}
use smoljudge.Prelude.Run.{Run, done, raised, EndsIn, ◌>>=◌}
use smoljudge.Prelude.Text.{Text}
use smoljudge.Socket.{Socket, new_socket, reads, calls, stop}

-- A `server_client`, by what the list of clients needs of it.
pub record ServerClient : Type 0 where
  pub client_id : ℕ
  pub socket : Socket

-- A listening handle stands for its entry in `server_stop_methods`. `removed` and `closed` are the
-- files that were removed and the handles that were stopped and closed.
pub record Listener : Type 0 where
  pub clients : List ServerClient
  pub n_clients : ℕ
  pub unix_domain_sockets : List Text
  pub server_stop_methods : List ℕ
  pub removed : List Text
  pub closed : List ℕ

unfoldable pub new_listener : Listener
new_listener = record {
  clients = [];
  n_clients = 0;
  unix_domain_sockets = [];
  server_stop_methods = [];
  removed = [];
  closed = [];
}

-- The handler of `uvw::ListenEvent`: the client is put in front of the others.
unfoldable pub on_listen : Listener → Listener
unfolding new_socket calls
on_listen l = record l {
  clients = record { client_id = l.n_clients; socket = calls reads (new_socket true) } ∷ l.clients;
  n_clients = l.n_clients + 1;
}

-- `clients.erase(it)`, in the handler of `uvw::CloseEvent`.
unfoldable pub erase_client : ℕ → List ServerClient → List ServerClient
erase_client id [] = []
erase_client id (c ∷ cs) =
    let rest = erase_client id cs in if c.client_id == id then cs else c ∷ rest

unfoldable pub on_client_close : ℕ → Listener → Listener
unfolding erase_client
on_client_close id l = record l { clients = erase_client id l.clients }

-- `_bind_impl`, which gets a new handle from the loop, and the two branches of `bind`.
unfoldable pub bind_impl : ℕ → Listener → Listener
bind_impl handle l = record l { server_stop_methods = l.server_stop_methods ++ handle ∷ [] }

unfoldable pub bind_path : Bool → Text → ℕ → Listener → Listener
unfolding bind_impl
bind_path file_exists path handle l =
    if file_exists
    then l
    else record (bind_impl handle l) { unix_domain_sockets = l.unix_domain_sockets ++ path ∷ [] }

unfoldable pub stop_connection : ServerClient → ServerClient
unfolding stop
stop_connection c = record c { socket = stop c.socket }

-- The loop over the files: `std::filesystem::remove` throws at one that it cannot remove.
-- `can_remove` stands for the file system; a file that is not there counts as removed.
unfoldable pub remove_files : (Text → Bool) → List Text → Listener → Run Listener
remove_files can_remove [] l = done l
remove_files can_remove (path ∷ paths) l =
    let rest = remove_files can_remove paths (record l { removed = l.removed ++ path ∷ [] }) in
    if can_remove path then rest else raised filesystem_error l

-- What `generic_server::stop` does once all files have been removed.
unfoldable pub stop_handles : Listener → Listener
unfolding stop_connection
stop_handles l = record l {
  clients = map stop_connection l.clients;
  unix_domain_sockets = [];
  server_stop_methods = [];
  closed = l.closed ++ l.server_stop_methods;
}

-- `generic_server::stop`.
unfoldable pub stop_server : (Text → Bool) → Listener → Run Listener
unfolding remove_files stop_handles
stop_server can_remove l =
    remove_files can_remove l.unix_domain_sockets l >>= λ l'. done (stop_handles l')

-- What the socket of a client goes through on its own.
unfoldable pub serve : ℕ → (Socket → Socket) → List ServerClient → List ServerClient
serve id change [] = []
serve id change (c ∷ cs) =
    let rest = serve id change cs in
    (if c.client_id == id then record c { socket = change c.socket } else c) ∷ rest

-- The steps that a server takes, each an event or a call.
pub data Step : Listener → Listener → Type 0 where
  listens : {l : Listener} → Step l (on_listen l)
  closes_client : {l : Listener} (id : ℕ) → Step l (on_client_close id l)
  binds : {l : Listener} (handle : ℕ) → Step l (bind_impl handle l)
  binds_path :
      {l : Listener} (file_exists : Bool) (path : Text) (handle : ℕ)
      → Step l (bind_path file_exists path handle l)
  serves :
      {l : Listener} (id : ℕ) (change : Socket → Socket)
      → Step l (record l { clients = serve id change l.clients })
  stops_server :
      {l l' : Listener} (can_remove : Text → Bool)
      → EndsIn (stop_server can_remove l) l'
      → Step l l'

pub data Reachable : Listener → Type 0 where
  starts : Reachable new_listener
  goes_on : {l l' : Listener} → Reachable l → Step l l' → Reachable l'
