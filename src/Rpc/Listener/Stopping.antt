-- ===== src/Rpc/Listener/Stopping.antt =====
-- What a stop of the server leaves, whether the files of its sockets can be removed or not.
use smoljudge.Prelude.{
  ◌≡◌, refl, sym, ap, ◌∙◌, Bool, true, false, List, [], ◌∷◌, ◌++◌, append_assoc, append-nil, map,
  ◌⊎◌, inl, inr, Bool-cases, All,
}
use smoljudge.Prelude.Outcome.{filesystem_error}
use smoljudge.Prelude.Run.{done, raised}
use smoljudge.Prelude.Text.{Text}
use smoljudge.Socket.Stream.{stop-IsStopped, stop-stop}
use smoljudge.Rpc.Listener.{
  ServerClient, Listener, stop_connection, remove_files, stop_handles, stop_server,
}

-- A connection that is stopped is neither connected nor open.
abbrev pub IsStopped : ServerClient → Type 0
IsStopped c = (c.socket.is_connected ≡ false) × (c.socket.is_open ≡ false)

map-IsStopped : (cs : List ServerClient) → All IsStopped (map stop_connection cs)
unfolding stop_connection
map-IsStopped [] = tt
map-IsStopped (c ∷ cs) = (stop-IsStopped c.socket, map-IsStopped cs)

map-client_id :
    (cs : List ServerClient)
    → map (λ c. c.client_id) (map stop_connection cs) ≡ map (λ c. c.client_id) cs
unfolding stop_connection
map-client_id [] = refl
map-client_id (c ∷ cs) = ap (λ ids. c.client_id ∷ ids) (map-client_id cs)

stop_connection_twice :
    (cs : List ServerClient) → map stop_connection (map stop_connection cs) ≡ map stop_connection cs
unfolding stop_connection
stop_connection_twice [] = refl
stop_connection_twice (c ∷ cs) = rw (stop-stop c.socket, stop_connection_twice cs) refl

module _ (can_remove : Text → Bool) where
  abbrev pub CanRemove : Text → Type 0
  CanRemove path = can_remove path ≡ true

  -- Files that can be removed are removed, one after the other, and the loop goes on behind them.
  remove_files-append :
      (paths more : List Text) (l : Listener)
      → All CanRemove paths
      → remove_files can_remove (paths ++ more) l
        ≡ remove_files can_remove more (record l { removed = l.removed ++ paths })
  unfolding remove_files
  remove_files-append [] more l can =
      ap (λ removed. remove_files can_remove more (record l { removed = removed }))
        (sym (append-nil l.removed))
  remove_files-append (path ∷ paths) more l (one, can) = rw one (
      remove_files-append paths more (record l { removed = l.removed ++ path ∷ [] }) can
      ∙ ap (λ removed. remove_files can_remove more (record l { removed = removed }))
          (append_assoc l.removed (path ∷ []) paths))

  remove_files_each :
      (paths : List Text) (l : Listener)
      → All CanRemove paths
      → remove_files can_remove paths l ≡ done (record l { removed = l.removed ++ paths })
  unfolding remove_files
  remove_files_each paths l can =
      ap (λ files. remove_files can_remove files l) (sym (append-nil paths))
      ∙ remove_files-append paths [] l can

  remove_files_stuck :
      (before : List Text) (path : Text) (after : List Text) (l : Listener)
      → All CanRemove before
      → can_remove path ≡ false
      → remove_files can_remove (before ++ path ∷ after) l
        ≡ raised filesystem_error (record l { removed = l.removed ++ before })
  unfolding remove_files
  remove_files_stuck before path after l can cannot =
      remove_files-append before (path ∷ after) l can ∙ rw cannot refl

  -- Of the files one cannot be removed, and those before it can.
  pub record Stuck (paths : List Text) : Type 0 where
    pub before : List Text
    pub path : Text
    pub after : List Text
    pub splits : paths ≡ before ++ path ∷ after
    pub removable : All CanRemove before
    pub cannot : can_remove path ≡ false

  Stuck-cases : (paths : List Text) → All CanRemove paths ⊎ Stuck paths
  Stuck-cases [] = inl tt
  Stuck-cases (path ∷ paths) = elim (Bool-cases (can_remove path)) [
    | inr cannot ↦ inr (record {
      before = [];
      path = path;
      after = paths;
      splits = refl;
      removable = tt;
      cannot = cannot;
    })
    | inl can ↦ elim (Stuck-cases paths) [
      | inl all ↦ inl (can, all)
      | inr s ↦ inr (record {
        before = path ∷ s.before;
        path = s.path;
        after = s.after;
        splits = ap (λ rest. path ∷ rest) s.splits;
        removable = (can, s.removable);
        cannot = s.cannot;
      })
    ]
  ]

-- What a stop leaves if all files are removed.
abbrev stopped_of : Listener → Listener
stopped_of l = record {
  clients = map stop_connection l.clients;
  n_clients = l.n_clients;
  unix_domain_sockets = [];
  server_stop_methods = [];
  removed = l.removed ++ l.unix_domain_sockets;
  closed = l.closed ++ l.server_stop_methods;
}

stop_server_again :
    (can_remove : Text → Bool) (l : Listener)
    → stop_server can_remove (stopped_of l) ≡ done (stopped_of l)
unfolding stop_server remove_files stop_handles
stop_server_again can_remove l =
    rw (stop_connection_twice l.clients, append-nil (l.closed ++ l.server_stop_methods)) refl

-- A stop of the server ends in one of two ways. If every file of its sockets can be removed, they
-- are removed in order, every listening handle is closed and every client is stopped, and another
-- stop changes nothing. Otherwise it throws at the first file that cannot be removed: the files before
-- it are gone, and no listening handle is closed and no client stopped.
pub stop_server-IsStopped :
    (can_remove : Text → Bool) (l : Listener)
    → (All (CanRemove can_remove) l.unix_domain_sockets
        × ((q : Listener) × (stop_server can_remove l ≡ done q)
            × All IsStopped q.clients
            × (map (λ c. c.client_id) q.clients ≡ map (λ c. c.client_id) l.clients)
            × (q.removed ≡ l.removed ++ l.unix_domain_sockets)
            × (q.closed ≡ l.closed ++ l.server_stop_methods)
            × ((can_now : Text → Bool) → stop_server can_now q ≡ done q)))
      ⊎ ((s : Stuck can_remove l.unix_domain_sockets) × (stop_server can_remove l
            ≡ raised filesystem_error (record l { removed = l.removed ++ s.before })))
unfolding stop_server stop_handles
stop_server-IsStopped can_remove l = elim (Stuck-cases can_remove l.unix_domain_sockets) [
  | inl all ↦ inl (
    all,
    (
      stopped_of l,
      rw (remove_files_each can_remove l.unix_domain_sockets l all) refl,
      map-IsStopped l.clients,
      map-client_id l.clients,
      refl,
      refl,
      λ can_now. stop_server_again can_now l,
    ),
  )
  | inr s ↦ inr (
    s,
    rw
        (ap (λ paths. remove_files can_remove paths l) s.splits
          ∙ remove_files_stuck can_remove s.before s.path s.after l s.removable s.cannot)
        refl,
  )
]
