-- ===== src/Rpc/Address.antt =====
-- Addresses, which the constructor of `generic_client` in rpc/src/client.cpp and `bind` in
-- rpc/src/server.cpp read in the same words. The resolution of names by the system is a parameter,
-- from a host and a port to an address of type `A`.
pub mod Splitting
mod Tests
use smoljudge.Prelude.{
  ℕ, zero, suc, ◌+◌, Bool, true, false, ◌&&◌, ◌||◌, List, [], ◌∷◌, take, drop, get_elem?, ◌==◌,
  if◌then◌else◌, Option, none, some,
}
use smoljudge.Prelude.Outcome.{Outcome, ok, throws, undefined, ◌>>=◌, no_port, unresolved_name}
use smoljudge.Prelude.Run.{Run, done, raised, wild}
use smoljudge.Prelude.Text.{Text}
use smoljudge.Socket.{Conn, new_socket}
use smoljudge.Rpc.Session.{Endpoint, new_session}
use smoljudge.Rpc.Client.{ClientState, ClientPeer, connect}
use smoljudge.Rpc.Listener.{Listener, bind_impl, bind_path}

-- `std::string::operator[]`, which reads a zero behind the last character.
unfoldable pub char_at : Text → ℕ → ℕ
char_at s i = elim (get_elem? s i) [ none ↦ 0 | some c ↦ c ]

-- `address[0] == '/' || (address[0] == '.' && address[1] == '/')`
unfoldable pub is_path : Text → Bool
unfolding char_at
is_path address =
    (char_at address 0 == b'/') || ((char_at address 0 == b'.') && (char_at address 1 == b'/'))

-- `std::string::rfind` of one character.
unfoldable pub rfind : ℕ → Text → Option ℕ
rfind c [] = none
rfind c (x ∷ s) = elim (rfind c s) [
  | some i ↦ some (suc i)
  | none ↦ if x == c then some 0 else none
]

-- What a connection is made to or a listening handle is bound to.
pub data Target (A : Type 0) : Type 0 where
  unix : Text → Target A
  tcp : A → Target A

-- The members of a client before its constructor runs; its `sock` is null.
unfoldable pub initial_client : ClientPeer
unfolding new_session new_socket
initial_client = record {
  socket = new_socket false;
  owner = record {
    session = new_session;
    state = record {
      has_sock = false;
      is_active = true;
      n_failures = 0;
      timer = none;
      timers = [];
      started_timers = 0;
      pending_messages = [];
    };
  };
}

-- `_bind_impl` on what the name was resolved to.
abbrev pub bound : {A : Type 0} → Outcome A → ℕ → Listener → Run Listener
bound (ok a) handle l = done (bind_impl handle l)
bound (throws e) handle l = raised e l
bound undefined handle l = wild

module _ {A : Type 0} (resolve : Text → Text → Option A) where
  -- `addrInfoSync` and the test of its result.
  unfoldable pub resolve_name : Text → Text → Outcome A
  resolve_name host port = elim (resolve host port) [
    | none ↦ throws unresolved_name
    | some a ↦ ok a
  ]

  unfoldable pub tcp_address : Text → Outcome A
  unfolding resolve_name rfind
  tcp_address address = elim (rfind b':' address) [
    | none ↦ throws no_port
    | some i ↦ resolve_name (take i address) (drop (i + 1) address)
  ]

  -- What the constructor of `generic_client` puts into `_do_connect`.
  unfoldable pub client_target : Text → Outcome (Target A)
  unfolding is_path tcp_address
  client_target address =
      if is_path address then ok (unix address) else (tcp_address address >>= λ a. ok (tcp a))

  -- The constructor, with what `_do_connect` connects to from then on.
  unfoldable pub new_client : Text → Outcome (Target A × Conn (Endpoint ClientState))
  unfolding client_target initial_client
  new_client address = client_target address >>= λ target. ok (target, connect initial_client)

  -- `generic_server::bind`; `exists` tells which files there are, and `handle` is the one that the
  -- loop gives.
  unfoldable pub bind : (Text → Bool) → Text → ℕ → Listener → Run Listener
  unfolding is_path tcp_address
  bind exists address handle l =
      if is_path address
      then done (bind_path (exists address) address handle l)
      else bound (tcp_address address) handle l
