-- ===== src/Programs.antt =====
-- The entry points registry/src/main.cpp, invoker/src/main.cpp and broker/src/main.cpp: how they read
-- their configuration, what they start, and what a signal does. The file system, the JSON parser, the
-- resolution of names and the constructor of `registry` are parameters.
pub mod Ends
pub mod Binding
pub mod Startup
mod Tests
use smoljudge.Prelude.{
  ℕ, suc, ◌+◌, Bool, List, [], ◌∷◌, ◌++◌, length, if◌then◌else◌, Option, none, some,
}
use smoljudge.Prelude.Outcome.{Error, Outcome, ok, throws, undefined}
use smoljudge.Prelude.Run.{Run, done, raised, wild}
use smoljudge.Prelude.Text.{Text}
use smoljudge.Wire.Types.{Bytes}
use smoljudge.Socket.{Conn}
use smoljudge.Rpc.Session.{Endpoint}
use smoljudge.Rpc.Client.{ClientPeer, stop_client, ClientState}
use smoljudge.Rpc.Listener.{Listener, new_listener, stop_server}
use smoljudge.Rpc.Address.{Target, bind, new_client}

-- What the programs read from the parsed configuration; reading a key throws when it is missing or
-- of another type, and so does reading an element of the list.
pub record Config : Type 0 where
  pub data_dir : Outcome Text
  pub broker : Outcome Text
  pub listen : Outcome (List (Outcome Text))

-- `enter` tells whether the directory of the file can be made the current one, `parse` is
-- `fin >> config` with what is left of the input, and `more` is whether `fin >> c` reads a character
-- of that.
pub record System (A : Type 0) : Type 0 where
  pub enter : Text → Bool
  pub open_file : Text → Option Bytes
  pub parse : Bytes → Outcome (Config × Bytes)
  pub more : Bytes → Bool
  pub exists : Text → Bool
  pub resolve : Text → Text → Option A
  pub make_registry : Text → Outcome (Unit {0})

-- What `main` comes to: it runs its loop, it returns a code, or an exception leaves it, or its
-- behaviour is undefined.
pub data Main (S : Type 0) : Type 0 where
  serving : S → Main S
  returned : ℕ → Main S
  uncaught : Error → Main S
  unspecified : Main S

abbrev pub main_then : {S T : Type 0} → Main S → (S → Main T) → Main T
main_then (serving s) k = k s
main_then (returned code) k = returned code
main_then (uncaught e) k = uncaught e
main_then unspecified k = unspecified

abbrev pub main_value : {A S : Type 0} → Outcome A → (A → Main S) → Main S
main_value (ok a) k = k a
main_value (throws e) k = uncaught e
main_value undefined k = unspecified

module _ {A : Type 0} (sys : System A) where
  -- `fin >> config; char c; if(fin >> c) { ... return 1; }`
  unfoldable pub parse_config : Bytes → Main Config
  parse_config text =
      main_value (sys.parse text)
        λ (config, rest). if sys.more rest then returned 1 else serving config

  -- The first part of each `main`, which the three have in the same words.
  unfoldable pub load_config : List Text → Main Config
  unfolding parse_config
  load_config (program ∷ (path ∷ [])) =
      if sys.enter path
      then elim (sys.open_file path) [ none ↦ returned 1 | some text ↦ parse_config text ]
      else returned 1
  load_config argv = returned 1

  abbrev started : Run Listener → (Listener → Main Listener) → Main Listener
  started (done l) k = k l
  started (raised e l) k = uncaught e
  started wild k = unspecified

  -- `for(const std::string& address: config.at("listen")) server.bind(address);`
  unfoldable pub bind_all : List (Outcome Text) → ℕ → Listener → Main Listener
  unfolding bind
  bind_all [] handle l = serving l
  bind_all (address ∷ rest) handle l = main_value address λ text.
      started (bind sys.resolve sys.exists text handle l) λ l'. bind_all rest (suc handle) l'

-- The `SignalHandle`s of a program, with what has been stopped and closed of them, around what its
-- `main` holds.
pub record Program (S : Type 0) : Type 0 where
  pub signals : List ℕ
  pub closed_signals : List ℕ
  pub part : S

abbrev pub sighup : ℕ
sighup = 1

abbrev pub sigint : ℕ
sigint = 2

abbrev pub sigterm : ℕ
sigterm = 15

-- `for(int signum: {SIGINT, SIGHUP, SIGTERM})`, with a handle for each.
unfoldable pub handle_signals : {S : Type 0} → S → Program S
handle_signals s = record {
  signals = sigint ∷ sighup ∷ sigterm ∷ [];
  closed_signals = [];
  part = s;
}

-- The handler of `uvw::SignalEvent`, where `stop` is that of the server or the client.
unfoldable pub on_signal : {S : Type 0} → (S → Run S) → Program S → Run (Program S)
on_signal stop p =
    let cleared = record p { signals = []; closed_signals = p.closed_signals ++ p.signals } in
    elim (stop p.part) [
      | done s ↦ done (record cleared { part = s })
      | raised e s ↦ raised e (record cleared { part = s })
      | wild ↦ wild
    ]

module _ {A : Type 0} (sys : System A) where
  unfoldable pub registry_main : List Text → Main (Program Listener)
  unfolding load_config bind_all handle_signals new_listener
  registry_main argv = main_then (load_config sys argv) λ config. main_value config.data_dir λ dir.
      main_value (sys.make_registry dir) λ made. main_value config.listen λ addresses.
        main_then (bind_all sys addresses 0 new_listener) λ l. serving (handle_signals l)

  -- What stands behind the `return 0` is never run; `queue::add_submission` does nothing.
  unfoldable pub add_submission : {S : Type 0} → S → ℕ
  add_submission submission = 0

  unfoldable pub broker_main : List Text → Main (Program Listener)
  unfolding load_config
  broker_main argv = main_then (load_config sys argv) λ config. returned 0

  unfoldable pub invoker_main : List Text → Main (Program (Target A × Conn (Endpoint ClientState)))
  unfolding load_config new_client handle_signals
  invoker_main argv = main_then (load_config sys argv) λ config. main_value config.broker λ address.
      main_value (new_client sys.resolve address) λ client. serving (handle_signals client)

-- What a signal does to a server program, where `can_remove` is as in `stop_server`.
unfoldable pub on_server_signal : (Text → Bool) → Program Listener → Run (Program Listener)
unfolding on_signal stop_server
on_server_signal can_remove p = on_signal (stop_server can_remove) p

-- And to a client program.
unfoldable pub on_client_signal :
    {A : Type 0}
    → Program (Target A × Conn (Endpoint ClientState))
    → Run (Program (Target A × Conn (Endpoint ClientState)))
unfolding on_signal
on_client_signal p =
    on_signal (λ (target, conn). done (target, record conn { peer = stop_client conn.peer })) p
