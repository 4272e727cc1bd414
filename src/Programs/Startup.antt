-- ===== src/Programs/Startup.antt =====
-- How the programs come to serve, or end before.
use smoljudge.Prelude.{ℕ, ◌≡◌, ◌⊎◌, true, false, List, [], ◌∷◌, some}
use smoljudge.Prelude.Outcome.{Outcome, ok}
use smoljudge.Prelude.Text.{Text}
use smoljudge.Wire.Types.{Bytes}
use smoljudge.Socket.{Conn}
use smoljudge.Rpc.Session.{Endpoint}
use smoljudge.Rpc.Client.{ClientState, connect}
use smoljudge.Rpc.Listener.{Listener, new_listener}
use smoljudge.Rpc.Address.{Target, client_target, initial_client}
use smoljudge.Programs.{Config, System, Program}
use smoljudge.Programs.Binding.{IsBound}
use smoljudge.Programs.Ends.{IsOne}

module _ {A : Type 0} (sys : System A) where
  -- The text of the configuration file is that of `config` and nothing more.
  pub record IsParsed (text : Bytes) (config : Config) : Type 0 where
    pub rest : Bytes
    pub parsed : sys.parse text ≡ ok (config, rest)
    pub whole : sys.more rest ≡ false

  -- The one argument names a file in a directory that can be entered, with this configuration.
  pub record IsLoaded (argv : List Text) (config : Config) : Type 0 where
    pub program : Text
    pub path : Text
    pub text : Bytes
    pub one_argument : argv ≡ program ∷ (path ∷ [])
    pub entered : sys.enter path ≡ true
    pub opened : sys.open_file path ≡ some text
    pub is_parsed : IsParsed text config

  -- The registry serves on what its configuration lists.
  pub record Serves (argv : List Text) (p : Program Listener) : Type 0 where
    pub config : Config
    pub addresses : List (Outcome Text)
    pub loaded : IsLoaded argv config
    pub listed : config.listen ≡ ok addresses
    pub is_bound : IsBound sys addresses 0 new_listener p.part

  -- The invoker connects to the broker that its configuration names.
  pub record Dials (argv : List Text) (p : Program (Target A × Conn (Endpoint ClientState)))
      : Type 0 where
    pub config : Config
    pub address : Text
    pub loaded : IsLoaded argv config
    pub named : config.broker ≡ ok address
    pub target : client_target sys.resolve address ≡ ok p.part.0
    pub connects : p.part.1 ≡ connect initial_client

  -- The broker returned 0 once its configuration was read, or 1 because it could not be.
  abbrev pub IsBrokerCode : List Text → ℕ → Type 0
  IsBrokerCode argv code = IsOne code ⊎ ((code ≡ 0) × ((config : Config) × IsLoaded argv config))
