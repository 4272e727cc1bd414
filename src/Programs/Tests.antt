-- ===== src/Programs/Tests.antt =====
-- The programs with a small configuration.
use smoljudge.Prelude.{ℕ, ◌≡◌, refl, true, false, [], ◌∷◌, some}
use smoljudge.Prelude.Outcome.{ok}
use smoljudge.Prelude.Run.{done}
use smoljudge.Prelude.Text.{codes}
use smoljudge.Rpc.Listener.{
  Listener, new_listener, bind_impl, on_listen, stop_server, remove_files, stop_handles,
}
use smoljudge.Programs.{
  Config, System, Program, sigint, sighup, sigterm, handle_signals, on_signal, on_server_signal,
}

abbrev config : Config
config = record {
  data_dir = ok (codes "registry_data");
  broker = ok (codes "localhost:57000");
  listen = ok (ok (codes "./broker.sock") ∷ (ok (codes "localhost:57000") ∷ []));
}

abbrev system : System ℕ
system = record {
  enter = λ path. true;
  open_file = λ path. some [];
  parse = λ text. ok (config, []);
  more = λ rest. false;
  exists = λ path. false;
  resolve = λ host port. some 57000;
  make_registry = λ dir. ok tt;
}

-- One client is connected.
abbrev running : Program Listener
running = handle_signals (on_listen (bind_impl 0 new_listener))

signalled :
    on_server_signal (λ path. true) running
    ≡ done (record {
      signals = [];
      closed_signals = sigint ∷ sighup ∷ sigterm ∷ [];
      part = stop_handles (on_listen (bind_impl 0 new_listener));
    })
unfolding on_server_signal on_signal handle_signals stop_server remove_files stop_handles on_listen
    bind_impl new_listener
signalled = refl
