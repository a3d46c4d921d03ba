-- ===== src/Examples/AppTests.antt =====
-- An application on a machine where every file is there, and its life.
use newtbig.Prelude.{
  ◌≡◌, refl, Bool, true, false, [], ◌∷◌, none, some, ok, codes, All, ◌==◌, bytes_eq, bytes_beq,
  if◌then◌else◌,
}
use newtbig.Options.{Options}
use newtbig.Options.Settings
use newtbig.App.Configuration.{
  Environment, Config, Started, defaults, apply_all, parse_flags, find_work_dir, read_config,
  find_logs, load, configure, new_options,
}
use newtbig.App.Precedence.{Configured, new_options-Configured}
use newtbig.App.Life.{App, World, Step, start_rpc, failed, try_call, on_init, run}
use newtbig.App.Order.{IsInit, run_failed}
use newtbig.Registry
use newtbig.Registry.{
  before_start, start, register, after_start, before_stop, deregister, stop, after_stop,
}
use newtbig.Examples.Keys.{list_keys}
use newtbig.Examples.ServiceTests.{test_options}

abbrev config : Config
config = record {
  get_string = λ k. if k == codes "app.port" then codes "80" else [];
  get_string_slice = λ k. codes "h1" ∷ [];
  get_uint32 = λ k. 0;
}

abbrev machine : Environment
machine = record {
  flags = record { wdir = []; conf = []; name = codes "l2"; port = [] };
  cwd = codes "/srv";
  getwd = some (codes "/srv");
  executable_dir = [];
  chdir = λ cwd dir. dir;
  opens = λ cwd path. true;
  makes = λ cwd path. false;
  read_in_config = λ cwd path name. some config;
}

abbrev chosen : Options
chosen = record (defaults 1) {
  dis_rep = 3;
  work_dir = codes "/srv";
  etcd_hosts = codes "h1" ∷ [];
  nats_hosts = codes "h1" ∷ [];
  server_name = codes "l2";
  server_port = codes "80";
  server_con_types = codes "h1" ∷ [];
}

abbrev outcome : Started
outcome = record { options = chosen; logs_path = codes "/srv/logs/"; log_name = codes "__l2" }

configured : new_options machine 1 (Settings.dis_rep 3 ∷ []) ≡ ok outcome
unfolding new_options apply_all parse_flags configure find_work_dir read_config find_logs load
    defaults bytes_beq Settings.dis_rep
configured = refl

new_options-Configured_example :
    ((apply_all (Settings.dis_rep 3 ∷ []) (defaults 1)).parse ≡ true)
    × Configured machine (apply_all (Settings.dis_rep 3 ∷ []) (defaults 1)) outcome
new_options-Configured_example =
    new_options-Configured machine 1 (Settings.dis_rep 3 ∷ []) outcome configured

abbrev app : App list_keys
app = record { opts = test_options; is_gate = false; dispatcher = none; registe = false }

-- A world in which one step may fail.
abbrev world : Bool → World
world broken = record {
  fails = λ s. is_rpc broken s;
  service_fails = λ c. false;
  lasts = λ s. some 3000;
  hostname = codes "host";
  pid = codes "1";
}
  where
    is_rpc : Bool → Step → Bool
    is_rpc b start_rpc = b
    is_rpc b _ = false

rpc_failed : (run (world true) app).1.1 ≡ some (failed start_rpc)
unfolding run on_init try_call
rpc_failed = refl

run_failed_example : All IsInit (run (world true) app).1.0
run_failed_example = run_failed (world true) app (failed start_rpc) rpc_failed
