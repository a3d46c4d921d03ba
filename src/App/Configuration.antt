-- ===== src/App/Configuration.antt =====
-- How an application gets its options, app/options.go: defaults, settings, flags, configuration.
-- The command line, the file system and viper are parameters. What is printed is left out.
use newtbig.Prelude.{
  ℕ, Bool, true, false, List, [], ◌∷◌, ◌++◌, Option, none, some, ltb, ◌==◌, bytes_eq, ◌||◌,
  if◌then◌else◌, Bytes, codes, Result, ok, err, ◌>>=◌, nat_eq,
}
use newtbig.Options.{Options}
use newtbig.Options.Settings.{Setting}

-- The panics of newOptions, by what was wrong.
pub data Panic : Type 0 where
  nil_dereference no_work_dir no_config_file no_config no_logs_dir no_etcd_hosts no_nats_hosts :
      Panic

-- What `flag.Parse` leaves in the four flags, each "" where the flag is not given.
pub record Flags : Type 0 where
  pub wdir : Bytes
  pub conf : Bytes
  pub name : Bytes
  pub port : Bytes

-- viper after `ReadInConfig`: the value of a key, or the zero value for a missing one.
pub record Config : Type 0 where
  pub get_string : Bytes → Bytes
  pub get_string_slice : Bytes → List Bytes
  pub get_uint32 : Bytes → ℕ

-- What the process finds: the operating system, from a working directory, and viper.
pub record Environment : Type 0 where
  pub flags : Flags
  pub cwd : Bytes
  -- os.Getwd, and the directory of the executable where that fails.
  pub getwd : Option Bytes
  pub executable_dir : Bytes
  -- The working directory after os.Chdir, whose error is not looked at.
  pub chdir : Bytes → Bytes → Bytes
  -- Whether os.Open and os.Mkdir succeed.
  pub opens : Bytes → Bytes → Bool
  pub makes : Bytes → Bytes → Bool
  pub read_in_config : Bytes → Bytes → Bytes → Option Config

-- The options and the arguments of logging.InitLog.
pub record Started : Type 0 where
  pub options : Options
  pub logs_path : Bytes
  pub log_name : Bytes

unfoldable pub defaults : ℕ → Options
defaults processor = record {
  context = none;
  host_name = [];
  pid = [];
  metadata = [];
  version = [];
  run_mode = [];
  debug = false;
  parse = true;
  work_dir = [];
  app_name = [];
  conf_name = codes "app";
  etcd_hosts = [];
  etcd_user = [];
  etcd_password = [];
  etcd_cert_file = [];
  etcd_key_file = [];
  net_type = codes "tcp";
  server_type = [];
  server_name = [];
  server_ip = [];
  server_ip_out = [];
  server_port = [];
  server_con_types = [];
  heart_beat_interval = 10;
  exit_wait_ttl = 10;
  register_interval = 3;
  register_ttl = 5;
  rpc_expired = 5;
  rpc_max_coroutine = 0;
  max_conn = 100000;
  max_packet_size = 4096;
  read_deadline = 60;
  write_deadline = 60;
  rpm_limit = 20;
  max_msg_chan_len = 128;
  net_head_size = 2;
  byte_order = true;
  nats_hosts = [];
  serv = none;
  process = some processor;
  rpc = none;
  dis_len = 10000;
  dis_rep = 5;
  hb_back = false;
  q_msg_len = 10000;
}

unfoldable pub apply_all : List Setting → Options → Options
apply_all [] opt = opt
apply_all (o ∷ opts) opt = apply_all opts (o opt)

-- The pointers to the flags are nil where the command line is not parsed.
unfoldable pub parse_flags : Environment → Options → Option Flags
parse_flags env opt = if opt.parse then some env.flags else none

-- The working directory of the options, and that of the process.
unfoldable pub find_work_dir : Environment → Flags → Result Panic (Bytes × Bytes)
find_work_dir env flags =
    if flags.wdir == []
    then elim env.getwd [ some dir ↦ ok (dir, env.cwd) | none ↦ ok (env.executable_dir, env.cwd) ]
    else if env.opens env.cwd flags.wdir
    then ok (flags.wdir, env.chdir env.cwd flags.wdir)
    else err no_work_dir

abbrev pub config_path : Bytes → Bytes
config_path work_dir = work_dir ++ codes "/config"

abbrev pub config_file : Bytes → Bytes → Bytes
config_file work_dir conf_name = config_path work_dir ++ codes "/" ++ conf_name ++ codes ".yaml"

-- `conf`, where it is given, in place of the name that the settings chose.
abbrev pub given_or : Bytes → Bytes → Bytes
given_or given otherwise = if given == [] then otherwise else given

unfoldable pub read_config : Environment → Bytes → Bytes → Bytes → Result Panic Config
read_config env cwd work_dir conf_name =
    if env.opens cwd (config_file work_dir conf_name)
    then elim (env.read_in_config cwd (config_path work_dir) conf_name) [
      | some config ↦ ok config
      | none ↦ err no_config
    ]
    else err no_config_file

unfoldable pub find_logs : Environment → Bytes → Bytes → Config → Result Panic Bytes
find_logs env cwd work_dir config =
    let logs_path =
      given_or (config.get_string (codes "app.logPath")) (work_dir ++ codes "/logs/") in
    if env.opens cwd logs_path
    then ok logs_path
    else if env.makes cwd logs_path
    then ok logs_path
    else err no_logs_dir

-- A certificate or key of the configuration, in the directory `config/tls`.
abbrev pub tls_file : Bytes → Bytes → Bytes → Bytes
tls_file work_dir file otherwise =
    if file == [] then otherwise else work_dir ++ codes "/config/tls/" ++ file

-- A number of the configuration, where it is positive.
abbrev pub positive_or : ℕ → ℕ → ℕ
positive_or n otherwise = if ltb 0 n then n else otherwise

abbrev pub debug_of : Bytes → Bool → Bool
debug_of run_mode debug =
    if run_mode == codes "debug"
    then true
    else if run_mode == codes "release" || run_mode == codes "dev"
    then false
    else debug

unfoldable pub load : Config → Flags → Options → Result Panic Options
load config flags opt =
    let text = config.get_string in
    let etcd_hosts = config.get_string_slice (codes "app.etcd.hosts") in
    let nats_hosts = config.get_string_slice (codes "app.nats.hosts") in
    elim etcd_hosts [
      | [] ↦ err no_etcd_hosts
      | etcd ∷ etcds ↦ elim nats_hosts [
        | [] ↦ err no_nats_hosts
        | nats ∷ natss ↦ ok record opt {
          etcd_hosts = etcd ∷ etcds;
          nats_hosts = nats ∷ natss;
          etcd_user = text (codes "app.etcd.user");
          etcd_password = text (codes "app.etcd.pwd");
          etcd_cert_file =
              tls_file opt.work_dir (text (codes "app.etcd.certFile")) opt.etcd_cert_file;
          etcd_key_file = tls_file opt.work_dir (text (codes "app.etcd.keyFile")) opt.etcd_key_file;
          app_name = text (codes "app.name");
          server_type = text (codes "app.serverType");
          server_name = given_or flags.name (text (codes "app.serverName"));
          server_ip = text (codes "app.ip");
          server_ip_out = text (codes "app.ipOut");
          server_port = given_or flags.port (text (codes "app.port"));
          server_con_types = config.get_string_slice (codes "app.conTypes");
          run_mode = text (codes "app.runMode");
          dis_len = positive_or (config.get_uint32 (codes "app.disLen")) opt.dis_len;
          dis_rep = positive_or (config.get_uint32 (codes "app.disRep")) opt.dis_rep;
          q_msg_len = positive_or (config.get_uint32 (codes "app.qMsgLen")) opt.q_msg_len;
          debug = debug_of (text (codes "app.runMode")) opt.debug;
        }
      ]
    ]

-- Sprintf("%s_%s_%s", …) of the names of a server.
abbrev pub log_name_of : Options → Bytes
log_name_of opt = opt.app_name ++ codes "_" ++ opt.server_type ++ codes "_" ++ opt.server_name

unfoldable pub configure : Environment → Flags → Options → Result Panic Started
configure env flags opt = do
  (work_dir, cwd) ← find_work_dir env flags
  let conf_name = given_or flags.conf opt.conf_name
  config ← read_config env cwd work_dir conf_name
  logs_path ← find_logs env cwd work_dir config
  options ← load config flags (record opt { work_dir = work_dir; conf_name = conf_name })
  ok record { options = options; logs_path = logs_path; log_name = log_name_of options }

unfoldable pub new_options : Environment → ℕ → List Setting → Result Panic Started
new_options env processor settings =
    let opt = apply_all settings (defaults processor) in
    elim (parse_flags env opt) [ none ↦ err nil_dereference | some flags ↦ configure env flags opt ]
