-- ===== src/Options.antt =====
-- module/options.go: the options of an application and their setters. Times have the unit of the
-- field, a time.Duration as the number that is written.
pub mod Settings
use newtbig.Prelude.{ℕ, Bool, true, List, [], Option, none, Bytes, Assoc}

-- A value of an interface or of a context: nil, or an object, by its number.
abbrev pub Handle : Type 0
Handle = Option ℕ

-- A context.Context: nil, or the Boolean values that were put on the background, last first.
abbrev pub Context : Type 0
Context = Option (Assoc Bytes Bool)

pub record Options : Type 0 where
  pub context : Context
  pub host_name : Bytes
  pub pid : Bytes
  pub metadata : Assoc Bytes Bytes
  pub version : Bytes
  pub run_mode : Bytes
  pub debug : Bool
  pub parse : Bool
  pub work_dir : Bytes
  pub app_name : Bytes
  pub conf_name : Bytes
  pub etcd_hosts : List Bytes
  pub etcd_user : Bytes
  pub etcd_password : Bytes
  pub etcd_cert_file : Bytes
  pub etcd_key_file : Bytes
  pub net_type : Bytes
  pub server_type : Bytes
  pub server_name : Bytes
  pub server_ip : Bytes
  pub server_ip_out : Bytes
  pub server_port : Bytes
  pub server_con_types : List Bytes
  pub heart_beat_interval : ℕ
  pub exit_wait_ttl : ℕ
  pub register_interval : ℕ
  pub register_ttl : ℕ
  pub rpc_expired : ℕ
  pub rpc_max_coroutine : ℕ
  pub max_conn : ℕ
  pub max_packet_size : ℕ
  pub read_deadline : ℕ
  pub write_deadline : ℕ
  pub rpm_limit : ℕ
  pub max_msg_chan_len : ℕ
  pub net_head_size : ℕ
  pub byte_order : Bool
  pub nats_hosts : List Bytes
  pub serv : Handle
  pub process : Handle
  pub rpc : Handle
  pub dis_len : ℕ
  pub dis_rep : ℕ
  pub hb_back : Bool
  pub q_msg_len : ℕ
