-- ===== src/Options/Settings.antt =====
-- The functional options of module/options.go: each makes a setting of one field.
use newtbig.Prelude.{ℕ, Bool, [], ◌∷◌, none, some, Bytes, Assoc, codes}
use newtbig.Options.{Options, Context, Handle}

abbrev pub Setting : Type 0
Setting = Options → Options

unfoldable pub version : Bytes → Setting
version v o = record o { version = v }

unfoldable pub debug : Bool → Setting
debug v o = record o { debug = v }

unfoldable pub work_dir : Bytes → Setting
work_dir v o = record o { work_dir = v }

unfoldable pub conf : Bytes → Setting
conf v o = record o { conf_name = v }

unfoldable pub register_ttl : ℕ → Setting
register_ttl v o = record o { register_ttl = v }

unfoldable pub register_interval : ℕ → Setting
register_interval v o = record o { register_interval = v }

unfoldable pub exit_wait_ttl : ℕ → Setting
exit_wait_ttl v o = record o { exit_wait_ttl = v }

unfoldable pub parse : Bool → Setting
parse v o = record o { parse = v }

unfoldable pub rpc_expired : ℕ → Setting
rpc_expired v o = record o { rpc_expired = v }

unfoldable pub rpc_max_coroutine : ℕ → Setting
rpc_max_coroutine v o = record o { rpc_max_coroutine = v }

unfoldable pub metadata : Assoc Bytes Bytes → Setting
metadata v o = record o { metadata = v }

-- `context.Background()`, where there is no context yet.
with_background : Context → Assoc Bytes Bool
with_background none = []
with_background (some c) = c

unfoldable pub wait : Bool → Setting
unfolding with_background
wait b o = record o { context = some ((codes "wait", b) ∷ with_background o.context) }

unfoldable pub net_type : Bytes → Setting
net_type v o = record o { net_type = v }

unfoldable pub process : Handle → Setting
process v o = record o { process = v }

unfoldable pub read_deadline : ℕ → Setting
read_deadline v o = record o { read_deadline = v }

unfoldable pub write_deadline : ℕ → Setting
write_deadline v o = record o { write_deadline = v }

unfoldable pub net_head_size : ℕ → Setting
net_head_size v o = record o { net_head_size = v }

unfoldable pub byte_order : Bool → Setting
byte_order v o = record o { byte_order = v }

unfoldable pub serv : Handle → Setting
serv v o = record o { serv = v }

unfoldable pub dis_len : ℕ → Setting
dis_len v o = record o { dis_len = v }

unfoldable pub dis_rep : ℕ → Setting
dis_rep v o = record o { dis_rep = v }

unfoldable pub hb_back : Bool → Setting
hb_back v o = record o { hb_back = v }

unfoldable pub max_conn : ℕ → Setting
max_conn v o = record o { max_conn = v }

unfoldable pub max_packet_size : ℕ → Setting
max_packet_size v o = record o { max_packet_size = v }

unfoldable pub heart_beat_interval : ℕ → Setting
heart_beat_interval v o = record o { heart_beat_interval = v }

unfoldable pub rpm_limit : ℕ → Setting
rpm_limit v o = record o { rpm_limit = v }

unfoldable pub max_msg_chan_len : ℕ → Setting
max_msg_chan_len v o = record o { max_msg_chan_len = v }

unfoldable pub q_msg_len : ℕ → Setting
q_msg_len v o = record o { q_msg_len = v }
