-- ===== src/Gate/Server/Life.antt =====
-- The gate's server at its start and its end, gate/server/server.go, tcp.go and ws.go: where it
-- listens, whom it lets in over WebSocket, and what stopping it closes.
use newtbig.Prelude.{
  ℕ, Bool, true, false, List, [], ◌∷◌, ◌++◌, Option, none, some, ◌==◌, bytes_eq, if◌then◌else◌,
  Bytes, codes,
}
use newtbig.Common.{Msg}
use newtbig.Options.{Options}
use newtbig.Gate.Session.{World}
use newtbig.Gate.Manager.{stop_all_session}
use newtbig.Gate.Ws
use newtbig.Gate.Ws.{Socket, Connect}
use newtbig.Gate.Server.{is_above, call_back}

abbrev pub netype_tcp : Bytes
netype_tcp = codes "tcp"

abbrev pub netype_ws : Bytes
netype_ws = codes "ws"

-- An address to listen on, with the certificate and the key where the connection is secured.
pub record Listen : Type 0 where
  pub address : Bytes
  pub tls : Option (Bytes × Bytes)

-- What run_tcp and run_ws ask to listen on.
unfoldable pub listen_on : Options → Bytes → Listen
listen_on opts port =
    let conf_path = opts.work_dir ++ codes "/config/tls/" in
    record {
      address = b':' ∷ port;
      tls =
          if opts.run_mode == codes "release"
          then some (conf_path ++ codes "server.crt", conf_path ++ codes "server.key")
          else none;
    }

-- What the server accepts clients with; the library serves WebSocket connections by itself.
pub data Listening : Type 0 where
  nothing : Listening
  tcp_listener ws_service : Listen → Listening

pub record GateServer : Type 0 where
  pub port : Bytes
  pub netype : Bytes
  pub opts : Options
  pub listening : Listening
  pub exit_closed : Bool

unfoldable pub new_server : Options → GateServer
new_server opts = record {
  port = opts.server_port;
  netype = [];
  opts = opts;
  listening = nothing;
  exit_closed = false;
}

-- Start, where listening succeeds; the callback's loop is started in every case.
unfoldable pub start : GateServer → GateServer
start s =
    let listen = listen_on s.opts s.port in
    record s {
      netype = s.opts.net_type;
      listening =
          if s.opts.net_type == netype_tcp
          then tcp_listener listen
          else if s.opts.net_type == netype_ws
          then ws_service listen
          else s.listening;
    }

abbrev pub close_listener : Listening → Listening
close_listener nothing = nothing
close_listener (tcp_listener l) = nothing
close_listener (ws_service l) = ws_service l

-- Stop. Closing exitCB twice is a panic, here none.
unfoldable pub stop : GateServer → World → Option (GateServer × World)
stop s w =
    if s.exit_closed
    then none
    else some (
      record s { listening = close_listener s.listening; exit_closed = true },
      stop_all_session w,
    )

-- What wsPage does with a request: no upgrade, too many sessions, no address, or a session.
pub data Page : Type 0 where
  not_found refused init_failed : Page
  session_on : Connect → Page

unfoldable pub ws_page : Options → Bool → ℕ → Bool → Socket → Page
ws_page opts upgrades count named conn =
    if upgrades
    then (if is_above count opts.max_conn
        then refused
        else elim (Ws.on_init named (record conn { read_limit = opts.max_packet_size }) opts) [
          | none ↦ init_failed
          | some c ↦ session_on c
        ])
    else not_found

-- What a turn of the callback's loop receives.
pub data Take : Type 0 where
  message : Option Msg → Take
  callback_closed exit_closed : Take

module _ (marshal : Msg → Option Bytes) (check_route : ℕ → Bool) where
  -- The loop of callBack: the world after it, and whether it has returned.
  unfoldable pub call_back_loop : List Take → World → World × Bool
  call_back_loop [] w = (w, false)
  call_back_loop (message none ∷ takes) w = call_back_loop takes w
  call_back_loop (message (some msg) ∷ takes) w =
      call_back_loop takes (call_back marshal check_route msg w)
  call_back_loop (callback_closed ∷ takes) w = (w, true)
  call_back_loop (exit_closed ∷ takes) w = (w, true)
