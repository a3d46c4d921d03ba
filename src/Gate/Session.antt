-- ===== src/Gate/Session.antt =====
-- Sessions and the operations on them, gate/session/session.go. Sessions and the manager refer to
-- one another, so the state is a world: the sessions by their id, the manager, and the calls that
-- were handed to the RPC client. The processor's Marshal, the verify callback and CheckRoute are
-- parameters. A channel is its queue, and no send on one blocks.
pub mod Effects
pub mod Broadcasts
use newtbig.Prelude.{
  ℕ, suc, ◌+◌, ◌-◌, ◌/◌, ◌%◌, ◌^◌, Bool, true, false, not, ◌&&◌, ◌||◌, List, [], ◌∷◌, ◌++◌, Option,
  none, some, ltb, ◌==◌, nat_eq, if◌then◌else◌, Bytes, Assoc, lookup, insert, erase,
}
use newtbig.Common.{Msg}
use newtbig.Common.Codes.{
  msg_heartbeat, msg_verify, msg_kick, msg_reg_broat_cast, msg_disreg_broat_cast, msg_re_route,
  msg_heartbeat_rst, msg_verify_rst_suc, msg_verify_rst_fail, msg_kick_rst, msg_broat_cast_rst,
}
use newtbig.Options.{Options}
use newtbig.Strings.Decimal.{parse_uint}

-- `s.conn`: none before OnStart, and then open or closed.
pub data Conn : Type 0 where
  no_conn opened closed : Conn

pub record Session : Type 0 where
  pub user_id : ℕ
  pub conn : Conn
  pub out : List Bytes
  pub call : List Msg
  pub incoming : List Msg  -- the channel `in`
  pub ctl_closed : Bool  -- sendCtl and receiveCtl, which are closed together
  pub running : Bool  -- `run` has not returned, so the channels are open
  pub wire : List Bytes  -- what OnSend took without an error
  pub last_heart_beat_time : ℕ
  pub packet_count : ℕ  -- uint32
  pub packet_count_1_min : ℕ
  pub vrifyed : Bool
  pub stopped : Bool  -- stopOnce is done
  pub bro_msgs : Assoc ℕ Bool

pub record SessionMgr : Type 0 where
  pub sessions : Assoc ℕ ℕ  -- the embedded sync.Map, from user ids to sessions
  pub count : ℕ  -- int32, as its bit pattern
  pub add_chan : List ℕ
  pub add_map : Assoc ℕ ℕ

pub record World : Type 0 where
  pub session : ℕ → Session
  pub mgr : SessionMgr
  pub calls : List Msg  -- CallNR

abbrev pub update : (ℕ → Session) → ℕ → Session → ℕ → Session
update f i s j = if i == j then s else f j

abbrev pub put_session : ℕ → Session → World → World
put_session i s w = record w { session = update w.session i s }

-- OnInit at a time in seconds.
unfoldable pub on_init : ℕ → Session
on_init now = record {
  user_id = 0;
  conn = no_conn;
  out = [];
  call = [];
  incoming = [];
  ctl_closed = false;
  running = true;
  wire = [];
  last_heart_beat_time = now;
  packet_count = 0;
  packet_count_1_min = 0;
  vrifyed = false;
  stopped = false;
  bro_msgs = insert msg_broat_cast_rst true [];
}

-- OnStart, which starts `run` and `receive`.
unfoldable pub on_start : Session → Session
on_start s = record s { conn = opened }

abbrev pub is_open : Conn → Bool
is_open opened = true
is_open _ = false

-- A fresh message about the session's own user.
abbrev pub own_msg : ℕ → Session → Msg
own_msg id s = record { seq = 0; id = id; body = []; key = s.user_id; uid = s.user_id }

-- DelSession of the manager: it removes whatever session stands under the user id.
unfoldable pub del_session : ℕ → SessionMgr → SessionMgr
del_session uid m = if uid == 0 then m else elim (lookup uid m.sessions) [
  | none ↦ m
  | some i ↦ record m { sessions = erase uid m.sessions; count = (m.count + (2 ^ 32 - 1)) % 2 ^ 32 }
]

-- CallKick.
abbrev pub kick_calls : Session → List Msg
kick_calls s = if s.user_id == 0 then [] else own_msg msg_kick s ∷ []

abbrev close_conn : Conn → Conn
close_conn opened = closed
close_conn c = c

-- OnStop, with `stopOnce`. What it sends on is the session's user id at that time.
unfoldable pub on_stop : ℕ → World → World
unfolding del_session
on_stop i w =
    let s = w.session i in
    if s.stopped then w else record {
      session = update w.session i (record s {
        stopped = true;
        vrifyed = false;
        ctl_closed = true;
        conn = close_conn s.conn;
      });
      mgr = if s.vrifyed then del_session s.user_id w.mgr else w.mgr;
      calls = if s.vrifyed then w.calls ++ kick_calls s else w.calls;
    }

-- setBroCastStatus: the new session, unless the body is no uint32.
unfoldable pub set_bro_cast_status : Session → Msg → Option Session
set_bro_cast_status s msg = elim (parse_uint 32 msg.body) [
  | none ↦ none
  | some num ↦ some (record s { bro_msgs = insert num (msg.id == msg_reg_broat_cast) s.bro_msgs })
]

abbrev or_same : Session → Option Session → Session
or_same s none = s
or_same s (some t) = t

-- Go's zero value for a missing key of `map[uint32]bool`.
abbrev pub or_false : Option Bool → Bool
or_false none = false
or_false (some b) = b

module _ (marshal : Msg → Option Bytes) where
  -- SendMsg: the new session, and whether an error is returned. A send on the channel that `run`
  -- has closed panics, and is recovered with no error.
  unfoldable pub send_msg : Session → Msg → Session × Bool
  send_msg s msg =
      if not s.vrifyed
      then (s, false)
      else if not (is_open s.conn)
      then (s, false)
      else elim (marshal (record msg { uid = s.user_id })) [
        | none ↦ (s, true)
        | some bytes ↦ (if s.running then record s { out = s.out ++ bytes ∷ [] } else s, false)
      ]

  unfoldable pub send_sign : Session → ℕ → Session × Bool
  unfolding send_msg
  send_sign s id = send_msg s (own_msg id s)

  -- Kick writes to the connection itself, given which data OnSend takes; the flag says that an error
  -- is returned.
  unfoldable pub kick : (Bytes → Bool) → Session → Session × Bool
  kick takes s = if s.user_id == 0 then (s, false) else elim (marshal (own_msg msg_kick_rst s)) [
    | none ↦ (s, true)
    | some bytes ↦
        if not (is_open s.conn)
        then (s, false)
        else if takes bytes
        then (record s { wire = s.wire ++ bytes ∷ [] }, false)
        else (s, true)
  ]

  -- RpcMsg: the flag says that an error is returned.
  unfoldable pub rpc_msg : Session → Msg → Session × Bool
  unfolding send_msg set_bro_cast_status
  rpc_msg s msg =
      if msg.id == msg_reg_broat_cast || msg.id == msg_disreg_broat_cast
      then elim (set_bro_cast_status s msg) [ none ↦ (s, true) | some t ↦ (t, false) ]
      else send_msg s msg

  -- Broadcast, with what CheckRoute answers for the session's user.
  unfoldable pub broadcast : (ℕ → Bool) → ℕ → Msg → World → World × Bool
  unfolding send_msg send_sign
  broadcast check_route i msg w =
      let s = w.session i in
      if msg.id == 0
      then (w, true)
      else if msg.id == msg_re_route
      then (if check_route s.user_id
          then (w, false)
          else (let (s', failed) = send_sign s msg_kick_rst in
              if failed
              then (put_session i s' w, true)
              else (on_stop i (put_session i s' w), false)))
      else if or_false (lookup msg.id s.bro_msgs)
      then (let (s', failed) = send_msg s msg in (put_session i s' w, failed))
      else (w, false)

  -- AddSession of the manager.
  abbrev pub add_session : ℕ → World → World
  add_session i w =
      if (w.session i).user_id == 0
      then w
      else record w { mgr = record w.mgr { add_chan = w.mgr.add_chan ++ i ∷ [] } }

  verified : ℕ → Msg → World → World
  verified i msg w =
      add_session i (put_session i (record (w.session i) { user_id = msg.uid; vrifyed = true }) w)

  refused : ℕ → Msg → World → World
  unfolding send_msg
  refused i msg w =
      let s = record (w.session i) { vrifyed = false } in
      put_session i (send_msg s (record msg { id = msg_verify_rst_fail })).0 w

  -- The default case: the client's message is passed on as it came.
  forward : ℕ → ℕ → Msg → World → World
  forward now i msg w = record w {
    session = update w.session i (record (w.session i) { last_heart_beat_time = now });
    calls = w.calls ++ msg ∷ [];
  }

  heart_beat : ℕ → Bool → ℕ → Msg → World → World
  unfolding send_sign
  heart_beat now hb_back i msg w =
      let s = record (w.session i) { last_heart_beat_time = now } in
      put_session i (if hb_back then (send_sign s msg_heartbeat_rst).0 else s) w

  -- msgIn at a time in seconds, with the answer of the verify callback. The flag says that an error
  -- is returned; the errors of the calls are logged only.
  unfoldable pub msg_in : (Msg → Bool) → Bool → ℕ → ℕ → Msg → World → World × Bool
  unfolding verified refused forward heart_beat set_bro_cast_status
  msg_in verify hb_back now i msg w =
      let s = w.session i in
      if msg.id == msg_verify
      then (if msg.uid == 0
          then (w, true)
          else (if verify msg then verified i msg w else refused i msg w, false))
      else if not s.vrifyed
      then (w, false)
      else if msg.id == msg_heartbeat
      then (heart_beat now hb_back i msg w, false)
      else if msg.id == msg_reg_broat_cast || msg.id == msg_disreg_broat_cast
      then (put_session i (or_same s (set_bro_cast_status s msg)) w, false)
      else (forward now i msg w, false)
