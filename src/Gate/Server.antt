-- ===== src/Gate/Server.antt =====
-- The gate's server: the accept loop of gate/server/tcp.go and `callBack` of gate/server/server.go.
-- Delays are in milliseconds.
pub mod Accept
pub mod Life
use newtbig.Prelude.{
  ℕ, zero, suc, ◌+◌, ◌*◌, ◌^◌, Bool, true, false, ◌&&◌, List, [], ◌∷◌, Option, none, some, ltb,
  ◌==◌, nat_eq, if◌then◌else◌, Bytes,
}
use newtbig.Common.{Msg}
use newtbig.Common.Codes.{msg_broat_cast_rst}
use newtbig.Gate.Session.{World, put_session, send_msg}
use newtbig.Gate.Manager.{get_session, broat_cast}

-- What Accept returns: a timeout, net.ErrClosed, another error, or a connection.
pub data Accepted : Type 0 where
  timed_out listener_closed accept_failed connected : Accepted

-- What the loop does next: it sleeps, it returns with or without an error, it closes the
-- connection, or it starts a session.
pub data Next : Type 0 where
  sleeps : ℕ → Next
  returns : Bool → Next
  refuses starts : Next

-- 5 ms, then twice as much each time, up to one second.
unfoldable pub next_delay : ℕ → ℕ
next_delay delay =
    let longer = if delay == 0 then 5 else delay * 2 in if ltb 1000 longer then 1000 else longer

-- `Count() > MaxConn` for int32s given by their bit patterns.
abbrev pub is_above : ℕ → ℕ → Bool
is_above count max_conn =
    if ltb count (2 ^ 31)
    then (if ltb max_conn (2 ^ 31) then ltb max_conn count else true)
    else (if ltb max_conn (2 ^ 31) then false else ltb max_conn count)

-- One round: the delay that is kept, and what is done.
unfoldable pub accept_turn : ℕ → ℕ → ℕ → Accepted → ℕ × Next
accept_turn max_conn count delay timed_out = (next_delay delay, sleeps (next_delay delay))
accept_turn max_conn count delay listener_closed = (delay, returns false)
accept_turn max_conn count delay accept_failed = (delay, returns true)
accept_turn max_conn count delay connected =
    (0, if is_above count max_conn then refuses else starts)

module _ (marshal : Msg → Option Bytes) (check_route : ℕ → Bool) where
  -- One message of the callback channel; the errors are logged.
  unfoldable pub call_back : Msg → World → World
  call_back msg w =
      if msg.id == msg_broat_cast_rst
      then broat_cast marshal check_route msg w
      else elim (get_session msg.uid w) [
        | none ↦ w
        | some i ↦ put_session i (send_msg marshal (w.session i) msg).0 w
      ]
