-- ===== src/Gate/Ws.antt =====
-- A WebSocket connection, gate/connect/ws/connect.go, on a socket of the WebSocket library with its
-- deadlines and its read limit. Times are in seconds; the error texts are left out.
use newtbig.Prelude.{
  ℕ, ◌+◌, ◌≡◌, refl, ◌∙◌, arith, Bool, true, false, List, [], ◌∷◌, Option, none, some,
  if◌then◌else◌, Bytes, Result, ok, err, length, ◌==◌, nat_eq,
}
use newtbig.Common.{Msg}
use newtbig.Options.{Options}
use newtbig.Process.{unmarshal, ProcessError}

-- The library's connection: the times set for writes and reads, and the limit of a message.
pub record Socket : Type 0 where
  pub write_by : Option ℕ
  pub read_by : Option ℕ
  pub read_limit : ℕ

pub record Connect : Type 0 where
  pub opts : Options
  pub conn : Socket
  pub read_deadline : ℕ
  pub write_deadline : ℕ
  pub is_close : Bool

pub data WsError : Type 0 where
  connect_is_closed write_failed receive_failed : WsError
  unmarshal_failed : ProcessError → WsError

-- OnInit; `named` says whether the remote address has a host and a port.
unfoldable pub on_init : Bool → Socket → Options → Option Connect
on_init named conn opts =
    if named
    then some record {
      opts = opts;
      conn = conn;
      read_deadline = opts.read_deadline;
      write_deadline = opts.write_deadline;
      is_close = false;
    }
    else none

unfoldable pub on_close : Connect → Connect
on_close c = if c.is_close then c else record c { is_close = true }

-- SetWriteDeadline, at a time.
unfoldable pub set_write_deadline : ℕ → Connect → Connect
set_write_deadline at c = record c { conn = record c.conn { write_by = some at } }

unfoldable pub set_read_limit : ℕ → Connect → Connect
set_read_limit n c = record c { conn = record c.conn { read_limit = n } }

-- OnSend at a time, given whether the library writes the message: the error, if there is one.
unfoldable pub on_send : ℕ → Bool → Connect → Connect × Option WsError
on_send now writes c =
    if c.is_close
    then (c, some connect_is_closed)
    else (set_write_deadline (now + c.write_deadline) c, if writes then none else some write_failed)

-- What ReadMessage comes to: the end of the stream, another error, or a payload.
pub data Read : Type 0 where
  end_of_file read_failed : Read
  payload : Bytes → Read

-- What is received: nothing, or a message.
unfoldable pub received : (Bytes → Option Msg) → Read → Result WsError (Option Msg)
received proto end_of_file = ok none
received proto read_failed = err receive_failed
received proto (payload body) =
    if length body == 0
    then ok none
    else elim (unmarshal proto body) [ ok msg ↦ ok (some msg) | err e ↦ err (unmarshal_failed e) ]

-- OnReceive at a time: the deadline that it sets before it reads is the one for writes.
unfoldable pub on_receive :
    (Bytes → Option Msg) → ℕ → Read → Connect → Connect × Result WsError (Option Msg)
on_receive proto now read c = if c.is_close then (c, err connect_is_closed) else (
  set_read_limit c.opts.max_packet_size (set_write_deadline (now + c.read_deadline) c),
  received proto read,
)

-- What is done with a connection, with the time of it.
pub data Use : Type 0 where
  sends : ℕ → Bool → Use
  receives : ℕ → Read → Use
  closes : Use

module _ (proto : Bytes → Option Msg) where
  unfoldable pub use_once : Use → Connect → Connect
  use_once (sends now writes) c = (on_send now writes c).0
  use_once (receives now read) c = (on_receive proto now read c).0
  use_once closes c = on_close c

  unfoldable pub use_all : List Use → Connect → Connect
  use_all [] c = c
  use_all (u ∷ uses) c = use_all uses (use_once u c)

  use_once_read_by : (u : Use) (c : Connect) → (use_once u c).conn.read_by ≡ c.conn.read_by
  unfolding use_once on_send on_receive on_close set_write_deadline set_read_limit
  use_once_read_by (sends now writes) c = ground arith
  use_once_read_by (receives now read) c = ground arith
  use_once_read_by closes c = ground arith

  -- Over any use of a WebSocket connection, sends, receives and closes, the deadline for reads on
  -- its socket stays as it was: OnReceive sets the one for writes.
  pub use_all_read_by :
      (uses : List Use) (c : Connect) → (use_all uses c).conn.read_by ≡ c.conn.read_by
  unfolding use_all
  use_all_read_by [] c = refl
  use_all_read_by (u ∷ uses) c = use_all_read_by uses (use_once u c) ∙ use_once_read_by u c
