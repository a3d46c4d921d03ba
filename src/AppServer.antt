-- ===== src/AppServer.antt =====
-- The server of an application and its proxy, server/server.go and server/proxy/proxy.go. What the
-- channels deliver is given; the calls on the RPC client are values.
pub mod Loads
use newtbig.Prelude.{
  ℕ, ◌+◌, ◌%◌, ◌^◌, Bool, true, false, List, [], ◌∷◌, ◌++◌, Option, none, some, ◌==◌, nat_eq,
  if◌then◌else◌, Bytes, Assoc, length, lookup, insert, Result, ok, err,
}
use newtbig.Common.{Msg}
use newtbig.Common.Codes.{msg_kick}
use newtbig.Process.{Processor, handle_msg}
use newtbig.Rpc.Channel.{Channel, Sent, make_channel, put}
use newtbig.Gate.Session.{SessionMgr, del_session}

-- keyMap counts by uint32; `stopped` says that exitCB and the proxy's channel are closed.
pub record Server : Type 0 where
  pub key_map : Assoc ℕ ℕ
  pub stopped : Bool

unfoldable pub new_server : Server
new_server = record { key_map = []; stopped = false }

-- Stop; closing the channels twice is a panic, here none.
unfoldable pub stop : Server → Option Server
stop s = if s.stopped then none else some (record s { stopped = true })

-- Go's zero value for a missing key.
abbrev pub or_zero : Option ℕ → ℕ
or_zero none = 0
or_zero (some n) = n

unfoldable pub count_key : ℕ → Server → Server
count_key key s = record s {
  key_map = insert key ((or_zero (lookup key s.key_map) + 1) % 2 ^ 32) s.key_map;
}

-- What a turn of the callback's loop receives: a message, which may be nil, with the time that its
-- handler takes; or that the callback or exitCB is closed.
pub data Take : Type 0 where
  message : ℕ → Option Msg → Take
  callback_closed exit_closed : Take

unfoldable pub take_message : ℕ → Option Msg → Server × Processor → Server × Processor
take_message elapsed none (s, p) = (s, p)
take_message elapsed (some msg) (s, p) = (count_key msg.key s, (handle_msg elapsed p msg).0)

-- The state after the loop, and whether it has returned.
unfoldable pub call_back : List Take → Server × Processor → (Server × Processor) × Bool
call_back [] state = (state, false)
call_back (message elapsed msg ∷ takes) state = call_back takes (take_message elapsed msg state)
call_back (callback_closed ∷ takes) state = (state, true)
call_back (exit_closed ∷ takes) state = (state, true)

unfoldable pub count : Server → ℕ
count s = length s.key_map % 2 ^ 32

-- The message that the proxy's SendMsg makes and sends by CallNR. Its error is dropped.
unfoldable pub send_msg : ℕ → ℕ → ℕ → ℕ → Bytes → Msg
send_msg seq msg_id uid key body = record {
  seq = seq;
  id = msg_id;
  body = body;
  key = key;
  uid = uid;
}

-- The proxy's loop over the messages of `out`: kicks go to the session manager, the others to CallNR.
unfoldable pub proxy_run : List Msg → SessionMgr → SessionMgr × List Msg
proxy_run [] mgr = (mgr, [])
proxy_run (msg ∷ msgs) mgr =
    let next = if msg.id == msg_kick then del_session msg.uid mgr else mgr in
    let (mgr', calls) = proxy_run msgs next in
    (mgr', if msg.id == msg_kick then calls else msg ∷ calls)

-- The proxy of a server: its channel `out`, where there is one, and whether it was closed.
pub record Proxy : Type 0 where
  pub out : Option (Channel Msg)
  pub closed : Bool

unfoldable pub new_proxy : Proxy
new_proxy = record { out = some (make_channel 8192); closed = false }

-- Close; closing twice is a panic, here none.
unfoldable pub close_proxy : Proxy → Option Proxy
close_proxy p = if p.closed then none else some (record p { closed = true })

pub data ProxyError : Type 0 where
  out_is_nil not_called : ProxyError

-- SendSyc1 waits in the channel; Send calls at once, given whether CallNR succeeds.
unfoldable pub send_syc1 : Proxy → Msg → Result ProxyError (Sent Msg)
send_syc1 p msg = elim p.out [ none ↦ err out_is_nil | some c ↦ ok (put msg c) ]

unfoldable pub send : (Msg → Bool) → Proxy → Msg → Result ProxyError Msg
send calls p msg = elim p.out [
  | none ↦ err out_is_nil
  | some c ↦ if calls msg then ok msg else err not_called
]
