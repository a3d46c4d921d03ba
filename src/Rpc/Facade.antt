-- ===== src/Rpc/Facade.antt =====
-- The RPC client of an application, rpc/rpc.go: the dispatcher chooses a server's proxy, and the
-- NATS client does what the proxy asks. A nil message is a panic in the source, since it is logged
-- first, and has no place here.
use newtbig.Prelude.{Bool, List, Option, some, Bytes, map, Result, ok, err, ◌>>=◌, bytes_eq}
use newtbig.Common.{Msg}
use newtbig.Options.{Options}
use newtbig.Ring.Interface.{SortedKeys}
use newtbig.Dispatcher.Proxy.{RpcCall}
use newtbig.Dispatcher.{Dispatcher, DispatchError}
use newtbig.Dispatcher
use newtbig.Rpc.Channel.{Sent}
use newtbig.Rpc.Client
use newtbig.Rpc.Client.{Client, ClientError, StreamMsg}

pub data RpcError : Type 0 where
  not_dispatched : DispatchError → RpcError
  not_carried : ClientError → RpcError

-- NewRPCClient, given what nats.Connect and JetStream do.
unfoldable pub new_rpc_client : (Bytes → Bool) → Bool → Options → Result ClientError Client
new_rpc_client connects has_jet_stream opts = Client.new_nats_client connects has_jet_stream opts

-- Stop: None is a panic.
unfoldable pub stop : Client → Option Client
stop client = Client.done client

-- What a call on the NATS client comes to.
pub data Carried : Type 0 where
  published : Bytes → Bytes → Carried
  answered : Msg → Carried
  stored : Sent StreamMsg → Carried

-- NATS, as a client sees it: whether it takes a message, and what it answers to a request.
pub record Wire : Type 0 where
  pub publishes : Bytes → Bytes → Bool
  pub answers : Bytes → Bytes → Option Bytes

abbrev or_client_error {ℓ} : {A : Type ℓ} → Result ClientError A → Result RpcError A
or_client_error (ok a) = ok a
or_client_error (err e) = err (not_carried e)

abbrev or_dispatch_error {ℓ} : {A : Type ℓ} → Result DispatchError A → Result RpcError A
or_dispatch_error (ok a) = ok a
or_dispatch_error (err e) = err (not_dispatched e)

module _ (marshal : Msg → Option Bytes) (unmarshal : Bytes → Option Msg) (wire : Wire)
    (client : Client) where
  -- PublishMsg, RequestMsg and SendMsg of the RPC client.
  unfoldable pub carry : RpcCall → Result ClientError Carried
  carry (RpcCall.publish_msg route msg) = do
    (subj, body) ← Client.publish_msg marshal wire.publishes route msg
    ok (published subj body)
  carry (RpcCall.request_msg route msg) = do
    rst ← Client.request_msg marshal unmarshal wire.answers route msg
    ok (answered rst)
  carry (RpcCall.send_msg route msg) = do
    sent ← Client.send_msg marshal route msg client
    ok (stored sent)

  module _ {S : SortedKeys} (d : Dispatcher S) where
    unfoldable pub call : Msg → Result RpcError Carried
    call msg = do c ← or_dispatch_error (Dispatcher.request d (some msg)); or_client_error (carry c)

    unfoldable pub call_nr : Msg → Result RpcError Carried
    call_nr msg = do
      c ← or_dispatch_error (Dispatcher.dispatch d (some msg))
      or_client_error (carry c)

    unfoldable pub call_s : Msg → Result RpcError Carried
    call_s msg = do
      c ← or_dispatch_error (Dispatcher.send_msg d (some msg))
      or_client_error (carry c)

    -- The errors of the single messages of a broadcast are logged only.
    unfoldable pub call_b : Msg → Result RpcError (List (Result ClientError Carried))
    call_b msg = do cs ← or_dispatch_error (Dispatcher.broadcast d (some msg)); ok (map carry cs)
