-- ===== src/Rpc/Nats.antt =====
-- The subjects of a server and its message handlers: rpc/mq/mq_nats.go and rpc/mq/register.go.
-- Protobuf is a parameter; the session manager and the callback channel are destinations.
use newtbig.Prelude.{
  Bool, List, [], ◌∷◌, Option, none, some, ◌==◌, bytes_eq, if◌then◌else◌, Bytes, codes, Result, ok,
  err, ◌>>=◌,
}
use newtbig.Common.{Msg, broatcast, request, publish, send}
use newtbig.Options.{Options}
use newtbig.Dispatcher.Proxy.{dotted, underscored}

pub record NatsClient : Type 0 where
  pub root : Bytes
  pub key : Bytes
  pub pub_key : Bytes
  pub bc_key : Bytes
  pub req_key : Bytes
  pub send_key : Bytes
  pub stream_subs : List Bytes

unfoldable pub init : Options → NatsClient
init opts =
    let root = dotted opts.app_name opts.server_type in
    let key = dotted root opts.server_name in
    record {
      root = root;
      key = key;
      pub_key = dotted key publish;
      bc_key = dotted key broatcast;
      req_key = underscored key request;
      send_key = underscored key send;
      stream_subs = dotted root (codes "*") ∷ [];
    }

pub data HandlerError : Type 0 where
  data_is_nil unmarshal_failed subject_unknown : HandlerError

-- Where a received message goes.
pub data Delivery : Type 0 where
  to_session to_all_sessions to_callback : Msg → Delivery

module _ (unmarshal : Bytes → Option Msg) where
  decoded : Bytes → Result HandlerError Msg
  decoded body = elim (unmarshal body) [ none ↦ err unmarshal_failed | some msg ↦ ok msg ]

  unfoldable pub common_handler : Bool → Bytes → Result HandlerError Delivery
  unfolding decoded
  common_handler is_gate body = do
    msg ← decoded body
    ok (if is_gate then to_session msg else to_callback msg)

  unfoldable pub broad_cast_handler : Bool → Bytes → Result HandlerError Delivery
  unfolding decoded
  broad_cast_handler is_gate body = do
    msg ← decoded body
    ok (if is_gate then to_all_sessions msg else to_callback msg)

  unfoldable pub stream_handler : Bytes → Result HandlerError Delivery
  unfolding decoded
  stream_handler body = do msg ← decoded body; ok (to_callback msg)

  unfoldable pub handler : NatsClient → Bool → Bytes → Option Bytes → Result HandlerError Delivery
  handler nc is_gate subject none = err data_is_nil
  handler nc is_gate subject (some body) =
      if subject == nc.pub_key
      then common_handler is_gate body
      else if subject == nc.bc_key
      then broad_cast_handler is_gate body
      else err subject_unknown
