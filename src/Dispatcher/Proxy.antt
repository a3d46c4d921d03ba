-- ===== src/Dispatcher/Proxy.antt =====
-- The proxy of one registered server, dispatcher/proxy.go. The calls on the RPC client are values,
-- which the caller hands to it.
use newtbig.Prelude.{◌∷◌, ◌++◌, Bytes}
use newtbig.Common.{Msg, broatcast, request, publish, send}
use newtbig.Options.{Options}
use newtbig.Strings.FilePath.{base}

pub record Proxy : Type 0 where
  pub msg_key : Bytes
  pub bc_key : Bytes
  pub req_key : Bytes
  pub pub_key : Bytes
  pub send_key : Bytes
  pub key : Bytes
  pub ser_type : Bytes
  pub ser_name : Bytes
  pub app_name : Bytes
  pub ver : Bytes
  pub ser_status : Bytes

-- Sprintf("%s.%s", …) and Sprintf("%s_%s", …).
abbrev pub dotted : Bytes → Bytes → Bytes
dotted a b = a ++ b'.' ∷ b

abbrev pub underscored : Bytes → Bytes → Bytes
underscored a b = a ++ b'_' ∷ b

unfoldable pub init : Bytes → Bytes → Options → Bytes → Proxy
init ser_type key opts status =
    let kind = base ser_type in
    let name = base key in
    let msg_key = dotted (dotted opts.app_name kind) name in
    record {
      msg_key = msg_key;
      bc_key = dotted msg_key broatcast;
      req_key = underscored msg_key request;
      pub_key = dotted msg_key publish;
      send_key = dotted msg_key send;
      key = key;
      ser_type = kind;
      ser_name = name;
      app_name = opts.app_name;
      ver = opts.version;
      ser_status = status;
    }

-- What a proxy asks of `module.RPC`, with the subject.
pub data RpcCall : Type 0 where
  send_msg publish_msg request_msg : Bytes → Msg → RpcCall

unfoldable pub send_msg_on : Proxy → Msg → RpcCall
send_msg_on p msg = RpcCall.send_msg p.send_key msg

unfoldable pub publish_on : Proxy → Msg → RpcCall
publish_on p msg = RpcCall.publish_msg p.pub_key msg

unfoldable pub request_on : Proxy → Msg → RpcCall
request_on p msg = RpcCall.request_msg p.req_key msg

unfoldable pub broadcast_on : Proxy → Msg → RpcCall
broadcast_on p msg = RpcCall.publish_msg p.bc_key msg

unfoldable pub update : Proxy → Bytes → Proxy
update p status = record p { ser_status = status }
