-- ===== src/Rpc/Client.antt =====
-- The NATS client of a server, rpc/mq/mq_nats.go: its making, what it sends, and its end. The NATS
-- library and protobuf are parameters.
use newtbig.Prelude.{
  Bool, true, false, not, List, [], ◌∷◌, ◌++◌, Option, none, some, bytes_eq, ◌==◌, if◌then◌else◌,
  Bytes, codes, Result, ok, err, ◌>>=◌,
}
use newtbig.Common.{Msg}
use newtbig.Options.{Options}
use newtbig.Rpc.Channel.{Channel, Sent, make_channel, put, close}
use newtbig.Rpc.Nats
use newtbig.Rpc.Nats.{NatsClient}

pub record StreamMsg : Type 0 where
  pub subj : Bytes
  pub body : Bytes

-- The client, with its connection and its channels.
pub record Client : Type 0 where
  pub names : NatsClient
  pub is_open : Bool
  pub is_done : Bool
  pub call_back : Channel Msg
  pub msg_send_chan : Channel StreamMsg
  pub msg_receive_chan : Channel StreamMsg

pub data ClientError : Type 0 where
  hosts_are_nil not_connected no_jet_stream : ClientError
  marshal_failed publish_failed request_failed unmarshal_failed : ClientError

abbrev pub url : Bytes → Bytes
url host = codes "nats://" ++ host

-- The loop over the hosts, after the first.
unfoldable pub join_hosts : Bytes → List Bytes → Bytes
join_hosts hosts [] = hosts
join_hosts hosts (host ∷ rest) = join_hosts (hosts ++ b',' ∷ url host) rest

unfoldable pub hosts_text : List Bytes → Bytes
hosts_text [] = []
hosts_text (host ∷ rest) = join_hosts (url host) rest

unfoldable pub init_client : Options → Client
init_client opts = record {
  names = Nats.init opts;
  is_open = true;
  is_done = false;
  call_back = make_channel opts.q_msg_len;
  msg_send_chan = make_channel opts.q_msg_len;
  msg_receive_chan = make_channel opts.q_msg_len;
}

-- Given whether nats.Connect and JetStream succeed.
unfoldable pub new_nats_client : (Bytes → Bool) → Bool → Options → Result ClientError Client
new_nats_client connects has_jet_stream opts =
    let hosts = hosts_text opts.nats_hosts in
    if hosts == []
    then err hosts_are_nil
    else if not (connects hosts)
    then err not_connected
    else if not has_jet_stream
    then err no_jet_stream
    else ok (init_client opts)

module _ (marshal : Msg → Option Bytes) where
  abbrev pub encoded : Msg → Result ClientError Bytes
  encoded msg = elim (marshal msg) [ some body ↦ ok body | none ↦ err marshal_failed ]

  -- What goes out on a subject, where the connection takes it.
  unfoldable pub publish_msg :
      (Bytes → Bytes → Bool) → Bytes → Msg → Result ClientError (Bytes × Bytes)
  publish_msg publishes subj msg = do
    body ← encoded msg
    if publishes subj body then ok (subj, body) else err publish_failed

  -- A request, given what NATS answers within the timeout.
  unfoldable pub request_msg :
      (Bytes → Option Msg) → (Bytes → Bytes → Option Bytes) → Bytes → Msg → Result ClientError Msg
  request_msg unmarshal answers subj msg = do
    body ← encoded msg
    elim (answers subj body) [
      | none ↦ err request_failed
      | some reply ↦ elim (unmarshal reply) [ none ↦ err unmarshal_failed | some rst ↦ ok rst ]
    ]

  -- SendMsg of rpc/mq/mq_nats_stream.go: the message waits in a channel.
  unfoldable pub send_msg : Bytes → Msg → Client → Result ClientError (Sent StreamMsg)
  send_msg subj msg c = do
    body ← encoded msg
    ok (put (record { subj = subj; body = body }) c.msg_send_chan)

-- Done. Closing a channel twice is a panic, here none.
unfoldable pub done : Client → Option Client
done c = if c.is_done then none else elim (close c.call_back) [
  | none ↦ none
  | some call_back ↦ elim (close c.msg_receive_chan) [
    | none ↦ none
    | some received ↦ elim (close c.msg_send_chan) [
      | none ↦ none
      | some sent ↦ some record c {
        is_open = false;
        is_done = true;
        call_back = call_back;
        msg_receive_chan = received;
        msg_send_chan = sent;
      }
    ]
  ]
]
