-- ===== src/Demo/Json.antt =====
-- The JSON processor of the demo, demo/process/json_processor.go and demo/msg/model.go. The JSON
-- library is a parameter: it writes a Head as bytes, and reads one back.
use newtbig.Prelude.{
  ℕ, ◌≡◌, true, [], Option, none, some, arith, nat_eq, Bytes, Result, ok, err, Option-cases, inl,
  inr,
}
use newtbig.Common.{Msg}
use newtbig.Process.{Processor, ProcessError, msg_is_nil, marshal_failed, unmarshal_failed}

pub record Head : Type 0 where
  pub seq : ℕ
  pub uid : ℕ
  pub cmd : ℕ
  pub key : ℕ
  pub body : Bytes

-- NewJsonProcessor: nothing but the flag is set before Init.
unfoldable pub new_json_processor : Processor
new_json_processor = record {
  msg_infos = [];
  perf_recorder = [];
  enable_perf = true;
  max_packet_size = 0;
}

-- The head that Marshal writes; its user id is never set.
unfoldable pub head_of : Msg → Head
head_of msg = record { seq = msg.seq; uid = 0; cmd = msg.id; key = msg.key; body = msg.body }

unfoldable pub msg_of : Head → Msg
msg_of head = record {
  seq = head.seq;
  id = head.cmd;
  body = head.body;
  key = head.key;
  uid = head.uid;
}

-- A size above MaxPacketSize is logged only.
unfoldable pub marshal : (Head → Option Bytes) → Option Msg → Result ProcessError Bytes
unfolding head_of
marshal write none = err msg_is_nil
marshal write (some msg) = elim (write (head_of msg)) [
  | none ↦ err marshal_failed
  | some bytes ↦ ok bytes
]

unfoldable pub unmarshal : (Bytes → Option Head) → Bytes → Result ProcessError Msg
unfolding msg_of
unmarshal read bytes = elim (read bytes) [
  | none ↦ err unmarshal_failed
  | some head ↦ ok (msg_of head)
]

-- With a JSON library that reads back what it wrote, what the demo's Marshal made of a message is
-- unmarshalled as this message without its user id.
pub unmarshal-marshal :
    (write : Head → Option Bytes) (read : Bytes → Option Head)
    → ((h : Head) (bytes : Bytes) → write h ≡ some bytes → read bytes ≡ some h)
    → (msg : Msg) (bytes : Bytes) → marshal write (some msg) ≡ ok bytes
    → unmarshal read bytes ≡ ok (record msg { uid = 0 })
unfolding marshal unmarshal
unmarshal-marshal write read back msg bytes h = elim (Option-cases (write (head_of msg))) [
  | inl e ↦ absurd (ground arith)
  | inr (bytes', e) ↦ ground (arith, back (head_of msg) bytes' e)
]
