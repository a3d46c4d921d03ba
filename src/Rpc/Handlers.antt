-- ===== src/Rpc/Handlers.antt =====
-- The two loops of a server's NATS client, rpc/mq/mq_nats.go: published messages, and requests. What
-- NATS reports of the subscription is given.
use newtbig.Prelude.{
  ℕ, Bool, true, false, List, [], ◌∷◌, ◌++◌, Option, none, some, if◌then◌else◌, Bytes, codes,
  Result, ok, err,
}
use newtbig.Common.{Msg}
use newtbig.Process.{Processor, handle_msg}
use newtbig.Rpc.Nats.{NatsClient, HandlerError, Delivery, handler}

-- What `NextMsg` comes to: a timeout or another error, each with whether the subscription is valid
-- and whether a new one is made; no message; or a message with its subject and its data.
pub data Poll : Type 0 where
  timed_out poll_failed : Bool → Bool → Poll
  no_message : Poll
  message : Bytes → Option Bytes → Poll

-- A turn of the loop: `done` is closed, or it polls.
pub data Turn : Type 0 where
  closing : Turn
  polls : Poll → Turn

pub data LoopError : Type 0 where
  not_subscribed sub_is_nil : LoopError

module _ (unmarshal : Bytes → Option Msg) (nc : NatsClient) (is_gate : Bool) where
  -- Whether there is a valid subscription after a poll, and what the handler made of a message.
  unfoldable pub poll_turn : Poll → Bool × List (Result HandlerError Delivery)
  poll_turn (timed_out is_valid resubscribes) = if is_valid then (true, []) else (resubscribes, [])
  poll_turn (poll_failed is_valid resubscribes) =
      if is_valid then (true, []) else (resubscribes, [])
  poll_turn no_message = (true, [])
  poll_turn (message subject body) = (true, handler unmarshal nc is_gate subject body ∷ [])

  -- The loop over the turns, until `done` is closed: what was handled, in order, and whether it ended.
  unfoldable pub publish_loop : List Turn → List (Result HandlerError Delivery) × Bool
  publish_loop [] = ([], false)
  publish_loop (closing ∷ turns) = ([], true)
  publish_loop (polls p ∷ turns) =
      let (handled, ended) = publish_loop turns in ((poll_turn p).1 ++ handled, ended)

  -- StartPublishHandle, given whether the first subscription is made and is not nil.
  unfoldable pub start_publish_handle :
      Bool → Bool → List Turn → Result LoopError (List (Result HandlerError Delivery) × Bool)
  start_publish_handle subscribes is_there turns =
      if subscribes
      then if is_there then ok (publish_loop turns) else err sub_is_nil
      else err not_subscribed

-- The handler of StartRequestHandle: the processor after it, and the reply, if there is one.
module _ (marshal : Msg → Option Bytes) (unmarshal : Bytes → Option Msg) where
  unfoldable pub reply_to : Option Msg → Option Bytes
  reply_to none = none
  reply_to (some rst) = elim (marshal rst) [
    | some body ↦ some body
    | none ↦ some (codes "msg marshal err")
  ]

  unfoldable pub on_request : ℕ → Processor → Option Bytes → Processor × Option Bytes
  on_request elapsed p none = (p, none)
  on_request elapsed p (some body) = elim (unmarshal body) [
    | none ↦ (p, some (codes "msg ummarshal err"))
    | some msg ↦ let (p', rst) = handle_msg elapsed p msg in (p', reply_to rst)
  ]
