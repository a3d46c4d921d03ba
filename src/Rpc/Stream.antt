-- ===== src/Rpc/Stream.antt =====
-- The JetStream side of the NATS client, rpc/mq/mq_nats_stream.go. What JetStream answers is given.
use newtbig.Prelude.{
  ◌≡◌, refl, Bool, true, false, List, [], ◌∷◌, ◌++◌, Option, none, some, if◌then◌else◌, Bytes,
  Result, err, All, ap,
}
use newtbig.Common.{Msg}
use newtbig.Rpc.Nats.{HandlerError, Delivery, data_is_nil, stream_handler}

-- AddStream: whether the stream exists afterwards, and the information that is returned, which is
-- what StreamInfo answered before.
unfoldable pub add_stream {ℓ} : {Info : Type ℓ} → Option Info → Bool → Bool × Option Info
add_stream (some info) adds = (true, some info)
add_stream none adds = (adds, none)

-- A turn of the loop of InitStreamWithSubjects: `done` is closed, a message is taken from
-- msg_send_chan, a fetch fails, or it gives a message with its data.
pub data StreamTurn : Type 0 where
  closing takes fetch_failed : StreamTurn
  fetched : Option Bytes → StreamTurn

-- How the loop stands: it goes on, it has returned, or it waits for ever. A message that is taken is
-- published, and its time sent on the unbuffered channel `results`, which only this loop receives.
pub data End : Type 0 where
  goes_on returned stuck : End

module _ (unmarshal : Bytes → Option Msg) where
  unfoldable pub on_fetched : Option Bytes → Result HandlerError Delivery
  on_fetched none = err data_is_nil
  on_fetched (some body) = stream_handler unmarshal body

  unfoldable pub stream_loop : List StreamTurn → List (Result HandlerError Delivery) × End
  stream_loop [] = ([], goes_on)
  stream_loop (closing ∷ turns) = ([], returned)
  stream_loop (takes ∷ turns) = ([], stuck)
  stream_loop (fetch_failed ∷ turns) = stream_loop turns
  stream_loop (fetched body ∷ turns) =
      let (handled, e) = stream_loop turns in (on_fetched body ∷ handled, e)

  -- InitStreamWithSubjects, given whether the pull subscription is made: whether the stream exists
  -- when it has returned, what was handled, and how the loop stands.
  unfoldable pub init_stream_with_subjects {ℓ} :
      {Info : Type ℓ}
      → Option Info
      → Bool
      → Bool
      → List StreamTurn
      → Bool × List (Result HandlerError Delivery) × End
  init_stream_with_subjects info adds subscribes turns =
      let (exists, stream) = add_stream info adds in
      elim stream [
        | none ↦ (exists, [], returned)
        | some i ↦
            if subscribes
            then (let (handled, e) = stream_loop turns in (is_left e, handled, e))
            else (false, [], returned)
      ]
    where
      -- The deferred DeleteStream runs when the loop returns.
      is_left : End → Bool
      is_left returned = false
      is_left goes_on = true
      is_left stuck = true

  -- A turn that keeps the loop going.
  abbrev pub KeepsOn : StreamTurn → Type 0
  KeepsOn closing = ⊥
  KeepsOn takes = ⊥
  KeepsOn fetch_failed = Unit
  KeepsOn (fetched body) = Unit

  -- When the stream's loop, after turns that neither end it nor take a message, takes a message to
  -- send, it handles nothing more and never returns, whatever would follow.
  pub takes_stuck :
      (turns rest : List StreamTurn)
      → All KeepsOn turns
      → stream_loop (turns ++ takes ∷ rest) ≡ ((stream_loop turns).0, stuck)
  unfolding stream_loop
  takes_stuck [] rest a = refl
  takes_stuck (closing ∷ turns) rest a = absurd a.0
  takes_stuck (takes ∷ turns) rest a = absurd a.0
  takes_stuck (fetch_failed ∷ turns) rest a = takes_stuck turns rest a.1
  takes_stuck (fetched body ∷ turns) rest a =
      ap (λ r. (on_fetched body ∷ r.0, r.1)) (takes_stuck turns rest a.1)
