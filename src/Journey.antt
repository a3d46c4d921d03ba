-- ===== src/Journey.antt =====
-- A message from a server to a client of a gate, and one from a client to a server, end to end:
-- CallNR of rpc/rpc.go, the NATS subjects and handlers of rpc/mq, and the manager and the session
-- of the gate.
use newtbig.Prelude.{
  ◌≡◌, ◌≢◌, Bool, true, false, List, [], ◌∷◌, ◌++◌, Option, some, ℕ, nat_eq, Bytes, length, ok,
}
use newtbig.Common.{Msg}
use newtbig.Common.Codes.{msg_reg_broat_cast, msg_disreg_broat_cast}
use newtbig.Options.{Options}
use newtbig.Ring.Interface.{SortedKeys}
use newtbig.Dispatcher.{Dispatcher}
use newtbig.Dispatcher.Invariant.{IsDispatcher}
use newtbig.Rpc.Nats
use newtbig.Rpc.Nats.{Delivery, to_session, to_callback}
use newtbig.Rpc.Subjects.{IsNamed}
use newtbig.Rpc.Client.{Client}
use newtbig.Rpc.Facade.{Wire, call_nr, published}
use newtbig.Rpc.Delivery.{RoutesTo, call_nr_delivers}
use newtbig.Gate.Session.{World}
use newtbig.Gate.Run.{Callbacks, in_turn, out_turn, run_turn, receive_turn, received}
use newtbig.Gate.Run.Inbound.{IsServed, received_called}
use newtbig.Gate.Session.Effects.{IsForeign}
use newtbig.Gate.Run.Limits.{Writes, turns_of, taken}
use newtbig.Gate.Arrival.{hand_over, IsUser, hand_over_written}

module _ {S : SortedKeys} (d : Dispatcher S) (v : IsDispatcher d) (server : Options)
    (named : IsNamed server) (same : d.opts.app_name ≡ server.app_name) (marshal : Msg → Bytes)
    (unmarshal : Bytes → Option Msg) (back : (m : Msg) → unmarshal (marshal m) ≡ some m)
    (wire : Wire) (client : Client) where
  -- For a well-formed dispatcher with a gate's AppName that routes a message to this gate, whose
  -- names can stand in a key, a codec that gives messages back, and a connection that takes every
  -- message; and for a session of the gate that is running, open, found by the manager under the
  -- message's user and verified as this user, where the processor marshals as the codec does,
  -- OnSend of the client's connection takes the message, the heartbeat interval is not zero and the
  -- message registers no broadcast: CallNR publishes the message on a subject on which the gate's
  -- handler passes it on, and then as many turns of sending as are queued with it leave the queue
  -- empty and the message written to the client's connection, after what was written before and
  -- those of the queued messages that OnSend takes.
  pub call_nr_arrives :
      (cb : Callbacks) (now i : ℕ) (beats : server.heart_beat_interval ≢ 0) (msg : Msg)
      → (takes_data : Bytes → Bool) (queue written : List Bytes) (w : World)
      → RoutesTo d v server msg
      → ((subj body : Bytes) → wire.publishes subj body ≡ true)
      → msg.id ≢ msg_reg_broat_cast
      → msg.id ≢ msg_disreg_broat_cast
      → cb.marshal msg ≡ some (marshal msg)
      → takes_data (marshal msg) ≡ true
      → IsUser w msg.uid i
      → Writes (w.session i) queue written
      → (subj : Bytes) × (body : Bytes) × (delivery : Delivery) × (call_nr
            (λ m. some (marshal m))
            unmarshal
            wire
            client
            d
            msg
          ≡ ok (published subj body))
        × (Nats.handler unmarshal (Nats.init server) true subj (some body) ≡ ok delivery)
        × Writes
            ((turns_of cb server now i beats
                (out_turn takes_data)
                (length (queue ++ marshal msg ∷ []))
                (hand_over cb server delivery w)).session
              i)
            []
            (written ++ (taken takes_data queue ++ marshal msg ∷ []))
  call_nr_arrives cb now i beats msg takes_data queue written w r takes reg dis e t u h =
      let (subj, body, sent, handled) =
        call_nr_delivers d v server named same marshal unmarshal back wire client true msg r
          takes in
      (
        subj,
        body,
        to_session msg,
        sent,
        handled,
        hand_over_written cb server now i beats takes_data msg (marshal msg) queue written w reg dis
            e t u h,
      )

  -- For a gate's session that runs, with a verified client, open channels and nothing waiting to be
  -- read, and a heartbeat interval other than zero: a message that its client sends, and that the
  -- gate does not keep for itself, is handed to CallNR as it came, whatever user it names; and
  -- where the gate's well-formed dispatcher routes it to a server with the same AppName that is no
  -- gate, with a codec that gives messages back and a connection that takes every message, CallNR
  -- publishes it on a subject on which the server's handler passes this message to the callback.
  pub client_message_arrives :
      (cb : Callbacks) (opts : Options) (now i : ℕ) (msg : Msg) (w : World)
      → opts.heart_beat_interval ≢ 0
      → IsServed (w.session i)
      → (w.session i).incoming ≡ []
      → IsForeign msg
      → RoutesTo d v server msg
      → ((subj body : Bytes) → wire.publishes subj body ≡ true)
      → ((run_turn cb opts in_turn now i (receive_turn cb opts (received msg) i w)).calls
          ≡ w.calls ++ msg ∷ [])
        × (subj : Bytes) × (body : Bytes) × (call_nr
              (λ m. some (marshal m))
              unmarshal
              wire
              client
              d
              msg
            ≡ ok (published subj body))
        × (Nats.handler unmarshal (Nats.init server) false subj (some body) ≡ ok (to_callback msg))
  client_message_arrives cb opts now i msg w beats h idle f r takes =
      let (subj, body, sent, handled) =
        call_nr_delivers d v server named same marshal unmarshal back wire client false msg r
          takes in
      (received_called cb opts now i msg w beats h idle f, subj, body, sent, handled)
