-- ===== src/Gate/Arrival.antt =====
-- What a gate does with what its NATS client's handler is given, rpc/mq/register.go, up to the
-- client's connection.
use newtbig.Prelude.{
  ℕ, ◌≡◌, ◌≢◌, sym, ◌∙◌, ap, subst, Bool, true, List, [], ◌∷◌, ◌++◌, some, arith, nat_eq, Bytes,
  length,
}
use newtbig.Common.{Msg}
use newtbig.Common.Codes.{msg_reg_broat_cast, msg_disreg_broat_cast}
use newtbig.Options.{Options}
use newtbig.Rpc.Nats.{Delivery, to_session, to_all_sessions, to_callback}
use newtbig.Gate.Session.{Session, World, opened}
use newtbig.Gate.Manager
use newtbig.Gate.Manager.{get_session}
use newtbig.Gate.Session
use newtbig.Gate.Run.{Callbacks, sent, sent_to_all, step, out_turn}
use newtbig.Gate.Run.Limits.{Writes, turns_of, taken, taken-append, out_drains}

-- The calls of the manager that end a handler. What goes into the callback's channel waits there.
unfoldable pub hand_over : Callbacks → Options → Delivery → World → World
hand_over cb opts (to_session msg) w = step cb opts (sent msg) w
hand_over cb opts (to_all_sessions msg) w = step cb opts (sent_to_all msg) w
hand_over cb opts (to_callback msg) w = w

-- The session `i` serves a user: it is verified as this user, and the manager finds it.
pub record IsUser (w : World) (uid i : ℕ) : Type 0 where
  pub managed : get_session uid w ≡ some i
  pub verified : (w.session i).vrifyed ≡ true
  pub owner : (w.session i).user_id ≡ uid

module _ (cb : Callbacks) (opts : Options) (now i : ℕ) (beats : opts.heart_beat_interval ≢ 0) where
  -- A message for a user is queued for the client.
  sent_queued :
      (msg : Msg) (bytes : Bytes) (w : World)
      → msg.id ≢ msg_reg_broat_cast
      → msg.id ≢ msg_disreg_broat_cast
      → cb.marshal msg ≡ some bytes
      → IsUser w msg.uid i
      → (w.session i).running ≡ true
      → (w.session i).conn ≡ opened
      → (step cb opts (sent msg) w).session i
        ≡ record (w.session i) { out = (w.session i).out ++ bytes ∷ [] }
  unfolding step Manager.receive Session.rpc_msg Session.send_msg
  sent_queued msg bytes w r s e u runs is_opened =
      let own = subst (λ n. cb.marshal (record msg { uid = n }) ≡ some bytes) (sym u.owner) e in
      ground (arith, u.managed, u.verified, runs, is_opened, r, s, own)

  sent-Writes :
      (msg : Msg) (bytes : Bytes) (queue written : List Bytes) (w : World)
      → msg.id ≢ msg_reg_broat_cast
      → msg.id ≢ msg_disreg_broat_cast
      → cb.marshal msg ≡ some bytes
      → IsUser w msg.uid i
      → Writes (w.session i) queue written
      → Writes ((step cb opts (sent msg) w).session i) (queue ++ bytes ∷ []) written
  sent-Writes msg bytes queue written w r s e u h =
      subst (λ s. Writes s (queue ++ bytes ∷ []) written)
        (sym (sent_queued msg bytes w r s e u h.runs h.is_opened))
        (record {
          runs = h.runs;
          is_opened = h.is_opened;
          queued = ap (λ q. q ++ bytes ∷ []) h.queued;
          wired = h.wired;
        })

  pub hand_over_written :
      (takes : Bytes → Bool) (msg : Msg) (bytes : Bytes) (queue written : List Bytes) (w : World)
      → msg.id ≢ msg_reg_broat_cast
      → msg.id ≢ msg_disreg_broat_cast
      → cb.marshal msg ≡ some bytes
      → takes bytes ≡ true
      → IsUser w msg.uid i
      → Writes (w.session i) queue written
      → Writes
          ((turns_of cb opts now i beats
              (out_turn takes)
              (length (queue ++ bytes ∷ []))
              (hand_over cb opts (to_session msg) w)).session
            i)
          []
          (written ++ (taken takes queue ++ bytes ∷ []))
  unfolding hand_over
  hand_over_written takes msg bytes queue written w r s e t u h =
      subst
        (λ q.
          Writes
            ((turns_of cb opts now i beats (out_turn takes) (length (queue ++ bytes ∷ []))
                (step cb opts (sent msg) w)).session
              i)
            [] (written ++ q))
        (taken-append takes queue (bytes ∷ [])
          ∙ ap (λ q. taken takes queue ++ q) (ground (arith, t)))
        (out_drains cb opts now i beats takes (queue ++ bytes ∷ []) written
          (step cb opts (sent msg) w) (sent-Writes msg bytes queue written w r s e u h))
