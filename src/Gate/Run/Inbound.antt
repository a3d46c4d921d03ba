-- ===== src/Gate/Run/Inbound.antt =====
-- A message of a client, from `receive` over `run` to CallNR.
use newtbig.Prelude.{
  ℕ, ◌+◌, ◌/◌, ◌%◌, ◌^◌, ◌≡◌, ◌≢◌, sym, subst, true, false, List, [], ◌∷◌, ◌++◌, arith, nat_eq,
}
use newtbig.Common.{Msg}
use newtbig.Options.{Options}
use newtbig.Gate.Session.{Session, World, put_session}
use newtbig.Gate.Session.Effects.{IsForeign, msg_in_forwards}
use newtbig.Gate.Run.{Callbacks, received, receive_turn, in_turn, in_message, turn, run_turn}

-- A session that runs, whose client was verified, and whose channels are open.
pub record IsServed (s : Session) : Type 0 where
  pub verified : s.vrifyed ≡ true
  pub runs : s.running ≡ true
  pub reading : s.ctl_closed ≡ false

module _ (cb : Callbacks) (opts : Options) (now i : ℕ) (msg : Msg) (w : World)
    (h : IsServed (w.session i)) where
  -- The turn that takes the message in.
  in_turn_called :
      (rest : List Msg)
      → opts.heart_beat_interval ≢ 0
      → IsForeign msg
      → (w.session i).incoming ≡ msg ∷ rest
      → (run_turn cb opts in_turn now i w).calls ≡ w.calls ++ msg ∷ []
  unfolding run_turn turn in_message
  in_turn_called rest beats f waiting =
      let read =
        put_session i
          (record (w.session i) {
            incoming = rest;
            packet_count = ((w.session i).packet_count + 1) % 2 ^ 32;
            packet_count_1_min = (w.session i).packet_count_1_min + 1;
          })
          w in
      let called =
        msg_in_forwards cb.marshal cb.verify opts.hb_back (now / 1000) i msg read
          (ground (arith, h.verified)) f in
      ground (arith, beats, h.runs, waiting, called)

  -- The turn of `receive`.
  receive_turn_waiting :
      receive_turn cb opts (received msg) i w
      ≡ put_session i (record (w.session i) { incoming = (w.session i).incoming ++ msg ∷ [] }) w
  unfolding receive_turn
  receive_turn_waiting = ground (arith, h.runs, h.reading)

-- What the client of a served session sends, where nothing else of it waits, is handed to CallNR
-- as it came.
pub received_called :
    (cb : Callbacks) (opts : Options) (now i : ℕ) (msg : Msg) (w : World)
    → opts.heart_beat_interval ≢ 0
    → IsServed (w.session i)
    → (w.session i).incoming ≡ []
    → IsForeign msg
    → (run_turn cb opts in_turn now i (receive_turn cb opts (received msg) i w)).calls
      ≡ w.calls ++ msg ∷ []
received_called cb opts now i msg w beats h idle f =
    let w' =
      put_session i (record (w.session i) { incoming = (w.session i).incoming ++ msg ∷ [] }) w in
    subst (λ x. (run_turn cb opts in_turn now i x).calls ≡ w.calls ++ msg ∷ [])
      (sym (receive_turn_waiting cb opts now i msg w h))
      (in_turn_called cb opts now i msg w'
        (record {
          verified = ground (arith, h.verified);
          runs = ground (arith, h.runs);
          reading = ground (arith, h.reading);
        })
        [] beats f (ground (arith, idle)))
