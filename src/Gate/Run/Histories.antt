-- ===== src/Gate/Run/Histories.antt =====
-- What holds over every history of the gate.
use newtbig.Prelude.{
  ℕ, ◌/◌, Bool, true, false, not, List, [], ◌∷◌, arith, ◌==◌, nat_eq, if◌then◌else◌, Bytes,
  Bool-cases, Option-cases, inl, inr, lookup,
}
use newtbig.Common.{Msg}
use newtbig.Options.{Options}
use newtbig.Gate.Session.{World, is_open}
use newtbig.Gate.Manager.{stop_session, drop_session, receive}
use newtbig.Gate.Manager.Counting.{
  IsManager, on_stop-HasCount, del_session-HasCount, run_once-IsManager, broat_cast-IsManager,
  msg_in-IsManager,
}
use newtbig.Gate.Run.{
  Turn, heart_tick, mini_tick, in_turn, out_turn, call_turn, ctl_turn, finish, Callbacks,
  in_message, out_message, call_message, turn, run_turn, Payload, failed, empty, received,
  receive_turn, Event, connects, turns, reads, adds, stops, drops, sent, sent_to_all, step, run,
}

module _ (cb : Callbacks) (opts : Options) where
  in_message-IsManager :
      (now i : ℕ) (msgs : List Msg) (w : World)
      → IsManager w.mgr
      → IsManager (in_message cb opts now i msgs w).mgr
  unfolding in_message
  in_message-IsManager now i [] w v = v
  in_message-IsManager now i (msg ∷ rest) w v =
      msg_in-IsManager cb.marshal cb.verify opts.hb_back (now / 1000) i msg _ v

  out_message-IsManager :
      (takes : Bytes → Bool) (i : ℕ) (queue : List Bytes) (w : World)
      → IsManager w.mgr
      → IsManager (out_message cb opts takes i queue w).mgr
  unfolding out_message
  out_message-IsManager takes i [] w v = v
  out_message-IsManager takes i (bytes ∷ rest) w v =
      elim (Bool-cases (is_open (w.session i).conn)) [
        | inl e ↦ rw (e, out_message) v
        | inr e ↦ rw (e, out_message) (on_stop-HasCount 0 i _ v)
      ]

  call_message-IsManager :
      (i : ℕ) (queue : List Msg) (w : World)
      → IsManager w.mgr
      → IsManager (call_message cb opts i queue w).mgr
  unfolding call_message
  call_message-IsManager i [] w v = v
  call_message-IsManager i (msg ∷ rest) w v = v

  if-IsManager :
      (b : Bool) (x y : World)
      → IsManager x.mgr
      → IsManager y.mgr
      → IsManager (if b then x else y).mgr
  if-IsManager true x y hx hy = hx
  if-IsManager false x y hx hy = hy

  turn-IsManager :
      (t : Turn) (now i : ℕ) (w : World) → IsManager w.mgr → IsManager (turn cb opts t now i w).mgr
  unfolding turn
  turn-IsManager heart_tick now i w v = if-IsManager _ _ w (on_stop-HasCount 0 i w v) v
  turn-IsManager mini_tick now i w v = if-IsManager _ _ _ v (on_stop-HasCount 0 i _ v)
  turn-IsManager in_turn now i w v = in_message-IsManager now i (w.session i).incoming w v
  turn-IsManager (out_turn takes) now i w v = out_message-IsManager takes i (w.session i).out w v
  turn-IsManager call_turn now i w v = call_message-IsManager i (w.session i).call w v
  turn-IsManager ctl_turn now i w v = if-IsManager _ _ w v v

  receive_turn-IsManager :
      (p : Payload) (i : ℕ) (w : World)
      → IsManager w.mgr
      → IsManager (receive_turn cb opts p i w).mgr
  unfolding receive_turn
  receive_turn-IsManager failed i w v = if-IsManager _ w _ v (on_stop-HasCount 0 i w v)
  receive_turn-IsManager empty i w v = if-IsManager _ w w v v
  receive_turn-IsManager (received msg) i w v = record {
    unique = ground (arith, v.unique);
    counted = ground (arith, v.counted);
  }

  receive-IsManager :
      (msg : Msg) (w : World) → IsManager w.mgr → IsManager (receive cb.marshal msg w).0.mgr
  unfolding receive
  receive-IsManager msg w v = record {
    unique = ground (arith, v.unique);
    counted = ground (arith, v.counted);
  }

  stop_session-IsManager :
      (uid : ℕ) (w : World) → IsManager w.mgr → IsManager (stop_session uid w).mgr
  unfolding stop_session
  stop_session-IsManager uid w v = elim (Option-cases (lookup uid w.mgr.sessions)) [
    | inl e ↦ rw (e, stop_session) (if-IsManager (uid == 0) w w v v)
    | inr (i, e) ↦ rw (e, stop_session) (if-IsManager (uid == 0) w _ v (on_stop-HasCount 0 i w v))
  ]

  step-IsManager : (e : Event) (w : World) → IsManager w.mgr → IsManager (step cb opts e w).mgr
  unfolding step run_turn
  step-IsManager (connects now i) w v = v
  step-IsManager (turns t now i) w v =
      if-IsManager (not (w.session i).running) w
        (if opts.heart_beat_interval == 0 then finish i w else turn cb opts t now i w) v
        (if-IsManager (opts.heart_beat_interval == 0) (finish i w) (turn cb opts t now i w) v
          (turn-IsManager t now i w v))
  step-IsManager (reads p i) w v = receive_turn-IsManager p i w v
  step-IsManager (adds now) w v = run_once-IsManager cb.marshal now w v
  step-IsManager (stops uid) w v = stop_session-IsManager uid w v
  step-IsManager (drops uid) w v = unfold drop_session in del_session-HasCount 0 uid w.mgr v
  step-IsManager (sent msg) w v = receive-IsManager msg w v
  step-IsManager (sent_to_all msg) w v = broat_cast-IsManager cb.marshal cb.check_route msg w v

  -- From a manager whose count is the number of its sessions, with no user in it twice, any history
  -- of steps without a StopAllSession leads to such a manager.
  pub run-IsManager :
      (events : List Event) (w : World) → IsManager w.mgr → IsManager (run cb opts events w).mgr
  unfolding run
  run-IsManager [] w v = v
  run-IsManager (e ∷ events) w v = run-IsManager events (step cb opts e w) (step-IsManager e w v)
