-- ===== src/Gate/Run.antt =====
-- The loops of a session, `run` and `receive` of gate/session/session.go, one turn at a time, and
-- the gate as a list of events. The order of the events is any, so they cover every interleaving of
-- the sessions' goroutines with the manager's. Times are in milliseconds.
pub mod Histories
pub mod Limits
pub mod Inbound
use newtbig.Prelude.{
  ℕ, suc, ◌+◌, ◌-◌, ◌/◌, ◌%◌, ◌^◌, Bool, true, false, not, ◌&&◌, List, [], ◌∷◌, ◌++◌, Option, none,
  some, ltb, ◌==◌, nat_eq, if◌then◌else◌, Bytes,
}
use newtbig.Common.{Msg}
use newtbig.Options.{Options}
use newtbig.Gate.Session.{Session, World, put_session, on_init, on_start, on_stop, is_open, msg_in}
use newtbig.Gate.Manager.{run_once, stop_session, drop_session, broat_cast, receive}

-- What wakes the `select` of `run`; for a message of `out`, with which data the connection's OnSend
-- takes at that time.
pub data Turn : Type 0 where
  heart_tick mini_tick in_turn call_turn ctl_turn : Turn
  out_turn : (Bytes → Bool) → Turn

-- `run` returns: its deferred function closes the channels.
abbrev pub finish : ℕ → World → World
finish i w = put_session i (record (w.session i) { running = false }) w

-- timer_work: whether the session is within its limit. The counter is reset on both paths.
unfoldable pub timer_work : ℕ → Session → Session × Bool
timer_work rpm_limit s =
    (record s { packet_count_1_min = 0 }, not (ltb rpm_limit s.packet_count_1_min))

-- What the gate is built with: the processor's Marshal, the verify callback and CheckRoute.
pub record Callbacks : Type 0 where
  pub marshal : Msg → Option Bytes
  pub verify : Msg → Bool
  pub check_route : ℕ → Bool

-- What OnReceive returns: an error, nothing, or a message.
pub data Payload : Type 0 where
  failed empty : Payload
  received : Msg → Payload

-- A step of the gate: a new connection, a turn of a loop, a turn of the manager, a call of the
-- server or of another server.
pub data Event : Type 0 where
  connects : ℕ → ℕ → Event
  turns : Turn → ℕ → ℕ → Event
  reads : Payload → ℕ → Event
  adds : ℕ → Event
  stops drops : ℕ → Event
  sent sent_to_all : Msg → Event

module _ (cb : Callbacks) (opts : Options) where
  in_message : ℕ → ℕ → List Msg → World → World
  in_message now i [] w = w
  in_message now i (msg ∷ rest) w =
      let s = w.session i in
      let counted = record s {
        incoming = rest;
        packet_count = (s.packet_count + 1) % 2 ^ 32;
        packet_count_1_min = s.packet_count_1_min + 1;
      } in
      (msg_in cb.marshal cb.verify opts.hb_back (now / 1000) i msg (put_session i counted w)).0

  -- The error of OnSend is logged only, and the message is lost.
  out_message : (Bytes → Bool) → ℕ → List Bytes → World → World
  out_message takes i [] w = w
  out_message takes i (bytes ∷ rest) w =
      let s = record (w.session i) { out = rest } in
      if is_open s.conn
      then put_session i (if takes bytes then record s { wire = s.wire ++ bytes ∷ [] } else s) w
      else finish i (on_stop i (put_session i s w))

  call_message : ℕ → List Msg → World → World
  call_message i [] w = w
  call_message i (msg ∷ rest) w =
      let w' = put_session i (record (w.session i) { call = rest }) w in
      record w' { calls = w'.calls ++ msg ∷ [] }

  turn : Turn → ℕ → ℕ → World → World
  unfolding in_message out_message call_message timer_work
  turn heart_tick now i w =
      if ltb opts.heart_beat_interval (now / 1000 - (w.session i).last_heart_beat_time)
      then finish i (on_stop i w)
      else w
  turn mini_tick now i w =
      let (s, within) = timer_work opts.rpm_limit (w.session i) in
      let w' = put_session i s w in if within then w' else finish i (on_stop i w')
  turn in_turn now i w = in_message now i (w.session i).incoming w
  turn (out_turn takes) now i w = out_message takes i (w.session i).out w
  turn call_turn now i w = call_message i (w.session i).call w
  turn ctl_turn now i w = if (w.session i).ctl_closed then finish i w else w

  -- One turn of `run`, which returns at once where the heartbeat interval is not positive.
  unfoldable pub run_turn : Turn → ℕ → ℕ → World → World
  unfolding turn
  run_turn t now i w =
      if not (w.session i).running
      then w
      else if opts.heart_beat_interval == 0
      then finish i w
      else turn t now i w

  -- One turn of `receive`. A send on a closed channel panics, which ends the goroutine.
  unfoldable pub receive_turn : Payload → ℕ → World → World
  receive_turn p i w =
      let s = w.session i in
      if s.ctl_closed then w else elim p [
        | failed ↦ on_stop i w
        | empty ↦ w
        | received msg ↦
            if s.running
            then put_session i (record s { incoming = s.incoming ++ msg ∷ [] }) w
            else w
      ]

  unfoldable pub step : Event → World → World
  step (connects now i) w = put_session i (on_start (on_init (now / 1000))) w
  step (turns t now i) w = run_turn t now i w
  step (reads p i) w = receive_turn p i w
  step (adds now) w = run_once cb.marshal now w
  step (stops uid) w = stop_session uid w
  step (drops uid) w = drop_session uid w
  step (sent msg) w = (receive cb.marshal msg w).0
  step (sent_to_all msg) w = broat_cast cb.marshal cb.check_route msg w

  unfoldable pub run : List Event → World → World
  run [] w = w
  run (e ∷ events) w = run events (step e w)
