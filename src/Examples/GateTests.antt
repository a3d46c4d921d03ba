-- ===== src/Examples/GateTests.antt =====
-- A gate with two sessions of one user, and one of another.
use newtbig.Prelude.{
  ℕ, ◌+◌, ◌%◌, ◌^◌, ◌≡◌, refl, true, false, List, [], ◌∷◌, Option, none, some, Bytes, lookup, arith,
  if◌then◌else◌, ◌==◌, nat_eq,
}
use newtbig.Common.{Msg}
use newtbig.Common.Codes.{msg_verify}
use newtbig.Gate.Session.{Session, World, opened, on_stop}
use newtbig.Gate.Manager.{new_mgr, add, stop_all_session}
use newtbig.Gate.Manager.Counting.{IsManager, new_mgr-IsManager}
use newtbig.Gate.Manager.Login.{add_too_soon}
use newtbig.Gate.Manager.Renaming.{renamed, renamed_leaves}
use newtbig.Gate.Manager.Shutdown.{AreLive, stop_all_session_drift}
use newtbig.Gate.Run.{Callbacks, Event, connects, turns, reads, adds, stops, received, in_turn, run}
use newtbig.Gate.Run.Histories.{run-IsManager}
use newtbig.Examples.ServiceTests.{test_options}

abbrev encode : Msg → Option Bytes
encode msg = some (msg.id ∷ msg.uid ∷ [])

abbrev pub session_of : ℕ → Session
session_of uid = record {
  user_id = uid;
  conn = opened;
  out = [];
  call = [];
  incoming = [];
  ctl_closed = false;
  running = true;
  wire = [];
  last_heart_beat_time = 100;
  packet_count = 0;
  packet_count_1_min = 0;
  vrifyed = true;
  stopped = false;
  bro_msgs = [];
}

-- Session 3 is not verified; sessions 1 and 2 are of user 5, and the others of user 9.
abbrev sessions : ℕ → Session
sessions i =
    if i == 1
    then session_of 5
    else if i == 2
    then session_of 5
    else if i == 3
    then record (session_of 0) { vrifyed = false }
    else session_of 9

-- The manager has session 1 for user 5, who logged in at 10 s, and session 4 for user 9.
abbrev pub gate : World
gate = record {
  session = sessions;
  mgr = record {
    sessions = (5, 1) ∷ (9, 4) ∷ [];
    count = 2;
    add_chan = [];
    add_map = (5, 10000) ∷ [];
  };
  calls = [];
}

abbrev empty_gate : World
empty_gate = record gate { mgr = new_mgr }

abbrev pub message : ℕ → Msg
message id = record { seq = 0; id = id; body = []; key = 0; uid = 5 }

add_too_soon_example :
    let w' = (add encode 12000 2 gate).0 in
    (lookup 5 w'.mgr.sessions ≡ none)
    × (w'.session 1 ≡ session_of 5)
    × ((w'.session 2).stopped ≡ true)
add_too_soon_example =
    add_too_soon encode 12000 2 1 gate (omega arith) refl refl (omega arith) (unfold lookup in refl)
      (unfold lookup in refl)

-- The client of session 4, who is user 9, asks to be user 6.
abbrev other_user : Msg
other_user = record { seq = 0; id = msg_verify; body = []; key = 0; uid = 6 }

renamed_leaves_example :
    let w1 = renamed encode (λ m. true) true 10000 4 other_user gate in
    let w2 = on_stop 4 w1 in
    (lookup 9 w1.mgr.sessions ≡ some 4)
    × (lookup 6 w1.mgr.sessions ≡ some 4)
    × ((w1.session 4).user_id ≡ 6)
    × ((w2.session 4).stopped ≡ true)
    × (lookup 6 w2.mgr.sessions ≡ none)
    × (lookup 9 w2.mgr.sessions ≡ some 4)
renamed_leaves_example =
    renamed_leaves encode (λ m. true) true 10000 4 other_user gate refl (λ e. omega (arith, e)) refl
      refl (unfold lookup in refl) (unfold lookup in refl) 9 (λ e. omega (arith, e))
      (unfold lookup in refl) refl

gate-IsManager : IsManager gate.mgr
gate-IsManager = record { unique = unfold lookup in (refl, (refl, tt)); counted = refl }

gate-AreLive : AreLive gate.session gate.mgr.sessions
gate-AreLive = (
  (refl, refl, refl, λ e. omega arith),
  (λ e. omega arith, tt),
  ((refl, refl, refl, λ e. omega arith), tt, tt),
)

stop_all_session_drift_example :
    ((stop_all_session gate).mgr.sessions ≡ [])
    × (((stop_all_session gate).mgr.count + 2) % 2 ^ 32 ≡ 0)
stop_all_session_drift_example = stop_all_session_drift gate gate-IsManager gate-AreLive

abbrev pub callbacks : Callbacks
callbacks = record { marshal = encode; verify = λ m. true; check_route = λ uid. false }

-- A client connects and is verified; the manager takes it, and the server stops it.
abbrev login : List Event
login =
    connects 10000 7
    ∷ reads (received (message msg_verify)) 7
    ∷ turns in_turn 10001 7
    ∷ adds 10002
    ∷ stops 5
    ∷ []

run-IsManager_example : IsManager (run callbacks test_options login empty_gate).mgr
run-IsManager_example = run-IsManager callbacks test_options login empty_gate new_mgr-IsManager
