-- ===== src/Examples/LimitTests.antt =====
-- Sessions at their limits, a WebSocket connection in use, and the load of a server.
use newtbig.Prelude.{
  ℕ, ◌≡◌, ◌≢◌, refl, Bool, true, false, ltb, length, List, [], ◌∷◌, ◌++◌, none, Bytes, codes, arith,
  lookup, nat_eq,
}
use newtbig.Common.{Msg}
use newtbig.Options.{Options}
use newtbig.Process
use newtbig.Gate.Session.{World}
use newtbig.Gate.Run.{out_turn}
use newtbig.Gate.Run.Limits.{Writes, turns_of, out_drains}
use newtbig.Gate.Ws.{Connect, use_all, use_all_read_by, sends, receives, closes, payload}
use newtbig.AppServer.{Server, new_server, call_back, exit_closed}
use newtbig.AppServer.Loads.{taken, handled, occurrences, tally, call_back_counts}
use newtbig.Examples.ServiceTests.{test_options}
use newtbig.Examples.GateTests.{gate, session_of, callbacks, message}

pub beats : test_options.heart_beat_interval ≢ 0
beats e = omega (arith, e)

abbrev queue : List Bytes
queue = codes "x" ∷ codes "too long" ∷ codes "y" ∷ []

-- A connection that refuses data of more than four bytes.
abbrev short : Bytes → Bool
short bytes = ltb (length bytes) 5

abbrev writing : World
writing = record gate {
  session = λ i. record (session_of 5) { out = queue; wire = codes "w" ∷ [] };
}

out_drains_example :
    Writes
      ((turns_of callbacks test_options 100 1 beats (out_turn short) 3 writing).session 1)
      []
      (codes "w" ∷ codes "x" ∷ codes "y" ∷ [])
out_drains_example =
    out_drains callbacks test_options 100 1 beats short queue (codes "w" ∷ []) writing
      (record { runs = refl; is_opened = refl; queued = refl; wired = refl })

-- A session with a limit of two messages, whose client has sent three.
abbrev strict : Options
strict = record test_options { rpm_limit = 2 }

abbrev waiting : List Msg
waiting = message 7 ∷ message 8 ∷ message 9 ∷ []

abbrev flooded : World
flooded = record gate {
  session = λ i. record (session_of 0) { vrifyed = false; incoming = waiting };
}

abbrev ws_connect : Connect
ws_connect = record {
  opts = test_options;
  conn = record { write_by = none; read_by = none; read_limit = 0 };
  read_deadline = 60;
  write_deadline = 60;
  is_close = false;
}

use_all_read_by_example :
    (use_all
      (λ body. none)
      (receives 5 (payload (codes "x")) ∷ sends 6 true ∷ closes ∷ [])
      ws_connect).conn.read_by
    ≡ none
use_all_read_by_example =
    use_all_read_by (λ body. none) (receives 5 (payload (codes "x")) ∷ sends 6 true ∷ closes ∷ [])
      ws_connect

call_back_counts_example :
    (s : Server) × (call_back
        (taken ((1, message 7) ∷ (2, message 8) ∷ []) ++ exit_closed ∷ [])
        (new_server, Process.init test_options)
      ≡ ((s, handled ((1, message 7) ∷ (2, message 8) ∷ []) (Process.init test_options)), true))
    × ((k : ℕ) → lookup k s.key_map ≡ tally (occurrences k ((1, message 7) ∷ (2, message 8) ∷ [])))
call_back_counts_example =
    call_back_counts ((1, message 7) ∷ (2, message 8) ∷ []) [] (Process.init test_options)
