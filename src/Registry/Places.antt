-- ===== src/Registry/Places.antt =====
-- What the places of Run and of its goroutine say of the channel `ex` and of the key in etcd.
use newtbig.Prelude.{◌≡◌, refl, Bool, true, false, not, arith, nat_eq}
use newtbig.Registry.Goroutines.{
  Main, Ticker, Life, Step, Reach, new, is_starting, created, before_started, server_started,
  registered, serving, cancelled, closed, before_stopped, deregistered, stopped, finished, unborn,
  before_start, start_server, register_first, after_start, give_up, cancel, close_ex, before_stop,
  deregister_done, deregister_failed, stop_server, after_stop, tick, register_done, register_failed,
  exit_seen, here, later,
}

abbrev pub is_unborn : Ticker → Bool
is_unborn unborn = true
is_unborn _ = false

-- The places of Run before which `ex` is open, and behind which it is closed.
abbrev pub is_closing : Main → Bool
is_closing closed = true
is_closing before_stopped = true
is_closing (deregistered b) = true
is_closing (stopped b) = true
is_closing (finished b) = true
is_closing _ = false

abbrev pub is_serving : Main → Bool
is_serving serving = true
is_serving cancelled = true
is_serving m = is_closing m

-- Whether a service at this place has registered, and is sure to be registered still.
abbrev pub is_held : Main → Bool
is_held registered = true
is_held serving = true
is_held cancelled = true
is_held closed = true
is_held before_stopped = true
is_held _ = false

-- The goroutine is there from the end of Start on; `ex` is closed once Run stops; and from the first
-- registration to the deregistration the key is held.
pub record IsLife (s : Life) : Type 0 where
  pub born : is_unborn s.ticker ≡ not (is_serving s.main)
  pub exit : s.ex_closed ≡ is_closing s.main
  pub held : is_held s.main ≡ true → s.key ≡ true

pub new-IsLife : IsLife new
new-IsLife = record { born = refl; exit = refl; held = λ e. cc e }

pub starting_open :
    (m : Main) → is_starting m ≡ true → (is_serving m ≡ false) × (is_closing m ≡ false)
starting_open created e = (refl, refl)
starting_open before_started e = (refl, refl)
starting_open server_started e = (refl, refl)
starting_open registered e = (refl, refl)
starting_open _ e = absurd (ground arith)

step-IsLife : {ticking : Bool} {s t : Life} → Step ticking s t → IsLife s → IsLife t
step-IsLife (before_start e) v = record {
  born = ground (arith, v.born);
  exit = ground (arith, v.exit);
  held = λ h. absurd (ground arith);
}
step-IsLife (start_server e) v = record {
  born = ground (arith, v.born);
  exit = ground (arith, v.exit);
  held = λ h. absurd (ground arith);
}
step-IsLife (register_first e) v = record {
  born = ground (arith, v.born);
  exit = ground (arith, v.exit);
  held = λ h. refl;
}
step-IsLife {ticking} (after_start e) v = record {
  born = elim ticking [ true ↦ ground (arith, v.born) | false ↦ ground (arith, v.born) ];
  exit = ground (arith, v.exit);
  held = λ h. v.held (ground arith);
}
step-IsLife {s = s} (give_up e) v =
    let (idle, open_still) = starting_open s.main e in
    record {
      born = ground (arith, v.born, idle);
      exit = ground (arith, v.exit, open_still);
      held = λ h. absurd (ground arith);
    }
step-IsLife (cancel e) v = record {
  born = ground (arith, v.born);
  exit = ground (arith, v.exit);
  held = λ h. v.held (ground arith);
}
step-IsLife (close_ex e) v = record {
  born = ground (arith, v.born);
  exit = refl;
  held = λ h. v.held (ground arith);
}
step-IsLife (before_stop e) v = record {
  born = ground (arith, v.born);
  exit = ground (arith, v.exit);
  held = λ h. v.held (ground arith);
}
step-IsLife (deregister_done e) v = record {
  born = ground (arith, v.born);
  exit = ground (arith, v.exit);
  held = λ h. absurd (ground arith);
}
step-IsLife (deregister_failed e) v = record {
  born = ground (arith, v.born);
  exit = ground (arith, v.exit);
  held = λ h. absurd (ground arith);
}
step-IsLife (stop_server e) v = record {
  born = ground (arith, v.born);
  exit = ground (arith, v.exit);
  held = λ h. absurd (ground arith);
}
step-IsLife (after_stop e) v = record {
  born = ground (arith, v.born);
  exit = ground (arith, v.exit);
  held = λ h. absurd (ground arith);
}
step-IsLife (tick e) v = record { born = ground (arith, v.born); exit = v.exit; held = v.held }
step-IsLife (register_done e) v = record {
  born = ground (arith, v.born);
  exit = v.exit;
  held = λ h. refl;
}
step-IsLife (register_failed e) v = record {
  born = ground (arith, v.born);
  exit = v.exit;
  held = v.held;
}
step-IsLife (exit_seen e c) v = record {
  born = ground (arith, v.born);
  exit = v.exit;
  held = v.held;
}

pub Reach-IsLife : {ticking : Bool} {s t : Life} → Reach ticking s t → IsLife s → IsLife t
Reach-IsLife here v = v
Reach-IsLife (later r st) v = step-IsLife st (Reach-IsLife r v)
