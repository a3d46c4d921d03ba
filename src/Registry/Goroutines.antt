-- ===== src/Registry/Goroutines.antt =====
-- Run of service/service.go with the goroutine that it starts, as a step relation: a step is one
-- call, or one choice of a select.
use newtbig.Prelude.{◌≡◌, Bool, true, false, if◌then◌else◌}

-- Where Run is: before or behind each of its calls. What Stop's deregister came to is kept.
pub data Main : Type 0 where
  created before_started server_started registered serving : Main
  cancelled closed before_stopped failed : Main
  deregistered stopped finished : Bool → Main

-- Where `run` is: it is not started, it waits in its select, it registers, or it has returned.
pub data Ticker : Type 0 where
  unborn waiting registering returned : Ticker

-- The two, whether the channel `ex` is closed, and whether etcd holds the service's key.
pub record Life : Type 0 where
  pub main : Main
  pub ticker : Ticker
  pub ex_closed : Bool
  pub key : Bool

abbrev pub new : Life
new = record { main = created; ticker = unborn; ex_closed = false; key = false }

-- Start returns the first error, and Run returns it.
abbrev pub is_starting : Main → Bool
is_starting created = true
is_starting before_started = true
is_starting server_started = true
is_starting registered = true
is_starting _ = false

-- A step, given whether RegisterInterval is above zero. The select of `run` may take a tick also when
-- `ex` is closed.
pub data Step (ticking : Bool) (s : Life) : Life → Type 0 where
  before_start : s.main ≡ created → Step ticking s (record s { main = before_started })
  start_server : s.main ≡ before_started → Step ticking s (record s { main = server_started })
  register_first :
      s.main ≡ server_started → Step ticking s (record s { main = registered; key = true })
  after_start :
      s.main ≡ registered
      → Step ticking s (record s { main = serving; ticker = if ticking then waiting else returned })
  give_up : is_starting s.main ≡ true → Step ticking s (record s { main = failed })
  cancel : s.main ≡ serving → Step ticking s (record s { main = cancelled })
  close_ex : s.main ≡ cancelled → Step ticking s (record s { main = closed; ex_closed = true })
  before_stop : s.main ≡ closed → Step ticking s (record s { main = before_stopped })
  deregister_done :
      s.main ≡ before_stopped → Step ticking s (record s { main = deregistered true; key = false })
  deregister_failed :
      s.main ≡ before_stopped → Step ticking s (record s { main = deregistered false })
  stop_server :
      {b : Bool} → s.main ≡ deregistered b → Step ticking s (record s { main = stopped b })
  after_stop : {b : Bool} → s.main ≡ stopped b → Step ticking s (record s { main = finished b })
  tick : s.ticker ≡ waiting → Step ticking s (record s { ticker = registering })
  register_done :
      s.ticker ≡ registering → Step ticking s (record s { ticker = waiting; key = true })
  register_failed : s.ticker ≡ registering → Step ticking s (record s { ticker = waiting })
  exit_seen :
      s.ticker ≡ waiting → s.ex_closed ≡ true → Step ticking s (record s { ticker = returned })

pub data Reach (ticking : Bool) (s : Life) : Life → Type 0 where
  here : Reach ticking s s
  later : {t u : Life} → Reach ticking s t → Step ticking t u → Reach ticking s u
