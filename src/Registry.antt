-- ===== src/Registry.antt =====
-- The registration of a server and its life cycle, service/service.go. What the server, etcd and
-- the clock do is given: whether each call fails, and which ticks register with success.
pub mod Goroutines
pub mod Places
pub mod Races
pub mod Context
use newtbig.Prelude.{
  ℕ, suc, ◌+◌, ◌<◌, ◌≡◌, refl, Bool, true, false, List, [], ◌∷◌, ◌++◌, Option, none, some, arith,
  ltb, if◌then◌else◌, ◌==◌, nat_eq, Bytes, All, Result, ok, err,
}
use newtbig.Options.{Options}
use newtbig.Strings.FilePath.{path3}

-- framepb.Status, without the weight that nothing sets.
pub record Registration : Type 0 where
  pub key : Bytes
  pub addr : Bytes
  pub count : ℕ

unfoldable pub new_service : Options → Registration
new_service opts = record {
  key = path3 opts.app_name opts.server_type opts.server_name;
  addr = opts.server_ip_out ++ b':' ∷ opts.server_port;
  count = 0;
}

pub data RegisterError : Type 0 where
  marshal_failed not_put not_deleted : RegisterError

-- register, with the server's count: the status that it keeps, and the key and the value that it
-- puts into etcd.
unfoldable pub register_status :
    (Registration → Option Bytes)
    → (Bytes → Bytes → Bool)
    → ℕ
    → Registration
    → Registration × Result RegisterError (Bytes × Bytes)
register_status marshal puts count s =
    let status = record s { count = count } in
    (
      status,
      elim (marshal status) [
        | none ↦ err marshal_failed
        | some value ↦ if puts s.key value then ok (s.key, value) else err not_put
      ],
    )

-- deregister, given whether there is a client and whether etcd deletes: the key that it deletes.
unfoldable pub deregister_key :
    Bool → (Bytes → Bool) → Registration → Result RegisterError (Option Bytes)
deregister_key has_client deletes s =
    if has_client then (if deletes s.key then ok (some s.key) else err not_deleted) else ok none

pub data Call : Type 0 where
  before_start start register after_start : Call
  before_stop deregister stop after_stop : Call

-- The calls that were made, and the one that failed.
abbrev pub Trace : Type 0
Trace = List Call × Option Call

-- `if err := call(); err != nil { return err }` before the rest.
then_call : (Call → Bool) → Call → Trace → Trace
then_call fails c rest = if fails c then (c ∷ [], some c) else (c ∷ rest.0, rest.1)

-- Start: the first failure ends it.
unfoldable pub start_service : (Call → Bool) → Trace
unfolding then_call
start_service fails =
    then_call fails before_start
      (then_call fails start (then_call fails register (then_call fails after_start ([], none))))

-- Stop: a failure is logged, and the next call is made.
unfoldable pub stop_service : (Call → Bool) → Trace
stop_service fails = (before_stop ∷ deregister ∷ stop ∷ after_stop ∷ [], none)

-- Run: a failed start is returned at once; otherwise the service stops when the context ends.
unfoldable pub run_service : (Call → Bool) → Trace
unfolding start_service stop_service
run_service fails =
    let (made, failed) = start_service fails in
    elim failed [
      | some c ↦ (made, some c)
      | none ↦ (made ++ (stop_service fails).0, (stop_service fails).1)
    ]

-- The ticker loop of `run`: for each tick, whether the registration succeeds. It counts the
-- timeouts that are reported, from the value of `registeTime`.
run_ticks : ℕ → List Bool → ℕ → ℕ
run_ticks ttl [] registe_time = 0
run_ticks ttl (true ∷ ticks) registe_time = run_ticks ttl ticks 0
run_ticks ttl (false ∷ ticks) registe_time =
    let rest = run_ticks ttl ticks 0 in if ltb ttl (registe_time + 1) then suc rest else rest

-- `run` with its interval, which must be positive.
pub run : ℕ → ℕ → List Bool → ℕ
unfolding run_ticks
run interval ttl ticks = if interval == 0 then 0 else run_ticks ttl ticks 0

run_ticks_zero : (ttl : ℕ) (ticks : List Bool) → 0 < ttl → run_ticks ttl ticks 0 ≡ 0
unfolding run_ticks
run_ticks_zero ttl [] h = refl
run_ticks_zero ttl (true ∷ ticks) h = run_ticks_zero ttl ticks h
run_ticks_zero ttl (false ∷ ticks) h = ground (arith, run_ticks_zero ttl ticks h)

-- With a limit of one failed tick or more, and any interval, no timeout is ever reported, however
-- many ticks in a row fail: the counter is reset after each of them.
pub run_silent : (interval ttl : ℕ) (ticks : List Bool) → 0 < ttl → run interval ttl ticks ≡ 0
unfolding run
run_silent interval ttl ticks h = ground (arith, run_ticks_zero ttl ticks h)

-- The calls of a start.
abbrev pub IsStarting : Call → Type 0
IsStarting before_start = Unit
IsStarting start = Unit
IsStarting register = Unit
IsStarting after_start = Unit
IsStarting _ = ⊥

-- When the four starting calls succeed, Run makes them in order and then the four stopping calls,
-- whatever fails among these, and returns no error.
pub run_service_whole :
    (fails : Call → Bool)
    → fails before_start ≡ false
    → fails start ≡ false
    → fails register ≡ false
    → fails after_start ≡ false
    → run_service fails ≡ (
      before_start ∷ start ∷ register ∷ after_start ∷ before_stop ∷ deregister ∷ stop ∷ after_stop
          ∷ [],
      none,
    )
unfolding run_service
run_service_whole fails a b c d = ground arith

-- When Run returns the error of a call, that call failed, and only starting calls were made: a
-- server that registered and then failed AfterStart is not deregistered.
pub run_service_failed :
    (fails : Call → Bool) (c : Call)
    → (run_service fails).1 ≡ some c
    → (fails c ≡ true) × All IsStarting (run_service fails).0
unfolding run_service
run_service_failed fails c h = (ground arith, ground arith)
