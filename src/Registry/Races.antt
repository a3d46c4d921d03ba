-- ===== src/Registry/Races.antt =====
-- What the two goroutines of a service can do to its key in etcd.
use newtbig.Prelude.{◌≡◌, refl, ◌∙◌, ap, Bool, true, false, arith, nat_eq}
use newtbig.Registry.Goroutines.{
  Main, Ticker, Life, Step, Reach, new, is_starting, created, before_started, server_started,
  registered, failed, deregistered, stopped, finished, unborn, waiting, returned, before_start,
  start_server, register_first, after_start, give_up, cancel, close_ex, before_stop,
  deregister_done, deregister_failed, stop_server, after_stop, tick, register_done, register_failed,
  exit_seen, here, later,
}
use newtbig.Registry.Places.{is_unborn, is_closing, new-IsLife, starting_open, Reach-IsLife}

-- Whether Stop's deregister has succeeded.
abbrev pub is_deregistered : Main → Bool
is_deregistered (deregistered b) = b
is_deregistered (stopped b) = b
is_deregistered (finished b) = b
is_deregistered _ = false

-- A service that stops without a goroutine that registers.
record IsQuiet (s : Life) : Type 0 where
  closing : is_closing s.main ≡ true
  alone : s.ticker ≡ returned
  gone : is_deregistered s.main ≡ true → s.key ≡ false

step-IsQuiet : {ticking : Bool} {s t : Life} → Step ticking s t → IsQuiet s → IsQuiet t
step-IsQuiet (before_stop e) q = record {
  closing = refl;
  alone = q.alone;
  gone = λ h. absurd (ground arith);
}
step-IsQuiet (deregister_done e) q = record { closing = refl; alone = q.alone; gone = λ h. refl }
step-IsQuiet (deregister_failed e) q = record {
  closing = refl;
  alone = q.alone;
  gone = λ h. absurd (ground arith);
}
step-IsQuiet (stop_server e) q = record {
  closing = refl;
  alone = q.alone;
  gone = λ h. q.gone (ground arith);
}
step-IsQuiet (after_stop e) q = record {
  closing = refl;
  alone = q.alone;
  gone = λ h. q.gone (ground arith);
}
step-IsQuiet {s = s} (give_up e) q = absurd (ground (arith, q.closing, starting_open s.main e))
step-IsQuiet (before_start e) q = absurd (ground (arith, q.closing))
step-IsQuiet (start_server e) q = absurd (ground (arith, q.closing))
step-IsQuiet (register_first e) q = absurd (ground (arith, q.closing))
step-IsQuiet (after_start e) q = absurd (ground (arith, q.closing))
step-IsQuiet (cancel e) q = absurd (ground (arith, q.closing))
step-IsQuiet (close_ex e) q = absurd (ground (arith, q.closing))
step-IsQuiet (tick e) q = absurd (ground (arith, q.alone))
step-IsQuiet (register_done e) q = absurd (ground (arith, q.alone))
step-IsQuiet (register_failed e) q = absurd (ground (arith, q.alone))
step-IsQuiet (exit_seen e c) q = absurd (ground (arith, q.alone))

Reach-IsQuiet : {ticking : Bool} {s t : Life} → Reach ticking s t → IsQuiet s → IsQuiet t
Reach-IsQuiet here q = q
Reach-IsQuiet (later r st) q = step-IsQuiet st (Reach-IsQuiet r q)

-- From a state in which a service is stopping and has not deregistered, and the goroutine that it
-- started has returned: in every state that can be reached behind a deregistration that succeeded,
-- etcd does not hold the service's key.
pub quiet_stop :
    {ticking : Bool} (s t : Life)
    → is_closing s.main ≡ true
    → is_deregistered s.main ≡ false
    → s.ticker ≡ returned
    → Reach ticking s t
    → is_deregistered t.main ≡ true
    → t.key ≡ false
quiet_stop s t closing before alone r after =
    (Reach-IsQuiet r
        (record { closing = closing; alone = alone; gone = λ h. absurd (ground arith) })).gone
      after

-- Both goroutines have ended.
abbrev is_over : Main → Bool
is_over failed = true
is_over (finished b) = true
is_over _ = false

abbrev is_idle : Ticker → Bool
is_idle unborn = true
is_idle returned = true
is_idle _ = false

idle_unborn : (t : Ticker) → is_unborn t ≡ true → is_idle t ≡ true
idle_unborn unborn e = refl
idle_unborn _ e = absurd (ground arith)

starting_before : (m : Main) → is_starting m ≡ true → is_over m ≡ false
starting_before created e = refl
starting_before before_started e = refl
starting_before server_started e = refl
starting_before registered e = refl
starting_before _ e = absurd (ground arith)

-- Then no step is left.
over_step :
    {ticking : Bool} {s t : Life}
    → Step ticking s t
    → is_over s.main ≡ true
    → is_idle s.ticker ≡ true
    → t ≡ s
over_step {s = s} (give_up e) over idle = absurd (ground (arith, starting_before s.main e))
over_step (before_start e) over idle = absurd (ground arith)
over_step (start_server e) over idle = absurd (ground arith)
over_step (register_first e) over idle = absurd (ground arith)
over_step (after_start e) over idle = absurd (ground arith)
over_step (cancel e) over idle = absurd (ground arith)
over_step (close_ex e) over idle = absurd (ground arith)
over_step (before_stop e) over idle = absurd (ground arith)
over_step (deregister_done e) over idle = absurd (ground arith)
over_step (deregister_failed e) over idle = absurd (ground arith)
over_step (stop_server e) over idle = absurd (ground arith)
over_step (after_stop e) over idle = absurd (ground arith)
over_step (tick e) over idle = absurd (ground arith)
over_step (register_done e) over idle = absurd (ground arith)
over_step (register_failed e) over idle = absurd (ground arith)
over_step (exit_seen e c) over idle = absurd (ground arith)

over_stays :
    {ticking : Bool} {s t : Life}
    → Reach ticking s t
    → is_over s.main ≡ true
    → is_idle s.ticker ≡ true
    → t ≡ s
over_stays here over idle = refl
over_stays (later r st) over idle =
    let same = over_stays r over idle in
    over_step st (ap (λ x. is_over x.main) same ∙ over) (ap (λ x. is_idle x.ticker) same ∙ idle)
    ∙ same

-- From every state that a service can reach from its creation, in which Run has returned, whatever
-- its deregistration came to, and the goroutine that it started still waits in its select: a state
-- can be reached in which both have ended and from which on etcd holds the service's key in every
-- state that can be reached.
pub stale_key :
    {ticking : Bool} (s : Life) (b : Bool)
    → Reach ticking new s
    → s.main ≡ finished b
    → s.ticker ≡ waiting
    → (t : Life) × Reach ticking s t
      × (t.main ≡ finished b)
      × (t.ticker ≡ returned)
      × ((u : Life) → Reach ticking t u → u.key ≡ true)
stale_key s b r over waits =
    let v = Reach-IsLife r new-IsLife in
    let exit : s.ex_closed ≡ true = ground (arith, v.exit) in
    (
      record s { ticker = returned; key = true },
      later (later (later here (tick waits)) (register_done refl)) (exit_seen refl exit),
      over,
      refl,
      λ u q. ap (λ x. x.key) (over_stays q (ground arith) refl),
    )

-- Where AfterStart fails, Run returns its error, and the key that was registered stays.
pub after_start_failed :
    {ticking : Bool} (s t : Life)
    → Reach ticking new s
    → s.main ≡ registered
    → Reach ticking (record s { main = failed }) t
    → t.key ≡ true
after_start_failed s t r at q =
    let v = Reach-IsLife r new-IsLife in
    ap (λ x. x.key) (over_stays q refl (idle_unborn s.ticker (ground (arith, v.born))))
    ∙ v.held (ground arith)
