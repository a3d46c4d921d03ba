-- ===== src/Examples/LifeTests.antt =====
-- A service that ends while its goroutine still waits, and one that ends behind it.
use newtbig.Prelude.{◌≡◌, refl, true, false}
use newtbig.Registry.Goroutines.{
  Life, Reach, new, closed, finished, waiting, returned, before_start, start_server, register_first,
  after_start, cancel, close_ex, before_stop, deregister_done, stop_server, after_stop, here, later,
}
use newtbig.Registry.Races.{quiet_stop, stale_key}

abbrev closing : Life
closing = record { main = closed; ticker = waiting; ex_closed = true; key = true }

abbrev ended : Life
ended = record closing { main = finished true; key = false }

new-closing : Reach true new closing
new-closing =
    later
      (later
        (later
          (later (later (later here (before_start refl)) (start_server refl)) (register_first refl))
          (after_start refl))
        (cancel refl))
      (close_ex refl)

new-ended : Reach true new ended
new-ended =
    later
      (later (later (later new-closing (before_stop refl)) (deregister_done refl))
        (stop_server refl))
      (after_stop refl)

stale_key_example :
    (t : Life) × Reach true ended t
    × (t.main ≡ finished true)
    × (t.ticker ≡ returned)
    × ((u : Life) → Reach true t u → u.key ≡ true)
stale_key_example = stale_key ended true new-ended refl refl

-- The goroutine has returned before Stop deregisters.
abbrev quiet : Life
quiet = record closing { ticker = returned }

abbrev gone : Life
gone = record ended { ticker = returned }

quiet-gone : Reach true quiet gone
quiet-gone =
    later (later (later (later here (before_stop refl)) (deregister_done refl)) (stop_server refl))
      (after_stop refl)

quiet_stop_example : gone.key ≡ false
quiet_stop_example = quiet_stop quiet gone refl refl refl quiet-gone refl
