-- ===== src/Gate/Server/Accept.antt =====
-- How the accept loop waits, and whom it lets in.
use newtbig.Prelude.{ℕ, zero, suc, ◌*◌, ◌^◌, ◌≡◌, refl, arith, leb, nat_eq, if◌then◌else◌}
use newtbig.Gate.Server.{timed_out, next_delay, accept_turn}

-- The delay after a number of timeouts in a row.

pub timeouts : ℕ → ℕ → ℕ → ℕ
timeouts max_conn count zero = 0
timeouts max_conn count (suc n) =
    (accept_turn max_conn count (timeouts max_conn count n) timed_out).0

-- From a delay of nothing, the timeout after n others in a row makes the accept loop wait 5 * 2 ^ n
-- milliseconds, or a second where that is more.
pub timeouts_double :
    (max_conn count n : ℕ)
    → timeouts max_conn count (suc n) ≡ (if leb (5 * 2 ^ n) 1000 then 5 * 2 ^ n else 1000)
unfolding timeouts accept_turn next_delay
timeouts_double max_conn count zero = refl
timeouts_double max_conn count (suc n) = ground (arith, timeouts_double max_conn count n)
