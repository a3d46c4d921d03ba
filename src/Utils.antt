-- ===== src/Utils.antt =====
-- The helpers of utils/ that compute: rand.go, timer.go and net.go. The random source and the clock
-- are parameters; times are in nanoseconds.
pub mod File
use newtbig.Prelude.{
  ℕ, ◌+◌, ◌-◌, ◌*◌, ◌%◌, ◌^◌, ◌≤◌, ◌<◌, Bool, true, false, Option, some, arith, ltb, if◌then◌else◌,
}

-- Integers over the native numbers.
pub data ℤ : Type 0 where
  pos negsuc : ℕ → ℤ

-- RandBetween, given rand.Intn.
unfoldable pub rand_between : (ℕ → ℕ) → ℤ → ℤ → ℕ
rand_between intn (negsuc m) b = 0
rand_between intn (pos a) (negsuc n) = 0
rand_between intn (pos a) (pos b) = if ltb b a then intn (a - b + 1) + b else intn (b - a + 1) + a

unfoldable pub uint32_max_between : ℕ → ℕ → ℕ
uint32_max_between a b = if ltb b a then a else b

unfoldable pub uint32_min_between : ℕ → ℕ → ℕ
uint32_min_between a b = if ltb a b then a else b

-- The next value of the generator that fills LCG.
unfoldable pub lcg : ℕ → ℕ
lcg x = (1664525 * x + 1013904223) % 2 ^ 32

-- A value of the type error: nil, one that has no cause and may say whether it is a timeout, or one
-- with a cause.
pub data Error : Type 0 where
  nil : Error
  plain : Option Bool → Error
  caused_by : Error → Error

unfoldable pub cause : Error → Error
cause nil = nil
cause (plain t) = plain t
cause (caused_by e) = cause e

abbrev pub says_timeout : Error → Bool
says_timeout (plain (some t)) = t
says_timeout _ = false

unfoldable pub is_timeout_error : Error → Bool
is_timeout_error nil = false
is_timeout_error e = says_timeout (cause e)

pub record Timer : Type 0 where
  pub time : ℕ
  pub interval : ℕ  -- in milliseconds

unfoldable pub new_timer : ℕ → ℕ → Timer
new_timer now interval = record { time = now; interval = interval }

-- Run: whether the interval has passed, and then it starts again.
unfoldable pub timer_run : ℕ → Timer → Timer × Bool
timer_run now t =
    if ltb (t.time + 10 ^ 6 * t.interval) now then (record t { time = now }, true) else (t, false)

-- With a random source that keeps to its bound, the value lies between the two numbers.
pub rand_between_within :
    (intn : ℕ → ℕ) (a b : ℕ)
    → ((n : ℕ) → 0 < n → intn n < n)
    → (uint32_min_between a b ≤ rand_between intn (pos a) (pos b))
      × (rand_between intn (pos a) (pos b) ≤ uint32_max_between a b)
unfolding rand_between uint32_max_between uint32_min_between
rand_between_within intn a b law = (
  ground (arith, law (a - b + 1), law (b - a + 1)),
  ground (arith, law (a - b + 1), law (b - a + 1)),
)
