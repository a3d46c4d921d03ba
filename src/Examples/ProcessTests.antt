-- ===== src/Examples/ProcessTests.antt =====
-- Handlers, recorded times, and the waits of the accept loop.
use newtbig.Prelude.{
  inr, arith, ℕ, ◌≡◌, refl, true, List, [], ◌∷◌, ◌++◌, map, Option, none, some, Assoc, Bytes,
  nat_eq,
}
use newtbig.Process.Dump.{dump, Line, statistics, longest, frequent}
use newtbig.Process.Dump.Orders.{
  IsSafe, Reports, ByAverage, AverageLines, ByLongest, ByFrequency, Lines, dump-Reports,
}
use newtbig.Process.Silence.{handle_all, init_silences}
use newtbig.Demo.Json.{Head}
use newtbig.Examples.Sorting.{sorted, sorted-Sorts}
use newtbig.Common.{Msg}
use newtbig.Process.{Processor, PerfRecorder, Handler, dispose, nil_handler, returned, init}
use newtbig.Process.Handlers.{register_all}
use newtbig.Process.Times.{record_all, recorder_of, times_of, sum, maximum, record_all_recorder}
use newtbig.Examples.ServiceTests.{test_options}

abbrev processor : Processor
processor = init test_options

abbrev ping : Msg
ping = record { seq = 0; id = 7; body = []; key = 0; uid = 5 }

-- Two handlers for one id, and none but nil for another.
abbrev registrations : List (ℕ × Handler)
registrations =
    (7, dispose (λ msg. returned (some msg)))
    ∷ (8, nil_handler)
    ∷ (7, dispose (λ msg. returned none))
    ∷ []

abbrev measured : Processor
measured = record processor { enable_perf = true }

record_all_recorder_example :
    let r = recorder_of 7 (record_all ((7, 30) ∷ (8, 90) ∷ (7, 50) ∷ []) measured) in
    (r.count ≡ 2) × (r.total_time ≡ 80) × (r.max_time ≡ 50)
unfolding times_of sum maximum
record_all_recorder_example =
    record_all_recorder ((7, 30) ∷ (8, 90) ∷ (7, 50) ∷ []) measured 7 refl (unfold init in refl)

abbrev recorders : Assoc ℕ PerfRecorder
recorders =
    (7, record { msg_id = 7; total_time = 90; count = 3; max_time = 50 })
    ∷ (8, record { msg_id = 8; total_time = 80; count = 2; max_time = 60 })
    ∷ []

abbrev timed : Processor
timed = record processor { enable_perf = true; perf_recorder = recorders }

abbrev recorded : List PerfRecorder
recorded = map (λ entry. entry.1) recorders

nonzero : IsSafe recorded
nonzero = inr ((λ e. omega (arith, e)), ((λ e. omega (arith, e)), tt))

dump-Reports_example :
    (by_average : List PerfRecorder) × (by_longest : List PerfRecorder) × (by_frequency : List
      PerfRecorder)
    × (averages : List Line) × (longests : List Line) × (frequencies : List Line) × (dump sorted
          timed
        ≡ some (statistics 2 ∷ (averages ++ longests ++ frequencies)))
    × Reports ByAverage recorded by_average
    × AverageLines 0 by_average averages
    × Reports ByLongest recorded by_longest
    × Lines longest 0 by_longest longests
    × Reports ByFrequency recorded by_frequency
    × Lines frequent 0 by_frequency frequencies
dump-Reports_example = dump-Reports sorted sorted-Sorts timed refl nonzero

init_silences_example :
    let p = handle_all ((5, ping) ∷ []) (register_all registrations processor) in
    (p.perf_recorder ≡ []) × (dump sorted p ≡ some [])
init_silences_example = init_silences test_options registrations ((5, ping) ∷ []) sorted

-- A JSON library for heads without a body.
abbrev write : Head → Option Bytes
write h = some (h.seq ∷ h.uid ∷ h.cmd ∷ h.key ∷ h.body)

abbrev read : Bytes → Option Head
read (seq ∷ uid ∷ cmd ∷ key ∷ body) =
    some (record { seq = seq; uid = uid; cmd = cmd; key = key; body = body })
read _ = none
