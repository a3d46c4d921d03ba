-- ===== src/Process/Dump.antt =====
-- Dump of process/processor.go, with the sorting of process/perf_recorder.go: the recorded times by
-- their average, their maximum and their number. sort.Sort is a parameter.
pub mod Orders
use newtbig.Prelude.{
  ℕ, ◌+◌, ◌-◌, ◌/◌, ◌%◌, ◌^◌, ◌≡◌, refl, Bool, true, false, not, ◌||◌, ◌&&◌, List, [], ◌∷◌, ◌++◌,
  map, Option, none, some, arith, ltb, ◌==◌, nat_eq, if◌then◌else◌, length, All,
}
use mathlib.Core.List.{Perm}
use mathlib.Core.List.Perm
use newtbig.Process.{Processor, PerfRecorder}

-- Int32s and int64s as bit patterns: the wider pattern, the magnitude, the quotient towards zero,
-- which panics for zero, and the order as one of patterns.
abbrev pub widen : ℕ → ℕ
widen c = if ltb c (2 ^ 31) then c else c + (2 ^ 64 - 2 ^ 32)

abbrev pub is_negative : ℕ → Bool
is_negative a = not (ltb a (2 ^ 63))

abbrev pub magnitude : ℕ → ℕ
magnitude a = if is_negative a then 2 ^ 64 - a else a

abbrev pub same_sign : Bool → Bool → Bool
same_sign true b = b
same_sign false b = not b

unfoldable pub quotient : ℕ → ℕ → ℕ
quotient a b =
    let m = magnitude a / magnitude b in
    if same_sign (is_negative a) (is_negative b) then m % 2 ^ 64 else (2 ^ 64 - m) % 2 ^ 64

abbrev pub biased : ℕ → ℕ → ℕ
biased half a = (a + half) % (half + half)

-- What the three reports sort by.
unfoldable pub average_time : PerfRecorder → ℕ
unfolding quotient
average_time r = biased (2 ^ 63) (quotient r.total_time (widen r.count))

unfoldable pub longest_time : PerfRecorder → ℕ
longest_time r = biased (2 ^ 63) r.max_time

unfoldable pub frequency : PerfRecorder → ℕ
frequency r = biased (2 ^ 31) r.count

-- `by(p1, p2)`: whether the first has the greater number.
abbrev pub above : (PerfRecorder → ℕ) → PerfRecorder → PerfRecorder → Bool
above f p1 p2 = ltb (f p2) (f p1)

-- A logged line: its place, and the numbers that it shows.
pub data Line : Type 0 where
  statistics : ℕ → Line
  average longest frequent : ℕ → PerfRecorder → Line

unfoldable pub average_lines : ℕ → List PerfRecorder → List Line
average_lines i [] = []
average_lines i (v ∷ records) =
    let rest = average_lines (i + 1) records in
    if v.count == 0 then rest else average (i + 1) v ∷ rest

unfoldable pub lines : (ℕ → PerfRecorder → Line) → ℕ → List PerfRecorder → List Line
lines line i [] = []
lines line i (v ∷ records) = line (i + 1) v ∷ lines line (i + 1) records

-- A comparison of averages divides by the counts, and a sort compares each of several records.
unfoldable pub has_zero : List PerfRecorder → Bool
has_zero [] = false
has_zero (v ∷ records) = v.count == 0 || has_zero records

abbrev pub divides_by_zero : List PerfRecorder → Bool
divides_by_zero records = ltb 1 (length records) && has_zero records

abbrev pub Sorter : Type 0
Sorter = (PerfRecorder → PerfRecorder → Bool) → List PerfRecorder → List PerfRecorder

-- None is a panic.
unfoldable pub dump : Sorter → Processor → Option (List Line)
dump sort p =
    if not p.enable_perf
    then some []
    else (let records = map (λ entry. entry.1) p.perf_recorder in
        if divides_by_zero records
        then none
        else (let by_average = sort (above average_time) records in
            let by_longest = sort (above longest_time) by_average in
            let by_frequency = sort (above frequency) by_longest in
            some (
              statistics (length p.perf_recorder)
              ∷ (average_lines 0 by_average
                  ++ lines longest 0 by_longest
                  ++ lines frequent 0 by_frequency))))

-- A Less for which sort.Sort promises an order.
pub record IsStrict (less : PerfRecorder → PerfRecorder → Bool) : Type 0 where
  pub asymmetric : (a b : PerfRecorder) → less a b ≡ true → less b a ≡ false
  pub negative : (a b c : PerfRecorder) → less a b ≡ false → less b c ≡ false → less a c ≡ false

-- No record is less than one that stands before it.
abbrev pub InOrder : (PerfRecorder → PerfRecorder → Bool) → List PerfRecorder → Type 0
InOrder less [] = Unit
InOrder less (v ∷ records) = All (λ w. less w v ≡ false) records × InOrder less records

-- What sort.Sort promises: it rearranges the records, and puts them in the order of Less.
pub record Sorts (sort : Sorter) : Type 0 where
  pub rearranges :
      (less : PerfRecorder → PerfRecorder → Bool) (records : List PerfRecorder)
      → Perm (sort less records) records
  pub orders :
      (less : PerfRecorder → PerfRecorder → Bool) (records : List PerfRecorder)
      → IsStrict less
      → InOrder less (sort less records)
