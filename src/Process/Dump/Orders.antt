-- ===== src/Process/Dump/Orders.antt =====
-- What the reports of Dump show, and in which order.
use newtbig.Prelude.{
  ◌<◌, ◌≤◌, ◌≢◌, Bool-cases, inl, inr, ◌⊎◌, ℕ, ◌+◌, ◌/◌, ◌^◌, ◌≡◌, refl, Bool, true, false, List,
  [], ◌∷◌, ◌++◌, map, some, arith, ◌==◌, nat_eq, length, All,
}
use mathlib.Core.List.{Perm}
use mathlib.Core.List.Perm
use newtbig.Process.{Processor, PerfRecorder}
use native.Mathlib.Nat.{div-le_self}
use newtbig.Process.Dump.{
  average_time, longest_time, frequency, quotient, above, Line, statistics, average, longest,
  frequent, average_lines, lines, has_zero, divides_by_zero, Sorter, dump, IsStrict, InOrder, Sorts,
}

-- Every record that stands later has a relation to the one before it.
abbrev pub Pairwise : (PerfRecorder → PerfRecorder → Type 0) → List PerfRecorder → Type 0
Pairwise related [] = Unit
Pairwise related (v ∷ records) = All (λ w. related v w) records × Pairwise related records

-- Counters that have not overflowed: an int32 and two int64s that are not negative.
pub record IsBounded (r : PerfRecorder) : Type 0 where
  pub calls : r.count < 2 ^ 31
  pub total : r.total_time < 2 ^ 63
  pub longest_call : r.max_time < 2 ^ 63

-- Where records stand that are reported by their average: it does not rise from one with calls to a
-- later one with calls, where neither has overflowed. The others alike.
abbrev pub ByAverage : PerfRecorder → PerfRecorder → Type 0
ByAverage v w =
    IsBounded v
    → IsBounded w
    → v.count ≢ 0
    → w.count ≢ 0
    → w.total_time / w.count ≤ v.total_time / v.count

-- The lines of the first report, from a place on: one for each record with calls.
pub data AverageLines : ℕ → List PerfRecorder → List Line → Type 0 where
  no_more : {i : ℕ} → AverageLines i [] []
  left_out :
      {i : ℕ} {v : PerfRecorder} {records : List PerfRecorder} {logged : List Line}
      → v.count ≡ 0
      → AverageLines (i + 1) records logged
      → AverageLines i (v ∷ records) logged
  shown :
      {i : ℕ} {v : PerfRecorder} {records : List PerfRecorder} {logged : List Line}
      → v.count ≢ 0
      → AverageLines (i + 1) records logged
      → AverageLines i (v ∷ records) (average (i + 1) v ∷ logged)

-- The lines of another report, from a place on: one for each record.
pub data Lines (line : ℕ → PerfRecorder → Line) : ℕ → List PerfRecorder → List Line → Type 0 where
  no_lines : {i : ℕ} → Lines line i [] []
  one_line :
      {i : ℕ} {v : PerfRecorder} {records : List PerfRecorder} {logged : List Line}
      → Lines line (i + 1) records logged
      → Lines line i (v ∷ records) (line (i + 1) v ∷ logged)

average_lines-AverageLines :
    (i : ℕ) (records : List PerfRecorder) → AverageLines i records (average_lines i records)
unfolding average_lines
average_lines-AverageLines i [] = no_more
average_lines-AverageLines i (v ∷ records) = elim (Bool-cases (v.count == 0)) [
  | inl e ↦ rw e (left_out (ground arith) (average_lines-AverageLines (i + 1) records))
  | inr e ↦ rw e (shown (ground arith) (average_lines-AverageLines (i + 1) records))
]

lines-Lines :
    (line : ℕ → PerfRecorder → Line) (i : ℕ) (records : List PerfRecorder)
    → Lines line i records (lines line i records)
unfolding lines
lines-Lines line i [] = no_lines
lines-Lines line i (v ∷ records) = one_line (lines-Lines line (i + 1) records)

abbrev pub ByLongest : PerfRecorder → PerfRecorder → Type 0
ByLongest v w = IsBounded v → IsBounded w → w.max_time ≤ v.max_time

abbrev pub ByFrequency : PerfRecorder → PerfRecorder → Type 0
ByFrequency v w = IsBounded v → IsBounded w → w.count ≤ v.count

-- The average of bounded times, as its pattern.
average_time-IsBounded :
    (r : PerfRecorder)
    → IsBounded r
    → r.count ≢ 0
    → average_time r ≡ r.total_time / r.count + 2 ^ 63
unfolding average_time quotient
average_time-IsBounded r b n =
    let small : r.total_time / r.count ≤ r.total_time = div-le_self r.total_time r.count in
    ground (arith, b.calls, b.total, small)

average_descends : (v w : PerfRecorder) → above average_time w v ≡ false → ByAverage v w
average_descends v w e bv bw nv nw =
    let p = average_time-IsBounded v bv nv in
    let q = average_time-IsBounded w bw nw in ground (arith, p, q)

longest_descends : (v w : PerfRecorder) → above longest_time w v ≡ false → ByLongest v w
unfolding longest_time
longest_descends v w e bv bw = ground (arith, bv.longest_call, bw.longest_call)

frequency_descends : (v w : PerfRecorder) → above frequency w v ≡ false → ByFrequency v w
unfolding frequency
frequency_descends v w e bv bw = ground (arith, bv.calls, bw.calls)

All-Related :
    (less : PerfRecorder → PerfRecorder → Bool) (related : PerfRecorder → PerfRecorder → Type 0)
    → ((v w : PerfRecorder) → less w v ≡ false → related v w)
    → (v : PerfRecorder) (records : List PerfRecorder) → All (λ w. less w v ≡ false) records
    → All (λ w. related v w) records
All-Related less related f v [] a = tt
All-Related less related f v (w ∷ records) a = (f v w a.0, All-Related less related f v records a.1)

InOrder-Pairwise :
    (less : PerfRecorder → PerfRecorder → Bool) (related : PerfRecorder → PerfRecorder → Type 0)
    → ((v w : PerfRecorder) → less w v ≡ false → related v w)
    → (records : List PerfRecorder) → InOrder less records
    → Pairwise related records
InOrder-Pairwise less related f [] o = tt
InOrder-Pairwise less related f (v ∷ records) o =
    (All-Related less related f v records o.0, InOrder-Pairwise less related f records o.1)

above-IsStrict : (f : PerfRecorder → ℕ) → IsStrict (above f)
above-IsStrict f = record {
  asymmetric = λ a b h. ground arith;
  negative = λ a b c h k. ground arith;
}

-- A report: all the records, in the order of a relation.
pub record Reports (related : PerfRecorder → PerfRecorder → Type 0)
    (records report : List PerfRecorder) : Type 0 where
  pub complete : Perm report records
  pub ordered : Pairwise related report

-- No two records of which one has no calls.
abbrev pub IsSafe : List PerfRecorder → Type 0
IsSafe records = (length records ≤ 1) ⊎ All (λ r. r.count ≢ 0) records

has_zero-All :
    (records : List PerfRecorder) → All (λ r. r.count ≢ 0) records → has_zero records ≡ false
unfolding has_zero
has_zero-All [] a = refl
has_zero-All (v ∷ records) a = ground (arith, a.0, has_zero-All records a.1)

IsSafe-divides_by_zero :
    (records : List PerfRecorder) → IsSafe records → divides_by_zero records ≡ false
IsSafe-divides_by_zero records (inl few) = ground arith
IsSafe-divides_by_zero records (inr all) = ground (arith, has_zero-All records all)

module _ (sort : Sorter) (s : Sorts sort) where
  sorted-Reports :
      (f : PerfRecorder → ℕ) (related : PerfRecorder → PerfRecorder → Type 0)
      → ((v w : PerfRecorder) → above f w v ≡ false → related v w)
      → (records unsorted : List PerfRecorder) → Perm unsorted records
      → Reports related records (sort (above f) unsorted)
  sorted-Reports f related implies records unsorted p = record {
    complete = Perm.trans (s.rearranges (above f) unsorted) p;
    ordered =
        InOrder-Pairwise (above f) related implies (sort (above f) unsorted)
          (s.orders (above f) unsorted (above-IsStrict f));
  }

  -- With a sort.Sort that rearranges its records and orders them by a strict Less, on a processor
  -- that measures, with at most one recorder or none without calls: Dump logs the number of the
  -- recorders, and then three reports, each of all the recorders with one line for each and its
  -- place, but that the first has none for a recorder without calls; among recorders whose counters
  -- have not overflowed, the average time of those with calls, the longest time and the number of
  -- calls do not rise from a line to a later one of the first, the second and the third report.
  pub dump-Reports :
      (p : Processor)
      → p.enable_perf ≡ true
      → IsSafe (map (λ entry. entry.1) p.perf_recorder)
      → let records = map (λ entry. entry.1) p.perf_recorder in
        (by_average : List PerfRecorder) × (by_longest : List PerfRecorder) × (by_frequency : List
          PerfRecorder)
        × (averages : List Line) × (longests : List Line) × (frequencies : List Line) × (dump sort p
            ≡ some (statistics (length p.perf_recorder) ∷ (averages ++ longests ++ frequencies)))
        × Reports ByAverage records by_average
        × AverageLines 0 by_average averages
        × Reports ByLongest records by_longest
        × Lines longest 0 by_longest longests
        × Reports ByFrequency records by_frequency
        × Lines frequent 0 by_frequency frequencies
  unfolding dump
  dump-Reports p on divides =
      let records = map (λ entry. entry.1) p.perf_recorder in
      let nonzero = IsSafe-divides_by_zero records divides in
      let first =
        sorted-Reports average_time ByAverage average_descends records records
          (Perm.refl records) in
      let second =
        sorted-Reports longest_time ByLongest longest_descends records
          (sort (above average_time) records) first.complete in
      let third =
        sorted-Reports frequency ByFrequency frequency_descends records
          (sort (above longest_time) (sort (above average_time) records)) second.complete in
      (
        _,
        _,
        _,
        _,
        _,
        _,
        rw (on, nonzero) refl,
        first,
        average_lines-AverageLines 0 _,
        second,
        lines-Lines longest 0 _,
        third,
        lines-Lines frequent 0 _,
      )
