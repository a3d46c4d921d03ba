-- ===== src/Process/Times.antt =====
-- The recorded times of a message id.
use newtbig.Prelude.{
  ℕ, ◌+◌, ◌%◌, ◌^◌, ◌<◌, ◌≡◌, refl, ◌∙◌, true, List, [], ◌∷◌, arith, ltb, ◌==◌, nat_eq,
  if◌then◌else◌, lookup, lookup-insert, length, Bool-cases, inl, inr, subst,
}
use newtbig.Process.{Processor, PerfRecorder, recorder_or_new, new_recorder, add_time, record_time}

-- Calls of Record, each with an id and a duration.
pub record_all : List (ℕ × ℕ) → Processor → Processor
record_all [] p = p
record_all ((id, dur) ∷ calls) p = record_all calls (record_time dur id p)

-- The durations of one id, in their order.
unfoldable pub times_of : ℕ → List (ℕ × ℕ) → List ℕ
times_of j [] = []
times_of j ((id, dur) ∷ calls) = if id == j then dur ∷ times_of j calls else times_of j calls

unfoldable pub sum : List ℕ → ℕ
sum [] = 0
sum (d ∷ ds) = d + sum ds

unfoldable pub maximum : ℕ → List ℕ → ℕ
maximum m [] = m
maximum m (d ∷ ds) = maximum (if ltb m d then d else m) ds

-- A recorder against the calls that it has still to take.
abbrev Totals : ℕ → List ℕ → PerfRecorder → PerfRecorder → Type 0
Totals j ds r s =
    (s.count ≡ (r.count + length ds) % 2 ^ 32)
    × (s.total_time ≡ (r.total_time + sum ds) % 2 ^ 64)
    × (s.max_time ≡ maximum r.max_time ds)

abbrev pub recorder_of : ℕ → Processor → PerfRecorder
recorder_of j p = recorder_or_new j (lookup j p.perf_recorder)

record_time_lookup :
    (p : Processor) (dur id j : ℕ)
    → p.enable_perf ≡ true
    → recorder_of j (record_time dur id p)
      ≡ (if id == j then add_time dur (recorder_of j p) else recorder_of j p)
unfolding record_time
record_time_lookup p dur id j on =
    ground (arith, lookup-insert id j (add_time dur (recorder_of id p)) p.perf_recorder)

record_time-enable_perf :
    (dur id : ℕ) (p : Processor) → (record_time dur id p).enable_perf ≡ p.enable_perf
unfolding record_time
record_time-enable_perf dur id p = ground arith

-- One call more in front.
Totals-step :
    (id dur j : ℕ) (calls : List (ℕ × ℕ)) (r s : PerfRecorder)
    → Totals j (times_of j calls) (if id == j then add_time dur r else r) s
    → Totals j (times_of j ((id, dur) ∷ calls)) r s
unfolding times_of sum maximum
Totals-step id dur j calls r s t = elim (Bool-cases (id == j)) [
  | inl e ↦
      let (a, b, m) =
        subst (λ b. Totals j (times_of j calls) (if b then add_time dur r else r) s) e t in
      rw e (omega (arith, a), omega (arith, b), m)
  | inr e ↦ rw e (subst (λ b. Totals j (times_of j calls) (if b then add_time dur r else r) s) e t)
]

record_all-Totals :
    (calls : List (ℕ × ℕ)) (p : Processor) (j : ℕ)
    → p.enable_perf ≡ true
    → (recorder_of j p).count < 2 ^ 32
    → (recorder_of j p).total_time < 2 ^ 64
    → Totals j (times_of j calls) (recorder_of j p) (recorder_of j (record_all calls p))
unfolding record_all times_of sum maximum
record_all-Totals [] p j on b c = (omega (arith, b), omega (arith, c), refl)
record_all-Totals ((id, dur) ∷ calls) p j on b c =
    let next = record_time dur id p in
    let now = record_time_lookup p dur id j on in
    Totals-step id dur j calls (recorder_of j p) (recorder_of j (record_all calls next)) (
      subst (λ r. Totals j (times_of j calls) r (recorder_of j (record_all calls next))) now
        (record_all-Totals calls next j (record_time-enable_perf dur id p ∙ on)
          (rw now (ground (arith, b))) (rw now (ground (arith, c)))))

-- On a processor that measures and has no recorder yet, the recorder of an id holds the number of
-- the times that were recorded for it as an int32, their sum as an int64, and their maximum,
-- whatever was recorded for other ids.
pub record_all_recorder :
    (calls : List (ℕ × ℕ)) (p : Processor) (j : ℕ)
    → p.enable_perf ≡ true
    → p.perf_recorder ≡ []
    → let r = recorder_of j (record_all calls p) in
      (r.count ≡ length (times_of j calls) % 2 ^ 32)
      × (r.total_time ≡ sum (times_of j calls) % 2 ^ 64)
      × (r.max_time ≡ maximum 0 (times_of j calls))
record_all_recorder calls p j on e =
    let start : recorder_of j p ≡ new_recorder j = rw e (unfold lookup in refl) in
    let (a, b, m) =
      subst (λ r. Totals j (times_of j calls) r (recorder_of j (record_all calls p))) start
        (record_all-Totals calls p j on (rw start (omega arith)) (rw start (omega arith))) in
    (omega (arith, a), omega (arith, b), m)
