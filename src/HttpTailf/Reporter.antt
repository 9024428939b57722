-- ===== src/HttpTailf/Reporter.antt =====
-- cmd/fluent-http-tailf/main.go: `runReporter`, which prints how many records came in.
use fluent_agent_hydra.Prelude.{
  ℕ, ◌+◌, ◌<◌, ◌≡◌, inl, inr, List, [], ◌∷◌, ◌++◌, lt64, i64_limit, if◌then◌else◌, Bool-cases,
  arith,
}
use fluent_agent_hydra.Prelude.Sums.{sum, sum-append}
use fluent_agent_hydra.Fluent.Record.{FluentRecordSet, record_count}
use fluent_agent_hydra.HttpTailf.{Tailf, forward}

-- A tick: the counter is swapped for zero, and what it was is printed if it is positive.
unfoldable pub report : Tailf → Tailf × List ℕ
report s = (record s { counter = 0 }, if lt64 0 s.counter then s.counter ∷ [] else [])

report_lem :
    (s : Tailf)
    → s.counter < i64_limit
    → sum (λ n. n) (report s).1 + (report s).0.counter ≡ s.counter
unfolding report
report_lem s h = elim (Bool-cases (lt64 0 s.counter)) [
  | inl e ↦ ground arith
  | inr e ↦ ground arith
]

-- A record set comes in, or the ticker ticks.
pub data Beat : Type 0 where
  arrives : FluentRecordSet → Beat
  ticks : Beat

unfoldable pub run_reporter : List Beat → Tailf → Tailf × List ℕ
unfolding report
run_reporter [] s = (s, [])
run_reporter (arrives rs ∷ beats) s = run_reporter beats (forward rs s)
run_reporter (ticks ∷ beats) s =
    let (s', printed) = report s in
    let (last, later) = run_reporter beats s' in (last, printed ++ later)

abbrev pub arrived : List Beat → ℕ
arrived [] = 0
arrived (arrives rs ∷ beats) = record_count rs + arrived beats
arrived (ticks ∷ beats) = arrived beats

-- However record sets and ticks interleave, the numbers that `runReporter` prints and the counter
-- add up to what the counter was at first and the records of all sets that came in: no record
-- is counted twice and none is missed, if there are fewer than 2 ^ 63 of them.
pub run_reporter_lem :
    (beats : List Beat) (s : Tailf)
    → s.counter + arrived beats < i64_limit
    → sum (λ n. n) (run_reporter beats s).1 + (run_reporter beats s).0.counter
      ≡ s.counter + arrived beats
unfolding run_reporter
run_reporter_lem [] s h = omega arith
run_reporter_lem (arrives rs ∷ beats) s h =
    let counted : (forward rs s).counter ≡ s.counter + record_count rs =
      unfold forward in omega arith in
    omega (arith, run_reporter_lem beats (forward rs s) (omega arith))
run_reporter_lem (ticks ∷ beats) s h =
    let rest = run_reporter beats (report s).0 in
    omega (
      arith,
      run_reporter_lem beats (report s).0 (unfold report in omega arith),
      sum-append (λ n. n) (report s).1 rest.1,
      report_lem s (omega arith),
    )
