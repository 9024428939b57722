-- ===== src/Benchmarkd/Reporting.antt =====
-- cmd/in-forward-benchmarkd/main.go: the numbers that `reporter` prints.
use fluent_agent_hydra.Prelude.{
  ℕ, ◌+◌, ◌≤◌, ◌<◌, ◌≡◌, refl, inl, inr, List, [], ◌∷◌, ◌==◌, ==_iff, Bool-cases, i64_limit, arith,
}
use fluent_agent_hydra.Prelude.Sums.{sum, sum-append}
use fluent_agent_hydra.Fluent.Record.{FluentRecordSet, record_count}
use fluent_agent_hydra.Fluent.Decode.{Result, panicked, stuck, err, ok}
use fluent_agent_hydra.Benchmarkd.{Benchmark, Event, receives, ticks, conn_round, tick, run}

-- The records of a round.
abbrev pub records_of : Result (List FluentRecordSet) → ℕ
records_of (ok sets) = sum record_count sets
records_of _ = 0

abbrev pub received : List Event → ℕ
received [] = 0
received (receives r ∷ events) = records_of r + received events
received (ticks ∷ events) = received events

conn_round_lem :
    (r : Result (List FluentRecordSet)) (counter : ℕ)
    → counter + records_of r < i64_limit
    → (conn_round r counter).0 ≡ counter + records_of r
unfolding conn_round
conn_round_lem (ok sets) counter h = omega arith
conn_round_lem panicked counter h = omega arith
conn_round_lem stuck counter h = omega arith
conn_round_lem (err e) counter h = omega arith

-- What a tick prints is what came since the last tick.
tick_lem :
    (s : Benchmark)
    → s.prev ≤ s.counter
    → s.counter < i64_limit
    → (sum (λ n. n) (tick s).1 + s.prev ≡ s.counter)
      × ((tick s).0.prev ≡ s.counter)
      × ((tick s).0.counter ≡ s.counter)
unfolding tick
tick_lem s h lt = elim (Bool-cases (s.prev == s.counter)) [
  | inl e ↦ let same = (==_iff s.prev s.counter).0 e in rw e (omega (arith, same), same, refl)
  | inr e ↦ rw e (omega arith, refl, refl)
]

-- However the rounds of the connections and the ticks interleave, the counter is what it was and
-- the records of all record sets that were decoded; the numbers that `reporter` prints add up to
-- what `prev` grows by, so that no record is reported twice, and the next tick prints what is
-- still missing. There are fewer than 2 ^ 63 records, and `prev` is not above the counter.
pub run_lem :
    (events : List Event) (s : Benchmark)
    → s.prev ≤ s.counter
    → s.counter + received events < i64_limit
    → ((run events s).0.counter ≡ s.counter + received events)
      × (sum (λ n. n) (run events s).1 + s.prev ≡ (run events s).0.prev)
      × (sum (λ n. n) (tick (run events s).0).1 + (run events s).0.prev
          ≡ s.counter + received events)
unfolding run
run_lem [] s h lt = (omega arith, omega arith, omega (arith, (tick_lem s h (omega arith)).0))
run_lem (receives r ∷ events) s h lt =
    let counter = (conn_round r s.counter).0 in
    let counted = conn_round_lem r s.counter (omega arith) in
    let (all, told, missing) =
      run_lem events (record s { counter = counter }) (omega arith) (omega arith) in
    (omega arith, told, omega arith)
run_lem (ticks ∷ events) s h lt =
    let (printed, now, same) = tick_lem s h (omega arith) in
    let (all, told, missing) = run_lem events (tick s).0 (omega arith) (omega arith) in
    (
      omega arith,
      omega (arith, sum-append (λ n. n) (tick s).1 (run events (tick s).0).1),
      omega arith,
    )
