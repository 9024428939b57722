-- ===== src/Benchmarkd/Serving/Counting.antt =====
-- cmd/in-forward-benchmarkd/main.go: what the server counts and prints, and when it ends.
use fluent_agent_hydra.Prelude.{
  ℕ, ◌+◌, ◌≤◌, ◌<◌, ◌≡◌, refl, sym, ap, ◌∙◌, inl, inr, Bool, true, false, Option, none, some, List,
  [], ◌∷◌, ◌++◌, if◌then◌else◌, Bool-cases, i64_limit,
}
use fluent_agent_hydra.Prelude.Sums.{sum}
use fluent_agent_hydra.Fluent.Record.{FluentRecordSet}
use fluent_agent_hydra.Fluent.Decode.{Result, panicked, stuck, err, ok}
use fluent_agent_hydra.Benchmarkd.{Benchmark, Event, receives, ticks, conn_round, tick, run}
use fluent_agent_hydra.Benchmarkd.Reporting.{received, run_lem}
use fluent_agent_hydra.Benchmarkd.Serving.{
  Arrival, accepts, accept_fails, decodes, reports, Server, is_open, conns_after, and_prints,
  is_panic, serve,
}

-- Whether the round leaves the connection open.
abbrev pub goes_on : Result (List FluentRecordSet) → Bool
goes_on (ok sets) = true
goes_on _ = false

-- The rounds of connections that are open, and the ticks.
abbrev pub events_of : List Arrival → List ℕ → ℕ → List Event
events_of [] conns n = []
events_of (accepts ∷ arrivals) conns n = events_of arrivals (n ∷ conns) (n + 1)
events_of (accept_fails ∷ arrivals) conns n = []
events_of (decodes id r ∷ arrivals) conns n =
    let seen = receives r ∷ events_of arrivals (conns_after id (goes_on r) conns) n in
    let ignored = events_of arrivals conns n in if is_open id conns then seen else ignored
events_of (reports ∷ arrivals) conns n = ticks ∷ events_of arrivals conns n

-- `Accept` never fails, and `DecodeEntries` does not panic on an open connection.
abbrev pub is_calm : List Arrival → List ℕ → ℕ → Bool
is_calm [] conns n = true
is_calm (accepts ∷ arrivals) conns n = is_calm arrivals (n ∷ conns) (n + 1)
is_calm (accept_fails ∷ arrivals) conns n = false
is_calm (decodes id r ∷ arrivals) conns n =
    let served = is_calm arrivals (conns_after id (goes_on r) conns) n in
    let ignored = is_calm arrivals conns n in
    if is_open id conns then (if is_panic r then false else served) else ignored
is_calm (reports ∷ arrivals) conns n = is_calm arrivals conns n

-- The server runs as the counters alone do, or it has panicked.
abbrev RunsAs : Bool → Option (Server × List ℕ) → Benchmark × List ℕ → Type 0
RunsAs true none r = ⊥
RunsAs true (some (s, printed)) (b, numbers) = (s.benchmark ≡ b) × (printed ≡ numbers)
RunsAs false none r = Unit {0}
RunsAs false (some last) r = ⊥

and_prints-RunsAs :
    (calm : Bool) (printed : List ℕ) (o : Option (Server × List ℕ)) (r : Benchmark × List ℕ)
    → RunsAs calm o r
    → RunsAs calm (and_prints printed o) (r.0, printed ++ r.1)
and_prints-RunsAs true printed none r h = absurd h
and_prints-RunsAs true printed (some last) r h = (h.0, ap (λ l. printed ++ l) h.1)
and_prints-RunsAs false printed none r h = tt
and_prints-RunsAs false printed (some last) r h = absurd h

conn_round-goes_on :
    (r : Result (List FluentRecordSet)) (counter : ℕ) → (conn_round r counter).1 ≡ goes_on r
unfolding conn_round
conn_round-goes_on panicked counter = refl
conn_round-goes_on stuck counter = refl
conn_round-goes_on (err e) counter = refl
conn_round-goes_on (ok sets) counter = refl

serve-RunsAs :
    (arrivals : List Arrival) (s : Server)
    → RunsAs
        (is_calm arrivals s.conns s.accepted)
        (serve arrivals s)
        (run (events_of arrivals s.conns s.accepted) s.benchmark)
unfolding serve run
serve-RunsAs [] s = (refl, refl)
serve-RunsAs (accepts ∷ arrivals) s =
    serve-RunsAs arrivals (record s { conns = s.accepted ∷ s.conns; accepted = s.accepted + 1 })
serve-RunsAs (accept_fails ∷ arrivals) s = tt
serve-RunsAs (reports ∷ arrivals) s =
    and_prints-RunsAs (is_calm arrivals s.conns s.accepted) (tick s.benchmark).1 _ _
      (serve-RunsAs arrivals (record s { benchmark = (tick s.benchmark).0 }))
serve-RunsAs (decodes id r ∷ arrivals) s = elim (Bool-cases (is_open id s.conns)) [
  | inr e ↦ rw (e, serve) (serve-RunsAs arrivals s)
  | inl e ↦ elim (Bool-cases (is_panic r)) [
    | inl p ↦ rw (e, serve, p) tt
    | inr p ↦ rw (e, serve, p, conn_round-goes_on r s.benchmark.counter) (serve-RunsAs arrivals _)
  ]
]

-- What the server has counted and printed of `n` records, or that it has ended.
abbrev pub Reported : Bool → Benchmark → ℕ → Option (Server × List ℕ) → Type 0
Reported true b n none = ⊥
Reported true b n (some (s, printed)) =
    (s.benchmark.counter ≡ b.counter + n)
    × (sum (λ m. m) printed + b.prev ≡ s.benchmark.prev)
    × (sum (λ m. m) (tick s.benchmark).1 + s.benchmark.prev ≡ b.counter + n)
Reported false b n none = Unit {0}
Reported false b n (some last) = ⊥

Reported-of :
    (calm : Bool) (b : Benchmark) (n : ℕ) (o : Option (Server × List ℕ)) (r : Benchmark × List ℕ)
    → RunsAs calm o r
    → (r.0.counter ≡ b.counter + n)
      × (sum (λ m. m) r.1 + b.prev ≡ r.0.prev)
      × (sum (λ m. m) (tick r.0).1 + r.0.prev ≡ b.counter + n)
    → Reported calm b n o
Reported-of true b n none r h k = absurd h
Reported-of true b n (some (s, printed)) r (same, numbers) (all, shown, missing) = (
  ap (λ c. c.counter) same ∙ all,
  ap (λ l. sum (λ m. m) l + b.prev) numbers ∙ shown ∙ ap (λ c. c.prev) (sym same),
  ap (λ c. sum (λ m. m) (tick c).1 + c.prev) same ∙ missing,
)
Reported-of false b n none r h k = tt
Reported-of false b n (some last) r h k = absurd h

-- However connections, their record sets and the ticks interleave, the program ends by a panic
-- exactly if `Accept` fails or `DecodeEntries` panics on an open connection. Otherwise the counter
-- grows by the records of all sets that were decoded on open connections, the numbers that are
-- printed add up to what `prev` grows by, and the next tick prints what is still missing. There
-- are fewer than 2 ^ 63 records, and `prev` is not above the counter.
pub serve_lem :
    (arrivals : List Arrival) (s : Server)
    → s.benchmark.prev ≤ s.benchmark.counter
    → s.benchmark.counter + received (events_of arrivals s.conns s.accepted) < i64_limit
    → Reported
        (is_calm arrivals s.conns s.accepted)
        s.benchmark
        (received (events_of arrivals s.conns s.accepted))
        (serve arrivals s)
serve_lem arrivals s h fits =
    Reported-of (is_calm arrivals s.conns s.accepted) s.benchmark _ (serve arrivals s) _
      (serve-RunsAs arrivals s) (run_lem (events_of arrivals s.conns s.accepted) s.benchmark h fits)
