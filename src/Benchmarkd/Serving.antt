-- ===== src/Benchmarkd/Serving.antt =====
-- cmd/in-forward-benchmarkd/main.go: the server with its connections, from `Accept` to the reports.
pub mod Counting
use fluent_agent_hydra.Prelude.{
  ℕ, ◌+◌, Bool, true, false, Option, none, some, List, [], ◌∷◌, ◌++◌, ◌==◌, if◌then◌else◌,
}
use fluent_agent_hydra.Fluent.Record.{FluentRecordSet}
use fluent_agent_hydra.Fluent.Decode.{Result, panicked}
use fluent_agent_hydra.Benchmarkd.{Benchmark, conn_round, tick}

-- A connection is accepted; `Accept` fails; `DecodeEntries` returns for a connection; a tick.
pub data Arrival : Type 0 where
  accepts accept_fails : Arrival
  decodes : ℕ → Result (List FluentRecordSet) → Arrival
  reports : Arrival

-- The counters, the connections with a goroutine of `handleConn`, and how many were accepted.
pub record Server : Type 0 where
  pub benchmark : Benchmark
  pub conns : List ℕ
  pub accepted : ℕ

unfoldable pub is_open : ℕ → List ℕ → Bool
is_open id [] = false
is_open id (i ∷ conns) = let rest = is_open id conns in if i == id then true else rest

unfoldable pub close_conn : ℕ → List ℕ → List ℕ
close_conn id [] = []
close_conn id (i ∷ conns) = let rest = close_conn id conns in if i == id then rest else i ∷ rest

-- The connection is served on, unless the round has closed it.
abbrev pub conns_after : ℕ → Bool → List ℕ → List ℕ
conns_after id true conns = conns
conns_after id false conns = close_conn id conns

abbrev pub and_prints : List ℕ → Option (Server × List ℕ) → Option (Server × List ℕ)
and_prints printed none = none
and_prints printed (some (last, later)) = some (last, printed ++ later)

-- Whether `DecodeEntries` has panicked.
abbrev pub is_panic : Result (List FluentRecordSet) → Bool
is_panic panicked = true
is_panic _ = false

-- What `reporter` prints. After an error of `Accept` the loop goes on to `handleConn` with the nil
-- connection, which panics, and a panic ends the program: `none`.
unfoldable pub serve : List Arrival → Server → Option (Server × List ℕ)
unfolding conn_round tick is_open close_conn
serve [] s = some (s, [])
serve (accepts ∷ arrivals) s =
    serve arrivals (record s { conns = s.accepted ∷ s.conns; accepted = s.accepted + 1 })
serve (accept_fails ∷ arrivals) s = none
serve (decodes id r ∷ arrivals) s =
    let (counter', more) = conn_round r s.benchmark.counter in
    let served = serve arrivals (record s {
      benchmark = record s.benchmark { counter = counter' };
      conns = conns_after id more s.conns;
    }) in
    let ignored = serve arrivals s in
    if is_open id s.conns then (if is_panic r then none else served) else ignored
serve (reports ∷ arrivals) s =
    let (b, printed) = tick s.benchmark in
    and_prints printed (serve arrivals (record s { benchmark = b }))
