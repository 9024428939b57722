-- ===== src/Benchmarkd.antt =====
-- cmd/in-forward-benchmarkd/main.go: a forward server that only counts the messages. The counter
-- is an int64 word; the printing of single records with `-debug` is left out.
pub mod Reporting
pub mod Serving
use fluent_agent_hydra.Prelude.{
  ℕ, ◌+◌, Bool, true, false, List, [], ◌∷◌, ◌++◌, ◌==◌, if◌then◌else◌, add64, sub64,
}
use fluent_agent_hydra.Prelude.Sums.{sum}
use fluent_agent_hydra.Fluent.Record.{FluentRecordSet, record_count}
use fluent_agent_hydra.Fluent.Decode.{Result, ok}

-- One round of the loop of `handleConn`, on what `DecodeEntries` returns; an error, also the end
-- of the stream, closes the connection; a panic, which ends the program, is seen in
-- Benchmarkd/Serving. The flag says that it goes on.
unfoldable pub conn_round : Result (List FluentRecordSet) → ℕ → ℕ × Bool
conn_round (ok sets) counter = (add64 counter (sum record_count sets), true)
conn_round _ counter = (counter, false)

unfoldable pub handle_conn : List (Result (List FluentRecordSet)) → ℕ → ℕ
unfolding conn_round
handle_conn [] counter = counter
handle_conn (r ∷ results) counter =
    let (counter', more) = conn_round r counter in
    let rest = handle_conn results counter' in if more then rest else counter'

-- The counter, and `prev` of `reporter`.
pub record Benchmark : Type 0 where
  pub counter : ℕ
  pub prev : ℕ

-- A tick of `reporter`: the number that it prints, if there is one.
unfoldable pub tick : Benchmark → Benchmark × List ℕ
tick s =
    if s.prev == s.counter
    then (s, [])
    else (record s { prev = s.counter }, sub64 s.counter s.prev ∷ [])

-- A round of the `handleConn` of some open connection, or a tick.
pub data Event : Type 0 where
  receives : Result (List FluentRecordSet) → Event
  ticks : Event

-- What `reporter` prints.
unfoldable pub run : List Event → Benchmark → Benchmark × List ℕ
unfolding conn_round tick
run [] s = (s, [])
run (receives r ∷ events) s = run events (record s { counter = (conn_round r s.counter).0 })
run (ticks ∷ events) s =
    let (s', printed) = tick s in let (last, later) = run events s' in (last, printed ++ later)
