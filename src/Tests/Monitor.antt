-- ===== src/Tests/Monitor.antt =====
-- hydra/monitor.go and hydra/config.go on small inputs.
use fluent_agent_hydra.Prelude.{
  length, refl, ◌++◌, ℕ, ◌≡◌, some, none, true, List, [], ◌∷◌, codes, bytes_eq, arith,
}
use fluent_agent_hydra.Prelude.Dict
use fluent_agent_hydra.Hydra.Monitor.{Stats, of_file, of_sent, of_server}
use fluent_agent_hydra.Hydra.Tail.{FileStat}
use fluent_agent_hydra.Hydra.Monitor.Totals.{counter}
use fluent_agent_hydra.Hydra.Monitor.Events.{Event, applies, changes, requests}
use fluent_agent_hydra.Hydra.Monitor.Serving.{Response, monitor_run, monitor_run-page}

abbrev idle : Stats
idle = record { sent = []; files = []; servers = none ∷ []; receiver = none }

abbrev position_of : ℕ → FileStat
position_of n = record { tag = codes "t"; file = codes "a"; position = n; error = [] }

abbrev a_visit : List Event
a_visit =
    applies (of_sent (record { tag = codes "t"; messages = 2; bytes = 20; sents = 1 }))
    ∷ requests (codes "/system") none
    ∷ applies (of_file (position_of 5))
    ∷ changes (position_of 7)
    ∷ applies (of_server (record { index = 0; address = codes "h:1"; alive = true; error = [] }))
    ∷ applies (of_sent (record { tag = codes "t"; messages = 3; bytes = 30; sents = 1 }))
    ∷ []

-- What encoding/json and the other page write is of no matter here.
abbrev no_page : Response
no_page = record { content_type = none; body = [] }

monitor_run-page_example :
    (shown : Stats) × (last : Stats) × (earlier : List Response) × (later : List Response)
    × (monitor_run
          (λ ss. codes "{}")
          no_page
          true
          (a_visit ++ (requests (codes "/") none ∷ applies (of_file (position_of 9)) ∷ []))
          idle
        ≡ some (
          last,
          earlier
              ++ (record { content_type = some (codes "application/json"); body = codes "{}" }
                  ∷ later),
        ))
    × (length earlier ≡ 1)
    × (length later ≡ 0)
    × (counter (λ r. r.messages) (Dict.lookup (codes "t") shown.sent) ≡ 5)
    × (counter (λ r. r.bytes) (Dict.lookup (codes "t") shown.sent) ≡ 50)
    × (counter (λ r. r.sents) (Dict.lookup (codes "t") shown.sent) ≡ 2)
unfolding bytes_eq Dict.lookup
monitor_run-page_example =
    monitor_run-page (λ ss. codes "{}") no_page a_visit (applies (of_file (position_of 9)) ∷ [])
      (codes "/") (codes "t") none idle (omega arith, tt) refl (omega arith) (omega arith)
      (omega arith)
