-- ===== src/Hydra/OutForward/Process.antt =====
-- hydra/out_forward.go: the output from its start to its shutdown.
pub mod Order
use fluent_agent_hydra.Prelude.{
  ℕ, zero, suc, length, set, ◌+◌, Bool, true, false, Option, none, some, List, [], ◌∷◌, map, Bytes,
  get_elem?,
}
use fluent_agent_hydra.Fluent.Record.{FluentRecordSet}
use fluent_agent_hydra.Fluent.Value.{Value}
use fluent_agent_hydra.Fluent.Pack.{pack_as_packed_forward}
use fluent_agent_hydra.Fluent.Client.{Client, Error, new, send, shutdown, alive, last_error_string}
use fluent_agent_hydra.Hydra.Monitor.{ServerStat}
use fluent_agent_hydra.Hydra.OutForward.{
  OutForward, SentStat, Network, Round, Result, delivered, pack_failed, panicked, waiting,
  out_forward_receive,
}

-- The loop of `NewOutForward` from server `i` on; a zero field has its default in `New`.
unfoldable pub new_loggers : Network → ℕ → List Bytes → List Client
new_loggers net i [] = []
new_loggers net i (server ∷ servers) =
    let c =
      (new (record { server = server; timeout = 0; retry_wait = 0; max_retry = 0 })
        (net.dial i)).0 in
    (send c (net.write_ok i)).0 ∷ new_loggers net (i + 1) servers

unfoldable pub new_out_forward : Network → List Bytes → OutForward
unfolding new_loggers
new_out_forward net servers = record {
  loggers = new_loggers net 0 servers;
  sent = 0;
  round_robin = false;
}

-- One tick of `checkServerHealth`, with the texts of errors and of the time of the last one.
-- `Alive` and `LastErrorString` take no lock: `between` is what the other goroutines do to the
-- client between the two reads.
unfoldable pub check_server_health :
    Bytes → (Error → Bytes) → (Client → Client) → OutForward → ℕ → Option ServerStat
unfolding last_error_string
check_server_health stamp text between s i = elim (get_elem? s.loggers i) [
  | none ↦ none
  | some c ↦ some (record {
    index = i;
    address = c.config.server;
    alive = alive c;
    error = last_error_string stamp text (between c);
  })
]

-- How `Run` stands: shut down; before the next receive; in the sleep of `outForwardRecieve`; or
-- ended by a panic.
pub data Ended : Type 0 where
  stopped receiving pending dead : Ended

abbrev pub shut_down_at : ℕ → List Client → List Client
shut_down_at i cs = elim (get_elem? cs i) [ none ↦ cs | some c ↦ set cs i (shutdown c) ]

-- `outForwardRecieve` on the closed channel: the loop over the loggers, `n` of them from logger `i`
-- on. `meanwhile` is what the goroutines that reconnect do to the clients before each turn and
-- after the last one; they go on, and may connect a client that was shut down before.
unfoldable pub shut_down_loggers :
    (ℕ → List Client → List Client) → ℕ → ℕ → List Client → List Client
shut_down_loggers meanwhile zero i cs = meanwhile i cs
shut_down_loggers meanwhile (suc n) i cs =
    shut_down_loggers meanwhile n (i + 1) (shut_down_at i (meanwhile i cs))

abbrev pub shut_down : (ℕ → List Client → List Client) → OutForward → OutForward
shut_down meanwhile s = record s {
  loggers = shut_down_loggers meanwhile (length s.loggers) 0 s.loggers;
}

-- What `Run` does with the result of `outForwardRecieve`: an error is only logged.
abbrev pub go_on :
    (OutForward → OutForward × List SentStat × Ended)
    → OutForward × Result
    → OutForward × List SentStat × Ended
go_on continue (s, delivered i stat) = ((continue s).0, stat ∷ (continue s).1, (continue s).2)
go_on continue (s, pack_failed) = continue s
go_on continue (s, panicked) = (s, [], dead)
go_on continue (s, waiting) = (s, [], pending)

module _ (write_msgpack : Value → Option Bytes) (enable_event_time : Bool) where
  -- The loop of `Run` on the record sets that come through the channel, each with the rounds that
  -- the network and the other goroutines give to it; at the end the channel is closed or empty.
  -- `meanwhile` is what other goroutines do during the shutdown.
  unfoldable pub run :
      (ℕ → List Client → List Client)
      → List (FluentRecordSet × List Round)
      → Bool
      → OutForward
      → OutForward × List SentStat × Ended
  unfolding out_forward_receive shut_down_loggers
  run meanwhile [] true s = (shut_down meanwhile s, [], stopped)
  run meanwhile [] false s = (s, [], receiving)
  run meanwhile ((rs, rounds) ∷ sets) closed s =
      go_on (run meanwhile sets closed) (
        out_forward_receive rs (pack_as_packed_forward write_msgpack enable_event_time rs) rounds s)
