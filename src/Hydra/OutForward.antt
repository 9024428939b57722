-- ===== src/Hydra/OutForward.antt =====
-- hydra/out_forward.go: sending one record set to the first server that takes it. The network
-- and what other goroutines do to the clients while the agent sleeps are arguments.
pub mod Failover
pub mod Rotation
pub mod Process
use fluent_agent_hydra.Prelude.{
  ℕ, zero, suc, ◌+◌, ◌-◌, ◌%◌, Bool, ◌||◌, not, Option, none, some, List, [], ◌∷◌, ◌++◌, ltb, ◌==◌,
  if◌then◌else◌, length, get_elem?, set, Bytes, u64_mod, i64_limit, add64,
}
use fluent_agent_hydra.Fluent.Client.{Client, Error, Attempt, send, refresh_connection}
use fluent_agent_hydra.Fluent.Record.{FluentRecordSet, record_count}

-- `SentStat`, as it is sent to the monitor.
pub record SentStat : Type 0 where
  pub tag : Bytes
  pub messages : ℕ
  pub bytes : ℕ
  pub sents : ℕ

-- `sent` is an int64 word.
pub record OutForward : Type 0 where
  pub loggers : List Client
  pub sent : ℕ
  pub round_robin : Bool

abbrev pub max_keep_alive_sent_count : ℕ
max_keep_alive_sent_count = 100

-- For each logger, whether a write succeeds and what an attempt to connect gives.
pub record Network : Type 0 where
  pub write_ok : ℕ → Bool
  pub dial : ℕ → Attempt

-- The absolute value of an int64.
abbrev pub magnitude : ℕ → ℕ
magnitude v = if ltb v i64_limit then v else u64_mod - v

abbrev pub indices : ℕ → ℕ → List ℕ
indices start zero = []
indices start (suc n) = start ∷ indices (start + 1) n

-- The loggers in the order in which they are tried. `none` is a panic: a remainder by zero, or a
-- negative index.
unfoldable pub order : OutForward → Option (List ℕ)
order s =
    let n = length s.loggers in
    let index = magnitude s.sent % n in
    if not s.round_robin
    then some (indices 0 n)
    else if n == 0
    then none
    else if ltb s.sent i64_limit || index == 0
    then some (indices index (n - index) ++ indices 0 index)
    else none

-- `Send` succeeded: the counters, and now and then a new connection.
unfoldable pub succeeded : Network → ℕ → Client → OutForward → OutForward
succeeded net i c s =
    let c' = (refresh_connection c (net.dial i)).0 in
    let c'' = if magnitude c.sent % max_keep_alive_sent_count == 0 then c' else c in
    record s { loggers = set s.loggers i c''; sent = add64 s.sent 1 }

-- The loop over the loggers: the first that takes the bytes, if there is one.
unfoldable pub try_loggers : Network → List ℕ → OutForward → OutForward × Option ℕ
try_loggers net [] s = (s, none)
try_loggers net (i ∷ is) s = elim (get_elem? s.loggers i) [
  | none ↦ (s, none)
  | some c ↦
      let (c', e) = send c (net.write_ok i) in
      let skipped = try_loggers net is s in
      let retried = try_loggers net is (record s { loggers = set s.loggers i c' }) in
      if c.reconnecting
      then skipped
      else elim e [ some err ↦ retried | none ↦ (succeeded net i c' s, some i) ]
]

-- One round of the outer loop: what the network does in it, and what the other goroutines do to
-- the clients in the second of sleep before it.
pub record Round : Type 0 where
  pub net : Network
  pub meanwhile : List Client → List Client

-- `waiting`: the rounds are used up, and the code goes on sleeping and trying.
pub data Result : Type 0 where
  delivered : ℕ → SentStat → Result
  pack_failed panicked waiting : Result

unfoldable pub rounds : SentStat → List Round → OutForward → OutForward × Result
rounds stat [] s = (s, waiting)
rounds stat (r ∷ rs) s =
    let s₁ = record s { loggers = r.meanwhile s.loggers } in
    elim (order s₁) [
      | none ↦ (s₁, panicked)
      | some is ↦
          let tried = try_loggers r.net is s₁ in
          let later = rounds stat rs tried.0 in
          elim tried.1 [ some i ↦ (tried.0, delivered i stat) | none ↦ later ]
    ]

-- `outForwardRecieve` for a record set that was received; `packed` is the result of
-- `PackAsPackedForward`.
unfoldable pub out_forward_receive :
    FluentRecordSet → Option Bytes → List Round → OutForward → OutForward × Result
unfolding rounds
out_forward_receive rs none rounds_left s = (s, pack_failed)
out_forward_receive rs (some packed) rounds_left s =
    rounds (record { tag = rs.tag; messages = record_count rs; bytes = length packed; sents = 1 })
      rounds_left s
