-- ===== src/Hydra/InForward/Accounts.antt =====
-- hydra/in_forward.go: what the invariant of the receiver counts, and sums over its lists.
use fluent_agent_hydra.Prelude.{u64_mod, ◌%◌, ℕ, ◌+◌, ◌≡◌, List, [], ◌∷◌, ◌++◌}
use fluent_agent_hydra.Prelude.Sums.{sum}
use mathlib.Core.List.{Sublist}
use fluent_agent_hydra.Fluent.Record.{FluentRecordSet}
use fluent_agent_hydra.Hydra.Queue.Evict.{total}
use fluent_agent_hydra.Hydra.Queue.Invariant.{IsValid}
use fluent_agent_hydra.Hydra.Monitor.{ReceiverStat, Stat, of_file, of_server, of_sent, of_receiver}
use fluent_agent_hydra.Hydra.Monitor.Receiver.{of_receivers}
use fluent_agent_hydra.Hydra.InForward.{
  InForward, Handler, reading, enqueuing, returned, Feeder, looking, holding, pausing,
}

-- A field of the receiver's statistics.
abbrev pub field_of : (ReceiverStat → ℕ) → Stat → ℕ
field_of field (of_receiver s) = field s
field_of field _ = 0

abbrev pub told_messages : InForward → ℕ
told_messages f = sum (field_of (λ s. s.messages)) f.monitor_ch

abbrev pub told_disposed : InForward → ℕ
told_disposed f = sum (field_of (λ s. s.disposed)) f.monitor_ch

-- What a handler has counted and not told yet.
abbrev pub pending_messages : Handler → ℕ
pending_messages reading = 0
pending_messages (enqueuing sets m d) = m
pending_messages returned = 0

abbrev pub pending_disposed : Handler → ℕ
pending_disposed reading = 0
pending_disposed (enqueuing sets m d) = d
pending_disposed returned = 0

abbrev pub open_connections : Handler → ℕ
open_connections reading = 1
open_connections (enqueuing sets m d) = 1
open_connections returned = 0

abbrev pub told_connections : InForward → ℕ
told_connections f = sum (field_of (λ s. s.connections)) f.monitor_ch

-- What `feed` has taken from the queue and not sent yet.
abbrev pub held : Feeder → List FluentRecordSet
held looking = []
held (holding rs) = rs ∷ []
held pausing = []

-- The first statistic of the receiver comes before any connection.
abbrev pub StartsQuiet : List ReceiverStat → Type 0
StartsQuiet [] = ⊥
StartsQuiet (s ∷ stats) = (s.connections ≡ 0) × (s.current_connections ≡ 0)

pub StartsQuiet-append :
    (stats : List Stat) (s : ReceiverStat)
    → StartsQuiet (of_receivers stats)
    → StartsQuiet (of_receivers (stats ++ (of_receiver s ∷ [])))
StartsQuiet-append [] s h = absurd h
StartsQuiet-append (of_receiver first ∷ stats) s h = h
StartsQuiet-append (of_file first ∷ stats) s h = StartsQuiet-append stats s h
StartsQuiet-append (of_server first ∷ stats) s h = StartsQuiet-append stats s h
StartsQuiet-append (of_sent first ∷ stats) s h = StartsQuiet-append stats s h

-- Every record of the sets that were enqueued is counted for the monitor, or will be; and it was
-- sent, is with `feed`, is queued, or is counted as disposed. What is told of connections, -1 being
-- 2 ^ 64 - 1, adds up to the handlers that have not returned. The sets keep their order.
pub record Accounts (arrived : List FluentRecordSet) (f : InForward) : Type 0 where
  pub valid : IsValid f.message_queue
  pub counted : told_messages f + sum pending_messages f.handlers ≡ total arrived
  pub shared :
      total f.message_ch
        + total (held f.feeder)
        + total f.message_queue.list
        + told_disposed f
        + sum pending_disposed f.handlers
      ≡ total arrived
  pub linked : told_connections f % u64_mod ≡ sum open_connections f.handlers % u64_mod
  pub quiet : StartsQuiet (of_receivers f.monitor_ch)
  pub order : Sublist (f.message_ch ++ (held f.feeder ++ f.message_queue.list)) arrived
