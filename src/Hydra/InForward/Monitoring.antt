-- ===== src/Hydra/InForward/Monitoring.antt =====
-- hydra/in_forward.go and hydra/monitor.go: what the monitor shows of the receiver.
use fluent_agent_hydra.Prelude.{
  ◌%◌, u64_mod, subst, sym, ℕ, ◌+◌, ◌<◌, ◌≡◌, refl, ap, ◌∙◌, none, some, List, [], ◌∷◌, Bytes,
  arith, length, i64_limit,
}
use fluent_agent_hydra.Fluent.Record.{FluentRecordSet}
use fluent_agent_hydra.Hydra.Queue.Evict.{total}
use fluent_agent_hydra.Hydra.Config.{ConfigReceiver}
use fluent_agent_hydra.Hydra.Monitor.{
  ReceiverStat, Stats, Stat, of_file, of_server, of_sent, of_receiver, run,
}
use fluent_agent_hydra.Hydra.Monitor.Totals.{InRange}
use fluent_agent_hydra.Hydra.Monitor.Receiver.{
  of_receivers, shown, run-receivers, Quiet, run-connections,
}
use fluent_agent_hydra.Hydra.Monitor.Receiver
use fluent_agent_hydra.Hydra.InForward.{InForward, new_in_forward, start}
use fluent_agent_hydra.Prelude.Sums.{sum}
use fluent_agent_hydra.Hydra.InForward.Accounts.{
  field_of, pending_messages, pending_disposed, held, open_connections, StartsQuiet,
}
use fluent_agent_hydra.Hydra.InForward.Steps.{Reaches, run-Accounts}

sum-of_receivers :
    (field : ReceiverStat → ℕ) (stats : List Stat)
    → Receiver.sum field (of_receivers stats) ≡ sum (field_of field) stats
sum-of_receivers field [] = refl
sum-of_receivers field (of_receiver s ∷ stats) =
    ap (λ n. field s + n) (sum-of_receivers field stats)
sum-of_receivers field (of_file s ∷ stats) = omega (arith, sum-of_receivers field stats)
sum-of_receivers field (of_server s ∷ stats) = omega (arith, sum-of_receivers field stats)
sum-of_receivers field (of_sent s ∷ stats) = omega (arith, sum-of_receivers field stats)

StartsQuiet-Quiet : (stats : List ReceiverStat) → StartsQuiet stats → Quiet none stats
StartsQuiet-Quiet [] h = tt
StartsQuiet-Quiet (s ∷ stats) h = h

-- The receiver and the monitor together: when the monitor, which had no statistics of a receiver,
-- has taken in all that the receiver sent, in any order among the statistics of the other parts,
-- then it has not panicked, the messages that it shows and those that the handlers have still to
-- tell are the records that were enqueued; and these are the disposed ones that it shows, those
-- still to be told, and the records sent on, held by `feed` and queued. The current connections
-- that it shows are the handlers that have not returned, modulo 2 ^ 64. There are fewer than
-- 2 ^ 63 of them, as is the receiver's limit, and each server statistic has the index of a server.
pub monitor-receiver :
    (addr : Bytes) (config : ConfigReceiver) (arrived : List FluentRecordSet) (f : InForward)
    (stats : List Stat) (ss : Stats)
    → config.max_buffer_messages < i64_limit
    → Reaches (start (new_in_forward addr config)) arrived f
    → total arrived < i64_limit
    → of_receivers stats ≡ of_receivers f.monitor_ch
    → InRange (length ss.servers) stats
    → ss.receiver ≡ none
    → (ss' : Stats) × (run stats ss ≡ some ss')
      × (shown (λ s. s.messages) ss'.receiver + sum pending_messages f.handlers ≡ total arrived)
      × (shown (λ s. s.disposed) ss'.receiver
            + sum pending_disposed f.handlers
            + total f.message_ch
            + total (held f.feeder)
            + total f.message_queue.list
          ≡ total arrived)
      × (shown (λ s. s.current_connections) ss'.receiver
          ≡ sum open_connections f.handlers % u64_mod)
monitor-receiver addr config arrived f stats ss lt r fits same h fresh =
    let v = run-Accounts addr config arrived f lt r fits in
    let m =
      ap (Receiver.sum (λ s. s.messages)) same ∙ sum-of_receivers (λ s. s.messages) f.monitor_ch in
    let d =
      ap (Receiver.sum (λ s. s.disposed)) same ∙ sum-of_receivers (λ s. s.disposed) f.monitor_ch in
    let m₀ : shown (λ s. s.messages) ss.receiver ≡ 0 = ap (shown (λ s. s.messages)) fresh in
    let d₀ : shown (λ s. s.disposed) ss.receiver ≡ 0 = ap (shown (λ s. s.disposed)) fresh in
    let (ss', e, c, c') =
      run-receivers stats ss h (omega (arith, m, m₀, v.counted)) (omega (arith, d, d₀, v.shared)) in
    let n =
      ap (Receiver.sum (λ s. s.connections)) same
      ∙ sum-of_receivers (λ s. s.connections) f.monitor_ch in
    let n₀ : shown (λ s. s.current_connections) ss.receiver ≡ 0 =
      ap (shown (λ s. s.current_connections)) fresh in
    let quiet : Quiet ss.receiver (of_receivers stats) =
      subst (λ r. Quiet r (of_receivers stats)) (sym fresh)
        (subst (Quiet none) (sym same) (StartsQuiet-Quiet (of_receivers f.monitor_ch) v.quiet)) in
    let (ss₂, e₂, c₂) = run-connections stats ss h quiet in
    let p : ss₂ ≡ ss' = cc in
    (
      ss',
      e,
      omega (arith, c, m, m₀, v.counted),
      omega (arith, c', d, d₀, v.shared),
      omega (arith, rw p at c₂, n, n₀, v.linked),
    )
