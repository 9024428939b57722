-- ===== src/Hydra/Context/Moves.antt =====
-- hydra/hydra.go: what a goroutine counts for, and how its steps change that.
use fluent_agent_hydra.Prelude.{ℕ, ◌+◌, ◌≤◌, ◌≡◌, arith, if◌then◌else◌}
use fluent_agent_hydra.Hydra.Context.{
  Role, monitoring, forwarding, receiving, handling, feeding, tailing, watching, Pc, launched,
  added, ended, panicked, Proc, proc, Context, is_input, is_output, is_part, Move, adds_input,
  adds_handling, adds_output, begins, begins_receiving, monitor_returns, receives, delivers,
  forward_returns, reads, dequeues, sends, tail_panics, feed_panics, stdin_returns, tail_returns,
  nothing_to_watch, watcher_returns, offers, receiver_returns, handler_returns,
}

-- Before `StartProcess.Done()`; and between `Add(1)` and `Done()` of the other group.
abbrev unstarted : Pc → ℕ
unstarted launched = 1
unstarted added = 1
unstarted _ = 0

abbrev registered : Pc → ℕ
registered launched = 0
registered ended = 0
registered _ = 1

abbrev pub starting : Proc → ℕ
starting (proc r pc) = if is_part r then unstarted pc else 0

abbrev pub input_count : Proc → ℕ
input_count (proc r pc) = if is_input r then registered pc else 0

abbrev pub output_count : Proc → ℕ
output_count (proc r pc) = if is_output r then registered pc else 0

-- A tailing goroutine that may still send.
abbrev pub tail_count : Proc → ℕ
tail_count (proc (tailing stdin) pc) = registered pc
tail_count _ = 0

-- A goroutine that panicked, other than the feeding one.
abbrev pub broken : Proc → ℕ
broken (proc feeding pc) = 0
broken (proc r panicked) = 1
broken _ = 0

pub tail_count-le : (p : Proc) → tail_count p ≤ input_count p
tail_count-le (proc (tailing stdin) pc) = omega arith
tail_count-le (proc monitoring pc) = omega arith
tail_count-le (proc forwarding pc) = omega arith
tail_count-le (proc receiving pc) = omega arith
tail_count-le (proc handling pc) = omega arith
tail_count-le (proc feeding pc) = omega arith
tail_count-le (proc (watching files) pc) = omega arith

-- The groups change as the counts of the goroutine do; a tailing goroutine or an output begins to
-- count only while it starts; and only a closed channel breaks one.
pub record Delta (c : Context) (p : Proc) (c' : Context) (p' : Proc) : Type 0 where
  pub start_process : c'.start_process + starting p ≡ c.start_process + starting p'
  pub input_process : c'.input_process + input_count p ≡ c.input_process + input_count p'
  pub output_process : c'.output_process + output_count p ≡ c.output_process + output_count p'
  pub message_closed : c'.message_closed ≡ c.message_closed
  pub falls : starting p' ≤ starting p
  pub tails : tail_count p' ≤ tail_count p + starting p
  pub outs : output_count p' ≤ output_count p + starting p
  pub breaks : broken p' ≤ broken p + (if c.message_closed then tail_count p else 0)

module _ (c : Context) where
  pub Move-Delta :
      {r : Role} {pc pc' : Pc} {c' : Context}
      → Move c r pc c' pc'
      → starting (proc r pc) ≤ c.start_process
      → input_count (proc r pc) ≤ c.input_process
      → output_count (proc r pc) ≤ c.output_process
      → Delta c (proc r pc) c' (proc r pc')
  Move-Delta (adds_input {r} e part) a b d = ground arith
  Move-Delta adds_handling a b d = ground arith
  Move-Delta (adds_output {r} e) a b d = ground arith
  Move-Delta (begins {r} part ne) a b d = ground arith
  Move-Delta begins_receiving a b d = ground arith
  Move-Delta monitor_returns a b d = ground arith
  Move-Delta (receives lt) a b d = ground arith
  Move-Delta delivers a b d = ground arith
  Move-Delta (forward_returns e closed) a b d = ground arith
  Move-Delta reads a b d = ground arith
  Move-Delta dequeues a b d = ground arith
  Move-Delta (sends {r} open_ch lt) a b d = ground arith
  Move-Delta (tail_panics closed) a b d = ground arith
  Move-Delta (feed_panics closed) a b d = ground arith
  Move-Delta stdin_returns a b d = ground arith
  Move-Delta (tail_returns closed) a b d = ground arith
  Move-Delta nothing_to_watch a b d = ground arith
  Move-Delta (watcher_returns closed) a b d = ground arith
  Move-Delta (offers i) a b d = ground arith
  Move-Delta (receiver_returns closed) a b d = ground arith
  Move-Delta handler_returns a b d = ground arith
