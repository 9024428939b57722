-- ===== src/Hydra/Context/Finishing.antt =====
-- hydra/hydra.go: `Shutdown` can come to its end.
use fluent_agent_hydra.Prelude.{
  ℕ, zero, suc, ◌+◌, ◌*◌, ◌<◌, ◌≡◌, ◌≢◌, refl, ◌∙◌, inl, inr, Bool, true, false, some, List, [],
  ◌∷◌, arith, get_elem?, set, All, ltb, Bool-cases, subst,
}
use fluent_agent_hydra.Prelude.Sums.{sum, sum-set, le-sum}
use fluent_agent_hydra.Hydra.Context.{
  Role, monitoring, forwarding, receiving, handling, feeding, tailing, watching, Pc, launched,
  added, begun, looping, sending, delivering, offering, ended, panicked, Proc, proc, Context, Move,
  awaiting_output, System, Step, moves, run, Reaches, here, later,
}
use fluent_agent_hydra.Hydra.Context.Counts.{IsPart, Reaches-Counted, run-Counted}
use fluent_agent_hydra.Hydra.Context.{
  adds_output, begins, monitor_returns, receives, delivers, forward_returns, shut_down,
  outputs_done, is_output,
}
use fluent_agent_hydra.Hydra.Context.Moves.{output_count, broken, tail_count}
use fluent_agent_hydra.Hydra.Context.Counts.{Phase}
use fluent_agent_hydra.Hydra.Context.Places.{misplaced, Reaches-Placed}
use fluent_agent_hydra.Hydra.Context.Ending.{Calm, counted_one, inputs_end}

-- How far an output is from its return.
abbrev distance : Pc → ℕ
distance launched = 5
distance added = 4
distance delivering = 3
distance looping = 2
distance _ = 0

abbrev to_return : Proc → ℕ
to_return (proc monitoring pc) = distance pc
to_return (proc forwarding pc) = distance pc
to_return (proc r pc) = 0

abbrev left : System → ℕ
left s = sum to_return s.procs + 2 * s.context.message_ch

-- A step that brings the output nearer to its return.
abbrev Next : Context → Role → Pc → Type 0
Next c r pc =
    (c' : Context) × ((pc' : Pc) × Move c r pc c' pc'
      × (to_return (proc r pc') + 2 * c'.message_ch < to_return (proc r pc) + 2 * c.message_ch))

monitoring-Next :
    (c : Context) (pc : Pc)
    → misplaced (proc monitoring pc) ≡ 0
    → broken (proc monitoring pc) ≡ 0
    → pc ≢ ended
    → Next c monitoring pc
monitoring-Next c launched h b n = (_, (_, adds_output refl, omega arith))
monitoring-Next c added h b n = (_, (_, begins refl (λ e. cc), omega arith))
monitoring-Next c begun h b n = absurd (omega arith)
monitoring-Next c looping h b n = (_, (_, monitor_returns, omega arith))
monitoring-Next c sending h b n = absurd (omega arith)
monitoring-Next c delivering h b n = absurd (omega arith)
monitoring-Next c ended h b n = absurd (n refl)
monitoring-Next c panicked h b n = absurd (omega arith)
monitoring-Next c (offering j) h b n = absurd (omega arith)

forwarding-Next :
    (c : Context) (pc : Pc)
    → c.message_closed ≡ true
    → misplaced (proc forwarding pc) ≡ 0
    → broken (proc forwarding pc) ≡ 0
    → pc ≢ ended
    → Next c forwarding pc
forwarding-Next c launched k h b n = (_, (_, adds_output refl, omega arith))
forwarding-Next c added k h b n = (_, (_, begins refl (λ e. cc), omega arith))
forwarding-Next c begun k h b n = absurd (omega arith)
forwarding-Next c looping k h b n = elim (Bool-cases (ltb 0 c.message_ch)) [
  | inl e ↦ let some_in : 0 < c.message_ch = ground arith in (_, (_, receives some_in, omega arith))
  | inr e ↦ (_, (_, forward_returns (ground arith) k, omega arith))
]
forwarding-Next c sending k h b n = absurd (omega arith)
forwarding-Next c delivering k h b n = (_, (_, delivers, omega arith))
forwarding-Next c ended k h b n = absurd (n refl)
forwarding-Next c panicked k h b n = absurd (omega arith)
forwarding-Next c (offering j) k h b n = absurd (omega arith)

output-Next :
    (c : Context) (r : Role) (pc : Pc)
    → is_output r ≡ true
    → c.message_closed ≡ true
    → misplaced (proc r pc) ≡ 0
    → broken (proc r pc) ≡ 0
    → pc ≢ ended
    → Next c r pc
output-Next c monitoring pc o k h b n = monitoring-Next c pc h b n
output-Next c forwarding pc o k h b n = forwarding-Next c pc k h b n
output-Next c receiving pc o k h b n = cc
output-Next c handling pc o k h b n = cc
output-Next c feeding pc o k h b n = cc
output-Next c (tailing stdin) pc o k h b n = cc
output-Next c (watching files) pc o k h b n = cc

counted-output :
    (r : Role) (pc : Pc) → 0 < output_count (proc r pc) → (is_output r ≡ true) × (pc ≢ ended)
counted-output r pc h = elim (Bool-cases (is_output r)) [
  | inl i ↦ (
    i,
    λ e.
        let none_left : 0 < 0 = rw i at (subst (λ q. 0 < output_count (proc r q)) e h) in
        absurd (omega arith),
  )
  | inr i ↦ let none_left : 0 < 0 = rw i at h in absurd (omega arith)
]

Reaches-trans : {a b c : System} → Reaches a b → Reaches b c → Reaches a c
Reaches-trans r here = r
Reaches-trans r (later q st) = later (Reaches-trans r q) st

-- The monitor is among the parts.
abbrev pub is_monitored : List Role → Bool
is_monitored [] = false
is_monitored (monitoring ∷ roles) = true
is_monitored (_ ∷ roles) = is_monitored roles

module _ (roles : List Role) (parts : All IsPart roles) where
  output_nearer :
      (s : System) (i : ℕ) (p : Proc)
      → Reaches (run roles) s
      → s.main ≡ awaiting_output
      → get_elem? s.procs i ≡ some p
      → 0 < output_count p
      → (t : System) × Step s t × (t.main ≡ awaiting_output) × (left t < left s)
  output_nearer s i (proc r pc) reach waits at counts =
      let (output, not_ended) = counted-output r pc counts in
      let v = Reaches-Counted (run-Counted roles parts) reach in
      let (closed, _, _) = subst (λ m. Phase m s.context (sum tail_count s.procs)) waits v.phase in
      let (placed, _) = Reaches-Placed (refl, tt) reach in
      let (c', (pc', mv, less)) =
        output-Next s.context r pc output closed
          (omega (arith, le-sum misplaced s.procs i (proc r pc) at))
          (omega (arith, le-sum broken s.procs i (proc r pc) at, v.whole)) not_ended in
      (
        record s { context = c'; procs = set s.procs i (proc r pc') },
        moves i at mv,
        waits,
        omega (
          arith,
          sum-set to_return s.procs i (proc r pc) (proc r pc') at,
          le-sum to_return s.procs i (proc r pc) at,
        ),
      )

  outputs_end :
      (n : ℕ) (first s : System)
      → Reaches (run roles) s
      → Reaches first s
      → s.main ≡ awaiting_output
      → left s < n
      → (t : System) × Reaches first t × (t.main ≡ shut_down)
  outputs_end zero first s reach from waits fuel = absurd (omega arith)
  outputs_end (suc n) first s reach from waits fuel =
      elim (Bool-cases (ltb 0 (sum output_count s.procs))) [
        | inl e ↦
            let (i, (p, at, counts)) = counted_one output_count s.procs (ground arith) in
            let (t, step, waits', less) = output_nearer s i p reach waits at counts in
            outputs_end n first t (later reach step) (later from step) waits' (omega arith)
        | inr e ↦
            let none_counts : sum output_count s.procs ≡ 0 = ground arith in
            let v = Reaches-Counted (run-Counted roles parts) reach in
            (
              record s { main = shut_down },
              later from (outputs_done waits (v.outputs ∙ none_counts)),
              refl,
            )
      ]

  -- Over the wait groups, `ControlCh` and `MessageCh`, and with a monitor among the parts, which
  -- reads `MonitorCh` so that a send on it ends: from each state that the program reaches while
  -- `Shutdown` waits for the inputs, in whatever order the goroutines took their steps before, if
  -- no watcher is about to send an event and an output was started, there are steps that lead to
  -- the return of `Shutdown`. In them stdin ends if it is read, the servers answer, and the clients
  -- of the receiver go on or close their connections.
  pub shutdown_ends :
      (s : System)
      → is_monitored roles ≡ true
      → Reaches (run roles) s
      → Calm s
      → (t : System) × Reaches s t × (t.main ≡ shut_down)
  shutdown_ends s monitored reach calm =
      let (t, on, waits) = inputs_end roles parts s reach calm in
      outputs_end (suc (left t)) s t (Reaches-trans reach on) on waits (omega arith)
