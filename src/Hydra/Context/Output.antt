-- ===== src/Hydra/Context/Output.antt =====
-- hydra/hydra.go: that the output takes from `MessageCh` until it is closed.
use fluent_agent_hydra.Prelude.{
  ℕ, ◌<◌, ◌≡◌, refl, true, false, some, List, [], ◌∷◌, ◌++◌, arith, get_elem?, set, All, subst,
}
use fluent_agent_hydra.Prelude.Sums.{sum, sum-append, sum-set, le-sum}
use fluent_agent_hydra.Hydra.Context.{
  Role, forwarding, receiving, handling, feeding, watching, Pc, launched, added, begun, looping,
  sending, delivering, offering, ended, panicked, Proc, proc, Context, Move, adds_input,
  adds_handling, adds_output, begins, begins_receiving, monitor_returns, receives, delivers,
  forward_returns, reads, dequeues, sends, tail_panics, feed_panics, stdin_returns, tail_returns,
  nothing_to_watch, watcher_returns, offers, receiver_returns, handler_returns, awaiting_input,
  System, Step, run_process, launches_all, run_returns, shuts_down, inputs_done, outputs_done,
  moves, hands_over, starts_feed, accepts, run, Reaches, here, later,
}
use fluent_agent_hydra.Hydra.Context.Moves.{broken, tail_count}
use fluent_agent_hydra.Hydra.Context.Counts.{IsPart, Phase, Reaches-Counted, run-Counted}
use fluent_agent_hydra.Hydra.Context.Waiting.{Falls}
use fluent_agent_hydra.Hydra.Context.Places.{misplaced, Reaches-Placed}

abbrev pub outputs : Role → ℕ
outputs forwarding = 1
outputs _ = 0

-- An output that has returned.
abbrev returned : Proc → ℕ
returned (proc r ended) = outputs r
returned (proc r _) = 0

Move-stays :
    {c c' : Context} {r : Role} {pc pc' : Pc}
    → Move c r pc c' pc'
    → c'.message_closed ≡ false
    → (returned (proc r pc') ≡ 0) × (c.message_closed ≡ false)
Move-stays (adds_input i part) o = (refl, o)
Move-stays adds_handling o = (refl, o)
Move-stays (adds_output out) o = (refl, o)
Move-stays (begins part n) o = (refl, o)
Move-stays begins_receiving o = (refl, o)
Move-stays monitor_returns o = (refl, o)
Move-stays (receives lt) o = (refl, o)
Move-stays delivers o = (refl, o)
Move-stays (forward_returns e closed) o = cc
Move-stays reads o = (refl, o)
Move-stays dequeues o = (refl, o)
Move-stays (sends open_ch room) o = (refl, o)
Move-stays (tail_panics closed) o = (refl, o)
Move-stays (feed_panics closed) o = (refl, o)
Move-stays stdin_returns o = (refl, o)
Move-stays (tail_returns closed) o = (refl, o)
Move-stays nothing_to_watch o = (refl, o)
Move-stays (watcher_returns closed) o = (refl, o)
Move-stays (offers i) o = (refl, o)
Move-stays (receiver_returns closed) o = (refl, o)
Move-stays handler_returns o = (refl, o)

-- While `MessageCh` is open, no output has returned.
abbrev Stays : System → Type 0
Stays s = (s.context.message_closed ≡ false) → sum returned s.procs ≡ 0

set-Stays :
    (ps : List Proc) (i : ℕ) (p p' : Proc)
    → get_elem? ps i ≡ some p
    → returned p' ≡ 0
    → sum returned ps ≡ 0
    → sum returned (set ps i p') ≡ 0
set-Stays ps i p p' at good h = omega (arith, sum-set returned ps i p p' at)

add-Stays :
    (ps : List Proc) (p : Proc)
    → returned p ≡ 0
    → sum returned ps ≡ 0
    → sum returned (ps ++ (p ∷ [])) ≡ 0
add-Stays ps p good h = omega (arith, sum-append returned ps (p ∷ []))

Step-Stays : {s t : System} → Step s t → Stays s → Stays t
Step-Stays {s} (run_process {r} e) h o = add-Stays s.procs (proc r launched) refl (h o)
Step-Stays (launches_all e) h o = h o
Step-Stays (run_returns e z) h o = h o
Step-Stays (shuts_down e) h o = h o
Step-Stays (inputs_done e z) h o = cc
Step-Stays (outputs_done e z) h o = h o
Step-Stays {s} (moves i {r} {pc} {pc'} at mv) h o =
    let (stays, open_ch) = Move-stays mv o in
    set-Stays s.procs i (proc r pc) (proc r pc') at stays (h open_ch)
Step-Stays {s} (hands_over i j at there) h o =
    set-Stays s.procs i _ (proc (watching true) looping) at refl (h o)
Step-Stays {s} (starts_feed i at) h o =
    add-Stays _ (proc feeding looping) refl
      (set-Stays s.procs i _ (proc receiving looping) at refl (h o))
Step-Stays {s} (accepts i at) h o = add-Stays s.procs (proc handling launched) refl (h o)

Reaches-Stays : {first s : System} → Stays first → Reaches first s → Stays s
Reaches-Stays h here = h
Reaches-Stays h (later r st) = Step-Stays st (Reaches-Stays h r)

forwarding-moves :
    (c : Context) (pc : Pc)
    → 0 < c.message_ch
    → misplaced (proc forwarding pc) ≡ 0
    → broken (proc forwarding pc) ≡ 0
    → returned (proc forwarding pc) ≡ 0
    → (c' : Context) × ((pc' : Pc) × Move c forwarding pc c' pc'
        × Falls c (proc forwarding pc) c' (proc forwarding pc'))
forwarding-moves c launched lt h b n = (_, (_, adds_output refl, (omega arith, refl)))
forwarding-moves c added lt h b n = (_, (_, begins refl (λ e. cc), (omega arith, refl)))
forwarding-moves c begun lt h b n = absurd (omega arith)
forwarding-moves c looping lt h b n = (_, (_, receives lt, (omega arith, refl)))
forwarding-moves c sending lt h b n = absurd (omega arith)
forwarding-moves c delivering lt h b n = (_, (_, delivers, (omega arith, refl)))
forwarding-moves c ended lt h b n = absurd (omega arith)
forwarding-moves c panicked lt h b n = absurd (omega arith)
forwarding-moves c (offering j) lt h b n = absurd (omega arith)

-- While `Shutdown` waits for the inputs and something is in `MessageCh`, the output can take its
-- next step: it has not returned, and it takes record sets and delivers them.
pub output-moves :
    (roles : List Role) (s : System) (i : ℕ) (pc : Pc)
    → All IsPart roles
    → Reaches (run roles) s
    → s.main ≡ awaiting_input
    → get_elem? s.procs i ≡ some (proc forwarding pc)
    → 0 < s.context.message_ch
    → (c' : Context) × ((pc' : Pc) × Move s.context forwarding pc c' pc'
        × Falls s.context (proc forwarding pc) c' (proc forwarding pc'))
output-moves roles s i pc parts reach e at some_in =
    let v = Reaches-Counted (run-Counted roles parts) reach in
    let (open_ch, _) = subst (λ m. Phase m s.context (sum tail_count s.procs)) e v.phase in
    let (placed, control) = Reaches-Placed (refl, tt) reach in
    let stays : sum returned s.procs ≡ 0 = Reaches-Stays (λ o. refl) reach open_ch in
    forwarding-moves s.context pc some_in
      (omega (arith, le-sum misplaced s.procs i (proc forwarding pc) at))
      (omega (arith, le-sum broken s.procs i (proc forwarding pc) at, v.whole))
      (omega (arith, le-sum returned s.procs i (proc forwarding pc) at))
