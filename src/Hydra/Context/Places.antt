-- ===== src/Hydra/Context/Places.antt =====
-- hydra/hydra.go: where a goroutine can be, and that `ControlCh` is closed in the shutdown.
use fluent_agent_hydra.Prelude.{
  ℕ, ◌≡◌, refl, ◌∙◌, Bool, true, false, some, List, [], ◌∷◌, ◌++◌, arith, get_elem?, set,
  if◌then◌else◌, subst,
}
use fluent_agent_hydra.Prelude.Sums.{sum, sum-append, sum-set, le-sum}
use fluent_agent_hydra.Hydra.Context.{
  Role, monitoring, forwarding, receiving, handling, feeding, tailing, watching, Pc, launched,
  added, begun, looping, sending, delivering, offering, ended, panicked, Proc, proc, Context,
  is_output, is_part, Move, adds_input, adds_handling, adds_output, begins, begins_receiving,
  monitor_returns, receives, delivers, forward_returns, reads, dequeues, sends, tail_panics,
  feed_panics, stdin_returns, tail_returns, nothing_to_watch, watcher_returns, offers,
  receiver_returns, handler_returns, Main, launching, awaiting_start, running, awaiting_input,
  awaiting_output, shut_down, System, Step, run_process, launches_all, run_returns, shuts_down,
  inputs_done, outputs_done, moves, hands_over, starts_feed, accepts, Reaches, here, later,
}

-- The places in the code of each goroutine.
abbrev pub is_legal : Role → Pc → Bool
is_legal r launched = true
is_legal r ended = true
is_legal r panicked = true
is_legal r looping = true
is_legal r added = is_part r
is_legal receiving begun = true
is_legal forwarding delivering = true
is_legal feeding sending = true
is_legal (tailing stdin) sending = true
is_legal (watching files) (offering i) = true
is_legal _ _ = false

abbrev pub misplaced : Proc → ℕ
misplaced (proc r pc) = if is_legal r pc then 0 else 1

output_part : (r : Role) → is_output r ≡ true → is_part r ≡ true
output_part monitoring h = refl
output_part forwarding h = refl
output_part receiving h = refl
output_part handling h = cc
output_part feeding h = cc
output_part (tailing stdin) h = refl
output_part (watching files) h = refl

-- A step comes from a place, and leads to one; it leaves `ControlCh` alone.
Move-placed :
    {c c' : Context} {r : Role} {pc pc' : Pc}
    → Move c r pc c' pc'
    → misplaced (proc r pc) ≡ 0
    → (misplaced (proc r pc') ≡ 0) × (c'.control_closed ≡ c.control_closed)
Move-placed (adds_input i part) h = (rw part refl, refl)
Move-placed adds_handling h = (refl, refl)
Move-placed {r} (adds_output o) h = (rw (output_part r o) refl, refl)
Move-placed (begins part n) h = (refl, refl)
Move-placed begins_receiving h = (refl, refl)
Move-placed monitor_returns h = (refl, refl)
Move-placed (receives lt) h = (refl, refl)
Move-placed delivers h = (refl, refl)
Move-placed (forward_returns e closed) h = (refl, refl)
Move-placed reads h = (refl, refl)
Move-placed dequeues h = (refl, refl)
Move-placed (sends open_ch room) h = (refl, refl)
Move-placed (tail_panics closed) h = (refl, refl)
Move-placed (feed_panics closed) h = (refl, refl)
Move-placed stdin_returns h = (refl, refl)
Move-placed (tail_returns closed) h = (refl, refl)
Move-placed nothing_to_watch h = (refl, refl)
Move-placed (watcher_returns closed) h = (refl, refl)
Move-placed (offers i) h = (refl, refl)
Move-placed (receiver_returns closed) h = (refl, refl)
Move-placed handler_returns h = (refl, refl)

-- Whether `Shutdown` was called.
abbrev pub ControlClosed : Main → Context → Type 0
ControlClosed awaiting_input c = c.control_closed ≡ true
ControlClosed awaiting_output c = c.control_closed ≡ true
ControlClosed shut_down c = c.control_closed ≡ true
ControlClosed _ c = Unit {0}

ControlClosed-same :
    (m : Main) (c c' : Context)
    → c'.control_closed ≡ c.control_closed
    → ControlClosed m c
    → ControlClosed m c'
ControlClosed-same (launching roles) c c' e h = tt
ControlClosed-same awaiting_start c c' e h = tt
ControlClosed-same running c c' e h = tt
ControlClosed-same awaiting_input c c' e h = e ∙ h
ControlClosed-same awaiting_output c c' e h = e ∙ h
ControlClosed-same shut_down c c' e h = e ∙ h

abbrev pub Placed : System → Type 0
Placed s = (sum misplaced s.procs ≡ 0) × ControlClosed s.main s.context

set-placed :
    (ps : List Proc) (i : ℕ) (p p' : Proc)
    → get_elem? ps i ≡ some p
    → misplaced p' ≡ 0
    → sum misplaced ps ≡ 0
    → sum misplaced (set ps i p') ≡ 0
set-placed ps i p p' at good h = omega (arith, sum-set misplaced ps i p p' at)

add-placed :
    (ps : List Proc) (p : Proc)
    → misplaced p ≡ 0
    → sum misplaced ps ≡ 0
    → sum misplaced (ps ++ (p ∷ [])) ≡ 0
add-placed ps p good h = omega (arith, sum-append misplaced ps (p ∷ []))

Step-Placed : {s t : System} → Step s t → Placed s → Placed t
Step-Placed {s} (run_process {r} e) (h, k) = (add-placed s.procs (proc r launched) refl h, tt)
Step-Placed (launches_all e) (h, k) = (h, tt)
Step-Placed (run_returns e z) (h, k) = (h, tt)
Step-Placed (shuts_down e) (h, k) = (h, refl)
Step-Placed {s} (inputs_done e z) (h, k) = (h, subst (λ m. ControlClosed m s.context) e k)
Step-Placed {s} (outputs_done e z) (h, k) = (h, subst (λ m. ControlClosed m s.context) e k)
Step-Placed {s} (moves i {r} {pc} {pc'} {c} at mv) (h, k) =
    let before : misplaced (proc r pc) ≡ 0 =
      omega (arith, le-sum misplaced s.procs i (proc r pc) at) in
    let (after, same) = Move-placed mv before in
    (
      set-placed s.procs i (proc r pc) (proc r pc') at after h,
      ControlClosed-same s.main s.context c same k,
    )
Step-Placed {s} (hands_over i j at there) (h, k) =
    (set-placed s.procs i _ (proc (watching true) looping) at refl h, k)
Step-Placed {s} (starts_feed i at) (h, k) = (
  add-placed _ (proc feeding looping) refl
      (set-placed s.procs i _ (proc receiving looping) at refl h),
  k,
)
Step-Placed {s} (accepts i at) (h, k) = (add-placed s.procs (proc handling launched) refl h, k)

pub Reaches-Placed : {first s : System} → Placed first → Reaches first s → Placed s
Reaches-Placed h here = h
Reaches-Placed h (later r st) = Step-Placed st (Reaches-Placed h r)
