-- ===== src/Hydra/Context/Counts.antt =====
-- hydra/hydra.go: the wait groups count the goroutines that have not returned.
use fluent_agent_hydra.Prelude.{
  ℕ, ◌+◌, ◌≤◌, ◌≡◌, refl, subst, ◌∙◌, true, false, some, List, [], ◌∷◌, ◌++◌, arith, get_elem?, set,
  All, if◌then◌else◌,
}
use fluent_agent_hydra.Prelude.Sums.{sum, sum-append, sum-set, le-sum, sum-le}
use fluent_agent_hydra.Hydra.Context.{
  Role, monitoring, forwarding, receiving, handling, feeding, tailing, watching, launched, begun,
  looping, offering, Proc, proc, Context, Main, launching, awaiting_start, running, awaiting_input,
  awaiting_output, shut_down, System, Step, is_part, run_process, launches_all, run_returns,
  shuts_down, inputs_done, outputs_done, moves, hands_over, starts_feed, accepts, close_control,
  close_message, run, Reaches, here, later,
}
use fluent_agent_hydra.Hydra.Context.Moves.{
  starting, input_count, output_count, tail_count, broken, tail_count-le, Delta, Move-Delta,
}

abbrev pub IsPart : Role → Type 0
IsPart r = is_part r ≡ true

-- What is known of the channel and of the started parts, by where the main goroutine is; `tails`
-- goroutines may still send.
abbrev pub Phase : Main → Context → ℕ → Type 0
Phase (launching roles) c tails = (c.message_closed ≡ false) × All IsPart roles
Phase awaiting_start c tails = c.message_closed ≡ false
Phase running c tails = (c.message_closed ≡ false) × (c.start_process ≡ 0)
Phase awaiting_input c tails = (c.message_closed ≡ false) × (c.start_process ≡ 0)
Phase awaiting_output c tails = (c.message_closed ≡ true) × (c.start_process ≡ 0) × (tails ≡ 0)
Phase shut_down c tails =
    (c.message_closed ≡ true) × (c.start_process ≡ 0) × (tails ≡ 0) × (c.output_process ≡ 0)

pub record Counted (s : System) : Type 0 where
  pub starts : s.context.start_process ≡ sum starting s.procs
  pub inputs : s.context.input_process ≡ sum input_count s.procs
  pub outputs : s.context.output_process ≡ sum output_count s.procs
  pub phase : Phase s.main s.context (sum tail_count s.procs)
  pub whole : sum broken s.procs ≡ 0

-- Fewer parts start, and a tailing goroutine begins to count only where a part starts.
Phase-le :
    (m : Main) (c c' : Context) (tails tails' : ℕ)
    → c'.message_closed ≡ c.message_closed
    → c'.start_process ≤ c.start_process
    → tails' ≤ tails + c.start_process
    → c'.output_process ≤ c.output_process + c.start_process
    → Phase m c tails
    → Phase m c' tails'
Phase-le (launching roles) c c' tails tails' e a b d (o, parts) = (e ∙ o, parts)
Phase-le awaiting_start c c' tails tails' e a b d o = e ∙ o
Phase-le running c c' tails tails' e a b d (o, z) = (e ∙ o, omega arith)
Phase-le awaiting_input c c' tails tails' e a b d (o, z) = (e ∙ o, omega arith)
Phase-le awaiting_output c c' tails tails' e a b d (o, z, t) = (e ∙ o, omega arith, omega arith)
Phase-le shut_down c c' tails tails' e a b d (o, z, t, w) =
    (e ∙ o, omega arith, omega arith, omega arith)

-- A closed channel has no tailing goroutine left.
Phase-closed :
    (m : Main) (c : Context) (tails : ℕ)
    → Phase m c tails
    → (if c.message_closed then tails else 0) ≡ 0
Phase-closed (launching roles) c tails (o, parts) = rw o refl
Phase-closed awaiting_start c tails o = rw o refl
Phase-closed running c tails (o, z) = rw o refl
Phase-closed awaiting_input c tails (o, z) = rw o refl
Phase-closed awaiting_output c tails (o, z, t) = rw (o, t) refl
Phase-closed shut_down c tails (o, z, t, w) = rw (o, t) refl

moves-Counted :
    (s : System) (i : ℕ) (p p' : Proc) (c : Context)
    → get_elem? s.procs i ≡ some p
    → Delta s.context p c p'
    → Counted s
    → Counted (record s { context = c; procs = set s.procs i p' })
moves-Counted s i p p' c at d v =
    let room = le-sum starting s.procs i p at in
    let tail_room = le-sum tail_count s.procs i p at in
    let now = sum-set starting s.procs i p p' at in
    let calm = Phase-closed s.main s.context (sum tail_count s.procs) v.phase in
    let none_left : (if s.context.message_closed then tail_count p else 0) ≡ 0 = ground arith in
    record {
      starts = omega (arith, now, v.starts, d.start_process);
      inputs = omega (arith, sum-set input_count s.procs i p p' at, v.inputs, d.input_process);
      outputs = omega (arith, sum-set output_count s.procs i p p' at, v.outputs, d.output_process);
      phase =
          Phase-le s.main s.context c (sum tail_count s.procs) _ d.message_closed
            (omega (arith, d.start_process, d.falls))
            (omega (arith, sum-set tail_count s.procs i p p' at, d.tails, room, v.starts))
            (omega (arith, d.output_process, d.outs, room, v.starts)) v.phase;
      whole = omega (arith, sum-set broken s.procs i p p' at, v.whole, d.breaks, none_left);
    }

-- A goroutine that was just started and is no part, or a part that main starts.
joins-Counted :
    (s : System) (p : Proc) (c : Context) (m : Main)
    → input_count p ≡ 0
    → output_count p ≡ 0
    → tail_count p ≡ 0
    → broken p ≡ 0
    → c.start_process ≡ s.context.start_process + starting p
    → c.input_process ≡ s.context.input_process
    → c.output_process ≡ s.context.output_process
    → Phase m c (sum tail_count s.procs)
    → Counted s
    → Counted (record { context = c; main = m; procs = s.procs ++ (p ∷ []) })
joins-Counted s p c m i o t b es ei eo ph v =
    let no_tail : sum tail_count (s.procs ++ (p ∷ [])) ≡ sum tail_count s.procs =
      omega (arith, sum-append tail_count s.procs (p ∷ []), t) in
    record {
      starts = omega (arith, sum-append starting s.procs (p ∷ []), v.starts, es);
      inputs = omega (arith, sum-append input_count s.procs (p ∷ []), v.inputs, ei, i);
      outputs = omega (arith, sum-append output_count s.procs (p ∷ []), v.outputs, eo, o);
      phase = rw no_tail ph;
      whole = omega (arith, sum-append broken s.procs (p ∷ []), v.whole, b);
    }

-- What main does by itself.
main-Counted :
    (s : System) (c : Context) (m : Main)
    → c.start_process ≡ s.context.start_process
    → c.input_process ≡ s.context.input_process
    → c.output_process ≡ s.context.output_process
    → Phase m c (sum tail_count s.procs)
    → Counted s
    → Counted (record s { context = c; main = m })
main-Counted s c m es ei eo ph v = record {
  starts = es ∙ v.starts;
  inputs = ei ∙ v.inputs;
  outputs = eo ∙ v.outputs;
  phase = ph;
  whole = v.whole;
}

stays-Delta :
    (c : Context) (p p' : Proc)
    → starting p' ≡ starting p
    → input_count p' ≡ input_count p
    → output_count p' ≡ output_count p
    → tail_count p' ≤ tail_count p
    → broken p' ≤ broken p
    → Delta c p c p'
stays-Delta c p p' s i o t b = record {
  start_process = omega arith;
  input_process = omega arith;
  output_process = omega arith;
  message_closed = refl;
  falls = omega arith;
  outs = omega arith;
  tails = omega arith;
  breaks = omega arith;
}

-- A goroutine that was just started counts in no group yet.
launched-counts :
    (r : Role)
    → let p = proc r launched in
      (input_count p ≡ 0) × (output_count p ≡ 0) × (tail_count p ≡ 0) × (broken p ≡ 0)
launched-counts monitoring = omega arith
launched-counts forwarding = omega arith
launched-counts receiving = omega arith
launched-counts handling = omega arith
launched-counts feeding = omega arith
launched-counts (tailing stdin) = omega arith
launched-counts (watching files) = omega arith

pub Step-Counted : {s t : System} → Step s t → Counted s → Counted t
Step-Counted {s} (run_process {r} {roles} e) v =
    let (open_ch, parts) = subst (λ m. Phase m s.context (sum tail_count s.procs)) e v.phase in
    let (i, o, t, b) = launched-counts r in
    let one : starting (proc r launched) ≡ 1 = rw parts.0 refl in
    joins-Counted s (proc r launched)
      (record s.context { start_process = s.context.start_process + 1 }) (launching roles) i o t b
      (omega arith) refl refl (open_ch, parts.1) v
Step-Counted {s} (launches_all e) v =
    let (open_ch, _) = subst (λ m. Phase m s.context (sum tail_count s.procs)) e v.phase in
    main-Counted s s.context awaiting_start refl refl refl open_ch v
Step-Counted {s} (run_returns e z) v =
    let open_ch = subst (λ m. Phase m s.context (sum tail_count s.procs)) e v.phase in
    main-Counted s s.context running refl refl refl (open_ch, z) v
Step-Counted {s} (shuts_down e) v =
    let known = subst (λ m. Phase m s.context (sum tail_count s.procs)) e v.phase in
    main-Counted s (close_control s.context) awaiting_input refl refl refl known v
Step-Counted {s} (inputs_done e z) v =
    let (open_ch, none_starts) =
      subst (λ m. Phase m s.context (sum tail_count s.procs)) e v.phase in
    let none_left : sum tail_count s.procs ≡ 0 =
      omega (arith, sum-le tail_count input_count tail_count-le s.procs, v.inputs, z) in
    main-Counted s (close_message s.context) awaiting_output refl refl refl
      (refl, none_starts, none_left) v
Step-Counted {s} (outputs_done e z) v =
    let known = subst (λ m. Phase m s.context (sum tail_count s.procs)) e v.phase in
    main-Counted s s.context shut_down refl refl refl (known.0, known.1, known.2, z) v
Step-Counted {s} (moves i {r} {pc} {pc'} {c} at mv) v =
    let p = proc r pc in
    moves-Counted s i p (proc r pc') c at
      (Move-Delta s.context mv (omega (arith, le-sum starting s.procs i p at, v.starts))
        (omega (arith, le-sum input_count s.procs i p at, v.inputs))
        (omega (arith, le-sum output_count s.procs i p at, v.outputs)))
      v
Step-Counted {s} (hands_over i j at there) v =
    moves-Counted s i (proc (watching true) (offering j)) (proc (watching true) looping) s.context
      at (stays-Delta s.context _ _ refl refl refl (omega arith) (omega arith)) v
Step-Counted {s} (starts_feed i at) v =
    let s' : System = record s { procs = set s.procs i (proc receiving looping) } in
    let v' : Counted s' =
      moves-Counted s i (proc receiving begun) (proc receiving looping) s.context at
        (stays-Delta s.context _ _ refl refl refl (omega arith) (omega arith)) v in
    joins-Counted s' (proc feeding looping) s.context s.main refl refl refl refl (omega arith) refl
      refl v'.phase v'
Step-Counted {s} (accepts i at) v =
    joins-Counted s (proc handling launched) s.context s.main refl refl refl refl (omega arith) refl
      refl v.phase v

pub Reaches-Counted : {first s : System} → Counted first → Reaches first s → Counted s
Reaches-Counted v here = v
Reaches-Counted v (later r st) = Step-Counted st (Reaches-Counted v r)

-- Nothing was started yet.
pub run-Counted : (roles : List Role) → All IsPart roles → Counted (run roles)
run-Counted roles parts = record {
  starts = refl;
  inputs = refl;
  outputs = refl;
  phase = (refl, parts);
  whole = refl;
}
