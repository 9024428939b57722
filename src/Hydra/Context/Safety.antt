-- ===== src/Hydra/Context/Safety.antt =====
-- hydra/hydra.go: what `Run` and `Shutdown` wait for.
use fluent_agent_hydra.Prelude.{ℕ, ◌≡◌, refl, subst, Bool, true, some, List, arith, get_elem?, All}
use fluent_agent_hydra.Prelude.Sums.{sum, le-sum}
use fluent_agent_hydra.Hydra.Context.{
  Role, monitoring, forwarding, receiving, handling, feeding, tailing, watching, Pc, ended,
  panicked, proc, Main, launching, awaiting_start, running, awaiting_input, awaiting_output,
  shut_down, System, is_input, is_output, is_part, run, Reaches,
}
use fluent_agent_hydra.Hydra.Context.Moves.{starting, input_count, output_count, tail_count, broken}
use fluent_agent_hydra.Hydra.Context.Counts.{IsPart, Phase, Counted, Reaches-Counted, run-Counted}

-- Main is behind `Run`.
abbrev pub HasRun : Main → Type 0
HasRun (launching roles) = ⊥
HasRun awaiting_start = ⊥
HasRun _ = Unit

HasRun-starts :
    (m : Main) (s : System) → s.main ≡ m → HasRun m → Counted s → s.context.start_process ≡ 0
HasRun-starts (launching roles) s e h v = elim h [ ]
HasRun-starts awaiting_start s e h v = elim h [ ]
HasRun-starts running s e h v =
    (subst (λ m. Phase m s.context (sum tail_count s.procs)) e v.phase).1
HasRun-starts awaiting_input s e h v =
    (subst (λ m. Phase m s.context (sum tail_count s.procs)) e v.phase).1
HasRun-starts awaiting_output s e h v =
    (subst (λ m. Phase m s.context (sum tail_count s.procs)) e v.phase).1
HasRun-starts shut_down s e h v =
    (subst (λ m. Phase m s.context (sum tail_count s.procs)) e v.phase).1

input_ended :
    (r : Role) (pc : Pc)
    → is_input r ≡ true
    → IsPart r
    → starting (proc r pc) ≡ 0
    → input_count (proc r pc) ≡ 0
    → pc ≡ ended
input_ended r pc i part s c = ground arith

output_ended :
    (r : Role) (pc : Pc)
    → is_output r ≡ true
    → IsPart r
    → starting (proc r pc) ≡ 0
    → output_count (proc r pc) ≡ 0
    → pc ≡ ended
output_ended r pc i part s c = ground arith

-- Once `Run` has returned, a wait for `InputProcess`, such as that of the command, ends only when
-- each part that is an input and that was started has returned: none of them registers itself
-- too late.
pub inputs_returned :
    (roles : List Role) (s : System) (i : ℕ) (r : Role) (pc : Pc)
    → All IsPart roles
    → Reaches (run roles) s
    → HasRun s.main
    → s.context.input_process ≡ 0
    → get_elem? s.procs i ≡ some (proc r pc)
    → is_input r ≡ true
    → is_part r ≡ true
    → pc ≡ ended
inputs_returned roles s i r pc parts reach h none_left at input part =
    let v = Reaches-Counted (run-Counted roles parts) reach in
    let none_starts = HasRun-starts s.main s refl h v in
    input_ended r pc input part (omega (arith, le-sum starting s.procs i (proc r pc) at, v.starts))
      (omega (arith, le-sum input_count s.procs i (proc r pc) at, v.inputs))

broken-feeding : (r : Role) → broken (proc r panicked) ≡ 0 → r ≡ feeding
broken-feeding monitoring h = absurd (omega arith)
broken-feeding forwarding h = absurd (omega arith)
broken-feeding receiving h = absurd (omega arith)
broken-feeding handling h = absurd (omega arith)
broken-feeding feeding h = refl
broken-feeding (tailing stdin) h = absurd (omega arith)
broken-feeding (watching files) h = absurd (omega arith)

-- In every order of the goroutines' steps, at the start, in the work and in the shutdown, a send
-- on the closed `MessageCh` panics only in the `feed` of the receiver, which no group counts:
-- `Shutdown` closes the channel when the goroutines that follow files or stdin have returned.
pub panicked-feeding :
    (roles : List Role) (s : System) (i : ℕ) (r : Role)
    → All IsPart roles
    → Reaches (run roles) s
    → get_elem? s.procs i ≡ some (proc r panicked)
    → r ≡ feeding
panicked-feeding roles s i r parts reach at =
    let v = Reaches-Counted (run-Counted roles parts) reach in
    broken-feeding r (omega (arith, le-sum broken s.procs i (proc r panicked) at, v.whole))

-- The parts whose work `Shutdown` waits for.
abbrev pub is_awaited : Role → Bool
is_awaited (tailing stdin) = true
is_awaited r = is_output r

awaited_ended :
    (r : Role) (pc : Pc)
    → is_awaited r ≡ true
    → starting (proc r pc) ≡ 0
    → tail_count (proc r pc) ≡ 0
    → output_count (proc r pc) ≡ 0
    → pc ≡ ended
awaited_ended (tailing stdin) pc a s t o = ground arith
awaited_ended monitoring pc a s t o = ground arith
awaited_ended forwarding pc a s t o = ground arith
awaited_ended receiving pc a s t o = cc
awaited_ended handling pc a s t o = cc
awaited_ended feeding pc a s t o = cc
awaited_ended (watching files) pc a s t o = cc

-- When `Shutdown` returns, what was started to follow files or stdin has returned, and so have the
-- monitor and the output.
pub shut_down-returned :
    (roles : List Role) (s : System) (i : ℕ) (r : Role) (pc : Pc)
    → All IsPart roles
    → Reaches (run roles) s
    → s.main ≡ shut_down
    → get_elem? s.procs i ≡ some (proc r pc)
    → is_awaited r ≡ true
    → pc ≡ ended
shut_down-returned roles s i r pc parts reach e at awaited =
    let v = Reaches-Counted (run-Counted roles parts) reach in
    let (_, none_starts, no_tails, no_outputs) =
      subst (λ m. Phase m s.context (sum tail_count s.procs)) e v.phase in
    awaited_ended r pc awaited (omega (arith, le-sum starting s.procs i (proc r pc) at, v.starts))
      (omega (arith, le-sum tail_count s.procs i (proc r pc) at))
      (omega (arith, le-sum output_count s.procs i (proc r pc) at, v.outputs))
