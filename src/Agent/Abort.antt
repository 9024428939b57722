-- ===== src/Agent/Abort.antt =====
-- cmd/fluent-agent-hydra/main.go: how the agent ends after a signal.
use fluent_agent_hydra.Prelude.{
  ◌≡◌, refl, ap, ◌∙◌, Bool, true, false, Option, none, some, List, [], ◌∷◌, ◌++◌, All,
}
use fluent_agent_hydra.Agent.{
  Signal, Phase, waiting, shutting, exited, Agent, Event, signalled, inputs_ended, main_takes,
  second_passes, guard_takes, shut_down, step, run,
}

-- No further signal of the system, and no end of `Shutdown`.
abbrev pub IsQuiet : Event → Type 0
IsQuiet signalled = ⊥
IsQuiet shut_down = ⊥
IsQuiet _ = Unit {0}

-- It has ended with code 1; or it shuts down, and the end of the inputs is not told yet or
-- something is in the channel.
abbrev Dooms : Phase → Option Signal → Bool → Type 0
Dooms waiting c told = ⊥
Dooms (exited n) c told = n ≡ 1
Dooms (shutting b) none true = ⊥
Dooms (shutting b) _ _ = Unit {0}

abbrev IsDoomed : Agent → Type 0
IsDoomed s = Dooms s.phase s.sig_ch s.told

step-Dooms :
    (e : Event) (p : Phase) (c : Option Signal) (told : Bool)
    → IsQuiet e
    → Dooms p c told
    → IsDoomed (step e (record { phase = p; sig_ch = c; told = told }))
unfolding step
step-Dooms signalled p c told quiet h = absurd quiet
step-Dooms shut_down p c told quiet h = absurd quiet
step-Dooms e waiting c told quiet h = absurd h
step-Dooms e (shutting b) none true quiet h = absurd h
step-Dooms inputs_ended (exited n) none true quiet h = h
step-Dooms inputs_ended (exited n) none false quiet h = h
step-Dooms inputs_ended (exited n) (some g) true quiet h = h
step-Dooms inputs_ended (exited n) (some g) false quiet h = h
step-Dooms inputs_ended (shutting b) none false quiet h = tt
step-Dooms inputs_ended (shutting b) (some g) true quiet h = tt
step-Dooms inputs_ended (shutting b) (some g) false quiet h = tt
step-Dooms main_takes (exited n) c told quiet h = h
step-Dooms main_takes (shutting b) none false quiet h = tt
step-Dooms main_takes (shutting b) (some g) told quiet h = tt
step-Dooms second_passes (exited n) c told quiet h = h
step-Dooms second_passes (shutting b) none false quiet h = tt
step-Dooms second_passes (shutting b) (some g) told quiet h = tt
step-Dooms guard_takes (exited n) c told quiet h = h
step-Dooms guard_takes (shutting true) none false quiet h = tt
step-Dooms guard_takes (shutting false) none false quiet h = tt
step-Dooms guard_takes (shutting true) (some g) told quiet h = refl
step-Dooms guard_takes (shutting false) (some g) told quiet h = tt

run-Doomed :
    (events : List Event) (s : Agent) → All IsQuiet events → IsDoomed s → IsDoomed (run events s)
unfolding run
run-Doomed [] s quiet h = h
run-Doomed (e ∷ events) s quiet h =
    run-Doomed events (step e s) quiet.1 (step-Dooms e s.phase s.sig_ch s.told quiet.0 h)

-- The inputs end, a second passes, and the guard reads the channel.
abbrev pub last_events : List Event
last_events = inputs_ended ∷ second_passes ∷ guard_takes ∷ []

last-exited :
    (p : Phase) (c : Option Signal) (told : Bool)
    → Dooms p c told
    → (run last_events (record { phase = p; sig_ch = c; told = told })).phase ≡ exited 1
unfolding run step
last-exited waiting c told h = absurd h
last-exited (exited n) none true h = ap exited h
last-exited (exited n) none false h = ap exited h
last-exited (exited n) (some g) true h = ap exited h
last-exited (exited n) (some g) false h = ap exited h
last-exited (shutting b) none true h = absurd h
last-exited (shutting b) none false h = refl
last-exited (shutting b) (some g) true h = refl
last-exited (shutting b) (some g) false h = refl

run-append :
    (events more : List Event) (s : Agent) → run (events ++ more) s ≡ run more (run events s)
unfolding run
run-append [] more s = refl
run-append (e ∷ events) more s = run-append events more (step e s)

-- The agent shuts down after a signal of the system, and its guard does not know yet that the inputs
-- have ended. With no second signal of the system: if the inputs end and a second passes before
-- `Shutdown` returns, the agent ends with code 1, in whatever order the goroutines went on before.
-- The signal that all inputs have ended, which `Shutdown` itself brings about, counts as a second
-- one.
pub aborts_lem :
    (b : Bool) (c : Option Signal) (events : List Event)
    → All IsQuiet events
    → (run (events ++ last_events) (record { phase = shutting b; sig_ch = c; told = false })).phase
      ≡ exited 1
aborts_lem b c events quiet =
    let start : Agent = record { phase = shutting b; sig_ch = c; told = false } in
    let s = run events start in
    ap (λ t. t.phase) (run-append events last_events start)
    ∙ last-exited s.phase s.sig_ch s.told (run-Doomed events start quiet (begins c))
  where
    begins : (c : Option Signal) → Dooms (shutting b) c false
    begins none = tt
    begins (some g) = tt
