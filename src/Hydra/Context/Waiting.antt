-- ===== src/Hydra/Context/Waiting.antt =====
-- hydra/hydra.go: what an input can wait for while `Shutdown` waits for it.
use fluent_agent_hydra.Prelude.{
  ℕ, ◌+◌, ◌*◌, ◌<◌, ◌≤◌, ◌≡◌, ◌≢◌, refl, inl, inr, Bool, true, false, some, List, arith, get_elem?,
  All, ltb, Bool-cases, subst,
}
use fluent_agent_hydra.Prelude.Sums.{sum, le-sum}
use fluent_agent_hydra.Hydra.Context.{
  Role, monitoring, forwarding, receiving, handling, feeding, tailing, watching, Pc, launched,
  added, begun, looping, sending, delivering, offering, ended, panicked, Proc, proc, Context,
  is_input, Move, adds_input, adds_handling, begins, begins_receiving, sends, stdin_returns,
  tail_returns, nothing_to_watch, watcher_returns, receiver_returns, handler_returns,
  awaiting_input, System, run, Reaches, message_channel_buffer_len,
}
use fluent_agent_hydra.Hydra.Context.Moves.{broken, tail_count}
use fluent_agent_hydra.Hydra.Context.Counts.{IsPart, Phase, Reaches-Counted, run-Counted}
use fluent_agent_hydra.Hydra.Context.Places.{misplaced, ControlClosed, Reaches-Placed}

-- How far a goroutine is from its return, and the output from its next record set.
abbrev distance : Pc → ℕ
distance launched = 16
distance added = 12
distance begun = 8
distance sending = 8
distance looping = 4
distance _ = 0

abbrev output_distance : Pc → ℕ
output_distance launched = 3
output_distance added = 2
output_distance delivering = 1
output_distance _ = 0

abbrev pub weight : Proc → ℕ
weight (proc monitoring pc) = 0
weight (proc feeding pc) = 0
weight (proc forwarding pc) = output_distance pc
weight (proc receiving pc) = distance pc
weight (proc handling pc) = distance pc
weight (proc (tailing stdin) pc) = distance pc
weight (proc (watching files) pc) = distance pc

abbrev pub offers_event : Proc → ℕ
offers_event (proc r (offering j)) = 1
offers_event (proc r _) = 0

-- The step makes the distances and what is in `MessageCh` smaller.
abbrev pub Falls : Context → Proc → Context → Proc → Type 0
Falls c p c' p' =
    (weight p' + 2 * c'.message_ch < weight p + 2 * c.message_ch) × (offers_event p' ≡ 0)

-- A goroutine can take a step towards its return, or start `feed`; or it waits to send to a full
-- `MessageCh`, or to hand an event to the goroutine `j`.
pub data Awaits (c : Context) (r : Role) : Pc → Type 0 where
  goes_on :
      {pc : Pc} (c' : Context) (pc' : Pc)
      → Move c r pc c' pc'
      → Falls c (proc r pc) c' (proc r pc')
      → Awaits c r pc
  starts : r ≡ receiving → Awaits c r begun
  full : message_channel_buffer_len ≤ c.message_ch → Awaits c r sending
  hands : (j : ℕ) → Awaits c r (offering j)

tailing-Awaits :
    (c : Context) (stdin : Bool) (pc : Pc)
    → c.control_closed ≡ true
    → c.message_closed ≡ false
    → misplaced (proc (tailing stdin) pc) ≡ 0
    → broken (proc (tailing stdin) pc) ≡ 0
    → pc ≢ ended
    → Awaits c (tailing stdin) pc
tailing-Awaits c stdin launched k o h b n = goes_on _ _ (adds_input refl refl) (omega arith, refl)
tailing-Awaits c stdin added k o h b n = goes_on _ _ (begins refl (λ e. cc)) (omega arith, refl)
tailing-Awaits c stdin begun k o h b n = absurd (omega arith)
tailing-Awaits c true looping k o h b n = goes_on _ _ stdin_returns (omega arith, refl)
tailing-Awaits c false looping k o h b n = goes_on _ _ (tail_returns k) (omega arith, refl)
tailing-Awaits c stdin sending k o h b n =
    elim (Bool-cases (ltb c.message_ch message_channel_buffer_len)) [
      | inl e ↦ goes_on _ _ (sends o (ground arith)) (omega arith, refl)
      | inr e ↦ full (ground arith)
    ]
tailing-Awaits c stdin delivering k o h b n = absurd (omega arith)
tailing-Awaits c stdin ended k o h b n = absurd (n refl)
tailing-Awaits c stdin panicked k o h b n = absurd (omega arith)
tailing-Awaits c stdin (offering j) k o h b n = absurd (omega arith)

watching-Awaits :
    (c : Context) (files : Bool) (pc : Pc)
    → c.control_closed ≡ true
    → misplaced (proc (watching files) pc) ≡ 0
    → broken (proc (watching files) pc) ≡ 0
    → pc ≢ ended
    → Awaits c (watching files) pc
watching-Awaits c files launched k h b n = goes_on _ _ (adds_input refl refl) (omega arith, refl)
watching-Awaits c files added k h b n = goes_on _ _ (begins refl (λ e. cc)) (omega arith, refl)
watching-Awaits c files begun k h b n = absurd (omega arith)
watching-Awaits c true looping k h b n = goes_on _ _ (watcher_returns k) (omega arith, refl)
watching-Awaits c false looping k h b n = goes_on _ _ nothing_to_watch (omega arith, refl)
watching-Awaits c files sending k h b n = absurd (omega arith)
watching-Awaits c files delivering k h b n = absurd (omega arith)
watching-Awaits c files ended k h b n = absurd (n refl)
watching-Awaits c files panicked k h b n = absurd (omega arith)
watching-Awaits c files (offering j) k h b n = hands j

receiving-Awaits :
    (c : Context) (pc : Pc)
    → c.control_closed ≡ true
    → misplaced (proc receiving pc) ≡ 0
    → broken (proc receiving pc) ≡ 0
    → pc ≢ ended
    → Awaits c receiving pc
receiving-Awaits c launched k h b n = goes_on _ _ (adds_input refl refl) (omega arith, refl)
receiving-Awaits c added k h b n = goes_on _ _ begins_receiving (omega arith, refl)
receiving-Awaits c begun k h b n = starts refl
receiving-Awaits c looping k h b n = goes_on _ _ (receiver_returns k) (omega arith, refl)
receiving-Awaits c sending k h b n = absurd (omega arith)
receiving-Awaits c delivering k h b n = absurd (omega arith)
receiving-Awaits c ended k h b n = absurd (n refl)
receiving-Awaits c panicked k h b n = absurd (omega arith)
receiving-Awaits c (offering j) k h b n = absurd (omega arith)

handling-Awaits :
    (c : Context) (pc : Pc)
    → misplaced (proc handling pc) ≡ 0
    → broken (proc handling pc) ≡ 0
    → pc ≢ ended
    → Awaits c handling pc
handling-Awaits c launched h b n = goes_on _ _ adds_handling (omega arith, refl)
handling-Awaits c added h b n = absurd (omega arith)
handling-Awaits c begun h b n = absurd (omega arith)
handling-Awaits c looping h b n = goes_on _ _ handler_returns (omega arith, refl)
handling-Awaits c sending h b n = absurd (omega arith)
handling-Awaits c delivering h b n = absurd (omega arith)
handling-Awaits c ended h b n = absurd (n refl)
handling-Awaits c panicked h b n = absurd (omega arith)
handling-Awaits c (offering j) h b n = absurd (omega arith)

input-Awaits :
    (c : Context) (r : Role) (pc : Pc)
    → is_input r ≡ true
    → c.control_closed ≡ true
    → c.message_closed ≡ false
    → misplaced (proc r pc) ≡ 0
    → broken (proc r pc) ≡ 0
    → pc ≢ ended
    → Awaits c r pc
input-Awaits c monitoring pc i k o h b n = cc
input-Awaits c forwarding pc i k o h b n = cc
input-Awaits c feeding pc i k o h b n = cc
input-Awaits c receiving pc i k o h b n = receiving-Awaits c pc k h b n
input-Awaits c handling pc i k o h b n = handling-Awaits c pc h b n
input-Awaits c (tailing stdin) pc i k o h b n = tailing-Awaits c stdin pc k o h b n
input-Awaits c (watching files) pc i k o h b n = watching-Awaits c files pc k h b n

-- While `Shutdown` waits for the inputs, in whatever order the goroutines took their steps before,
-- each input that has not returned can take a step towards its return, but in two cases: a goroutine that
-- follows a file or stdin waits for room in `MessageCh`, or the watcher waits for the goroutine of a
-- file to take an event.
pub shutdown-Awaits :
    (roles : List Role) (s : System) (i : ℕ) (r : Role) (pc : Pc)
    → All IsPart roles
    → Reaches (run roles) s
    → s.main ≡ awaiting_input
    → get_elem? s.procs i ≡ some (proc r pc)
    → is_input r ≡ true
    → pc ≢ ended
    → Awaits s.context r pc
shutdown-Awaits roles s i r pc parts reach e at input n =
    let v = Reaches-Counted (run-Counted roles parts) reach in
    let (open_ch, _) = subst (λ m. Phase m s.context (sum tail_count s.procs)) e v.phase in
    let (placed, control) = Reaches-Placed (refl, tt) reach in
    input-Awaits s.context r pc input (subst (λ m. ControlClosed m s.context) e control) open_ch
      (omega (arith, le-sum misplaced s.procs i (proc r pc) at))
      (omega (arith, le-sum broken s.procs i (proc r pc) at, v.whole)) n
