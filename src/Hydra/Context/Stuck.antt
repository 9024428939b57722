-- ===== src/Hydra/Context/Stuck.antt =====
-- hydra/hydra.go and hydra/in_tail.go: a shutdown that meets a watcher in the send of an event.
use fluent_agent_hydra.Prelude.{
  ℕ, zero, suc, ◌≡◌, ◌≢◌, refl, sym, ap, ◌∙◌, inl, inr, Bool, true, false, Bool-cases, some, List,
  [], ◌∷◌, ◌++◌, arith, ◌==◌, ==_iff, get_elem?, set, All,
}
use fluent_agent_hydra.Prelude.Sums.{le-sum}
use fluent_agent_hydra.Hydra.Context.{
  Role, receiving, handling, feeding, tailing, watching, Pc, launched, begun, looping, offering,
  ended, Proc, proc, Context, awaiting_input, System, Step, Move, adds_input, adds_handling,
  adds_output, begins, begins_receiving, monitor_returns, receives, delivers, forward_returns,
  reads, dequeues, sends, tail_panics, feed_panics, stdin_returns, tail_returns, nothing_to_watch,
  watcher_returns, offers, receiver_returns, handler_returns, run_process, launches_all,
  run_returns, shuts_down, inputs_done, outputs_done, moves, hands_over, starts_feed, accepts, run,
  Reaches, here, later,
}
use fluent_agent_hydra.Hydra.Context.Moves.{input_count}
use fluent_agent_hydra.Hydra.Context.Counts.{IsPart, Counted, Reaches-Counted, run-Counted}

get_elem?-set_ne :
    (ps : List Proc) (i k : ℕ) (p : Proc) → i ≢ k → get_elem? (set ps i p) k ≡ get_elem? ps k
get_elem?-set_ne [] i k p ne = refl
get_elem?-set_ne (q ∷ ps) zero zero p ne = absurd (ne refl)
get_elem?-set_ne (q ∷ ps) zero (suc k) p ne = refl
get_elem?-set_ne (q ∷ ps) (suc i) zero p ne = refl
get_elem?-set_ne (q ∷ ps) (suc i) (suc k) p ne = get_elem?-set_ne ps i k p λ e. ne (omega arith)

get_elem?-append :
    (ps qs : List Proc) (k : ℕ) (p : Proc)
    → get_elem? ps k ≡ some p
    → get_elem? (ps ++ qs) k ≡ some p
get_elem?-append [] qs k p h = cc
get_elem?-append (q ∷ ps) qs zero p h = h
get_elem?-append (q ∷ ps) qs (suc k) p h = get_elem?-append ps qs k p h

-- A goroutine that takes no step by itself: a watcher in its send, and one that has returned.
abbrev rests : Pc → Role → Bool
rests ended r = true
rests (offering j) (watching files) = true
rests pc r = false

Move-rests : {c c' : Context} {r : Role} {pc pc' : Pc} → Move c r pc c' pc' → rests pc r ≡ false
Move-rests (adds_input e0 e1) = refl
Move-rests adds_handling = refl
Move-rests (adds_output e0) = refl
Move-rests (begins e0 e1) = refl
Move-rests begins_receiving = refl
Move-rests monitor_returns = refl
Move-rests (receives e0) = refl
Move-rests delivers = refl
Move-rests (forward_returns e0 e1) = refl
Move-rests reads = refl
Move-rests dequeues = refl
Move-rests (sends e0 e1) = refl
Move-rests (tail_panics e0) = refl
Move-rests (feed_panics e0) = refl
Move-rests stdin_returns = refl
Move-rests (tail_returns e0) = refl
Move-rests nothing_to_watch = refl
Move-rests (watcher_returns e0) = refl
Move-rests (offers e0) = refl
Move-rests (receiver_returns e0) = refl
Move-rests handler_returns = refl

-- The watcher `w` sends an event to a goroutine that has returned.
pub record Waits (w j : ℕ) (s : System) : Type 0 where
  pub sender : get_elem? s.procs w ≡ some (proc (watching true) (offering j))
  pub reader : get_elem? s.procs j ≡ some (proc (tailing false) ended)

-- A write at a goroutine that can still move leaves those that rest alone.
get_elem?-set-rests :
    (ps : List Proc) (i k : ℕ) (r r₀ : Role) (pc pc₀ : Pc) (p' : Proc)
    → rests pc r ≡ false
    → get_elem? ps i ≡ some (proc r pc)
    → rests pc₀ r₀ ≡ true
    → get_elem? ps k ≡ some (proc r₀ pc₀)
    → get_elem? (set ps i p') k ≡ some (proc r₀ pc₀)
get_elem?-set-rests ps i k r r₀ pc pc₀ p' free at busy h = get_elem?-set_ne ps i k p' apart ∙ h
  where
    apart : i ≢ k
    apart e =
        let same : some (proc r pc) ≡ some (proc r₀ pc₀) = sym at ∙ ap (get_elem? ps) e ∙ h in cc

set-Waits :
    (w j i : ℕ) (s : System) (c : Context) (r : Role) (pc : Pc) (p' : Proc)
    → rests pc r ≡ false
    → get_elem? s.procs i ≡ some (proc r pc)
    → Waits w j s
    → Waits w j (record s { context = c; procs = set s.procs i p' })
set-Waits w j i s c r pc p' free at v = record {
  sender =
      get_elem?-set-rests s.procs i w r (watching true) pc (offering j) p' free at refl v.sender;
  reader = get_elem?-set-rests s.procs i j r (tailing false) pc ended p' free at refl v.reader;
}

append-Waits :
    (w j : ℕ) (s : System) (p : Proc)
    → Waits w j s
    → Waits w j (record s { procs = s.procs ++ (p ∷ []) })
append-Waits w j s p v = record {
  sender = get_elem?-append s.procs (p ∷ []) w _ v.sender;
  reader = get_elem?-append s.procs (p ∷ []) j _ v.reader;
}

-- The watcher is counted, so main goes on waiting.
abbrev StillWaits : ℕ → ℕ → System → Type 0
StillWaits w j s = (s.main ≡ awaiting_input) × Waits w j s

Step-Waits :
    {s t : System} (w j : ℕ)
    → Step s t
    → Counted s
    → s.main ≡ awaiting_input
    → Waits w j s
    → StillWaits w j t
Step-Waits w j (run_process e) v m h = cc
Step-Waits w j (launches_all e) v m h = cc
Step-Waits w j (run_returns e z) v m h = cc
Step-Waits w j (shuts_down e) v m h = cc
Step-Waits {s} w j (inputs_done e z) v m h =
    absurd (omega (arith, v.inputs, z, le-sum input_count s.procs w _ h.sender))
Step-Waits w j (outputs_done e z) v m h = cc
Step-Waits {s} w j (moves i {r} {pc} {pc'} {c} at mv) v m h =
    (m, set-Waits w j i s c r pc (proc r pc') (Move-rests mv) at h)
Step-Waits {s} w j (hands_over i k at there) v m h = elim (Bool-cases (i == w)) [
  | inl e ↦
      let same : i ≡ w = (==_iff i w).0 e in
      let sent : some (proc (watching true) (offering k))
          ≡ some (proc (watching true) (offering j)) =
        sym at ∙ ap (get_elem? s.procs) same ∙ h.sender in
      let to : k ≡ j = cc in
      let gone : some (proc (tailing false) looping) ≡ some (proc (tailing false) ended) =
        sym there ∙ ap (get_elem? s.procs) to ∙ h.reader in
      cc
  | inr e ↦
      let apart : i ≢ w = λ same. let yes_eq : (i == w) ≡ true = (==_iff i w).1 same in cc in
      (
        m,
        record {
          sender = get_elem?-set_ne s.procs i w _ apart ∙ h.sender;
          reader = get_elem?-set_ne s.procs i j _ (other i at) ∙ h.reader;
        },
      )
]
  where
    other : (i : ℕ) → get_elem? s.procs i ≡ some (proc (watching true) (offering k)) → i ≢ j
    other i at e =
        let same : some (proc (watching true) (offering k)) ≡ some (proc (tailing false) ended) =
          sym at ∙ ap (get_elem? s.procs) e ∙ h.reader in
        cc
Step-Waits {s} w j (starts_feed i at) v m h = (
  m,
  append-Waits w j (record s { procs = set s.procs i (proc receiving looping) })
      (proc feeding looping)
      (set-Waits w j i s s.context receiving begun (proc receiving looping) refl at h),
)
Step-Waits {s} w j (accepts i at) v m h = (m, append-Waits w j s (proc handling launched) h)

Reaches-Waits :
    {s t : System} (w j : ℕ) → Counted s → StillWaits w j s → Reaches s t → StillWaits w j t
Reaches-Waits w j v h here = h
Reaches-Waits w j v h (later r st) =
    let (m, waits) = Reaches-Waits w j v h r in Step-Waits w j st (Reaches-Counted v r) m waits

-- A shutdown hangs if a goroutine that followed a file has returned while the watcher was about to
-- send it an event: whatever happens afterwards, `Shutdown` goes on waiting for the inputs.
pub shutdown_hangs :
    (roles : List Role) (w j : ℕ) (s t : System)
    → All IsPart roles
    → Reaches (run roles) s
    → s.main ≡ awaiting_input
    → get_elem? s.procs w ≡ some (proc (watching true) (offering j))
    → get_elem? s.procs j ≡ some (proc (tailing false) ended)
    → Reaches s t
    → t.main ≡ awaiting_input
shutdown_hangs roles w j s t parts reach m sender reader on =
    (Reaches-Waits w j (Reaches-Counted (run-Counted roles parts) reach)
      (m, record { sender = sender; reader = reader }) on).0
