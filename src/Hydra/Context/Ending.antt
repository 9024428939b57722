-- ===== src/Hydra/Context/Ending.antt =====
-- hydra/hydra.go: `Shutdown` can get through its wait for the inputs.
use fluent_agent_hydra.Prelude.{
  ℕ, zero, suc, ◌+◌, ◌*◌, ◌<◌, ◌≡◌, ◌≢◌, refl, ap, ◌∙◌, inl, inr, true, some, List, [], ◌∷◌, ◌++◌,
  arith, get_elem?, set, All, ltb, Bool-cases, subst,
}
use fluent_agent_hydra.Prelude.Sums.{sum, sum-append, sum-set, le-sum}
use fluent_agent_hydra.Hydra.Context.{
  Role, monitoring, forwarding, receiving, handling, feeding, tailing, watching, Pc, begun, looping,
  offering, ended, Proc, proc, Context, is_input, Move, awaiting_input, awaiting_output, System,
  Step, moves, starts_feed, inputs_done, close_message, run, Reaches, here, later,
}
use fluent_agent_hydra.Hydra.Context.Moves.{input_count}
use fluent_agent_hydra.Hydra.Context.Counts.{IsPart, Reaches-Counted, run-Counted}
use fluent_agent_hydra.Hydra.Context.Waiting.{
  weight, offers_event, Falls, Awaits, goes_on, starts, full, hands, shutdown-Awaits,
}
use fluent_agent_hydra.Hydra.Context.Output.{outputs, output-moves}

abbrev is_output_of : Proc → ℕ
is_output_of (proc r pc) = outputs r

-- What is left to do.
abbrev left : System → ℕ
left s = sum weight s.procs + 2 * s.context.message_ch

-- The shutdown waits for the inputs; there is an output, and no watcher that sends an event.
abbrev pub Calm : System → Type 0
Calm s = (s.main ≡ awaiting_input) × (sum offers_event s.procs ≡ 0) × (0 < sum is_output_of s.procs)

-- A goroutine that counts.
pub counted_one :
    (f : Proc → ℕ) (ps : List Proc)
    → 0 < sum f ps
    → (i : ℕ) × ((p : Proc) × (get_elem? ps i ≡ some p) × (0 < f p))
counted_one f [] h = absurd (omega arith)
counted_one f (p ∷ ps) h = elim (Bool-cases (ltb 0 (f p))) [
  | inl e ↦ (0, (p, refl, ground arith))
  | inr e ↦ let (i, (q, at, more)) = counted_one f ps (ground arith) in (suc i, (q, at, more))
]

-- A step that leaves less to do.
abbrev Nearer : System → Type 0
Nearer s = (t : System) × Step s t × Calm t × (left t < left s)

Move-Nearer :
    (s : System) (i : ℕ) (r : Role) (pc pc' : Pc) (c' : Context)
    → Calm s
    → get_elem? s.procs i ≡ some (proc r pc)
    → Move s.context r pc c' pc'
    → Falls s.context (proc r pc) c' (proc r pc')
    → Nearer s
Move-Nearer s i r pc pc' c' (waits, none_offers, output) at mv (less, no_offer) =
    let p = proc r pc in
    let p' = proc r pc' in
    (
      record s { context = c'; procs = set s.procs i p' },
      moves i at mv,
      (
        waits,
        omega (arith, sum-set offers_event s.procs i p p' at),
        omega (arith, sum-set is_output_of s.procs i p p' at),
      ),
      omega (arith, sum-set weight s.procs i p p' at, le-sum weight s.procs i p at),
    )

feed-Nearer :
    (s : System) (i : ℕ) → Calm s → get_elem? s.procs i ≡ some (proc receiving begun) → Nearer s
feed-Nearer s i (waits, none_offers, output) at =
    let p = proc receiving begun in
    let p' = proc receiving looping in
    let ps = set s.procs i p' in
    let feed = proc feeding looping in
    (
      record s { procs = ps ++ (feed ∷ []) },
      starts_feed i at,
      (
        waits,
        omega
            (arith, sum-set offers_event s.procs i p p' at, sum-append offers_event ps (feed ∷ [])),
        omega
            (arith, sum-set is_output_of s.procs i p p' at, sum-append is_output_of ps (feed ∷ [])),
      ),
      omega (
        arith,
        sum-set weight s.procs i p p' at,
        le-sum weight s.procs i p at,
        sum-append weight ps (feed ∷ []),
      ),
    )

counted-input :
    (r : Role) (pc : Pc) → 0 < input_count (proc r pc) → (is_input r ≡ true) × (pc ≢ ended)
counted-input r pc h = elim (Bool-cases (is_input r)) [
  | inl i ↦ (
    i,
    λ e.
        let none_left : 0 < 0 = rw i at (subst (λ q. 0 < input_count (proc r q)) e h) in
        absurd (omega arith),
  )
  | inr i ↦ let none_left : 0 < 0 = rw i at h in absurd (omega arith)
]

outputs-forwarding : (r : Role) → 0 < outputs r → r ≡ forwarding
outputs-forwarding monitoring h = absurd (omega arith)
outputs-forwarding forwarding h = refl
outputs-forwarding receiving h = absurd (omega arith)
outputs-forwarding handling h = absurd (omega arith)
outputs-forwarding feeding h = absurd (omega arith)
outputs-forwarding (tailing stdin) h = absurd (omega arith)
outputs-forwarding (watching files) h = absurd (omega arith)

module _ (roles : List Role) (parts : All IsPart roles) where
  output-Nearer :
      (s : System) (i : ℕ) (p : Proc)
      → Reaches (run roles) s
      → Calm s
      → get_elem? s.procs i ≡ some p
      → 0 < is_output_of p
      → 0 < s.context.message_ch
      → Nearer s
  output-Nearer s i (proc r pc) reach calm at is_one lt =
      let here_it_is : get_elem? s.procs i ≡ some (proc forwarding pc) =
        at ∙ ap (λ q. some (proc q pc)) (outputs-forwarding r is_one) in
      let (c', (pc', mv, falls)) = output-moves roles s i pc parts reach calm.0 here_it_is lt in
      Move-Nearer s i forwarding pc pc' c' calm here_it_is mv falls

  Awaits-Nearer :
      (s : System) (i : ℕ) (r : Role) (pc : Pc)
      → Reaches (run roles) s
      → Calm s
      → get_elem? s.procs i ≡ some (proc r pc)
      → is_input r ≡ true
      → Awaits s.context r pc
      → Nearer s
  Awaits-Nearer s i r pc reach calm at input (goes_on c' pc' mv falls) =
      Move-Nearer s i r pc pc' c' calm at mv falls
  Awaits-Nearer s i r pc reach calm at input (starts e) =
      feed-Nearer s i calm (at ∙ ap (λ q. some (proc q begun)) e)
  Awaits-Nearer s i r pc reach calm at input (full more) =
      let (o, (p, there, is_one)) = counted_one is_output_of s.procs calm.2 in
      output-Nearer s o p reach calm there is_one (omega arith)
  Awaits-Nearer s i r pc reach calm at input (hands j) =
      absurd (omega (arith, le-sum offers_event s.procs i (proc r (offering j)) at, calm.1))

  input-Nearer :
      (s : System) (i : ℕ) (p : Proc)
      → Reaches (run roles) s
      → Calm s
      → get_elem? s.procs i ≡ some p
      → 0 < input_count p
      → Nearer s
  input-Nearer s i (proc r pc) reach calm at counts =
      let (input, not_ended) = counted-input r pc counts in
      Awaits-Nearer s i r pc reach calm at input
        (shutdown-Awaits roles s i r pc parts reach calm.0 at input not_ended)

  ends-within :
      (n : ℕ) (first s : System)
      → Reaches (run roles) s
      → Reaches first s
      → Calm s
      → left s < n
      → (t : System) × Reaches first t × (t.main ≡ awaiting_output)
  ends-within zero first s reach from calm fuel = absurd (omega arith)
  ends-within (suc n) first s reach from calm fuel =
      elim (Bool-cases (ltb 0 (sum input_count s.procs))) [
        | inl e ↦
            let (i, (p, at, counts)) = counted_one input_count s.procs (ground arith) in
            let (t, step, calm', less) = input-Nearer s i p reach calm at counts in
            ends-within n first t (later reach step) (later from step) calm' (omega arith)
        | inr e ↦
            let none_counts : sum input_count s.procs ≡ 0 = ground arith in
            let v = Reaches-Counted (run-Counted roles parts) reach in
            (
              record s { context = close_message s.context; main = awaiting_output },
              later from (inputs_done calm.0 (v.inputs ∙ none_counts)),
              refl,
            )
      ]

  pub inputs_end :
      (s : System)
      → Reaches (run roles) s
      → Calm s
      → (t : System) × Reaches s t × (t.main ≡ awaiting_output)
  inputs_end s reach calm = ends-within (suc (left s)) s s reach here calm (omega arith)
