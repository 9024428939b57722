-- ===== src/Hydra/Monitor/Receiver.antt =====
-- hydra/monitor.go: what the statistics of the receiver are after a run.
use fluent_agent_hydra.Prelude.{
  ◌%◌, ℕ, ◌+◌, ◌<◌, Option, none, some, List, [], ◌∷◌, ◌≡◌, refl, sym, subst, ltb_of_lt, arith,
  Option-cases, inl, inr, length, set, length-set, add64, u64_mod,
}
use fluent_agent_hydra.Hydra.Monitor.{
  ReceiverStat, Stats, Stat, of_file, of_server, of_sent, of_receiver, add_receiver, apply_sent,
  apply_to, run,
}
use fluent_agent_hydra.Hydra.Monitor.Totals.{InRange}

-- The statistics of the receiver among those that come in.
abbrev pub of_receivers : List Stat → List ReceiverStat
of_receivers [] = []
of_receivers (of_receiver s ∷ stats) = s ∷ of_receivers stats
of_receivers (_ ∷ stats) = of_receivers stats

-- A counter of the receiver, 0 if there is none.
abbrev pub shown : (ReceiverStat → ℕ) → Option ReceiverStat → ℕ
shown field none = 0
shown field (some s) = field s

abbrev pub sum : (ReceiverStat → ℕ) → List ReceiverStat → ℕ
sum field [] = 0
sum field (s ∷ stats) = field s + sum field stats

module _ (field : ReceiverStat → ℕ)
    (adds : (a b : ReceiverStat) → field (add_receiver a b) ≡ add64 (field a) (field b)) where
  run-receiver :
      (stats : List Stat) (ss : Stats)
      → InRange (length ss.servers) stats
      → shown field ss.receiver + sum field (of_receivers stats) < u64_mod
      → (ss' : Stats) × (run stats ss ≡ some ss')
        × (shown field ss'.receiver ≡ shown field ss.receiver + sum field (of_receivers stats))
  unfolding run apply_to
  run-receiver [] ss h lt = (ss, refl, omega arith)
  run-receiver (of_file s ∷ stats) ss h lt = run-receiver stats _ h lt
  run-receiver (of_server s ∷ stats) ss (i, h) lt =
      let servers' = set ss.servers s.index (some s) in
      let h' : InRange (length servers') stats =
        subst (λ n. InRange n stats) (sym (length-set ss.servers s.index (some s))) h in
      rw (ltb_of_lt s.index (length ss.servers) i, run, apply_to)
        (run-receiver stats (record ss { servers = servers' }) h' lt)
  run-receiver (of_sent s ∷ stats) ss h lt =
      run-receiver stats (record ss { sent = apply_sent s ss.sent }) h lt
  run-receiver (of_receiver s ∷ stats) ss h lt = elim (Option-cases ss.receiver) [
    | inl n ↦
        let fits : field s + sum field (of_receivers stats) < u64_mod = omega (arith, lt) in
        let (ss', e, c) = run-receiver stats (record ss { receiver = some s }) h fits in
        rw (n, run, apply_to) (ss', e, omega (arith, c))
    | inr (rs, n) ↦
        let old : shown field ss.receiver ≡ field rs = rw n refl in
        let fits : field (add_receiver rs s) + sum field (of_receivers stats) < u64_mod =
          omega (arith, lt, old, adds rs s) in
        let (ss', e, c) =
          run-receiver stats (record ss { receiver = some (add_receiver rs s) }) h fits in
        rw (n, run, apply_to) (ss', e, omega (arith, c, lt, adds rs s, old))
  ]

-- The messages and the disposed ones that the receiver has sent to the monitor are what it shows.
pub run-receivers :
    (stats : List Stat) (ss : Stats)
    → InRange (length ss.servers) stats
    → shown (λ s. s.messages) ss.receiver + sum (λ s. s.messages) (of_receivers stats) < u64_mod
    → shown (λ s. s.disposed) ss.receiver + sum (λ s. s.disposed) (of_receivers stats) < u64_mod
    → (ss' : Stats) × (run stats ss ≡ some ss')
      × (shown (λ s. s.messages) ss'.receiver
          ≡ shown (λ s. s.messages) ss.receiver + sum (λ s. s.messages) (of_receivers stats))
      × (shown (λ s. s.disposed) ss'.receiver
          ≡ shown (λ s. s.disposed) ss.receiver + sum (λ s. s.disposed) (of_receivers stats))
unfolding add_receiver
run-receivers stats ss h a b =
    let (s₁, e₁, c₁) = run-receiver (λ s. s.messages) (λ x y. refl) stats ss h a in
    let (s₂, e₂, c₂) = run-receiver (λ s. s.disposed) (λ x y. refl) stats ss h b in
    let p : s₂ ≡ s₁ = cc in (s₁, e₁, c₁, rw p at c₂)

-- The receiver is known, or its first statistic has no connection yet.
abbrev pub Quiet : Option ReceiverStat → List ReceiverStat → Type 0
Quiet (some r) stats = r.current_connections < u64_mod
Quiet none [] = Unit
Quiet none (s ∷ stats) = (s.connections ≡ 0) × (s.current_connections ≡ 0)

-- The current connections that the monitor shows are, in int64, the sum of what was sent of them.
pub run-connections :
    (stats : List Stat) (ss : Stats)
    → InRange (length ss.servers) stats
    → Quiet ss.receiver (of_receivers stats)
    → (ss' : Stats) × (run stats ss ≡ some ss')
      × (shown (λ s. s.current_connections) ss'.receiver
          ≡ (shown (λ s. s.current_connections) ss.receiver
              + sum (λ s. s.connections) (of_receivers stats))
            % u64_mod)
unfolding run apply_to add_receiver
run-connections [] ss h q = (ss, refl, base ss.receiver q)
  where
    base :
        (r : Option ReceiverStat)
        → Quiet r []
        → shown (λ s. s.current_connections) r
          ≡ (shown (λ s. s.current_connections) r + 0) % u64_mod
    base none q = refl
    base (some r) q = omega arith
run-connections (of_file s ∷ stats) ss h q = run-connections stats _ h q
run-connections (of_server s ∷ stats) ss (i, h) q =
    let servers' = set ss.servers s.index (some s) in
    let h' : InRange (length servers') stats =
      subst (λ n. InRange n stats) (sym (length-set ss.servers s.index (some s))) h in
    rw (ltb_of_lt s.index (length ss.servers) i, run, apply_to)
      (run-connections stats (record ss { servers = servers' }) h' q)
run-connections (of_sent s ∷ stats) ss h q =
    run-connections stats (record ss { sent = apply_sent s ss.sent }) h q
run-connections (of_receiver s ∷ stats) ss h q = elim (Option-cases ss.receiver) [
  | inl n ↦
      let (none_yet, none_there) = subst (λ r. Quiet r (s ∷ of_receivers stats)) n q in
      let (ss', e, c) =
        run-connections stats (record ss { receiver = some s }) h (omega (arith, none_there)) in
      rw (n, run, apply_to) (ss', e, omega (arith, c, none_yet, none_there))
  | inr (rs, n) ↦
      let known = subst (λ r. Quiet r (s ∷ of_receivers stats)) n q in
      let (ss', e, c) =
        run-connections stats (record ss { receiver = some (add_receiver rs s) }) h (omega arith) in
      rw (n, run, apply_to) (ss', e, omega (arith, c, known))
]
