-- ===== src/Hydra/Monitor/Totals.antt =====
-- hydra/monitor.go: what the statistics are after a run.
use fluent_agent_hydra.Prelude.{
  subst, sym, ℕ, ◌+◌, ◌<◌, Option, none, some, List, [], ◌∷◌, ◌≡◌, refl, Bytes, bytes_eq,
  bytes_eq_iff, ltb_of_lt, arith, Bool-cases, Option-cases, inl, inr, if◌then◌else◌, length, set,
  length-set, add64, u64_mod,
}
use fluent_agent_hydra.Prelude.Dict
use fluent_agent_hydra.Prelude.Dict.{lookup-insert}
use fluent_agent_hydra.Hydra.Tail.{FileStat}
use fluent_agent_hydra.Hydra.OutForward.{SentStat}
use fluent_agent_hydra.Hydra.Monitor.{
  Stats, Stat, of_file, of_server, of_sent, of_receiver, add_sent, add_receiver, apply_sent,
  apply_to, run,
}

-- A counter that is kept under a tag, 0 if there is none.
abbrev pub counter : (SentStat → ℕ) → Option SentStat → ℕ
counter field none = 0
counter field (some s) = field s

-- What the statistics of the tag add up to.
abbrev pub sum : (SentStat → ℕ) → Bytes → List Stat → ℕ
sum field tag [] = 0
sum field tag (of_sent s ∷ stats) =
    (if bytes_eq s.tag tag then field s else 0) + sum field tag stats
sum field tag (_ ∷ stats) = sum field tag stats

-- The last statistic of the file.
abbrev pub last_file : Bytes → List Stat → Option FileStat → Option FileStat
last_file path [] found = found
last_file path (of_file s ∷ stats) found =
    last_file path stats (if bytes_eq s.file path then some s else found)
last_file path (_ ∷ stats) found = last_file path stats found

-- Each server statistic has the index of one of `n` servers.
abbrev pub InRange : ℕ → List Stat → Type 0
InRange n [] = Unit {0}
InRange n (of_server s ∷ stats) = (s.index < n) × InRange n stats
InRange n (_ ∷ stats) = InRange n stats

module _ (field : SentStat → ℕ)
    (adds : (a b : SentStat) → field (add_sent a b) ≡ add64 (field a) (field b)) where
  -- What one statistic adds under a tag.
  counter-apply_sent :
      (tag : Bytes) (s : SentStat) (m : List (Bytes × SentStat))
      → counter field (Dict.lookup tag m) + (if bytes_eq s.tag tag then field s else 0) < u64_mod
      → counter field (Dict.lookup tag (apply_sent s m))
        ≡ counter field (Dict.lookup tag m) + (if bytes_eq s.tag tag then field s else 0)
  unfolding apply_sent
  counter-apply_sent tag s m lt = elim (Option-cases (Dict.lookup s.tag m)) [
    | inl n ↦ elim (Bool-cases (bytes_eq s.tag tag)) [
      | inl e ↦
          let same : s.tag ≡ tag = (bytes_eq_iff s.tag tag).0 e in
          let n' : Dict.lookup tag m ≡ none = rw same at n in
          rw (n, apply_sent, lookup-insert s.tag tag s m, e, n') (omega arith)
      | inr e ↦ rw (n, apply_sent, lookup-insert s.tag tag s m, e) (omega arith)
    ]
    | inr (old, n) ↦ elim (Bool-cases (bytes_eq s.tag tag)) [
      | inl e ↦
          let same : s.tag ≡ tag = (bytes_eq_iff s.tag tag).0 e in
          let n' : Dict.lookup tag m ≡ some old = rw same at n in
          let fits : field old + field s < u64_mod = rw (e, n') at lt in
          rw (n, apply_sent, lookup-insert s.tag tag (add_sent old s) m, e, n')
            (omega (arith, adds old s))
      | inr e ↦ rw (n, apply_sent, lookup-insert s.tag tag (add_sent old s) m, e) (omega arith)
    ]
  ]

  run-sum :
      (tag : Bytes) (stats : List Stat) (ss : Stats)
      → InRange (length ss.servers) stats
      → counter field (Dict.lookup tag ss.sent) + sum field tag stats < u64_mod
      → (ss' : Stats) × (run stats ss ≡ some ss')
        × (counter field (Dict.lookup tag ss'.sent)
            ≡ counter field (Dict.lookup tag ss.sent) + sum field tag stats)
  unfolding run apply_to
  run-sum tag [] ss h lt = (ss, refl, omega arith)
  run-sum tag (of_file s ∷ stats) ss h lt = run-sum tag stats _ h lt
  run-sum tag (of_server s ∷ stats) ss (i, h) lt =
      let servers' = set ss.servers s.index (some s) in
      let h' : InRange (length servers') stats =
        subst (λ n. InRange n stats) (sym (length-set ss.servers s.index (some s))) h in
      rw (ltb_of_lt s.index (length ss.servers) i, run, apply_to)
        (run-sum tag stats (record ss { servers = servers' }) h' lt)
  run-sum tag (of_sent s ∷ stats) ss h lt =
      let step = counter-apply_sent tag s ss.sent (omega arith) in
      let (ss', e, c) =
        run-sum tag stats (record ss { sent = apply_sent s ss.sent }) h (omega (arith, step)) in
      (ss', e, omega (arith, step, c))
  run-sum tag (of_receiver s ∷ stats) ss h lt = elim (Option-cases ss.receiver) [
    | inl n ↦ rw (n, run, apply_to) (run-sum tag stats (record ss { receiver = some s }) h lt)
    | inr (rs, n) ↦
        rw (n, run, apply_to)
          (run-sum tag stats (record ss { receiver = some (add_receiver rs s) }) h lt)
  ]

-- A counter of a tag as it will be when the statistics have come in.
abbrev pub expected : (SentStat → ℕ) → Bytes → List Stat → Stats → ℕ
expected field tag stats ss = counter field (Dict.lookup tag ss.sent) + sum field tag stats

-- If every server statistic has the index of a server and no counter reaches 2 ^ 64, no
-- statistic makes the monitor panic, and afterwards each of the three counters of a tag is what
-- it was before and the sum of what came in for the tag.
pub run-sums :
    (tag : Bytes) (stats : List Stat) (ss : Stats)
    → InRange (length ss.servers) stats
    → expected (λ r. r.messages) tag stats ss < u64_mod
    → expected (λ r. r.bytes) tag stats ss < u64_mod
    → expected (λ r. r.sents) tag stats ss < u64_mod
    → (ss' : Stats) × (run stats ss ≡ some ss')
      × (counter (λ r. r.messages) (Dict.lookup tag ss'.sent)
          ≡ expected (λ r. r.messages) tag stats ss)
      × (counter (λ r. r.bytes) (Dict.lookup tag ss'.sent) ≡ expected (λ r. r.bytes) tag stats ss)
      × (counter (λ r. r.sents) (Dict.lookup tag ss'.sent) ≡ expected (λ r. r.sents) tag stats ss)
unfolding add_sent
run-sums tag stats ss h a b c =
    let (s₁, e₁, c₁) = run-sum (λ r. r.messages) (λ x y. refl) tag stats ss h a in
    let (s₂, e₂, c₂) = run-sum (λ r. r.bytes) (λ x y. refl) tag stats ss h b in
    let (s₃, e₃, c₃) = run-sum (λ r. r.sents) (λ x y. refl) tag stats ss h c in
    let p : s₂ ≡ s₁ = cc in let q : s₃ ≡ s₁ = cc in (s₁, e₁, c₁, rw p at c₂, rw q at c₃)

-- If every server statistic has the index of a server, no statistic makes the monitor panic,
-- and afterwards it has for each file the last statistic of it that came in, or else what it
-- had before.
pub run-last_file :
    (path : Bytes) (stats : List Stat) (ss : Stats)
    → InRange (length ss.servers) stats
    → (ss' : Stats) × (run stats ss ≡ some ss')
      × (Dict.lookup path ss'.files ≡ last_file path stats (Dict.lookup path ss.files))
unfolding run apply_to
run-last_file path [] ss h = (ss, refl, refl)
run-last_file path (of_file s ∷ stats) ss h =
    let (ss', e, c) =
      run-last_file path stats (record ss { files = Dict.insert s.file s ss.files }) h in
    (ss', e, rw (lookup-insert s.file path s ss.files) at c)
run-last_file path (of_server s ∷ stats) ss (i, h) =
    let servers' = set ss.servers s.index (some s) in
    let h' : InRange (length servers') stats =
      subst (λ n. InRange n stats) (sym (length-set ss.servers s.index (some s))) h in
    rw (ltb_of_lt s.index (length ss.servers) i, run, apply_to)
      (run-last_file path stats (record ss { servers = servers' }) h')
run-last_file path (of_sent s ∷ stats) ss h =
    run-last_file path stats (record ss { sent = apply_sent s ss.sent }) h
run-last_file path (of_receiver s ∷ stats) ss h = elim (Option-cases ss.receiver) [
  | inl n ↦ rw (n, run, apply_to) (run-last_file path stats (record ss { receiver = some s }) h)
  | inr (rs, n) ↦
      rw (n, run, apply_to)
        (run-last_file path stats (record ss { receiver = some (add_receiver rs s) }) h)
]
