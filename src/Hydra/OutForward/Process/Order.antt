-- ===== src/Hydra/OutForward/Process/Order.antt =====
-- hydra/out_forward.go: what `Run` tells the monitor that it has sent.
use fluent_agent_hydra.Prelude.{
  ◌≡◌, refl, ap, Bool, true, false, ℕ, Option-cases, inl, inr, Option, none, some, List, [], ◌∷◌,
  ◌++◌, length, Bytes,
}
use fluent_agent_hydra.Fluent.Record.{FluentRecordSet, record_count}
use fluent_agent_hydra.Fluent.Value.{Value}
use fluent_agent_hydra.Fluent.Pack.{pack_as_packed_forward}
use fluent_agent_hydra.Fluent.Client.{Client}
use fluent_agent_hydra.Hydra.OutForward.{
  OutForward, SentStat, Round, Result, delivered, pack_failed, panicked, waiting, order,
  try_loggers, rounds, out_forward_receive,
}
use fluent_agent_hydra.Hydra.OutForward.Process.{Ended, stopped, receiving, go_on, run}

-- What is told of a delivery is the statistic of the record set.
abbrev Tells : SentStat → Result → Type 0
Tells stat (delivered i told) = told ≡ stat
Tells stat pack_failed = ⊥
Tells stat _ = Unit

rounds-Tells :
    (stat : SentStat) (rs : List Round) (s : OutForward) → Tells stat (rounds stat rs s).1
unfolding rounds
rounds-Tells stat [] s = tt
rounds-Tells stat (r ∷ rs) s =
    let s₁ : OutForward = record s { loggers = r.meanwhile s.loggers } in
    elim (Option-cases (order s₁)) [
      | inl e ↦ rw (e, Tells, rounds) tt
      | inr (is, e) ↦ elim (Option-cases (try_loggers r.net is s₁).1) [
        | inl n ↦ rw (e, Tells, rounds, n) (rounds-Tells stat rs (try_loggers r.net is s₁).0)
        | inr (i, n) ↦ rw (e, Tells, rounds, n) refl
      ]
    ]

-- What is still to be told when `Run` ends: nothing when it was shut down or waits for more.
abbrev pub Untold : Ended → List SentStat → Type 0
Untold stopped rest = rest ≡ []
Untold receiving rest = rest ≡ []
Untold _ rest = Unit

-- What there is to tell of a record set that was packed, before that of the others.
abbrev pub of_packed : FluentRecordSet → Option Bytes → List SentStat → List SentStat
of_packed rs none stats = stats
of_packed rs (some packed) stats =
    record { tag = rs.tag; messages = record_count rs; bytes = length packed; sents = 1 } ∷ stats

-- What was told and the rest make up what there is to tell.
abbrev pub Told : List SentStat → OutForward × List SentStat × Ended → Type 0
Told expected (s, stats, ended) =
    (rest : List SentStat) × (stats ++ rest ≡ expected) × Untold ended rest

module _ (write_msgpack : Value → Option Bytes) (enable_event_time : Bool) where
  -- The statistics of the record sets that can be packed.
  abbrev pub sent_stats : List (FluentRecordSet × List Round) → List SentStat
  sent_stats [] = []
  sent_stats ((rs, rounds) ∷ sets) =
      of_packed rs (pack_as_packed_forward write_msgpack enable_event_time rs) (sent_stats sets)

  go_on-Told :
      (continue : OutForward → OutForward × List SentStat × Ended) (expected : List SentStat)
      (stat : SentStat) (s : OutForward) (result : Result)
      → Tells stat result
      → ((s' : OutForward) → Told expected (continue s'))
      → Told (stat ∷ expected) (go_on continue (s, result))
  go_on-Told continue expected stat s (delivered i told) same told_rest =
      let (rest, e, u) = told_rest s in (rest, rw same (ap (λ l. stat ∷ l) e), u)
  go_on-Told continue expected stat s pack_failed same told_rest = absurd same
  go_on-Told continue expected stat s panicked same told_rest = (stat ∷ expected, refl, tt)
  go_on-Told continue expected stat s waiting same told_rest = (stat ∷ expected, refl, tt)

  receive-Told :
      (continue : OutForward → OutForward × List SentStat × Ended) (expected : List SentStat)
      (rs : FluentRecordSet) (packed : Option Bytes) (rounds_left : List Round) (s : OutForward)
      → ((s' : OutForward) → Told expected (continue s'))
      → Told
          (of_packed rs packed expected)
          (go_on continue (out_forward_receive rs packed rounds_left s))
  unfolding out_forward_receive
  receive-Told continue expected rs none rounds_left s told = told s
  receive-Told continue expected rs (some packed) rounds_left s told =
      let stat : SentStat = record {
        tag = rs.tag;
        messages = record_count rs;
        bytes = length packed;
        sents = 1;
      } in
      let result = rounds stat rounds_left s in
      go_on-Told continue expected stat result.0 result.1 (rounds-Tells stat rounds_left s) told

  -- Whatever the network does, what `Run` tells the monitor is the statistics of the record sets
  -- that can be packed, in the order in which they came, each once, none left out, up to the one
  -- for which it still sleeps or panicked; it is all of them when it waits for more or was shut
  -- down.
  pub run-Told :
      (meanwhile : ℕ → List Client → List Client) (sets : List (FluentRecordSet × List Round))
      (closed : Bool) (s : OutForward)
      → Told (sent_stats sets) (run write_msgpack enable_event_time meanwhile sets closed s)
  unfolding run
  run-Told meanwhile [] true s = ([], refl, refl)
  run-Told meanwhile [] false s = ([], refl, refl)
  run-Told meanwhile ((rs, rounds_left) ∷ sets) closed s =
      receive-Told (run write_msgpack enable_event_time meanwhile sets closed) (sent_stats sets) rs
        (pack_as_packed_forward write_msgpack enable_event_time rs) rounds_left s
        (run-Told meanwhile sets closed)
