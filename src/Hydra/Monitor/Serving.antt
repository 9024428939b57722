-- ===== src/Hydra/Monitor/Serving.antt =====
-- hydra/monitor.go: the pages of the monitor, while statistics come in. What encoding/json writes
-- of the statistics and what the handler of golang-stats-api-handler answers are parameters.
-- `Stats.Run` applies the statistics one after the other. The handler holds the lock of the
-- statistics while it writes a page; `SentStat`, `FileStat` and `ServerStat` take it to change
-- them, `ReceiverStat` does not, and the tailing goroutines change a `FileStat` whose pointer the
-- map holds.
use fluent_agent_hydra.Prelude.{
  ◌<◌, ◌≡◌, refl, ap, ◌∙◌, subst, inl, inr, Bool, true, false, Option, none, some, List, [], ◌∷◌,
  ◌++◌, Bytes, codes, bytes_eq, if◌then◌else◌, Option-cases, arith, length, u64_mod, append-nil,
  sym,
}
use fluent_agent_hydra.Prelude.Dict
use fluent_agent_hydra.Hydra.Monitor.{Stats, ReceiverStat, apply_to}
use fluent_agent_hydra.Hydra.Monitor.Events.{
  Event, applies, changes, requests, change_file, stats_of, request_count, run_events,
  run_events-IsAlike, run_events-append, stats_of-append, InRange-first,
}
use fluent_agent_hydra.Hydra.Monitor.Totals.{counter, expected, InRange, run-sums, run-last_file}

pub record Response : Type 0 where
  pub content_type : Option Bytes
  pub body : Bytes

module _ (json : Stats → Bytes) (system : Response) where
  unfoldable pub write_json : Stats → Response → Response
  write_json ss w = record w { body = w.body ++ json ss }

  -- The handlers of "/" and "/system"; the first is also that of every other path.
  unfoldable pub answer : Bytes → Stats → Response
  unfolding write_json
  answer path ss =
      if bytes_eq path (codes "/system")
      then system
      else write_json ss (record { content_type = some (codes "application/json"); body = [] })

  -- `Monitor.Run`: the pages are served if the monitor listens. `none` is a panic of `ApplyTo`.
  unfoldable pub monitor_run : Bool → List Event → Stats → Option (Stats × List Response)
  unfolding answer change_file
  monitor_run listens [] ss = some (ss, [])
  monitor_run listens (applies s ∷ events) ss = elim (apply_to s ss) [
    | none ↦ none
    | some ss' ↦ monitor_run listens events ss'
  ]
  monitor_run listens (changes f ∷ events) ss = monitor_run listens events (change_file f ss)
  monitor_run listens (requests path seen ∷ events) ss = elim (monitor_run listens events ss) [
    | none ↦ none
    | some (last, pages) ↦
        some (
          last,
          (if listens then answer path (record ss { receiver = seen }) ∷ [] else []) ++ pages,
        )
  ]

  -- What comes first leaves what it leaves without the pages, and a page for each request.
  monitor_run-append :
      (before events : List Event) (ss mid last : Stats) (pages : List Response)
      → run_events before ss ≡ some mid
      → monitor_run true events mid ≡ some (last, pages)
      → (earlier : List Response) × (monitor_run true (before ++ events) ss
          ≡ some (last, earlier ++ pages))
        × (length earlier ≡ request_count before)
  unfolding monitor_run run_events
  monitor_run-append [] events ss mid last pages h h' =
      let same : ss ≡ mid = cc in ([], ap (monitor_run true events) same ∙ h', refl)
  monitor_run-append (applies s ∷ before) events ss mid last pages h h' =
      elim (Option-cases (apply_to s ss)) [
        | inl e ↦
            let panicked : ◌≡◌ {A = Option Stats} none (some mid) = rw (run_events, e) at h in cc
        | inr (ss', e) ↦
            let (earlier, went, n) =
              monitor_run-append before events ss' mid last pages (rw (run_events, e) at h) h' in
            (earlier, rw (e, monitor_run) went, n)
      ]
  monitor_run-append (changes f ∷ before) events ss mid last pages h h' =
      monitor_run-append before events (change_file f ss) mid last pages h h'
  monitor_run-append (requests path seen ∷ before) events ss mid last pages h h' =
      let (earlier, went, n) = monitor_run-append before events ss mid last pages h h' in
      (
        answer path (record ss { receiver = seen }) ∷ earlier,
        rw (went, monitor_run) refl,
        omega (arith, n),
      )

  monitor_run-pages :
      (events : List Event) (ss last : Stats)
      → run_events events ss ≡ some last
      → (pages : List Response) × (monitor_run true events ss ≡ some (last, pages))
        × (length pages ≡ request_count events)
  unfolding monitor_run
  monitor_run-pages events ss last h =
      let (pages, went, n) = monitor_run-append events [] ss last last [] h refl in
      (pages, rw (append-nil events, append-nil pages) at went, n)

-- A request for a page other than "/system", anywhere among the statistics, the other requests and
-- the changes that tailing goroutines make of a shared `FileStat`: if every server statistic has the
-- index of a server and no counter of a tag reaches 2 ^ 64 before the request, the monitor answers
-- each request in turn, and this one with the JSON of statistics in which the three counters of
-- the tag are the sums of what came in for it before.
pub monitor_run-page :
    (json : Stats → Bytes) (system : Response) (before after : List Event) (path tag : Bytes)
    (seen : Option ReceiverStat) (ss : Stats)
    → InRange (length ss.servers) (stats_of (before ++ after))
    → bytes_eq path (codes "/system") ≡ false
    → expected (λ r. r.messages) tag (stats_of before) ss < u64_mod
    → expected (λ r. r.bytes) tag (stats_of before) ss < u64_mod
    → expected (λ r. r.sents) tag (stats_of before) ss < u64_mod
    → (shown : Stats) × (last : Stats) × (earlier : List Response) × (later : List Response)
      × (monitor_run json system true (before ++ (requests path seen ∷ after)) ss
          ≡ some (
            last,
            earlier
                ++ (record { content_type = some (codes "application/json"); body = json shown }
                    ∷ later),
          ))
      × (length earlier ≡ request_count before)
      × (length later ≡ request_count after)
      × (counter (λ r. r.messages) (Dict.lookup tag shown.sent)
          ≡ expected (λ r. r.messages) tag (stats_of before) ss)
      × (counter (λ r. r.bytes) (Dict.lookup tag shown.sent)
          ≡ expected (λ r. r.bytes) tag (stats_of before) ss)
      × (counter (λ r. r.sents) (Dict.lookup tag shown.sent)
          ≡ expected (λ r. r.sents) tag (stats_of before) ss)
unfolding monitor_run answer write_json
monitor_run-page json system before after path tag seen ss range page m b n =
    let both = subst (InRange (length ss.servers)) (stats_of-append before after) range in
    let (end, all, _) = run-last_file [] (stats_of (before ++ after)) ss range in
    let (last, whole_run, _) =
      run_events-IsAlike (before ++ after) ss ss end (refl, refl, refl) all in
    let (mid, first, rest) = run_events-append before after ss last whole_run in
    let in_first = InRange-first (length ss.servers) (stats_of before) (stats_of after) both in
    let (s₁, e₁, c₁, c₂, c₃) = run-sums tag (stats_of before) ss in_first m b n in
    let (a₁, f₁, (sent, _, _)) = run_events-IsAlike before ss ss s₁ (refl, refl, refl) e₁ in
    let p : a₁ ≡ mid = cc in
    let q : s₁.sent ≡ mid.sent = sym sent ∙ ap (λ v. v.sent) p in
    let (later, behind, count) = monitor_run-pages json system after mid last rest in
    let shown : Stats = record mid { receiver = seen } in
    let this : Response = record {
      content_type = some (codes "application/json");
      body = json shown;
    } in
    let answered : monitor_run json system true (requests path seen ∷ after) mid
        ≡ some (last, this ∷ later) =
      rw (behind, monitor_run, page) refl in
    let (earlier, whole, turn) =
      monitor_run-append json system before (requests path seen ∷ after) ss mid last (this ∷ later)
        first answered in
    (shown, last, earlier, later, whole, turn, count, rw q at c₁, rw q at c₂, rw q at c₃)
