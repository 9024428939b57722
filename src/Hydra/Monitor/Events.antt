-- ===== src/Hydra/Monitor/Events.antt =====
-- hydra/monitor.go: what comes to the statistics of the monitor, in the order in which it comes.
use fluent_agent_hydra.Prelude.{
  ℕ, ◌+◌, ◌≡◌, refl, ap, subst, inl, inr, Option, none, some, List, [], ◌∷◌, ◌++◌, Bytes,
  Option-cases, Bool-cases, length, ltb, set,
}
use fluent_agent_hydra.Prelude.Dict
use fluent_agent_hydra.Hydra.Tail.{FileStat}
use fluent_agent_hydra.Hydra.Monitor.{
  Stats, Stat, ReceiverStat, of_file, of_server, of_sent, of_receiver, apply_to, run, apply_sent,
  add_receiver,
}
use fluent_agent_hydra.Hydra.Monitor.Totals.{InRange}

-- A statistic is applied; a tailing goroutine changes the `FileStat` whose pointer it has sent; or
-- a page is asked for, which sees `seen` of the receiver, as far as `ApplyTo` got with it.
pub data Event : Type 0 where
  applies : Stat → Event
  changes : FileStat → Event
  requests : (path : Bytes) → (seen : Option ReceiverStat) → Event

-- `UpdateStat` on the pointer that the map holds under the name of the file, if it is there yet.
unfoldable pub change_file : FileStat → Stats → Stats
change_file f ss = elim (Dict.lookup f.file ss.files) [
  | none ↦ ss
  | some old ↦ record ss { files = Dict.insert f.file f ss.files }
]

-- The statistics among the events, and the number of the requests.
abbrev pub stats_of : List Event → List Stat
stats_of [] = []
stats_of (applies s ∷ events) = s ∷ stats_of events
stats_of (changes f ∷ events) = stats_of events
stats_of (requests path seen ∷ events) = stats_of events

abbrev pub request_count : List Event → ℕ
request_count [] = 0
request_count (applies s ∷ events) = request_count events
request_count (changes f ∷ events) = request_count events
request_count (requests path seen ∷ events) = 1 + request_count events

-- What the events leave, without the pages.
unfoldable pub run_events : List Event → Stats → Option Stats
run_events [] ss = some ss
run_events (applies s ∷ events) ss = elim (apply_to s ss) [
  | none ↦ none
  | some ss' ↦ run_events events ss'
]
run_events (changes f ∷ events) ss = run_events events (change_file f ss)
run_events (requests path seen ∷ events) ss = run_events events ss

-- The same but for the files.
abbrev pub IsAlike : Stats → Stats → Type 0
IsAlike a b = (a.sent ≡ b.sent) × (a.servers ≡ b.servers) × (a.receiver ≡ b.receiver)

change_file-IsAlike : (f : FileStat) (a b : Stats) → IsAlike a b → IsAlike (change_file f a) b
unfolding change_file
change_file-IsAlike f a b h = elim (Option-cases (Dict.lookup f.file a.files)) [
  | inl e ↦ rw (change_file, e) h
  | inr (old, e) ↦ rw (change_file, e) h
]

apply_to-IsAlike :
    (s : Stat) (a b b' : Stats)
    → IsAlike a b
    → apply_to s b ≡ some b'
    → (a' : Stats) × (apply_to s a ≡ some a') × IsAlike a' b'
unfolding apply_to
apply_to-IsAlike (of_file s) a b b' (h, k, l) e =
    let same : record b { files = Dict.insert s.file s b.files } ≡ b' = cc in
    (_, refl, subst (IsAlike (record a { files = Dict.insert s.file s a.files })) same (h, k, l))
apply_to-IsAlike (of_server s) a b b' (h, k, l) e =
    elim (Bool-cases (ltb s.index (length b.servers))) [
      | inl c ↦
          let applied : ◌≡◌ {A = Option Stats}
              (some (record b { servers = set b.servers s.index (some s) })) (some b') =
            rw c at e in
          let same : record b { servers = set b.servers s.index (some s) } ≡ b' = cc in
          (
            record a { servers = set a.servers s.index (some s) },
            rw (k, c) refl,
            subst (IsAlike (record a { servers = set a.servers s.index (some s) })) same
                (h, ap (λ v. set v s.index (some s)) k, l),
          )
      | inr c ↦ let panicked : ◌≡◌ {A = Option Stats} none (some b') = rw c at e in cc
    ]
apply_to-IsAlike (of_sent s) a b b' (h, k, l) e =
    let same : record b { sent = apply_sent s b.sent } ≡ b' = cc in
    (
      _,
      refl,
      subst (IsAlike (record a { sent = apply_sent s a.sent })) same (ap (apply_sent s) h, k, l),
    )
apply_to-IsAlike (of_receiver s) a b b' (h, k, l) e = elim (Option-cases b.receiver) [
  | inl n ↦
      let applied : ◌≡◌ {A = Option Stats} (some (record b { receiver = some s })) (some b') =
        rw n at e in
      let same : record b { receiver = some s } ≡ b' = cc in
      (
        record a { receiver = some s },
        rw (l, n) refl,
        subst (IsAlike (record a { receiver = some s })) same (h, k, refl),
      )
  | inr (rs, n) ↦
      let applied : ◌≡◌ {A = Option Stats} (some (record b { receiver = some (add_receiver rs s) }))
          (some b') =
        rw n at e in
      let same : record b { receiver = some (add_receiver rs s) } ≡ b' = cc in
      (
        record a { receiver = some (add_receiver rs s) },
        rw (l, n) refl,
        subst (IsAlike (record a { receiver = some (add_receiver rs s) })) same (h, k, refl),
      )
]

-- But for the files the events leave what their statistics do.
pub run_events-IsAlike :
    (events : List Event) (a b b' : Stats)
    → IsAlike a b
    → run (stats_of events) b ≡ some b'
    → (a' : Stats) × (run_events events a ≡ some a') × IsAlike a' b'
unfolding run_events run
run_events-IsAlike [] a b b' h e = let same : b ≡ b' = cc in (a, refl, subst (IsAlike a) same h)
run_events-IsAlike (applies s ∷ events) a b b' h e = elim (Option-cases (apply_to s b)) [
  | inl n ↦ let panicked : ◌≡◌ {A = Option Stats} none (some b') = rw (run, n) at e in cc
  | inr (b₁, n) ↦
      let (a₁, first, alike) = apply_to-IsAlike s a b b₁ h n in
      let (a', rest, same) = run_events-IsAlike events a₁ b₁ b' alike (rw (run, n) at e) in
      (a', rw (first, run_events) rest, same)
]
run_events-IsAlike (changes f ∷ events) a b b' h e =
    run_events-IsAlike events (change_file f a) b b' (change_file-IsAlike f a b h) e
run_events-IsAlike (requests path seen ∷ events) a b b' h e = run_events-IsAlike events a b b' h e

pub run_events-append :
    (before after : List Event) (ss last : Stats)
    → run_events (before ++ after) ss ≡ some last
    → (mid : Stats) × (run_events before ss ≡ some mid) × (run_events after mid ≡ some last)
unfolding run_events
run_events-append [] after ss last h = (ss, refl, h)
run_events-append (applies s ∷ before) after ss last h = elim (Option-cases (apply_to s ss)) [
  | inl e ↦ let panicked : ◌≡◌ {A = Option Stats} none (some last) = rw (run_events, e) at h in cc
  | inr (ss', e) ↦
      let (mid, first, rest) = run_events-append before after ss' last (rw (run_events, e) at h) in
      (mid, rw (e, run_events) first, rest)
]
run_events-append (changes f ∷ before) after ss last h =
    run_events-append before after (change_file f ss) last h
run_events-append (requests path seen ∷ before) after ss last h =
    run_events-append before after ss last h

pub stats_of-append :
    (before after : List Event) → stats_of (before ++ after) ≡ stats_of before ++ stats_of after
stats_of-append [] after = refl
stats_of-append (applies s ∷ before) after = ap (λ stats. s ∷ stats) (stats_of-append before after)
stats_of-append (changes f ∷ before) after = stats_of-append before after
stats_of-append (requests path seen ∷ before) after = stats_of-append before after

pub InRange-first :
    (n : ℕ) (before after : List Stat) → InRange n (before ++ after) → InRange n before
InRange-first n [] after h = tt
InRange-first n (of_file s ∷ before) after h = InRange-first n before after h
InRange-first n (of_server s ∷ before) after (i, h) = (i, InRange-first n before after h)
InRange-first n (of_sent s ∷ before) after h = InRange-first n before after h
InRange-first n (of_receiver s ∷ before) after h = InRange-first n before after h
