-- ===== src/TailF/Turns.antt =====
-- cmd/tail-f/main.go and hydra/in_tail.go: what is sent of a file that is followed prints as its
-- lines, over all of its turns.
use fluent_agent_hydra.Prelude.{
  if◌then◌else◌, lt64, ℕ, ◌+◌, ◌≡◌, inl, inr, Bool, true, false, Option, none, some, List, [], ◌∷◌,
  Option-cases, Bool-cases, subst, ◌||◌, ltb,
}
use fluent_agent_hydra.Hydra.Format.{Library}
use fluent_agent_hydra.Hydra.Records.{JsonUnmarshal}
use fluent_agent_hydra.Hydra.Tail.{seek_head, FileStat, File, stat, Event, restrict, new_file}
use fluent_agent_hydra.Hydra.InTail.{
  tail_interval, open_problem, InTail, Attempt, opens, fails, Trail, trailing, shut_down, retrying,
  new_trail_file, Wake, control, event, timer, Turn, Watched, again, signalled, broken, crashed,
  poll, close_file, watch_file_event, follow, Running, with_trail, resume,
}
use fluent_agent_hydra.TailF.Raw.{AllRaw, AllRaw-append, IsPlain, PlainFile, tail_and_send-AllRaw}

module _ (lib : Library) (unmarshal : JsonUnmarshal) where
  -- Everything that a call of `watchFileEvent` leaves behind and sends.
  abbrev StaysRaw : InTail × File × List Event × Watched → Type 0
  StaysRaw (t, f, events, watched) = IsPlain t × PlainFile f × AllRaw events

  if-StaysRaw :
      (b : Bool) (x y : InTail × File × List Event × Watched)
      → StaysRaw x
      → StaysRaw y
      → StaysRaw (if b then x else y)
  if-StaysRaw true x y h h' = h
  if-StaysRaw false x y h h' = h'

  restrict-PlainFile :
      (f f' : File) (size : Option ℕ) → PlainFile f → restrict f size ≡ some f' → PlainFile f'
  unfolding restrict
  restrict-PlainFile f f' none h e = cc
  restrict-PlainFile f f' (some size) h e = elim (Bool-cases (lt64 size f.position)) [
    | inl e' ↦
        let moved : some (record f { position = 0 }) ≡ some f' = rw (restrict, e') at e in
        let same : record f { position = 0 } ≡ f' = cc in subst PlainFile same h
    | inr e' ↦
        let kept : some f ≡ some f' = rw (restrict, e') at e in
        let same : f ≡ f' = cc in subst PlainFile same h
  ]

  poll-StaysRaw :
      (t : InTail) (f : File) (turn : Turn)
      → IsPlain t
      → PlainFile f
      → StaysRaw (poll lib unmarshal t f turn)
  unfolding poll
  poll-StaysRaw t f turn p h = elim (Option-cases (restrict f turn.size)) [
    | inl e ↦ rw (e, poll) (p, h, tt)
    | inr (f', e) ↦
        let h' = restrict-PlainFile f f' turn.size h e in
        let (h'', raw) = tail_and_send-AllRaw lib unmarshal turn.reads f' h' in
        rw (e, poll)
          (if-StaysRaw (ltb turn.now (t.last_read_at + tail_interval)) _ _ (p, h', tt)
            (p, h'', raw))
  ]

  close_file-StaysRaw :
      (t : InTail) (f : File) (turn : Turn)
      → IsPlain t
      → PlainFile f
      → StaysRaw (close_file lib unmarshal t f turn)
  unfolding close_file
  close_file-StaysRaw t f turn p h =
      let (h', raw) = tail_and_send-AllRaw lib unmarshal turn.reads f h in (p, h', raw)

  watch_file_event-StaysRaw :
      (t : InTail) (f : File) (turn : Turn) (wake : Wake)
      → IsPlain t
      → PlainFile f
      → StaysRaw (watch_file_event lib unmarshal t f turn wake)
  unfolding watch_file_event
  watch_file_event-StaysRaw t f turn control p h = (p, h, tt)
  watch_file_event-StaysRaw t f turn timer p h = poll-StaysRaw t f turn p h
  watch_file_event-StaysRaw t f turn (event op) p h =
      let polled = poll-StaysRaw t f turn p h in
      let closed = close_file-StaysRaw t f turn p h in
      if-StaysRaw op.write _ _ polled (
        if-StaysRaw (op.remove || op.rename) _ _ closed
          (if-StaysRaw op.create _ _ (p, h, tt) polled))

  with_trail-stat :
      (continue : File → List Event × Running) (s : FileStat) (events : List Event) (trail : Trail)
      → AllRaw (with_trail continue (events, trail)).0
      → AllRaw (with_trail continue (stat s ∷ events, trail)).0
  with_trail-stat continue s events (trailing f) h = h
  with_trail-stat continue s events shut_down h = h
  with_trail-stat continue s events retrying h = h

  -- What is sent of a file that is opened again.
  pub with_trail-AllRaw :
      (t : InTail) (seek_to : ℕ) (attempts : List Attempt) (continue : File → List Event × Running)
      → IsPlain t
      → ((f : File) → PlainFile f → AllRaw (continue f).0)
      → AllRaw (with_trail continue (new_trail_file t seek_to attempts)).0
  unfolding new_trail_file new_file
  with_trail-AllRaw t seek_to [] continue p h = tt
  with_trail-AllRaw t seek_to (opens size ∷ attempts) continue p h = h _ p
  with_trail-AllRaw t seek_to (fails e true ∷ attempts) continue p h = tt
  with_trail-AllRaw t seek_to (fails e false ∷ attempts) continue p h =
      let (events, trail) = new_trail_file t seek_head attempts in
      with_trail-stat continue (open_problem t e) events trail
        (with_trail-AllRaw t seek_head attempts continue p h)

  resume-AllRaw :
      (continue : InTail → File → List Event × Running) (reopen : List Attempt) (t : InTail)
      (f : File) (events : List Event) (watched : Watched)
      → ((t : InTail) (f : File) → IsPlain t → PlainFile f → AllRaw (continue t f).0)
      → StaysRaw (t, f, events, watched)
      → AllRaw (resume continue reopen (t, f, events, watched)).0
  resume-AllRaw continue reopen t f events again c (p, h, raw) =
      AllRaw-append events (continue t f).0 raw (c t f p h)
  resume-AllRaw continue reopen t f events signalled c (p, h, raw) = raw
  resume-AllRaw continue reopen t f events crashed c (p, h, raw) = raw
  resume-AllRaw continue reopen t f events broken c (p, h, raw) =
      AllRaw-append events _ raw
        (with_trail-AllRaw t seek_head reopen (continue t) p (λ f' h'. c t f' p h'))

  pub follow-AllRaw :
      (turns : List Turn) (t : InTail) (f : File)
      → IsPlain t
      → PlainFile f
      → AllRaw (follow lib unmarshal t f turns).0
  unfolding follow
  follow-AllRaw [] t f p h = tt
  follow-AllRaw (turn ∷ turns) t f p h =
      let (t', f', events, watched) = watch_file_event lib unmarshal t f turn turn.wake in
      resume-AllRaw (λ t' f'. follow lib unmarshal t' f' turns) turn.reopen t' f' events watched
        (λ t f. follow-AllRaw turns t f) (watch_file_event-StaysRaw t f turn turn.wake p h)
