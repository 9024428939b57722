-- ===== src/Hydra/InTail/Follow.antt =====
-- hydra/in_tail.go: the lines that `Run` sends without a format.
use fluent_agent_hydra.Prelude.{
  All, ap₂, ℕ, ◌+◌, ◌≡◌, refl, sym, ap, ◌∙◌, inl, inr, Bool, true, false, Option, some, List, [],
  ◌∷◌, ◌++◌, Bytes, ltb, if◌then◌else◌, arith, Bool-cases, Option-cases,
}
use fluent_agent_hydra.Prelude.{split}
use fluent_agent_hydra.Hydra.Format.{Library, format_none}
use fluent_agent_hydra.Hydra.Records.{JsonUnmarshal}
use fluent_agent_hydra.Hydra.Tail.{File, restrict, Event, tail_and_send}
use fluent_agent_hydra.Hydra.Tail.Delivery.{event_lines, read_bytes}
use fluent_agent_hydra.Hydra.InTail.{
  InTail, Attempt, new_trail_file, Turn, again, broken, poll, close_file, watch_file_event,
  tail_interval, read_result, close_result, stopped, dead, follow,
}
use fluent_agent_hydra.Hydra.InTail.Reader.{
  front, Demand, stop, rest_now, last_read, next_read, demand, lines_read, Reopens, IsTurn, IsReady,
  polled, polled-no_size, polled-early, polled-failed, polled-at_eof, lines_read-turn, ending-cases,
}
use fluent_agent_hydra.Fluent.Value.{Time}
use fluent_agent_hydra.Hydra.Tail.{seek_tail}
use fluent_agent_hydra.Hydra.InTail.{run, with_trail, tail_stdin}
use fluent_agent_hydra.Hydra.InTail.Turns.{
  new_trail_file-IsReady, event_lines-append, follow-again, follow-signalled, follow-broken,
  read_pieces, restrict-IsReady, by_demand, poll-no_size, poll-early, poll-late,
}

module _ (lib : Library) (unmarshal : JsonUnmarshal) where
  -- What holds of the turns that are left.
  abbrev Agrees : List Turn → Type 0
  Agrees turns =
      (t : InTail) (f : File)
      → t.format ≡ format_none
      → IsReady f
      → event_lines (follow lib unmarshal t f turns).0 ≡ lines_read t.last_read_at f.cont_buf turns

  -- A turn that breaks off after some lines.
  Agrees-broken :
      (t t' : InTail) (f f' : File) (es : List Event) (turn : Turn) (turns : List Turn)
      → Agrees turns
      → watch_file_event lib unmarshal t f turn turn.wake ≡ (t', f', es, broken)
      → t'.format ≡ format_none
      → Reopens turn.reopen
      → event_lines (follow lib unmarshal t f (turn ∷ turns)).0
        ≡ event_lines es ++ lines_read t'.last_read_at [] turns
  Agrees-broken t t' f f' es turn turns ih e n h =
      let (f'', ready, fresh, lines) = follow-broken lib unmarshal t t' f f' es turn turns e n h in
      lines
      ∙ ap (λ l. event_lines es ++ l)
          (ih t' f'' n ready ∙ ap (λ c. lines_read t'.last_read_at c turns) fresh)

  Agrees-again :
      (t t' : InTail) (f f' : File) (es : List Event) (turn : Turn) (turns : List Turn)
      → Agrees turns
      → watch_file_event lib unmarshal t f turn turn.wake ≡ (t', f', es, again)
      → t'.format ≡ format_none
      → IsReady f'
      → event_lines (follow lib unmarshal t f (turn ∷ turns)).0
        ≡ event_lines es ++ lines_read t'.last_read_at f'.cont_buf turns
  Agrees-again t t' f f' es turn turns ih e n ready =
      follow-again lib unmarshal t t' f f' es turn turns e
      ∙ ap (λ l. event_lines es ++ l) (ih t' f' n ready)

  -- The last read of a file that was renamed or removed.
  Agrees-close :
      (t : InTail) (f : File) (turn : Turn) (turns : List Turn)
      → Agrees turns
      → t.format ≡ format_none
      → IsReady f
      → IsTurn turn
      → watch_file_event lib unmarshal t f turn turn.wake ≡ close_file lib unmarshal t f turn
      → event_lines (follow lib unmarshal t f (turn ∷ turns)).0
        ≡ front (split b'\n' (f.cont_buf ++ read_bytes turn.reads))
          ++ lines_read t.last_read_at [] turns
  unfolding close_file
  Agrees-close t f turn turns ih n r (got_bytes, h) e =
      let (f', events, outcome) = tail_and_send lib unmarshal f turn.reads in
      let (sent, kept, end, ready) = read_pieces lib unmarshal f turn.reads r got_bytes in
      let ended : close_result outcome ≡ broken = elim (ending-cases turn.reads got_bytes) [
        | inl a ↦ ap close_result (end ∙ a)
        | inr a ↦ ap close_result (end ∙ a)
      ] in
      Agrees-broken t t f f' events turn turns ih (e ∙ ap (λ w. (t, f', events, w)) ended) n h
      ∙ ap (λ l. l ++ lines_read t.last_read_at [] turns) sent

  Agrees-late :
      (t : InTail) (f f' : File) (turn : Turn) (turns : List Turn) (size : ℕ)
      → Agrees turns
      → t.format ≡ format_none
      → IsReady f'
      → IsTurn turn
      → watch_file_event lib unmarshal t f turn turn.wake ≡ poll lib unmarshal t f turn
      → turn.size ≡ some size
      → restrict f (some size) ≡ some f'
      → ltb turn.now (t.last_read_at + tail_interval) ≡ false
      → event_lines (follow lib unmarshal t f (turn ∷ turns)).0
        ≡ polled t.last_read_at f'.cont_buf turn turns
  Agrees-late t f f' turn turns size ih n ready (got_bytes, h) e s seek late =
      let (f'', events, outcome) = tail_and_send lib unmarshal f' turn.reads in
      let t' : InTail = record t { last_read_at = turn.done_at } in
      let (sent, kept, end, ready') = read_pieces lib unmarshal f' turn.reads ready got_bytes in
      let result = e ∙ poll-late lib unmarshal t f f' turn size s seek late in
      elim (ending-cases turn.reads got_bytes) [
        | inl eof ↦
            let same = ap (λ w. (t', f'', events, read_result w)) (end ∙ eof) in
            Agrees-again t t' f f'' events turn turns ih (result ∙ same) n ready'
            ∙ ap₂ (λ l c. l ++ lines_read turn.done_at c turns) sent kept
            ∙ sym (polled-at_eof t.last_read_at f'.cont_buf turn turns size s late eof)
        | inr lost ↦
            let same = ap (λ w. (t', f'', events, read_result w)) (end ∙ lost) in
            Agrees-broken t t' f f'' events turn turns ih (result ∙ same) n h
            ∙ ap (λ l. l ++ lines_read turn.done_at [] turns) sent
            ∙ sym (polled-failed t.last_read_at f'.cont_buf turn turns size s late lost)
      ]

  Agrees-poll :
      (t : InTail) (f : File) (turn : Turn) (turns : List Turn)
      → Agrees turns
      → t.format ≡ format_none
      → IsReady f
      → IsTurn turn
      → watch_file_event lib unmarshal t f turn turn.wake ≡ poll lib unmarshal t f turn
      → event_lines (follow lib unmarshal t f (turn ∷ turns)).0
        ≡ polled t.last_read_at f.cont_buf turn turns
  Agrees-poll t f turn turns ih n r h e = elim (Option-cases turn.size) [
    | inl s ↦
        Agrees-broken t t f f [] turn turns ih (e ∙ poll-no_size lib unmarshal t f turn s) n h.1
        ∙ sym (polled-no_size t.last_read_at f.cont_buf turn turns s)
    | inr (size, s) ↦
        let (f', seek, ready, same) = restrict-IsReady lib unmarshal f size r in
        elim (Bool-cases (ltb turn.now (t.last_read_at + tail_interval))) [
          | inl early ↦
              Agrees-again t t f f' [] turn turns ih
                (e ∙ poll-early lib unmarshal t f f' turn size s seek early) n ready
              ∙ ap (λ c. lines_read t.last_read_at c turns) same
              ∙ sym (polled-early t.last_read_at f.cont_buf turn turns size s early)
          | inr late ↦
              Agrees-late t f f' turn turns size ih n ready h e s seek late
              ∙ ap (λ c. polled t.last_read_at c turn turns) same
        ]
  ]

  -- One turn, by what it asks for.
  Agrees-turn :
      (t : InTail) (f : File) (turn : Turn) (turns : List Turn)
      → Agrees turns
      → t.format ≡ format_none
      → IsReady f
      → IsTurn turn
      → (d : Demand) → demand turn.wake ≡ d
      → event_lines (follow lib unmarshal t f (turn ∷ turns)).0
        ≡ lines_read t.last_read_at f.cont_buf (turn ∷ turns)
  Agrees-turn t f turn turns ih n r h stop d =
      let e = by_demand lib unmarshal t f turn stop d in
      follow-signalled lib unmarshal t t f f [] turn turns e
      ∙ sym (lines_read-turn t.last_read_at f.cont_buf turn turns stop d)
  Agrees-turn t f turn turns ih n r h rest_now d =
      Agrees-again t t f f [] turn turns ih (by_demand lib unmarshal t f turn rest_now d) n r
      ∙ sym (lines_read-turn t.last_read_at f.cont_buf turn turns rest_now d)
  Agrees-turn t f turn turns ih n r h last_read d =
      Agrees-close t f turn turns ih n r h (by_demand lib unmarshal t f turn last_read d)
      ∙ sym (lines_read-turn t.last_read_at f.cont_buf turn turns last_read d)
  Agrees-turn t f turn turns ih n r h next_read d =
      Agrees-poll t f turn turns ih n r h (by_demand lib unmarshal t f turn next_read d)
      ∙ sym (lines_read-turn t.last_read_at f.cont_buf turn turns next_read d)

  -- All turns on one file, and on those that are opened after it.
  pub follow-lines_read :
      (turns : List Turn) (t : InTail) (f : File)
      → t.format ≡ format_none
      → IsReady f
      → All IsTurn turns
      → event_lines (follow lib unmarshal t f turns).0 ≡ lines_read t.last_read_at f.cont_buf turns
  follow-lines_read [] t f n r h = unfold follow in refl
  follow-lines_read (turn ∷ turns) t f n r (h, hs) =
      let ih : Agrees turns = λ t' f' n' r'. follow-lines_read turns t' f' n' r' hs in
      Agrees-turn t f turn turns ih n r h (demand turn.wake) refl

  run-watched :
      (t : InTail) (attempts : List Attempt) (turns : List Turn) (tokens : List (Time × Bytes))
      (problem : Option Bytes)
      → t.watched ≡ true
      → run lib unmarshal t attempts turns tokens problem
        ≡ with_trail (λ f. follow lib unmarshal t f turns) (new_trail_file t seek_tail attempts)
  unfolding run
  run-watched t attempts turns tokens problem w =
      let (_, lines, ok) = tail_stdin lib unmarshal t tokens problem in
      ap
        (λ (b : Bool).
          if b
          then with_trail (λ f. follow lib unmarshal t f turns)
              (new_trail_file t seek_tail attempts)
          else (lines, if ok then stopped else dead))
        w

  -- Without a format, if each file can be opened before a shutdown and reads give at least one
  -- byte: what `Run` sends, line by line and over any sequence of file events, truncations,
  -- renames, read errors and timeouts, is what the abstract reader reads, which starts without
  -- an unfinished line.
  pub run-lines_read :
      (t : InTail) (attempts : List Attempt) (turns : List Turn) (tokens : List (Time × Bytes))
      (problem : Option Bytes)
      → t.watched ≡ true
      → t.format ≡ format_none
      → Reopens attempts
      → All IsTurn turns
      → event_lines (run lib unmarshal t attempts turns tokens problem).0
        ≡ lines_read t.last_read_at [] turns
  run-lines_read t attempts turns tokens problem w n h hs =
      let (f, events, trail, silent, ready, fresh) =
        new_trail_file-IsReady t seek_tail attempts n (omega arith) h in
      ap (λ r. event_lines r.0)
        (run-watched t attempts turns tokens problem w
          ∙ ap (with_trail (λ f. follow lib unmarshal t f turns)) trail)
      ∙ event_lines-append events (follow lib unmarshal t f turns).0
      ∙ ap (λ l. l ++ event_lines (follow lib unmarshal t f turns).0) silent
      ∙ follow-lines_read turns t f n ready hs
      ∙ ap (λ c. lines_read t.last_read_at c turns) fresh
