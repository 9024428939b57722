-- ===== src/Hydra/InTail/Turns.antt =====
-- hydra/in_tail.go: one turn of `Run`, on each of its ways.
use fluent_agent_hydra.Prelude.{
  map, ℕ, ◌+◌, ◌<◌, ◌≡◌, refl, sym, ap, ◌∙◌, inl, inr, true, false, none, some, List, [], ◌∷◌, ◌++◌,
  ltb, u64_mod, lt64, arith, Bool-cases, append_assoc,
}
use fluent_agent_hydra.Prelude.{split}
use fluent_agent_hydra.Hydra.Format.{Library, format_none}
use fluent_agent_hydra.Hydra.Records.{JsonUnmarshal}
use fluent_agent_hydra.Hydra.Tail.{
  File, new_file, seek_head, restrict, update_stat, Event, message, stat, Read, tail_and_send,
}
use fluent_agent_hydra.Hydra.Tail.Delivery.{record_line, event_lines, read_bytes, GotBytes, ending}
use fluent_agent_hydra.Hydra.Tail.Lines.{tail_and_send-pieces, tail_and_send-format}
use fluent_agent_hydra.Hydra.InTail.{
  InTail, Attempt, opens, fails, trailing, new_trail_file, open_problem, configured, Wake, control,
  event, timer, Turn, Watched, again, signalled, broken, poll, close_file, watch_file_event,
  tail_interval, read_result, follow,
}
use fluent_agent_hydra.Hydra.InTail.Reader.{
  front, final, front-append, Demand, stop, rest_now, last_read, next_read, demand, Reopens,
  IsReady,
}

pub event_lines-append :
    (es ds : List Event) → event_lines (es ++ ds) ≡ event_lines es ++ event_lines ds
event_lines-append [] ds = refl
event_lines-append (message rs ∷ es) ds =
    ap (λ l. map record_line rs.records ++ l) (event_lines-append es ds)
    ∙ sym (append_assoc (map record_line rs.records) (event_lines es) (event_lines ds))
event_lines-append (stat s ∷ es) ds = event_lines-append es ds

-- The file that is opened, at the end or from the start.
pub new_trail_file-IsReady :
    (t : InTail) (seek_to : ℕ) (attempts : List Attempt)
    → t.format ≡ format_none
    → seek_to < u64_mod
    → Reopens attempts
    → (f : File) × (events : List Event) × (new_trail_file t seek_to attempts
        ≡ (events, trailing f))
      × (event_lines events ≡ [])
      × IsReady f
      × (f.cont_buf ≡ [])
unfolding new_trail_file new_file
new_trail_file-IsReady t seek_to [] n lt h = absurd h
new_trail_file-IsReady t seek_to (opens size ∷ attempts) n lt h =
    let (f, sent) = update_stat (configured t (new_file t.filename seek_to size)) in
    (
      f,
      stat sent ∷ [],
      refl,
      refl,
      record { plain = n; unfinished = tt; position_fits = ground arith },
      refl,
    )
new_trail_file-IsReady t seek_to (fails e true ∷ attempts) n lt (c, h) = cc
new_trail_file-IsReady t seek_to (fails e false ∷ attempts) n lt (c, h) =
    let (f, events, trail, silent, ready, fresh) =
      new_trail_file-IsReady t seek_head attempts n (omega arith) h in
    (f, stat (open_problem t e) ∷ events, rw (trail, new_trail_file) refl, silent, ready, fresh)

module _ (lib : Library) (unmarshal : JsonUnmarshal) where
  -- A turn after which `Run` goes on with the same file.
  pub follow-again :
      (t t' : InTail) (f f' : File) (es : List Event) (turn : Turn) (turns : List Turn)
      → watch_file_event lib unmarshal t f turn turn.wake ≡ (t', f', es, again)
      → event_lines (follow lib unmarshal t f (turn ∷ turns)).0
        ≡ event_lines es ++ event_lines (follow lib unmarshal t' f' turns).0
  unfolding follow
  follow-again t t' f f' es turn turns e =
      rw (e, follow) (event_lines-append es (follow lib unmarshal t' f' turns).0)

  pub follow-signalled :
      (t t' : InTail) (f f' : File) (es : List Event) (turn : Turn) (turns : List Turn)
      → watch_file_event lib unmarshal t f turn turn.wake ≡ (t', f', es, signalled)
      → event_lines (follow lib unmarshal t f (turn ∷ turns)).0 ≡ event_lines es
  unfolding follow
  follow-signalled t t' f f' es turn turns e = rw (e, follow) refl

  -- A turn after which `Run` opens the file again.
  pub follow-broken :
      (t t' : InTail) (f f' : File) (es : List Event) (turn : Turn) (turns : List Turn)
      → watch_file_event lib unmarshal t f turn turn.wake ≡ (t', f', es, broken)
      → t'.format ≡ format_none
      → Reopens turn.reopen
      → (f'' : File) × IsReady f''
        × (f''.cont_buf ≡ [])
        × (event_lines (follow lib unmarshal t f (turn ∷ turns)).0
            ≡ event_lines es ++ event_lines (follow lib unmarshal t' f'' turns).0)
  unfolding follow
  follow-broken t t' f f' es turn turns e n h =
      let (f'', events, trail, silent, ready, fresh) =
        new_trail_file-IsReady t' seek_head turn.reopen n (omega arith) h in
      let rest = (follow lib unmarshal t' f'' turns).0 in
      (
        f'',
        ready,
        fresh,
        rw (e, follow, trail)
            (event_lines-append es (events ++ rest)
              ∙ ap (λ l. event_lines es ++ l)
                  (event_lines-append events rest ∙ ap (λ l. l ++ event_lines rest) silent)),
      )

  -- What a read sends and keeps are the pieces of the text.
  pub read_pieces :
      (f : File) (reads : List Read)
      → IsReady f
      → GotBytes reads
      → let (f', events, outcome) = tail_and_send lib unmarshal f reads in
        let pieces = split b'\n' (f.cont_buf ++ read_bytes reads) in
        (event_lines events ≡ front pieces)
        × (f'.cont_buf ≡ final pieces)
        × (outcome ≡ ending reads)
        × IsReady f'
  read_pieces f reads r h =
      let (f', events, outcome) = tail_and_send lib unmarshal f reads in
      let (pieces, end, lacks, moved) =
        tail_and_send-pieces lib unmarshal reads f r.plain h r.unfinished r.position_fits in
      let (a, b) = front-append (event_lines events) f'.cont_buf in
      (
        sym (ap front pieces ∙ a),
        sym (ap final pieces ∙ b),
        end,
        record {
          plain = tail_and_send-format lib unmarshal reads f ∙ r.plain;
          unfinished = lacks;
          position_fits = moved;
        },
      )

  pub restrict-IsReady :
      (f : File) (size : ℕ)
      → IsReady f
      → (f' : File) × (restrict f (some size) ≡ some f') × IsReady f' × (f'.cont_buf ≡ f.cont_buf)
  unfolding restrict
  restrict-IsReady f size r = elim (Bool-cases (lt64 size f.position)) [
    | inl e ↦ (
      record f { position = 0 },
      rw e refl,
      record { plain = r.plain; unfinished = r.unfinished; position_fits = omega arith },
      refl,
    )
    | inr e ↦ (f, rw e refl, r, refl)
  ]

  -- What `watchFileEvent` does, by what the turn asks for.
  abbrev pub demanded : InTail → File → Turn → Demand → InTail × File × List Event × Watched
  demanded t f turn stop = (t, f, [], signalled)
  demanded t f turn rest_now = (t, f, [], again)
  demanded t f turn last_read = close_file lib unmarshal t f turn
  demanded t f turn next_read = poll lib unmarshal t f turn

  pub watch-demand :
      (t : InTail) (f : File) (turn : Turn) (w : Wake)
      → watch_file_event lib unmarshal t f turn w ≡ demanded t f turn (demand w)
  unfolding watch_file_event
  watch-demand t f turn control = refl
  watch-demand t f turn timer = refl
  watch-demand t f turn (event op) = ground arith

  -- The three ways through such a turn.
  pub poll-no_size :
      (t : InTail) (f : File) (turn : Turn)
      → turn.size ≡ none
      → poll lib unmarshal t f turn ≡ (t, f, [], broken)
  unfolding poll restrict
  poll-no_size t f turn e = rw e refl

  pub poll-early :
      (t : InTail) (f f' : File) (turn : Turn) (size : ℕ)
      → turn.size ≡ some size
      → restrict f (some size) ≡ some f'
      → ltb turn.now (t.last_read_at + tail_interval) ≡ true
      → poll lib unmarshal t f turn ≡ (t, f', [], again)
  unfolding poll
  poll-early t f f' turn size e seek early =
      let found : restrict f turn.size ≡ some f' = ap (restrict f) e ∙ seek in
      rw (found, poll, early) refl

  pub poll-late :
      (t : InTail) (f f' : File) (turn : Turn) (size : ℕ)
      → turn.size ≡ some size
      → restrict f (some size) ≡ some f'
      → ltb turn.now (t.last_read_at + tail_interval) ≡ false
      → poll lib unmarshal t f turn ≡ (
        record t { last_read_at = turn.done_at },
        (tail_and_send lib unmarshal f' turn.reads).0,
        (tail_and_send lib unmarshal f' turn.reads).1,
        read_result (tail_and_send lib unmarshal f' turn.reads).2,
      )
  unfolding poll
  poll-late t f f' turn size e seek late =
      let found : restrict f turn.size ≡ some f' = ap (restrict f) e ∙ seek in
      rw (found, poll, late) refl

  pub by_demand :
      (t : InTail) (f : File) (turn : Turn) (d : Demand)
      → demand turn.wake ≡ d
      → watch_file_event lib unmarshal t f turn turn.wake ≡ demanded t f turn d
  by_demand t f turn d e = watch-demand t f turn turn.wake ∙ ap (demanded t f turn) e
