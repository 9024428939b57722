-- ===== src/Hydra/InTail/Reader.antt =====
-- hydra/in_tail.go: an abstract reader of lines that knows only the unfinished line and the time of
-- the last read.
use fluent_agent_hydra.Prelude.{
  ◌⊎◌, ℕ, ◌+◌, ◌<◌, ◌≡◌, refl, ap, inl, inr, true, false, ◌||◌, none, some, List, [], ◌∷◌, ◌++◌,
  Bytes, ltb, if◌then◌else◌, u64_mod, Lacks,
}
use fluent_agent_hydra.Prelude.{split}
use fluent_agent_hydra.Hydra.Format.{format_none}
use fluent_agent_hydra.Hydra.Tail.{File, at_eof, failed, Read, got, read_error}
use fluent_agent_hydra.Hydra.Tail.Delivery.{read_bytes, GotBytes, ending}
use fluent_agent_hydra.Hydra.InTail.{
  Attempt, opens, fails, Wake, control, event, timer, Turn, tail_interval,
}

-- The pieces of a text but the last, and the last.
abbrev pub front : List Bytes → List Bytes
front [] = []
front (p ∷ []) = []
front (p ∷ q ∷ ps) = p ∷ front (q ∷ ps)

abbrev pub final : List Bytes → Bytes
final [] = []
final (p ∷ []) = p
final (p ∷ q ∷ ps) = final (q ∷ ps)

pub front-append :
    (ps : List Bytes) (last : Bytes)
    → (front (ps ++ (last ∷ [])) ≡ ps) × (final (ps ++ (last ∷ [])) ≡ last)
front-append [] last = (refl, refl)
front-append (p ∷ []) last = (refl, refl)
front-append (p ∷ q ∷ ps) last = let (a, b) = front-append (q ∷ ps) last in (ap (λ l. p ∷ l) a, b)

-- What a turn asks for: to stop, nothing, a last read, or a read if the last is long enough ago.
pub data Demand : Type 0 where
  stop rest_now last_read next_read : Demand

abbrev pub demand : Wake → Demand
demand control = stop
demand timer = next_read
demand (event op) =
    if op.write
    then next_read
    else if op.remove || op.rename
    then last_read
    else if op.create
    then rest_now
    else next_read

-- The abstract reader: the lines that end in the texts it reads, turn by turn. A file that is
-- opened again starts with no unfinished line.
abbrev pub lines_read : ℕ → Bytes → List Turn → List Bytes
lines_read read_at rest [] = []
lines_read read_at rest (turn ∷ turns) =
    let pieces = split b'\n' (rest ++ read_bytes turn.reads) in
    let skipped = lines_read read_at rest turns in
    let closed = lines_read read_at [] turns in
    let kept = lines_read turn.done_at (final pieces) turns in
    let lost = lines_read turn.done_at [] turns in
    elim (demand turn.wake) [
      | stop ↦ []
      | rest_now ↦ skipped
      | last_read ↦ front pieces ++ closed
      | next_read ↦ elim turn.size [
        | none ↦ closed
        | some size ↦
            if ltb turn.now (read_at + tail_interval) then skipped else elim (ending turn.reads) [
              | failed ↦ front pieces ++ lost
              | _ ↦ front pieces ++ kept
            ]
      ]
    ]

-- The file can be opened before a shutdown, and its size is a word.
abbrev pub Reopens : List Attempt → Type 0
Reopens [] = ⊥
Reopens (opens size ∷ attempts) = size < u64_mod
Reopens (fails e ended ∷ attempts) = (ended ≡ false) × Reopens attempts

abbrev pub IsTurn : Turn → Type 0
IsTurn turn = GotBytes turn.reads × Reopens turn.reopen

-- A file that can be read on without a format.
pub record IsReady (f : File) : Type 0 where
  pub plain : f.format ≡ format_none
  pub unfinished : Lacks b'\n' f.cont_buf
  pub position_fits : f.position < u64_mod

pub ending-cases :
    (reads : List Read) → GotBytes reads → (ending reads ≡ at_eof) ⊎ (ending reads ≡ failed)
ending-cases [] h = inl refl
ending-cases (read_error ∷ reads) h = inr refl
ending-cases (got t [] ∷ reads) h = absurd h
ending-cases (got t (c ∷ block) ∷ reads) h = ending-cases reads h

-- What a turn that wants to read sends, and what the abstract reader reads in it.
abbrev pub polled : ℕ → Bytes → Turn → List Turn → List Bytes
polled read_at rest turn turns =
    let pieces = split b'\n' (rest ++ read_bytes turn.reads) in
    elim turn.size [
      | none ↦ lines_read read_at [] turns
      | some size ↦
          if ltb turn.now (read_at + tail_interval)
          then lines_read read_at rest turns
          else elim (ending turn.reads) [
            | failed ↦ front pieces ++ lines_read turn.done_at [] turns
            | _ ↦ front pieces ++ lines_read turn.done_at (final pieces) turns
          ]
    ]

pub polled-no_size :
    (read_at : ℕ) (rest : Bytes) (turn : Turn) (turns : List Turn)
    → turn.size ≡ none
    → polled read_at rest turn turns ≡ lines_read read_at [] turns
polled-no_size read_at rest turn turns e = rw e refl

pub polled-early :
    (read_at : ℕ) (rest : Bytes) (turn : Turn) (turns : List Turn) (size : ℕ)
    → turn.size ≡ some size
    → ltb turn.now (read_at + tail_interval) ≡ true
    → polled read_at rest turn turns ≡ lines_read read_at rest turns
polled-early read_at rest turn turns size e early = rw (e, early) refl

pub polled-failed :
    (read_at : ℕ) (rest : Bytes) (turn : Turn) (turns : List Turn) (size : ℕ)
    → turn.size ≡ some size
    → ltb turn.now (read_at + tail_interval) ≡ false
    → ending turn.reads ≡ failed
    → polled read_at rest turn turns
      ≡ front (split b'\n' (rest ++ read_bytes turn.reads)) ++ lines_read turn.done_at [] turns
polled-failed read_at rest turn turns size e late end = rw (e, late, end) refl

pub polled-at_eof :
    (read_at : ℕ) (rest : Bytes) (turn : Turn) (turns : List Turn) (size : ℕ)
    → turn.size ≡ some size
    → ltb turn.now (read_at + tail_interval) ≡ false
    → ending turn.reads ≡ at_eof
    → let pieces = split b'\n' (rest ++ read_bytes turn.reads) in
      polled read_at rest turn turns ≡ front pieces ++ lines_read turn.done_at (final pieces) turns
polled-at_eof read_at rest turn turns size e late end = rw (e, late, end) refl

-- What the abstract reader reads, by what the turn asks for.
abbrev pub turn_lines : Demand → ℕ → Bytes → Turn → List Turn → List Bytes
turn_lines stop read_at rest turn turns = []
turn_lines rest_now read_at rest turn turns = lines_read read_at rest turns
turn_lines last_read read_at rest turn turns =
    front (split b'\n' (rest ++ read_bytes turn.reads)) ++ lines_read read_at [] turns
turn_lines next_read read_at rest turn turns = polled read_at rest turn turns

pub lines_read-turn :
    (read_at : ℕ) (rest : Bytes) (turn : Turn) (turns : List Turn) (d : Demand)
    → demand turn.wake ≡ d
    → lines_read read_at rest (turn ∷ turns) ≡ turn_lines d read_at rest turn turns
lines_read-turn read_at rest turn turns stop e = rw (e, lines_read) refl
lines_read-turn read_at rest turn turns rest_now e = rw (e, lines_read) refl
lines_read-turn read_at rest turn turns last_read e = rw (e, lines_read) refl
lines_read-turn read_at rest turn turns next_read e = rw (e, lines_read) refl
