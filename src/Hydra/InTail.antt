-- ===== src/Hydra/InTail.antt =====
-- hydra/in_tail.go: following one log file over writes, truncations and renames, and reading
-- stdin. A turn has what the operating system and the clock answer; a send on a channel is an
-- event, in order. Instants and intervals are in nanoseconds.
pub mod Reader
pub mod Turns
pub mod Follow
pub mod Stdin
use fluent_agent_hydra.Prelude.{
  ℕ, zero, suc, ◌+◌, ◌-◌, Bool, true, false, ◌||◌, Option, none, some, List, [], ◌∷◌, ◌++◌, Bytes,
  codes, ltb, if◌then◌else◌, length, add64, u64_mod,
}
use fluent_agent_hydra.Fluent.Value.{Time}
use fluent_agent_hydra.Fluent.Record.{FluentRecordSet}
use fluent_agent_hydra.Hydra.Format.{FileFormat, Library, RecordModifier}
use fluent_agent_hydra.Hydra.Records.{Regexp, JsonUnmarshal, new_fluent_record_set}
use fluent_agent_hydra.Hydra.Tail.{
  FileStat, File, new_file, seek_head, seek_tail, restrict, update_stat, Event, message, stat,
  Outcome, at_eof, failed, panicked, Read, tail_and_send,
}

abbrev pub tail_interval : ℕ
tail_interval = 200000000

abbrev pub stdin_filename : Bytes
stdin_filename = codes "-"

-- `InTail` without its channels. `watched`: there is a channel of file events.
pub record InTail : Type 0 where
  pub filename : Bytes
  pub tag : Bytes
  pub field_name : Bytes
  pub last_read_at : ℕ
  pub watched : Bool
  pub format : FileFormat
  pub record_modifier : Option RecordModifier
  pub regexp : Option Regexp
  pub position : ℕ

-- An attempt to open the file: it has a size, or there is an error with its text, and a shutdown
-- ends the wait behind it or does not.
pub data Attempt : Type 0 where
  opens : ℕ → Attempt
  fails : Bytes → Bool → Attempt

-- How `newTrailFile` ends; `retrying`: the attempts are used up, and it goes on waiting.
pub data Trail : Type 0 where
  trailing : File → Trail
  shut_down retrying : Trail

-- The file with the settings of the input.
abbrev pub configured : InTail → File → File
configured t f = record f {
  tag = t.tag;
  field_name = t.field_name;
  format = t.format;
  record_modifier = t.record_modifier;
  regexp = t.regexp;
}

-- What the monitor gets of a failed attempt: the position -1.
abbrev pub open_problem : InTail → Bytes → FileStat
open_problem t e = record { tag = t.tag; file = t.filename; position = u64_mod - 1; error = e }

unfoldable pub new_trail_file : InTail → ℕ → List Attempt → List Event × Trail
unfolding new_file update_stat
new_trail_file t seek_to [] = ([], retrying)
new_trail_file t seek_to (opens size ∷ attempts) =
    let (f, sent) = update_stat (configured t (new_file t.filename seek_to size)) in
    (stat sent ∷ [], trailing f)
new_trail_file t seek_to (fails e true ∷ attempts) = (stat (open_problem t e) ∷ [], shut_down)
new_trail_file t seek_to (fails e false ∷ attempts) =
    let (events, trail) = new_trail_file t seek_head attempts in
    (stat (open_problem t e) ∷ events, trail)

-- The bits of `fsnotify.Op` that the code tests.
pub record Op : Type 0 where
  pub write : Bool
  pub remove : Bool
  pub rename : Bool
  pub create : Bool

-- What ends the `select` of `watchFileEvent`.
pub data Wake : Type 0 where
  control : Wake
  event : Op → Wake
  timer : Wake

-- One call of `watchFileEvent`: what wakes it, the size that `Stat` reports, the time of the
-- test, what the reads return, the time after them, and the attempts to open the file again, if
-- it comes to that.
pub record Turn : Type 0 where
  pub wake : Wake
  pub size : Option ℕ
  pub now : ℕ
  pub reads : List Read
  pub done_at : ℕ
  pub reopen : List Attempt

-- What `watchFileEvent` returns: nil, the signal of a shutdown, or another error. A panic ends
-- the program.
pub data Watched : Type 0 where
  again signalled broken crashed : Watched

-- The result of the read at the end of `watchFileEvent`.
abbrev pub read_result : Outcome → Watched
read_result at_eof = again
read_result failed = broken
read_result panicked = crashed

-- The event of a renamed or removed file: the error of the last read is dropped.
abbrev pub close_result : Outcome → Watched
close_result panicked = crashed
close_result _ = broken

-- How `Run` stands after the turns.
pub data Running : Type 0 where
  following : InTail → File → Running
  stopped waiting dead : Running

-- What `Run` does with a file that it has opened, by how `newTrailFile` ended.
abbrev pub with_trail : (File → List Event × Running) → List Event × Trail → List Event × Running
with_trail continue (events, trailing f) = (events ++ (continue f).0, (continue f).1)
with_trail continue (events, shut_down) = (events, stopped)
with_trail continue (events, retrying) = (events, waiting)

-- What `Run` does after a call of `watchFileEvent`.
abbrev pub resume :
    (InTail → File → List Event × Running)
    → List Attempt
    → InTail × File × List Event × Watched
    → List Event × Running
resume continue reopen (t, f, events, again) = (events ++ (continue t f).0, (continue t f).1)
resume continue reopen (t, f, events, signalled) = (events, stopped)
resume continue reopen (t, f, events, crashed) = (events, dead)
resume continue reopen (t, f, events, broken) =
    let (rest, running) = with_trail (continue t) (new_trail_file t seek_head reopen) in
    (events ++ rest, running)

module _ (lib : Library) (unmarshal : JsonUnmarshal) where
  -- What follows the `select`, if it does not return.
  unfoldable pub poll : InTail → File → Turn → InTail × File × List Event × Watched
  unfolding restrict
  poll t f turn = elim (restrict f turn.size) [
    | none ↦ (t, f, [], broken)
    | some f' ↦
        let (f'', events, outcome) = tail_and_send lib unmarshal f' turn.reads in
        if ltb turn.now (t.last_read_at + tail_interval)
        then (t, f', [], again)
        else (record t { last_read_at = turn.done_at }, f'', events, read_result outcome)
  ]

  unfoldable pub close_file : InTail → File → Turn → InTail × File × List Event × Watched
  close_file t f turn =
      let (f', events, outcome) = tail_and_send lib unmarshal f turn.reads in
      (t, f', events, close_result outcome)

  unfoldable pub watch_file_event :
      InTail → File → Turn → Wake → InTail × File × List Event × Watched
  unfolding poll close_file
  watch_file_event t f turn control = (t, f, [], signalled)
  watch_file_event t f turn (event op) =
      if op.write
      then poll t f turn
      else if op.remove || op.rename
      then close_file t f turn
      else if op.create
      then (t, f, [], again)
      else poll t f turn
  watch_file_event t f turn timer = poll t f turn

  -- The two loops of `Run` behind the first `newTrailFile`.
  unfoldable pub follow : InTail → File → List Turn → List Event × Running
  unfolding watch_file_event new_trail_file
  follow t f [] = ([], following t f)
  follow t f (turn ∷ turns) =
      resume (λ t' f'. follow t' f' turns) turn.reopen (watch_file_event t f turn turn.wake)

  -- The loop of `TailStdin` over the tokens of the scanner. `scanner.Bytes()` is a slice of the
  -- scanner's buffer, which the record that is sent may keep: an event has the bytes as they are at
  -- its send, and what a later `Scan` writes over them is not followed.
  unfoldable pub scan_stdin : InTail → List (Time × Bytes) → InTail × List Event × Bool
  scan_stdin t [] = (t, [], true)
  scan_stdin t ((at, b) ∷ tokens) =
      let t' = record t { position = add64 t.position (length b + 1) } in
      let (last, events, ok) = scan_stdin t' tokens in
      let sent : FileStat = record {
        tag = t.tag;
        file = stdin_filename;
        position = t'.position;
        error = [];
      } in
      elim (new_fluent_record_set lib unmarshal at t.tag t.field_name t.format t.record_modifier
        t.regexp b) [
          | none ↦ (t', [], false)
          | some rs ↦ (last, message rs ∷ stat sent ∷ events, ok)
        ]

  -- `TailStdin`; `problem` is the text of the scanner's error. The flag: no panic.
  unfoldable pub tail_stdin :
      InTail → List (Time × Bytes) → Option Bytes → InTail × List Event × Bool
  unfolding scan_stdin
  tail_stdin t tokens problem =
      let (last, events, ok) = scan_stdin t tokens in
      let first : FileStat = record { tag = t.tag; file = t.filename; position = 0; error = [] } in
      let msg = elim problem as (λ _. Bytes) [ none ↦ codes "closed" | some e ↦ e ] in
      let final : FileStat = record {
        tag = t.tag;
        file = stdin_filename;
        position = last.position;
        error = msg;
      } in
      if ok
      then (last, stat first ∷ (events ++ (stat final ∷ [])), true)
      else (last, stat first ∷ events, false)

  -- `Run`: of stdin if there is no channel of events, otherwise of the file, from its end.
  unfoldable pub run :
      InTail → List Attempt → List Turn → List (Time × Bytes) → Option Bytes → List Event × Running
  unfolding follow tail_stdin new_trail_file
  run t attempts turns tokens problem =
      let (_, lines, ok) = tail_stdin t tokens problem in
      let from_file = with_trail (λ f. follow t f turns) (new_trail_file t seek_tail attempts) in
      if t.watched then from_file else (lines, if ok then stopped else dead)
