-- ===== src/TailF/Program.antt =====
-- cmd/tail-f/main.go and hydra/in_tail.go: the whole program, from its argument to what it prints.
use fluent_agent_hydra.Prelude.{
  ℕ, ◌≤◌, ◌≡◌, refl, ap, ◌∙◌, Bool, true, false, Option, some, List, [], ◌∷◌, All, Bytes, arith,
  terminated, codes, bytes_eq,
}
use fluent_agent_hydra.Prelude.Dict
use fluent_agent_hydra.Fluent.Value.{Time}
use fluent_agent_hydra.Hydra.Format.{Library}
use fluent_agent_hydra.Hydra.Records.{JsonUnmarshal}
use fluent_agent_hydra.Hydra.Tail.{seek_tail}
use fluent_agent_hydra.Hydra.Watcher.{
  Watcher, Paths, new_watcher, add_channel, watch_file, rel2abs, new_in_tail, is_stdin, tailing,
}
use fluent_agent_hydra.Hydra.InTail.{InTail, Attempt, Turn, run, follow}
use fluent_agent_hydra.Hydra.InTail.Reader.{Reopens, IsTurn, lines_read}
use fluent_agent_hydra.Hydra.InTail.Follow.{run-lines_read}
use fluent_agent_hydra.TailF.{monitor_channel_buffer_len, tail_f, follows, tail_config, begin}
use fluent_agent_hydra.TailF.Raw.{AllRaw, stat_count, tail_f-AllRaw}
use fluent_agent_hydra.TailF.Turns.{with_trail-AllRaw, follow-AllRaw}

-- The input of `tail-f`.
abbrev pub followed : ℕ → Bytes → InTail
followed now filename = tailing (tail_config filename) now filename

module _ (lib : Library) (unmarshal : JsonUnmarshal) (now : ℕ) (filename : Bytes) where
  run-AllRaw :
      (attempts : List Attempt) (turns : List Turn) (tokens : List (Time × Bytes))
      (problem : Option Bytes)
      → AllRaw (run lib unmarshal (followed now filename) attempts turns tokens problem).0
  unfolding run
  run-AllRaw attempts turns tokens problem =
      with_trail-AllRaw lib unmarshal (followed now filename) seek_tail attempts
        (λ f. follow lib unmarshal (followed now filename) f turns) (refl, refl)
        (λ f h. follow-AllRaw lib unmarshal turns (followed now filename) f (refl, refl) h)

module _ (paths : Paths) (addable : Bytes → Bool) (cwd : Option Bytes) (now : ℕ)
    (filename : Bytes) where
  new_in_tail-followed :
      paths.is_abs filename ≡ true
      → bytes_eq filename (codes "-") ≡ false
      → addable (paths.dir filename) ≡ true
      → (w : Watcher) × (new_in_tail paths addable cwd now (tail_config filename) new_watcher
          ≡ (w, some (followed now filename)))
  unfolding new_in_tail watch_file rel2abs add_channel new_watcher is_stdin Dict.lookup Dict.insert
  new_in_tail-followed absolute no_stdin takes =
      let parent = paths.dir filename in
      let w : Watcher = record new_watcher {
        added = parent ∷ [];
        watching_dir = Dict.insert parent true [];
      } in
      ((add_channel w filename).0, rw (no_stdin, new_in_tail, absolute, takes))

  begin-follows :
      (file : Bytes)
      → rel2abs paths addable cwd file ≡ some filename
      → paths.is_abs filename ≡ true
      → bytes_eq filename (codes "-") ≡ false
      → addable (paths.dir filename) ≡ true
      → (w : Watcher) × (begin paths addable cwd now true (file ∷ [])
          ≡ follows (followed now filename) w)
  unfolding begin
  begin-follows file named absolute no_stdin takes =
      let (w, made) = new_in_tail-followed absolute no_stdin takes in (w, rw (named, begin, made))

-- `tail-f` with one argument, a name that stands for a file other than stdin whose directory can
-- be watched, starts to follow that file. If it can be opened in the end and each read gives at
-- least one byte, it prints, over any sequence of file events, truncations, renames and read errors,
-- the lines that the abstract reader reads, each with a newline, in order, and does not panic. No
-- more statistics are sent than there is room for in the channel that nothing reads.
pub begin-prints :
    (lib : Library) (unmarshal : JsonUnmarshal) (paths : Paths) (addable : Bytes → Bool)
    (cwd : Option Bytes) (now : ℕ) (file filename : Bytes) (attempts : List Attempt)
    (turns : List Turn) (tokens : List (Time × Bytes)) (problem : Option Bytes)
    → rel2abs paths addable cwd file ≡ some filename
    → paths.is_abs filename ≡ true
    → bytes_eq filename (codes "-") ≡ false
    → addable (paths.dir filename) ≡ true
    → Reopens attempts
    → All IsTurn turns
    → stat_count (run lib unmarshal (followed now filename) attempts turns tokens problem).0
      ≤ monitor_channel_buffer_len
    → (w : Watcher) × (begin paths addable cwd now true (file ∷ [])
        ≡ follows (followed now filename) w)
      × (tail_f 0 (run lib unmarshal (followed now filename) attempts turns tokens problem).0
          ≡ some (terminated b'\n' (lines_read now [] turns)))
begin-prints lib unmarshal paths addable cwd now file filename attempts turns tokens problem named
      absolute no_stdin takes opened reads room =
    let (w, began) =
      begin-follows paths addable cwd now filename file named absolute no_stdin takes in
    let events = (run lib unmarshal (followed now filename) attempts turns tokens problem).0 in
    (
      w,
      began,
      tail_f-AllRaw events 0 (run-AllRaw lib unmarshal now filename attempts turns tokens problem)
            (omega (arith, room))
          ∙ ap (λ lines. some (terminated b'\n' lines))
              (run-lines_read lib unmarshal (followed now filename) attempts turns tokens problem
                refl refl opened reads),
    )
