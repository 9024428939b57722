-- ===== src/Hydra/Watcher/Stdin.antt =====
-- hydra/in_tail.go: the input that `NewInTail` makes for stdin, in the format "regexp".
use fluent_agent_hydra.Prelude.{
  ℕ, ◌≡◌, refl, ap, ◌∙◌, Bool, true, false, Option, some, none, List, ◌∷◌, Bytes,
}
use fluent_agent_hydra.Fluent.Value.{Time}
use fluent_agent_hydra.Hydra.Format.{Library, format_regexp}
use fluent_agent_hydra.Hydra.Records.{JsonUnmarshal, new_fluent_record_set}
use fluent_agent_hydra.Hydra.Records.Plain.{new_fluent_record_set-no_regexp}
use fluent_agent_hydra.Hydra.Config.{ConfigLogfile}
use fluent_agent_hydra.Hydra.InTail.{InTail, scan_stdin, tail_stdin}
use fluent_agent_hydra.Hydra.Watcher.{Watcher, Paths, is_stdin, reading_stdin, new_in_tail}

module _ (lib : Library) (unmarshal : JsonUnmarshal) where
  scan_stdin-no_regexp :
      (t : InTail) (at : Time) (b : Bytes) (tokens : List (Time × Bytes))
      → t.format ≡ format_regexp
      → t.regexp ≡ none
      → (scan_stdin lib unmarshal t ((at, b) ∷ tokens)).2 ≡ false
  unfolding scan_stdin
  scan_stdin-no_regexp t at b tokens e n =
      let panic : new_fluent_record_set lib unmarshal at t.tag t.field_name t.format
            t.record_modifier t.regexp b
          ≡ none =
        ap
          (λ f.
            new_fluent_record_set lib unmarshal at t.tag t.field_name f t.record_modifier t.regexp
              b)
          e
        ∙ ap
            (λ r.
              new_fluent_record_set lib unmarshal at t.tag t.field_name format_regexp
                t.record_modifier r b)
            n
        ∙ new_fluent_record_set-no_regexp lib unmarshal at t.tag t.field_name t.record_modifier b in
      rw (panic, scan_stdin) refl

  -- `NewInTail` drops the expression of an input from stdin: whatever the configuration has for
  -- it, in the format "regexp" the first line makes `TailStdin` panic.
  pub new_in_tail-stdin_panics :
      (paths : Paths) (addable : Bytes → Bool) (cwd : Option Bytes) (now : ℕ) (cl : ConfigLogfile)
      (w : Watcher) (at : Time) (b : Bytes) (tokens : List (Time × Bytes)) (problem : Option Bytes)
      → is_stdin cl ≡ true
      → cl.format ≡ format_regexp
      → (t : InTail) × (new_in_tail paths addable cwd now cl w ≡ (w, some t))
        × ((tail_stdin lib unmarshal t ((at, b) ∷ tokens) problem).2 ≡ false)
  unfolding new_in_tail tail_stdin
  new_in_tail-stdin_panics paths addable cwd now cl w at b tokens problem s e = (
    reading_stdin cl,
    rw s refl,
    rw (scan_stdin-no_regexp (reading_stdin cl) at b tokens e refl) refl,
  )
