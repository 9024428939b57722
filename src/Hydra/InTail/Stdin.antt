-- ===== src/Hydra/InTail/Stdin.antt =====
-- hydra/in_tail.go: what `TailStdin` sends without a format.
use fluent_agent_hydra.Prelude.{
  ℕ, ◌+◌, ◌<◌, ◌≡◌, refl, ap, ◌∙◌, true, Option, none, some, List, [], ◌∷◌, ◌++◌, map, Bytes, codes,
  length, add64, u64_mod, arith, All, Lacks,
}
use fluent_agent_hydra.Prelude.{split-Lacks}
use fluent_agent_hydra.Fluent.Value.{Time}
use fluent_agent_hydra.Hydra.Format.{Library, format_none}
use fluent_agent_hydra.Hydra.Records.{JsonUnmarshal, new_fluent_record_set}
use fluent_agent_hydra.Hydra.Records.Plain.{plain_record, new_fluent_record_set-split}
use fluent_agent_hydra.Hydra.Tail.{Event, message, stat}
use fluent_agent_hydra.Hydra.InTail.{InTail, stdin_filename, scan_stdin, tail_stdin}

abbrev pub total_length : List (Time × Bytes) → ℕ
total_length [] = 0
total_length ((at, b) ∷ tokens) = length b + 1 + total_length tokens

-- The events of the tokens: for each, the one record of its line, and the position behind it.
abbrev pub stdin_events : InTail → ℕ → List (Time × Bytes) → List Event
stdin_events t position [] = []
stdin_events t position ((at, b) ∷ tokens) =
    message (record { tag = t.tag; records = plain_record at t.field_name b ∷ [] })
    ∷ stat (record {
      tag = t.tag;
      file = stdin_filename;
      position = position + length b + 1;
      error = [];
    })
    ∷ stdin_events t (position + length b + 1) tokens

module _ (lib : Library) (unmarshal : JsonUnmarshal) where
  record_set_plain :
      (at : Time) (b : Bytes) (t : InTail)
      → t.format ≡ format_none
      → Lacks b'\n' b
      → new_fluent_record_set lib unmarshal at t.tag t.field_name t.format t.record_modifier
          t.regexp b
        ≡ some (record { tag = t.tag; records = plain_record at t.field_name b ∷ [] })
  record_set_plain at b t n h =
      ap
        (λ f.
          new_fluent_record_set lib unmarshal at t.tag t.field_name f t.record_modifier t.regexp b)
        n
      ∙ new_fluent_record_set-split lib unmarshal at t.tag t.field_name t.record_modifier t.regexp b
      ∙ ap (λ ls. some (record { tag = t.tag; records = map (plain_record at t.field_name) ls }))
          (split-Lacks b'\n' b h)

  scan_stdin_lem :
      (tokens : List (Time × Bytes)) (t : InTail)
      → t.format ≡ format_none
      → All (λ token. Lacks b'\n' token.1) tokens
      → t.position + total_length tokens < u64_mod
      → scan_stdin lib unmarshal t tokens ≡ (
        record t { position = t.position + total_length tokens },
        stdin_events t t.position tokens,
        true,
      )
  unfolding scan_stdin
  scan_stdin_lem [] t n h fits = ap (λ p. (record t { position = p }, [], true)) (omega arith)
  scan_stdin_lem ((at, b) ∷ tokens) t n (hb, h) fits =
      let moved : add64 t.position (length b + 1) ≡ t.position + length b + 1 = omega arith in
      let sent = record_set_plain at b t n hb in
      let ih =
        scan_stdin_lem tokens (record t { position = t.position + length b + 1 }) n h
          (omega arith) in
      let whole : t.position + length b + 1 + total_length tokens
          ≡ t.position + (length b + 1 + total_length tokens) =
        omega arith in
      rw (sent, scan_stdin, moved, ih, whole) refl

  -- Without a format `TailStdin` sends one record for each line of the scanner, in order, with the
  -- line as it is when it is sent (the record keeps a slice of the scanner's buffer, which a later
  -- `Scan` may overwrite), each followed by the position behind the line and its newline, after a
  -- first position of 0 and before a last statistic with the position that was reached and the
  -- reason of the end.
  pub tail_stdin_lem :
      (tokens : List (Time × Bytes)) (t : InTail) (problem : Option Bytes)
      → t.format ≡ format_none
      → All (λ token. Lacks b'\n' token.1) tokens
      → t.position + total_length tokens < u64_mod
      → let (last, events, ok) = tail_stdin lib unmarshal t tokens problem in
        (ok ≡ true)
        × (last.position ≡ t.position + total_length tokens)
        × (events
            ≡ stat (record { tag = t.tag; file = t.filename; position = 0; error = [] })
              ∷ (stdin_events t t.position tokens
                  ++ (stat (record {
                    tag = t.tag;
                    file = stdin_filename;
                    position = t.position + total_length tokens;
                    error = elim problem as (λ _. Bytes) [ none ↦ codes "closed" | some e ↦ e ];
                  })
                      ∷ [])))
  unfolding tail_stdin
  tail_stdin_lem tokens t problem n h fits =
      rw (scan_stdin_lem tokens t n h fits) (refl, refl, refl)
