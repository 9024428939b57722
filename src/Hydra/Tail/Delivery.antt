-- ===== src/Hydra/Tail/Delivery.antt =====
-- hydra/file.go: a call of `tailAndSend` without a format, read by read.
use fluent_agent_hydra.Prelude.{
  ℕ, ◌<◌, ◌≡◌, refl, sym, ap, subst, ◌∙◌, inl, inr, none, some, List, [], ◌∷◌, ◌++◌, map,
  append-nil, append_assoc, arith, Option-cases, length, All, length-append, All-append, Bytes,
  Lacks, u64_mod, add64,
}
use fluent_agent_hydra.Prelude.{split, terminated, split-All-Lacks}
use fluent_agent_hydra.Fluent.Value.{Time}
use fluent_agent_hydra.Fluent.Record.{FluentRecordType, tiny_message, FluentRecordSet}
use fluent_agent_hydra.Hydra.Format.{format_none, Library}
use fluent_agent_hydra.Hydra.Records.{JsonUnmarshal}
use fluent_agent_hydra.Hydra.Records.Plain.{plain_record, new_fluent_record_set-split}
use fluent_agent_hydra.Hydra.Tail.{
  File, FileStat, read_block, update_stat, Event, message, stat, Outcome, at_eof, failed, Read, got,
  read_error, record_set_of, tail_and_send,
}
use fluent_agent_hydra.Hydra.Tail.Blocks.{read_block_lem}

abbrev pub record_line : FluentRecordType → Bytes
record_line (tiny_message r) = r.message
record_line _ = []

-- The raw lines in the record sets that were sent.
abbrev pub event_lines : List Event → List Bytes
event_lines [] = []
event_lines (message rs ∷ es) = map record_line rs.records ++ event_lines es
event_lines (stat s ∷ es) = event_lines es

-- Every read gave some bytes.
abbrev pub AllBlocks : List Read → Type 0
AllBlocks [] = Unit {0}
AllBlocks (read_error ∷ reads) = ⊥
AllBlocks (got t [] ∷ reads) = ⊥
AllBlocks (got t (c ∷ block) ∷ reads) = AllBlocks reads

abbrev pub read_bytes : List Read → Bytes
read_bytes [] = []
read_bytes (read_error ∷ reads) = []
read_bytes (got t block ∷ reads) = block ++ read_bytes reads

-- Every read gave some bytes, up to the first that failed.
abbrev pub GotBytes : List Read → Type 0
GotBytes [] = Unit {0}
GotBytes (read_error ∷ reads) = Unit {0}
GotBytes (got t [] ∷ reads) = ⊥
GotBytes (got t (c ∷ block) ∷ reads) = GotBytes reads

-- How the reads end.
abbrev pub ending : List Read → Outcome
ending [] = at_eof
ending (read_error ∷ reads) = failed
ending (got t block ∷ reads) = ending reads

pub AllBlocks-ending :
    (reads : List Read) → AllBlocks reads → (ending reads ≡ at_eof) × GotBytes reads
AllBlocks-ending [] h = (refl, tt)
AllBlocks-ending (read_error ∷ reads) h = absurd h
AllBlocks-ending (got t [] ∷ reads) h = absurd h
AllBlocks-ending (got t (c ∷ block) ∷ reads) h = AllBlocks-ending reads h

-- What a call leaves: the lines that it sent, each with a newline, and the rest in the buffer
-- spell the text; no line and no rest holds a newline; the position has moved by the bytes read.
abbrev pub Delivers : Outcome → File → Bytes → ℕ → File × List Event × Outcome → Type 0
Delivers end f text size (f', events, outcome) =
    (outcome ≡ end)
    × (text ≡ terminated b'\n' (event_lines events) ++ f'.cont_buf)
    × All (Lacks b'\n') (event_lines events)
    × Lacks b'\n' f'.cont_buf
    × (f'.position ≡ add64 f.position size)

pub record_lines :
    (t : Time) (key : Bytes) (lines : List Bytes)
    → map record_line (map (plain_record t key) lines) ≡ lines
record_lines t key [] = refl
record_lines t key (l ∷ ls) = ap (λ m. l ∷ m) (record_lines t key ls)

pub terminated-append :
    (ps qs : List Bytes) → terminated b'\n' (ps ++ qs) ≡ terminated b'\n' ps ++ terminated b'\n' qs
terminated-append [] qs = refl
terminated-append (p ∷ ps) qs = rw (terminated-append ps qs) (sym (append_assoc p _ _))

pub read_block-format : (f : File) (block : Bytes) → (read_block f block).0.format ≡ f.format
unfolding read_block
read_block-format f block = ground arith

module _ (lib : Library) (unmarshal : JsonUnmarshal) where
  abbrev pub plain_set : File → Time → Bytes → FluentRecordSet
  plain_set f t buf = record {
    tag = f.tag;
    records = map (plain_record t f.field_name) (split b'\n' buf);
  }

  record_set_of-plain :
      (f : File) (t : Time) (buf : Bytes)
      → f.format ≡ format_none
      → record_set_of lib unmarshal f t buf ≡ some (plain_set f t buf)
  unfolding record_set_of
  record_set_of-plain f t buf e = rw e (
      new_fluent_record_set-split lib unmarshal t f.tag f.field_name f.record_modifier f.regexp buf)

  -- A round that sends nothing.
  pub tail_and_send-none :
      (f : File) (t : Time) (c : ℕ) (block : Bytes) (reads : List Read)
      → (read_block f (c ∷ block)).1 ≡ none
      → tail_and_send lib unmarshal f (got t (c ∷ block) ∷ reads)
        ≡ tail_and_send lib unmarshal (read_block f (c ∷ block)).0 reads
  unfolding tail_and_send
  tail_and_send-none f t c block reads e = ground (arith, e)

  -- A round that sends a record set and the new position.
  pub tail_and_send-some :
      (f : File) (t : Time) (c : ℕ) (block : Bytes) (reads : List Read) (buf : Bytes)
      → (read_block f (c ∷ block)).1 ≡ some buf
      → (read_block f (c ∷ block)).0.format ≡ format_none
      → let f' = (read_block f (c ∷ block)).0 in
        let (f'', sent) = update_stat f' in
        let (last, events, outcome) = tail_and_send lib unmarshal f'' reads in
        tail_and_send lib unmarshal f (got t (c ∷ block) ∷ reads)
        ≡ (last, message (plain_set f' t buf) ∷ stat sent ∷ events, outcome)
  unfolding tail_and_send
  tail_and_send-some f t c block reads buf e n =
      rw (e, tail_and_send, record_set_of-plain (read_block f (c ∷ block)).0 t buf n)

  Delivers-none :
      (end : Outcome) (f : File) (block rest : Bytes) (out : File × List Event × Outcome)
      → Lacks b'\n' f.cont_buf
      → f.position < u64_mod
      → (read_block f block).1 ≡ none
      → Delivers end
          (read_block f block).0
          ((read_block f block).0.cont_buf ++ rest)
          (length rest)
          out
      → Delivers end f (f.cont_buf ++ (block ++ rest)) (length (block ++ rest)) out
  Delivers-none end f block rest out h p e (a, spell, all, lacks, pos) =
      let (_, cut, moved) = read_block_lem f block h in
      let whole : f.cont_buf ++ block ≡ (read_block f block).0.cont_buf = rw e at cut in
      (
        a,
        sym (append_assoc f.cont_buf block rest) ∙ ap (λ b. b ++ rest) whole ∙ spell,
        all,
        lacks,
        omega (arith, pos, moved, length-append block rest),
      )

  Delivers-some :
      (end : Outcome) (f : File) (block rest buf : Bytes) (last : File) (events : List Event)
      (outcome : Outcome) (t : Time) (sent : FileStat)
      → Lacks b'\n' f.cont_buf
      → f.position < u64_mod
      → (read_block f block).1 ≡ some buf
      → let f' = (read_block f block).0 in
        Delivers end f' (f'.cont_buf ++ rest) (length rest) (last, events, outcome)
        → Delivers end f
            (f.cont_buf ++ (block ++ rest))
            (length (block ++ rest))
            (last, message (plain_set f' t buf) ∷ stat sent ∷ events, outcome)
  Delivers-some end f block rest buf last events outcome t sent h p e (a, spell, all, lacks, pos) =
      let f' = (read_block f block).0 in
      let lines = split b'\n' buf in
      let (_, cut, moved) = read_block_lem f block h in
      let whole : f.cont_buf ++ block ≡ terminated b'\n' lines ++ f'.cont_buf = rw e at cut in
      let same : event_lines (message (plain_set f' t buf) ∷ stat sent ∷ events)
          ≡ lines ++ event_lines events =
        ap (λ l. l ++ event_lines events) (record_lines t f'.field_name lines) in
      (
        a,
        sym (append_assoc f.cont_buf block rest)
            ∙ ap (λ b. b ++ rest) whole
            ∙ append_assoc (terminated b'\n' lines) f'.cont_buf rest
            ∙ ap (λ b. terminated b'\n' lines ++ b) spell
            ∙ sym (
                append_assoc (terminated b'\n' lines) (terminated b'\n' (event_lines events))
                  last.cont_buf)
            ∙ ap (λ b. b ++ last.cont_buf) (sym (terminated-append lines (event_lines events)))
            ∙ ap (λ l. terminated b'\n' l ++ last.cont_buf) (sym same),
        subst (All (Lacks b'\n')) (sym same)
            (All-append (Lacks b'\n') lines (event_lines events) (split-All-Lacks b'\n' buf) all),
        lacks,
        omega (arith, pos, moved, length-append block rest),
      )

  -- A call on reads that end with the end of the file or with an error.
  pub tail_and_send-Delivers :
      (reads : List Read) (f : File)
      → f.format ≡ format_none
      → GotBytes reads
      → Lacks b'\n' f.cont_buf
      → f.position < u64_mod
      → Delivers
          (ending reads)
          f
          (f.cont_buf ++ read_bytes reads)
          (length (read_bytes reads))
          (tail_and_send lib unmarshal f reads)
  unfolding update_stat
  tail_and_send-Delivers [] f n b h p =
      unfold tail_and_send in (refl, append-nil f.cont_buf, tt, h, omega arith)
  tail_and_send-Delivers (read_error ∷ reads) f n b h p =
      unfold tail_and_send in (refl, append-nil f.cont_buf, tt, h, omega arith)
  tail_and_send-Delivers (got t [] ∷ reads) f n b h p = absurd b
  tail_and_send-Delivers (got t (c ∷ block) ∷ reads) f n b h p =
      let f' = (read_block f (c ∷ block)).0 in
      let f'' = (update_stat f').0 in
      let end = ending reads in
      let out = tail_and_send lib unmarshal f'' reads in
      let n' : f'.format ≡ format_none = read_block-format f (c ∷ block) ∙ n in
      let (lacks, _, moved) = read_block_lem f (c ∷ block) h in
      let p' : f'.position < u64_mod = omega arith in
      elim (Option-cases (read_block f (c ∷ block)).1) [
        | inl e ↦ subst (Delivers end f _ _) (sym (tail_and_send-none f t c block reads e)) (
            Delivers-none end f (c ∷ block) (read_bytes reads)
              (tail_and_send lib unmarshal f' reads) h p e
              (tail_and_send-Delivers reads f' n' b lacks p'))
        | inr (buf, e) ↦
            subst (Delivers end f _ _) (sym (tail_and_send-some f t c block reads buf e n')) (
              Delivers-some end f (c ∷ block) (read_bytes reads) buf out.0 out.1 out.2 t
                (update_stat f').1 h p e (tail_and_send-Delivers reads f'' n' b lacks p'))
      ]
