-- ===== src/Hydra/Tail/Lines.antt =====
-- hydra/file.go: the lines that a tailed file delivers without a format.
use fluent_agent_hydra.Prelude.{
  refl, ◌<◌, ◌≡◌, ap, ◌∙◌, List, [], ◌∷◌, ◌++◌, arith, length, Lacks, u64_mod,
}
use fluent_agent_hydra.Prelude.{split, split-terminated}
use fluent_agent_hydra.Hydra.Format.{format_none, Library}
use fluent_agent_hydra.Hydra.Records.{JsonUnmarshal}
use fluent_agent_hydra.Hydra.Tail.{read_error, read_block, update_stat, got}
use fluent_agent_hydra.Hydra.Tail.{File, at_eof, Read, tail_and_send}
use fluent_agent_hydra.Hydra.Tail.Delivery.{
  read_block-format, event_lines, read_bytes, AllBlocks, GotBytes, ending, AllBlocks-ending,
  Delivers, tail_and_send-Delivers,
}

module _ (lib : Library) (unmarshal : JsonUnmarshal) where
  -- Without a format, with reads of at least one byte, `tailAndSend` reads on to the end of the
  -- file and sends every line that has ended, once and in order, however the reads cut the text
  -- into blocks: the lines sent, each with its newline, and the unfinished rest that is kept
  -- spell what was kept before and what was read, and no line holds a newline. The position
  -- moves by the bytes read.
  pub tail_and_send_lem :
      (reads : List Read) (f : File)
      → f.format ≡ format_none
      → AllBlocks reads
      → Lacks b'\n' f.cont_buf
      → f.position < u64_mod
      → Delivers at_eof f
          (f.cont_buf ++ read_bytes reads)
          (length (read_bytes reads))
          (tail_and_send lib unmarshal f reads)
  tail_and_send_lem reads f n b h p =
      let (whole, got_bytes) = AllBlocks-ending reads b in
      rw whole at (tail_and_send-Delivers lib unmarshal reads f n got_bytes h p)

  -- What is sent depends on the text alone: it is the text cut at its newlines, and the last
  -- piece is kept.
  pub tail_and_send-pieces :
      (reads : List Read) (f : File)
      → f.format ≡ format_none
      → GotBytes reads
      → Lacks b'\n' f.cont_buf
      → f.position < u64_mod
      → let (f', events, outcome) = tail_and_send lib unmarshal f reads in
        (split b'\n' (f.cont_buf ++ read_bytes reads) ≡ event_lines events ++ (f'.cont_buf ∷ []))
        × (outcome ≡ ending reads)
        × Lacks b'\n' f'.cont_buf
        × (f'.position < u64_mod)
  tail_and_send-pieces reads f n b h p =
      let (f', events, outcome) = tail_and_send lib unmarshal f reads in
      let (end, spell, all, lacks, moved) = tail_and_send-Delivers lib unmarshal reads f n b h p in
      (
        ap (split b'\n') spell ∙ split-terminated b'\n' (event_lines events) f'.cont_buf all lacks,
        end,
        lacks,
        omega (arith, moved),
      )

  pub tail_and_send-split :
      (reads : List Read) (f : File)
      → f.format ≡ format_none
      → AllBlocks reads
      → Lacks b'\n' f.cont_buf
      → f.position < u64_mod
      → let (f', events, outcome) = tail_and_send lib unmarshal f reads in
        split b'\n' (f.cont_buf ++ read_bytes reads) ≡ event_lines events ++ (f'.cont_buf ∷ [])
  tail_and_send-split reads f n b h p =
      (tail_and_send-pieces reads f n (AllBlocks-ending reads b).1 h p).0

  -- A call leaves the format as it is.
  pub tail_and_send-format :
      (reads : List Read) (f : File) → (tail_and_send lib unmarshal f reads).0.format ≡ f.format
  unfolding tail_and_send update_stat
  tail_and_send-format [] f = refl
  tail_and_send-format (read_error ∷ reads) f = refl
  tail_and_send-format (got t [] ∷ reads) f = refl
  tail_and_send-format (got t (c ∷ block) ∷ reads) f =
      let f' = (read_block f (c ∷ block)).0 in
      ground (
        arith,
        read_block-format f (c ∷ block),
        tail_and_send-format reads f',
        tail_and_send-format reads (update_stat f').0,
      )
