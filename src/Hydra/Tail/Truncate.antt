-- ===== src/Hydra/Tail/Truncate.antt =====
-- hydra/file.go: what `restrict` does when the file was truncated.
use fluent_agent_hydra.Prelude.{◌⊎◌}
use fluent_agent_hydra.Prelude.{
  ℕ, ◌≤◌, ◌<◌, ◌≡◌, refl, subst, inl, inr, none, some, List, [], ◌∷◌, ◌++◌, arith, Bool-cases,
  Lacks, i64_limit, lt64,
}
use fluent_agent_hydra.Prelude.{split}
use fluent_agent_hydra.Hydra.Format.{format_none, Library}
use fluent_agent_hydra.Hydra.Records.{JsonUnmarshal}
use fluent_agent_hydra.Hydra.Tail.{File, restrict, Read, tail_and_send}
use fluent_agent_hydra.Hydra.Tail.Delivery.{AllBlocks, read_bytes, event_lines}
use fluent_agent_hydra.Hydra.Tail.Lines.{tail_and_send-split}

-- A size and a position that an int64 holds.
abbrev pub InRange : ℕ → ℕ → Type 0
InRange size position = (size < i64_limit) × (position < i64_limit)

-- With a size and a position below 2 ^ 63, `restrict` seeks to the start exactly when the file is shorter than the position, so that
-- afterwards the position lies within the file; without a size it is the error. The unfinished
-- line in the buffer stays in every case.
pub restrict_lem :
    (f : File) (size : ℕ)
    → InRange size f.position
    → (restrict f none ≡ none)
      × (f' : File) × (restrict f (some size) ≡ some f')
      × (f'.position ≤ size)
      × (((f.position ≤ size) × (f' ≡ f)) ⊎ ((size < f.position) × (f'.position ≡ 0)))
      × (f'.cont_buf ≡ f.cont_buf)
unfolding restrict
restrict_lem f size h = elim (Bool-cases (lt64 size f.position)) [
  | inl e ↦
      (refl, record f { position = 0 }, rw e refl, omega arith, inr (ground arith, refl), refl)
  | inr e ↦ (refl, f, rw e refl, ground arith, inl (ground arith, refl), refl)
]

rewound :
    (f : File) (size : ℕ)
    → InRange size f.position
    → size < f.position
    → restrict f (some size) ≡ some (record f { position = 0 })
unfolding restrict
rewound f size h lt = ground arith

-- After a truncation below the position, without a format and with reads of at least one byte,
-- the lines sent next and the rest kept are those of the unfinished line of the old text with
-- the new text behind it, as one text.
pub truncated_line :
    (lib : Library) (unmarshal : JsonUnmarshal) (f f' : File) (size : ℕ) (reads : List Read)
    → f.format ≡ format_none
    → InRange size f.position
    → size < f.position
    → Lacks b'\n' f.cont_buf
    → restrict f (some size) ≡ some f'
    → AllBlocks reads
    → let (last, events, outcome) = tail_and_send lib unmarshal f' reads in
      split b'\n' (f.cont_buf ++ read_bytes reads) ≡ event_lines events ++ (last.cont_buf ∷ [])
truncated_line lib unmarshal f f' size reads n h lt lacks e b =
    let start : File = record f { position = 0 } in
    let q : start ≡ f' = cc (rewound f size h lt) in
    subst
      (λ (g : File).
        split b'\n' (f.cont_buf ++ read_bytes reads)
        ≡ event_lines (tail_and_send lib unmarshal g reads).1
          ++ ((tail_and_send lib unmarshal g reads).0.cont_buf ∷ []))
      q (tail_and_send-split lib unmarshal reads start n b lacks (omega arith))
