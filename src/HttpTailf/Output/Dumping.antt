-- ===== src/HttpTailf/Output/Dumping.antt =====
-- cmd/fluent-http-tailf/main.go: what `runDumper` leaves in the files.
use fluent_agent_hydra.Prelude.{
  ◌≤◌, ◌≡◌, ◌≢◌, refl, sym, ap, ◌∙◌, true, Bool-cases, ◌⊎◌, inl, inr, Option, none, some, List, [],
  ◌∷◌, ◌++◌, append-nil, append_assoc, Bytes, bytes_eq, bytes_eq_iff, length, All, if◌then◌else◌,
}
use fluent_agent_hydra.Prelude.Dict
use fluent_agent_hydra.Prelude.Dict.{lookup-insert}
use fluent_agent_hydra.Fluent.Value.{Time}
use fluent_agent_hydra.Ltsv.{Writer}
use fluent_agent_hydra.Ltsv.Chunks.{joined}
use fluent_agent_hydra.HttpTailf.Output.{
  OutputOption, Encoder, open_file, Dumper, Dump, contents, content, dump_name, dump_into, dump_set,
  run_dumper,
}
use fluent_agent_hydra.HttpTailf.Output.Text.{Writes, IsTiny, set_chunks, dump_records_lem}

-- A file is open, or nothing came yet.
abbrev pub IsOpen : Dumper → Type 0
IsOpen s = (s.fh ≡ open_file) ⊎ (s.filename ≡ [])

-- To append to one file changes no other.
content-insert :
    (at name text more : Bytes) (files : List (Bytes × Bytes))
    → text ≡ contents (Dict.lookup at files) ++ more
    → contents (Dict.lookup name (Dict.insert at text files))
      ≡ contents (Dict.lookup name files) ++ (if bytes_eq at name then more else [])
content-insert at name text more files h = elim (Bool-cases (bytes_eq at name)) [
  | inl e ↦
      rw (lookup-insert at name text files, e)
        (h ∙ ap (λ k. contents (Dict.lookup k files) ++ more) ((bytes_eq_iff at name).0 e))
  | inr e ↦
      rw (lookup-insert at name text files, e)
        (sym (append-nil (contents (Dict.lookup name files))))
]

module _ (join : Bytes → Bytes → Bytes) (dir : Bytes) (rfc3339 : Time → Bytes)
    (option : OutputOption) {encoder : Encoder} (writes : Writes encoder) where
  abbrev pub text_of_dump : Dump → Bytes
  text_of_dump d = joined (set_chunks rfc3339 option d.record_set.tag writes d.record_set.records)

  -- `filepath.Join` of the directory and the tag, a dot and the hour.
  abbrev pub name_of_dump : Dump → Bytes
  name_of_dump d = join dir (d.record_set.tag ++ (b'.' ∷ d.hour))

  -- What comes for the file, in order.
  abbrev pub text_for : Bytes → List Dump → Bytes
  text_for name [] = []
  text_for name (d ∷ dumps) =
      (if bytes_eq (name_of_dump d) name then text_of_dump d else []) ++ text_for name dumps

  -- Records as `DecodeEntries` makes them, and no error of the file system.
  pub record IsFine (d : Dump) : Type 0 where
    pub named : name_of_dump d ≢ []
    pub opened : d.opens ≡ true
    pub tiny_records : All IsTiny d.record_set.records
    pub enough :
        length (set_chunks rfc3339 option d.record_set.tag writes d.record_set.records) ≤ d.good

  -- What a round leaves of `name`.
  abbrev Appends : Bytes → Dump → Dumper → Dumper → Type 0
  Appends name d s s' =
      IsOpen s'
      × (content name s'
          ≡ content name s ++ (if bytes_eq (name_of_dump d) name then text_of_dump d else []))

  open-Appends :
      (d : Dump) (s : Dumper) (name : Bytes)
      → IsFine d
      → s.filename ≡ name_of_dump d
      → s.fh ≡ open_file
      → (s' : Dumper) × (dump_into join dir rfc3339 encoder option open_file d s ≡ some s')
        × Appends name d s s'
  unfolding dump_into
  open-Appends d s name h at is_open =
      let rs = d.record_set in
      let text = content s.filename s ++ text_of_dump d in
      let w : Writer = record { written = content s.filename s; good = d.good } in
      (
        record s { files = Dict.insert s.filename text s.files },
        rw (dump_records_lem rfc3339 option rs.tag writes rs.records w h.tiny_records h.enough)
            refl,
        (
          inl is_open,
          content-insert s.filename name text (text_of_dump d) s.files refl
              ∙ ap (λ k. content name s ++ (if bytes_eq k name then text_of_dump d else [])) at,
        ),
      )

  set-Appends :
      (d : Dump) (s : Dumper) (name : Bytes)
      → IsFine d
      → IsOpen s
      → (s' : Dumper) × (dump_set join dir rfc3339 encoder option d s ≡ some s')
        × Appends name d s s'
  unfolding dump_set dump_name
  set-Appends d s name h is_open = elim (Bool-cases (bytes_eq s.filename (name_of_dump d))) [
    | inl e ↦
        let at = (bytes_eq_iff s.filename (name_of_dump d)).0 e in
        let handle : s.fh ≡ open_file = elim is_open [
          | inl same ↦ same
          | inr empty ↦ absurd (h.named (sym at ∙ empty))
        ] in
        let (s', eq, appends) = open-Appends d s name h at handle in
        rw e (s', ap (λ f. dump_into join dir rfc3339 encoder option f d s) handle ∙ eq, appends)
    | inr e ↦
        let opened : Dumper = record s { filename = name_of_dump d; fh = open_file } in
        rw (e, h.opened) (open-Appends d opened name h refl refl)
  ]

  -- The rest of a run.
  abbrev next_dumps : List Dump → Option Dumper → Option Dumper
  next_dumps dumps none = none
  next_dumps dumps (some s) = run_dumper join dir rfc3339 encoder option dumps s

  -- When no open and no write fails, the encoder makes a list of writes for each record, all
  -- records are such as `DecodeEntries` makes, no file name is empty, and at the start a file is
  -- open or none was named: there is no panic, and every file holds what was in it at the start, then, for each record set of whose tag, a dot
  -- and the hour in which it came `filepath.Join` makes with the directory the name of that file,
  -- in order, the text of its records, and no other text.
  pub run_dumper_lem :
      (dumps : List Dump) (s : Dumper) (name : Bytes)
      → All IsFine dumps
      → IsOpen s
      → (s' : Dumper) × (run_dumper join dir rfc3339 encoder option dumps s ≡ some s')
        × (content name s' ≡ content name s ++ text_for name dumps)
  unfolding run_dumper
  run_dumper_lem [] s name h is_open = (s, refl, sym (append-nil (content name s)))
  run_dumper_lem (d ∷ dumps) s name h is_open =
      let (s1, eq, (is_open1, at1)) = set-Appends d s name h.0 is_open in
      let (s2, rest, at2) = run_dumper_lem dumps s1 name h.1 is_open1 in
      let own = if bytes_eq (name_of_dump d) name then text_of_dump d else [] in
      (
        s2,
        ap (next_dumps dumps) eq ∙ rest,
        at2
            ∙ ap (λ t. t ++ text_for name dumps) at1
            ∙ append_assoc (content name s) own (text_for name dumps),
      )
