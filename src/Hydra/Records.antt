-- ===== src/Hydra/Records.antt =====
-- hydra/hydra.go: the records that are made of a buffer of log lines. `encoding/json` and
-- `regexp` are parameters; `none` is a panic, which a nil `*Regexp` or a short match gives.
pub mod Ltsv
pub mod Plain
pub mod Expressions
pub mod Forwarded
use fluent_agent_hydra.Prelude.{Bool, Option, none, some, List, [], ◌∷◌, if◌then◌else◌, drop, Bytes}
use fluent_agent_hydra.Prelude.{split, split_two}
use fluent_agent_hydra.Fluent.Value.{Time, Value, Fields, no_fields, insert}
use fluent_agent_hydra.Fluent.Record.{
  FluentRecordType, tiny, tiny_message, TinyFluentRecord, FluentRecordSet,
}
use fluent_agent_hydra.Hydra.Format.{
  FileFormat, format_none, format_ltsv, format_json, format_regexp, Library, RecordModifier, modify,
}

-- A compiled regular expression: the names of its groups, and the groups of a match.
pub record Regexp : Type 0 where
  pub subexp_names : List Bytes
  pub find_string_submatch : Bytes → Option (List Bytes)

-- `json.Unmarshal` into an empty map: what it leaves in the map, and whether it failed.
abbrev pub JsonUnmarshal : Type 0
JsonUnmarshal = Bytes → Fields × Bool

-- The loop of `NewFluentRecordLTSV` over the columns of the line `s`.
unfoldable pub ltsv_columns : Bytes → Bytes → List Bytes → Fields → Fields
ltsv_columns key s [] fs = fs
ltsv_columns key s ([] ∷ cols) fs = ltsv_columns key s cols fs
ltsv_columns key s ((c ∷ col) ∷ cols) fs =
    ltsv_columns key s cols (elim (split_two b':' (c ∷ col)) [
      | some (k, v) ↦ insert k (Value.string v) fs
      | none ↦ insert key (Value.string s) fs
    ])

unfoldable pub new_fluent_record_ltsv : Bytes → Bytes → Fields
unfolding ltsv_columns
new_fluent_record_ltsv key line = ltsv_columns key line (split b'\t' line) no_fields

unfoldable pub new_fluent_record_json : JsonUnmarshal → Bytes → Bytes → Fields
new_fluent_record_json unmarshal key line =
    let (fs, failed) = unmarshal line in if failed then insert key (Value.string line) fs else fs

-- `data[name] = match[i]` for the names and groups behind the first.
unfoldable pub regexp_fields : List Bytes → List Bytes → Fields → Option Fields
regexp_fields [] groups fs = some fs
regexp_fields (name ∷ names) [] fs = none
regexp_fields (name ∷ names) (g ∷ groups) fs =
    regexp_fields names groups (insert name (Value.string g) fs)

unfoldable pub new_fluent_record_regexp : Bytes → Bytes → Option Regexp → Option Fields
unfolding regexp_fields
new_fluent_record_regexp key line none = none
new_fluent_record_regexp key line (some r) = elim (r.find_string_submatch line) [
  | none ↦ some (insert key (Value.string line) no_fields)
  | some groups ↦ regexp_fields (drop 1 r.subexp_names) (drop 1 groups) no_fields
]

module _ (lib : Library) (unmarshal : JsonUnmarshal) where
  abbrev pub modified : Option RecordModifier → TinyFluentRecord → FluentRecordType
  modified none r = tiny r
  modified (some m) r = tiny (modify lib m r)

  -- One round of the loop of `NewFluentRecordSet`.
  unfoldable pub new_record :
      Time
      → Bytes
      → FileFormat
      → Option RecordModifier
      → Option Regexp
      → Bytes
      → Option FluentRecordType
  unfolding new_fluent_record_regexp
  new_record t key format_none mod' reg msg =
      some (tiny_message (record { timestamp = t; field_name = key; message = msg }))
  new_record t key format_ltsv mod' reg msg =
      some (modified mod' (record { timestamp = t; fields = new_fluent_record_ltsv key msg }))
  new_record t key format_json mod' reg msg =
      some (
        modified mod' (record { timestamp = t; fields = new_fluent_record_json unmarshal key msg }))
  new_record t key format_regexp mod' reg msg = elim (new_fluent_record_regexp key msg reg) [
    | none ↦ none
    | some fs ↦ some (modified mod' (record { timestamp = t; fields = fs }))
  ]

  unfoldable pub new_records :
      Time
      → Bytes
      → FileFormat
      → Option RecordModifier
      → Option Regexp
      → List Bytes
      → Option (List FluentRecordType)
  new_records t key format mod' reg [] = some []
  new_records t key format mod' reg (msg ∷ msgs) =
      let rest = new_records t key format mod' reg msgs in
      elim (new_record t key format mod' reg msg) [
        | none ↦ none
        | some r ↦ elim rest [ none ↦ none | some rs ↦ some (r ∷ rs) ]
      ]

  unfoldable pub new_fluent_record_set :
      Time
      → Bytes
      → Bytes
      → FileFormat
      → Option RecordModifier
      → Option Regexp
      → Bytes
      → Option FluentRecordSet
  unfolding new_records
  new_fluent_record_set t tag key format mod' reg buffer =
      elim (new_records t key format mod' reg (split b'\n' buffer)) [
        | none ↦ none
        | some rs ↦ some (record { tag = tag; records = rs })
      ]
