-- ===== src/HttpTailf/Output.antt =====
-- cmd/fluent-http-tailf/main.go: record sets written as text, to a client or to the dump file.
-- `Time.Format(time.RFC3339)` is the parameter `rfc3339`, and the JSON text of a record, if there
-- is one, `json`. `none` is the panic of a record that is no `TinyFluentRecord`.
pub mod Text
pub mod Dumping
use fluent_agent_hydra.Prelude.{
  ℕ, Bool, true, false, Option, none, some, List, [], ◌∷◌, ◌++◌, Bytes, codes, bytes_eq,
  if◌then◌else◌,
}
use fluent_agent_hydra.Prelude.Dict
use fluent_agent_hydra.Fluent.Value.{Value, Fields, Time}
use fluent_agent_hydra.Fluent.Record.{FluentRecordType, tiny, FluentRecordSet}
use fluent_agent_hydra.Ltsv.{Writer, Write, fprint, encode}

pub record OutputOption : Type 0 where
  pub include_time : Bool
  pub include_tag : Bool

-- `Encode` of an encoder that has its writer.
abbrev pub Encoder : Type 0
Encoder = Fields → Write

-- `json.NewEncoder(w).Encode(data)`: a line in one write, or an error.
unfoldable pub json_encoder : (Fields → Option Bytes) → Encoder
json_encoder json fs w = elim (json fs) [
  | none ↦ (w, false)
  | some text ↦ fprint (text ++ (b'\n' ∷ [])) w
]

unfoldable pub ltsv_encoder : (Value → Bytes) → Encoder
ltsv_encoder print fs w = encode print (Value.object fs) w

module _ (rfc3339 : Time → Bytes) where
  -- The writes in front of a record; their errors are ignored.
  unfoldable pub print_prefix : OutputOption → Bytes → Time → Writer → Writer
  print_prefix option tag ts w =
      let timed = (fprint (rfc3339 ts ++ (b'\t' ∷ [])) w).0 in
      let w' = if option.include_time then timed else w in
      let tagged = (fprint (tag ++ (b'\t' ∷ [])) w').0 in if option.include_tag then tagged else w'

  module _ (encoder : Encoder) (option : OutputOption) (tag : Bytes) where
    -- The loop of `writeResponse`; the flag says that there was no error.
    unfoldable pub write_response : List FluentRecordType → Writer → Option (Writer × Bool)
    unfolding print_prefix
    write_response [] w = some (w, true)
    write_response (tiny r ∷ records) w =
        let (w', fine) = encoder r.fields (print_prefix option tag r.timestamp w) in
        let rest = write_response records w' in if fine then rest else some (w', false)
    write_response (_ ∷ records) w = none

    -- The loop over the records in `runDumper`, which goes on after an error.
    unfoldable pub dump_records : List FluentRecordType → Writer → Option Writer
    unfolding print_prefix
    dump_records [] w = some w
    dump_records (tiny r ∷ records) w =
        dump_records records (encoder r.fields (print_prefix option tag r.timestamp w)).0
    dump_records (_ ∷ records) w = none

-- `fh`: nil; the nil pointer of a failed `os.OpenFile`, which as an `io.WriteCloser` is not nil;
-- or an open file.
pub data FileHandle : Type 0 where
  no_file bad_file open_file : FileHandle

-- The variables of `runDumper`, and the contents of the files.
pub record Dumper : Type 0 where
  pub filename : Bytes
  pub fh : FileHandle
  pub files : List (Bytes × Bytes)

abbrev pub new_dumper : List (Bytes × Bytes) → Dumper
new_dumper files = record { filename = []; fh = no_file; files = files }

-- What comes through `DumpCh`, with the hour at that time, whether `os.OpenFile` succeeds and how
-- many writes do.
pub record Dump : Type 0 where
  pub record_set : FluentRecordSet
  pub hour : Bytes
  pub opens : Bool
  pub good : ℕ

abbrev pub contents : Option Bytes → Bytes
contents none = []
contents (some text) = text

abbrev pub content : Bytes → Dumper → Bytes
content name s = contents (Dict.lookup name s.files)

-- What was appended to the open file.
abbrev pub saved : Dumper → Option Writer → Option Dumper
saved s none = none
saved s (some w) = some (record s { files = Dict.insert s.filename w.written s.files })

abbrev pub unsaved : Dumper → Option Writer → Option Dumper
unsaved s none = none
unsaved s (some w) = some s

-- `filepath.Join` is the parameter `join`.
unfoldable pub dump_name : (Bytes → Bytes → Bytes) → Bytes → Bytes → Bytes → Bytes
dump_name join dir tag hour = join dir (tag ++ (b'.' ∷ hour))

module _ (join : Bytes → Bytes → Bytes) (dir : Bytes) (rfc3339 : Time → Bytes) (encoder : Encoder)
    (option : OutputOption) where
  -- The writes of a round, by what `fh` is.
  unfoldable pub dump_into : FileHandle → Dump → Dumper → Option Dumper
  dump_into no_file d s = some s
  dump_into bad_file d s = unsaved s (
      dump_records rfc3339 encoder option d.record_set.tag d.record_set.records
        (record { written = []; good = 0 }))
  dump_into open_file d s = saved s (
      dump_records rfc3339 encoder option d.record_set.tag d.record_set.records
        (record { written = content s.filename s; good = d.good }))

  -- A round of the loop of `runDumper`.
  unfoldable pub dump_set : Dump → Dumper → Option Dumper
  unfolding dump_name dump_into
  dump_set d s =
      let name = dump_name join dir d.record_set.tag d.hour in
      let opened : Dumper = record s { filename = name; fh = open_file } in
      let failed : Dumper = record s { filename = name; fh = bad_file } in
      if bytes_eq s.filename name
      then dump_into s.fh d s
      else if d.opens
      then dump_into open_file d opened
      else some failed

  unfoldable pub run_dumper : List Dump → Dumper → Option Dumper
  run_dumper [] s = some s
  run_dumper (d ∷ dumps) s = elim (dump_set d s) [ none ↦ none | some s' ↦ run_dumper dumps s' ]
