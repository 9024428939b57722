-- ===== src/Hydra/Tail.antt =====
-- hydra/file.go: a tailed file. What the operating system gives is an argument: the size that
-- `Stat` reports, the position that `Seek` returns and the blocks that the reads return. A
-- channel send is an event, in order; the log output is left out.
pub mod Blocks
pub mod Delivery
pub mod Lines
pub mod Truncate
use fluent_agent_hydra.Prelude.{
  ◌==◌, u64_mod, ◌-◌, ℕ, ◌+◌, Bool, false, Option, none, some, List, [], ◌∷◌, ◌++◌, if◌then◌else◌,
  length, take, drop, Bytes, add64, lt64, last_index,
}
use fluent_agent_hydra.Hydra.Format.{format_none}
use fluent_agent_hydra.Fluent.Value.{Time}
use fluent_agent_hydra.Fluent.Record.{FluentRecordSet}
use fluent_agent_hydra.Hydra.Format.{FileFormat, Library, RecordModifier}
use fluent_agent_hydra.Hydra.Records.{Regexp, JsonUnmarshal, new_fluent_record_set}

-- `FileStat`, as it is sent.
pub record FileStat : Type 0 where
  pub tag : Bytes
  pub file : Bytes
  pub position : ℕ
  pub error : Bytes

-- `File` without the open file, the read buffer and the last `os.FileInfo`; the position is an
-- int64 word.
pub record File : Type 0 where
  pub path : Bytes
  pub tag : Bytes
  pub position : ℕ
  pub cont_buf : Bytes
  pub field_name : Bytes
  pub file_stat : FileStat
  pub format : FileFormat
  pub record_modifier : Option RecordModifier
  pub regexp : Option Regexp

abbrev pub seek_tail : ℕ
seek_tail = u64_mod - 1

abbrev pub seek_head : ℕ
seek_head = 0

-- The file that `openFile` makes of a file of the given size that it can open. A seek gives the position that it is asked for.
unfoldable pub new_file : Bytes → ℕ → ℕ → File
new_file path start size = record {
  path = path;
  tag = [];
  position = if start == seek_tail then size else start;
  cont_buf = [];
  field_name = [];
  file_stat = record { tag = []; file = []; position = 0; error = [] };
  format = format_none;
  record_modifier = none;
  regexp = none;
}

-- `restrict`: the size of the file, or nothing if `Stat` failed. A seek to the start gives 0.
unfoldable pub restrict : File → Option ℕ → Option File
restrict f none = none
restrict f (some size) = if lt64 size f.position then some (record f { position = 0 }) else some f

unfoldable pub update_stat : File → File × FileStat
update_stat f =
    let stat = record f.file_stat { file = f.path; position = f.position; tag = f.tag } in
    (record f { file_stat = stat }, stat)

-- Whether the last byte of a block is a newline.
unfoldable pub ends_in_newline : Bytes → Bool
ends_in_newline [] = false
ends_in_newline (c ∷ []) = c == b'\n'
ends_in_newline (c ∷ d ∷ s) = ends_in_newline (d ∷ s)

-- One round of the loop of `tailAndSend`, for a block that was read: the file afterwards, and
-- the buffer to send, if the round does not `continue`.
unfoldable pub read_block : File → Bytes → File × Option Bytes
unfolding ends_in_newline
read_block f0 block =
    let n = length block in
    let f = record f0 { position = add64 f0.position n } in
    if ends_in_newline block
    then (record f { cont_buf = [] }, some (f.cont_buf ++ take (n - 1) block))
    else elim (last_index b'\n' block) [
      | none ↦ (record f { cont_buf = f.cont_buf ++ block }, none)
      | some block_len ↦ (
        record f { cont_buf = drop (block_len + 1) block },
        some (f.cont_buf ++ take block_len block),
      )
    ]

-- What is sent on the two channels.
pub data Event : Type 0 where
  message : FluentRecordSet → Event
  stat : FileStat → Event

-- How a call of `tailAndSend` ends.
pub data Outcome : Type 0 where
  at_eof failed panicked : Outcome

-- A read: at least one byte, at a time of the clock, or an error. After the last one comes the
-- end of the file.
pub data Read : Type 0 where
  got : Time → Bytes → Read
  read_error : Read

module _ (lib : Library) (unmarshal : JsonUnmarshal) where
  unfoldable pub record_set_of : File → Time → Bytes → Option FluentRecordSet
  record_set_of f t send_buf =
      new_fluent_record_set lib unmarshal t f.tag f.field_name f.format f.record_modifier f.regexp
        send_buf

  unfoldable pub tail_and_send : File → List Read → File × List Event × Outcome
  tail_and_send f [] = (f, [], at_eof)
  tail_and_send f (read_error ∷ reads) = (f, [], failed)
  tail_and_send f (got t [] ∷ reads) = (f, [], at_eof)
  tail_and_send f (got t (c ∷ block) ∷ reads) =
      let (f', send_buf) = read_block f (c ∷ block) in
      let (f'', sent) = update_stat f' in
      let skipped = tail_and_send f' reads in
      let (last, events, outcome) = tail_and_send f'' reads in
      elim send_buf [
        | none ↦ skipped
        | some buf ↦ elim (record_set_of f' t buf) [
          | none ↦ (f', [], panicked)
          | some rs ↦ (last, message rs ∷ stat sent ∷ events, outcome)
        ]
      ]
