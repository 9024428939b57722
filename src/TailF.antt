-- ===== src/TailF.antt =====
-- cmd/tail-f/main.go: the lines of a file are printed as they come. The statistics go into a
-- channel that nothing reads; once it is full, the goroutine of the file waits for ever.
pub mod Raw
pub mod Turns
pub mod Program
use fluent_agent_hydra.Prelude.{
  ℕ, suc, Bool, false, Option, none, some, List, [], ◌∷◌, ◌++◌, Bytes, codes, ltb, if◌then◌else◌,
}
use fluent_agent_hydra.Fluent.Value
use fluent_agent_hydra.Fluent.Value.{Value}
use fluent_agent_hydra.Fluent.Record.{FluentRecordType, FluentRecordSet, get_data}
use fluent_agent_hydra.Hydra.Format.{format_none}
use fluent_agent_hydra.Hydra.Config.{ConfigLogfile}
use fluent_agent_hydra.Hydra.InTail.{InTail}
use fluent_agent_hydra.Hydra.Watcher.{Watcher, Paths, new_watcher, rel2abs, new_in_tail}
use fluent_agent_hydra.Hydra.Tail.{Event, message, stat}

abbrev pub monitor_channel_buffer_len : ℕ
monitor_channel_buffer_len = 256

-- `fmt.Println(string(b.([]byte)))`; `none` is the panic of a value that is no byte slice.
abbrev pub println : Value → Option Bytes
println (Value.bytes b) = some (b ++ (b'\n' ∷ []))
println _ = none

-- The body of the inner loop.
unfoldable pub print_record : FluentRecordType → Option Bytes
print_record r = elim (get_data r (codes "message")) [ none ↦ some [] | some b ↦ println b ]

-- The first panic ends the program.
abbrev pub then_print : Option Bytes → Option Bytes → Option Bytes
then_print none rest = none
then_print (some b) none = none
then_print (some b) (some rest) = some (b ++ rest)

unfoldable pub print_records : List FluentRecordType → Option Bytes
unfolding print_record
print_records [] = some []
print_records (r ∷ records) = then_print (print_record r) (print_records records)

-- What is printed of what the goroutine of the file sends, when `n` statistics are in their
-- channel.
unfoldable pub tail_f : ℕ → List Event → Option Bytes
unfolding print_records
tail_f n [] = some []
tail_f n (message rs ∷ events) = then_print (print_records rs.records) (tail_f n events)
tail_f n (stat s ∷ events) =
    let rest = tail_f (suc n) events in if ltb n monitor_channel_buffer_len then rest else some []

-- The program exits with a code, or panics, or starts to follow a file.
pub data Begin : Type 0 where
  exits : ℕ → Begin
  panics : Begin
  follows : InTail → Watcher → Begin

abbrev pub tail_config : Bytes → ConfigLogfile
tail_config filename = record {
  tag = codes "dummy";
  file = filename;
  field_name = codes "message";
  format = format_none;
  regexp = none;
  convert_map = record { type_map = []; converter_map = none };
  time_parse = false;
  time_key = [];
  time_format = [];
}

-- The two goroutines. The error of `NewInTail` is not looked at, and the first one panics on the
-- nil input.
abbrev pub started : Watcher × Option InTail → Begin
started (w, none) = panics
started (w, some t) = follows t w

-- `main` up to its loop, on the arguments behind the name of the program. The flag says whether
-- `NewWatcher` succeeds.
module _ (paths : Paths) (addable : Bytes → Bool) (cwd : Option Bytes) (now : ℕ) where
  unfoldable pub begin : Bool → List Bytes → Begin
  begin has_watcher (file ∷ []) = elim (rel2abs paths addable cwd file) [
    | none ↦ panics
    | some filename ↦
        if has_watcher
        then started (new_in_tail paths addable cwd now (tail_config filename) new_watcher)
        else panics
  ]
  begin has_watcher _ = exits 1
