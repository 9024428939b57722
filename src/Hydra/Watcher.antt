-- ===== src/Hydra/Watcher.antt =====
-- hydra/in_tail.go: the watcher of files, and the inputs that are made of a configuration. The
-- library fsnotify is the list of the directories that it was given; `filepath` is a parameter.
pub mod Dirs
pub mod Stdin
use fluent_agent_hydra.Prelude.{
  ℕ, ◌+◌, Bool, true, false, Option, none, some, List, [], ◌∷◌, ◌++◌, Bytes, bytes_eq,
  if◌then◌else◌,
}
use fluent_agent_hydra.Prelude.Dict
use fluent_agent_hydra.Hydra.Format.{RecordModifier}
use fluent_agent_hydra.Hydra.Config.{ConfigLogfile}
use fluent_agent_hydra.Hydra.InTail.{InTail, Op, stdin_filename}

-- A channel is the number under which it was made.
pub record Watcher : Type 0 where
  pub added : List Bytes
  pub watching_dir : List (Bytes × Bool)
  pub watching_file : List (Bytes × ℕ)
  pub channels : ℕ

unfoldable pub new_watcher : Watcher
new_watcher = record { added = []; watching_dir = []; watching_file = []; channels = 0 }

-- `filepath.IsAbs`, `filepath.Join` of two parts and `filepath.Dir`.
pub record Paths : Type 0 where
  pub is_abs : Bytes → Bool
  pub join : Bytes → Bytes → Bytes
  pub dir : Bytes → Bytes

-- A new channel for the events of the file.
unfoldable pub add_channel : Watcher → Bytes → Watcher × Option ℕ
add_channel w filename = (
  record w {
    watching_file = Dict.insert filename w.channels w.watching_file;
    channels = w.channels + 1;
  },
  some w.channels,
)

-- What ends the `select` of `Run`.
pub data Signal : Type 0 where
  control : Signal
  event : Bytes → Op → Signal
  problem : Signal

unfoldable pub dispatch_events : Watcher → List Signal → List (ℕ × Op)
dispatch_events w [] = []
dispatch_events w (control ∷ signals) = []
dispatch_events w (problem ∷ signals) = dispatch_events w signals
dispatch_events w (event name op ∷ signals) =
    let rest = dispatch_events w signals in
    elim (Dict.lookup name w.watching_file) [ none ↦ rest | some channel ↦ (channel, op) ∷ rest ]

-- `Run`: what is sent, and on which channels.
unfoldable pub run : Watcher → List Signal → List (ℕ × Op)
unfolding dispatch_events
run w signals = elim w.watching_file [ [] ↦ [] | file ∷ files ↦ dispatch_events w signals ]

unfoldable pub is_stdin : ConfigLogfile → Bool
is_stdin cl = bytes_eq cl.file stdin_filename

-- The input of the file, from the time at which it is made.
abbrev pub tailing : ConfigLogfile → ℕ → Bytes → InTail
tailing cl now filename = record {
  filename = filename;
  tag = cl.tag;
  field_name = cl.field_name;
  last_read_at = now;
  watched = true;
  format = cl.format;
  record_modifier = some (record {
    convert_map = cl.convert_map;
    time_parse = cl.time_parse;
    time_key = cl.time_key;
    time_converter = cl.time_format;
  });
  regexp = cl.regexp;
  position = 0;
}

-- The input of stdin has no expression and no time of a read.
abbrev pub reading_stdin : ConfigLogfile → InTail
reading_stdin cl = record (tailing cl 0 stdin_filename) { watched = false; regexp = none }

abbrev pub watched_input : ConfigLogfile → ℕ → Bytes → Option ℕ → Option InTail
watched_input cl now filename none = none
watched_input cl now filename (some channel) = some (tailing cl now filename)

module _ (paths : Paths) (addable : Bytes → Bool) where
  -- `WatchFile`; `addable` says whether fsnotify takes the directory.
  unfoldable pub watch_file : Watcher → Bytes → Watcher × Option ℕ
  unfolding add_channel
  watch_file w filename =
      let parent = paths.dir filename in
      let w' : Watcher = record w {
        added = w.added ++ (parent ∷ []);
        watching_dir = Dict.insert parent true w.watching_dir;
      } in
      let fresh = if addable parent then add_channel w' filename else (w, none) in
      elim (Dict.lookup parent w.watching_dir) [
        | some watching ↦ add_channel w filename
        | none ↦ fresh
      ]

  -- `Rel2Abs`; `cwd` is the working directory, if there is one.
  unfoldable pub rel2abs : Option Bytes → Bytes → Option Bytes
  rel2abs cwd filename =
      if paths.is_abs filename
      then some filename
      else elim cwd [ none ↦ none | some d ↦ some (paths.join d filename) ]

  unfoldable pub new_in_tail : Option Bytes → ℕ → ConfigLogfile → Watcher → Watcher × Option InTail
  unfolding watch_file rel2abs
  new_in_tail cwd now cl w =
      if is_stdin cl then (w, some (reading_stdin cl)) else elim (rel2abs cwd cl.file) [
        | none ↦ (w, none)
        | some filename ↦
            let (w', channel) = watch_file w filename in (w', watched_input cl now filename channel)
      ]
