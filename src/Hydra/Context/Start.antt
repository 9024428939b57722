-- ===== src/Hydra/Context/Start.antt =====
-- hydra/hydra.go and hydra/monitor.go: which parts `Run` starts for a configuration, in order.
-- `NewWatcher` is taken to succeed.
use fluent_agent_hydra.Prelude.{
  ℕ, ◌*◌, refl, Bool, true, false, Option, none, some, List, [], ◌∷◌, ◌++◌, Bytes, All, All-append,
  length, replicate, lt64, if◌then◌else◌,
}
use fluent_agent_hydra.Hydra.Config.{Config, ConfigLogfile, ConfigReceiver}
use fluent_agent_hydra.Hydra.InTail.{InTail}
use fluent_agent_hydra.Hydra.Watcher.{Watcher, Paths, new_watcher, new_in_tail}
use fluent_agent_hydra.Hydra.Monitor.{Stats}
use fluent_agent_hydra.Hydra.Context.{Role, monitoring, forwarding, receiving, tailing, watching}
use fluent_agent_hydra.Hydra.Context.Counts.{IsPart}

-- `fluent.EnableEventTime` and `ReadBufferSize`, which `Run` sets.
pub record Globals : Type 0 where
  pub enable_event_time : Bool
  pub read_buffer_size : ℕ

abbrev pub first_globals : Globals
first_globals = record { enable_event_time = false; read_buffer_size = 64 * 1024 }

unfoldable pub set_globals : Config → Globals → Globals
set_globals config g = record {
  enable_event_time = if config.sub_second_time then true else g.enable_event_time;
  read_buffer_size =
      if lt64 0 config.read_buffer_size then config.read_buffer_size else g.read_buffer_size;
}

-- `NewMonitor`; `listens` says whether `net.Listen` succeeds.
unfoldable pub new_monitor : Config → Bool → Option Stats
new_monitor config listens =
    let stats : Stats = record {
      sent = [];
      files = [];
      servers = replicate (length config.servers) none;
      receiver = none;
    } in
    elim config.monitor [ none ↦ some stats | some m ↦ if listens then some stats else none ]

-- The monitor is left out if it could not be made; the error is only logged.
abbrev monitor_part : Option Stats → List Role
monitor_part none = []
monitor_part (some stats) = monitoring ∷ []

abbrev receiver_part : Option ConfigReceiver → Bool → List Role
receiver_part none listens = []
receiver_part (some config) listens = if listens then receiving ∷ [] else []

abbrev has_files : Watcher → Bool
has_files w = elim w.watching_file [ [] ↦ false | file ∷ files ↦ true ]

-- An input whose making failed is left out.
abbrev tail_part : Option InTail → List Role
tail_part none = []
tail_part (some t) = tailing (if t.watched then false else true) ∷ []

module _ (paths : Paths) (addable : Bytes → Bool) (cwd : Option Bytes) (now : ℕ) where
  -- The loop over `config.Logs`.
  unfoldable pub start_tails : List ConfigLogfile → Watcher → Watcher × List Role
  start_tails [] w = (w, [])
  start_tails (cl ∷ logs) w =
      let (w', t) = new_in_tail paths addable cwd now cl w in
      let (last, parts) = start_tails logs w' in (last, tail_part t ++ parts)

  -- The tailing goroutines, and the watcher behind them.
  unfoldable pub file_parts : List ConfigLogfile → List Role
  unfolding start_tails
  file_parts [] = []
  file_parts (cl ∷ logs) =
      let (w, parts) = start_tails (cl ∷ logs) new_watcher in parts ++ (watching (has_files w) ∷ [])

  -- `Run`; the flags say whether the monitor and the receiver can listen.
  unfoldable pub start_parts : Config → Bool → Bool → List Role
  unfolding file_parts new_monitor
  start_parts config monitor_listens receiver_listens =
      monitor_part (new_monitor config monitor_listens)
      ++ ((forwarding ∷ file_parts config.logs) ++ receiver_part config.receiver receiver_listens)

  start_tails-IsPart : (logs : List ConfigLogfile) (w : Watcher) → All IsPart (start_tails logs w).1
  unfolding start_tails
  start_tails-IsPart [] w = tt
  start_tails-IsPart (cl ∷ logs) w =
      All-append IsPart (tail_part (new_in_tail paths addable cwd now cl w).1) _
        (tail_part-IsPart (new_in_tail paths addable cwd now cl w).1)
        (start_tails-IsPart logs (new_in_tail paths addable cwd now cl w).0)
    where
      tail_part-IsPart : (t : Option InTail) → All IsPart (tail_part t)
      tail_part-IsPart none = tt
      tail_part-IsPart (some t) = (refl, tt)

  file_parts-IsPart : (logs : List ConfigLogfile) → All IsPart (file_parts logs)
  unfolding file_parts
  file_parts-IsPart [] = tt
  file_parts-IsPart (cl ∷ logs) =
      All-append IsPart (start_tails (cl ∷ logs) new_watcher).1 _
        (start_tails-IsPart (cl ∷ logs) new_watcher) (refl, tt)

  -- What `Run` starts are the parts that `Shutdown` knows of.
  pub start_parts-IsPart :
      (config : Config) (monitor_listens receiver_listens : Bool)
      → All IsPart (start_parts config monitor_listens receiver_listens)
  unfolding start_parts
  start_parts-IsPart config m r =
      All-append IsPart (monitor_part (new_monitor config m)) _
        (monitor-IsPart (new_monitor config m))
        (All-append IsPart (forwarding ∷ file_parts config.logs) _
          (refl, file_parts-IsPart config.logs) (receiver-IsPart config.receiver r))
    where
      monitor-IsPart : (stats : Option Stats) → All IsPart (monitor_part stats)
      monitor-IsPart none = tt
      monitor-IsPart (some stats) = (refl, tt)

      receiver-IsPart : (cr : Option ConfigReceiver) (b : Bool) → All IsPart (receiver_part cr b)
      receiver-IsPart none b = tt
      receiver-IsPart (some cr) true = (refl, tt)
      receiver-IsPart (some cr) false = tt
