-- ===== src/Hydra/Context/Program.antt =====
-- hydra/hydra.go: `Shutdown` of the program that `Run` starts for a configuration.
use fluent_agent_hydra.Prelude.{ℕ, ◌≡◌, Bool, true, Option, some, Bytes, get_elem?}
use fluent_agent_hydra.Hydra.Config.{Config}
use fluent_agent_hydra.Hydra.Watcher.{Paths}
use fluent_agent_hydra.Hydra.Context.{Role, Pc, ended, proc, shut_down, System, run, Reaches}
use fluent_agent_hydra.Hydra.Context.Start.{start_parts, start_parts-IsPart}
use fluent_agent_hydra.Hydra.Context.Safety.{is_awaited, shut_down-returned}

-- Whatever the configuration is and whatever parts of it can be started, and in every order of the
-- goroutines' steps at the start, in the work and in the shutdown: when `Shutdown` returns, each
-- goroutine that was started to follow a file or stdin has returned, and so have the monitor and
-- the output. `NewWatcher` is taken to succeed.
pub start-shut_down :
    (paths : Paths) (addable : Bytes → Bool) (cwd : Option Bytes) (now : ℕ) (config : Config)
    (monitor_listens receiver_listens : Bool) (s : System) (i : ℕ) (r : Role) (pc : Pc)
    → Reaches (run (start_parts paths addable cwd now config monitor_listens receiver_listens)) s
    → s.main ≡ shut_down
    → get_elem? s.procs i ≡ some (proc r pc)
    → is_awaited r ≡ true
    → pc ≡ ended
start-shut_down paths addable cwd now config m l s i r pc reach at_end at awaited =
    shut_down-returned (start_parts paths addable cwd now config m l) s i r pc
      (start_parts-IsPart paths addable cwd now config m l) reach at_end at awaited
