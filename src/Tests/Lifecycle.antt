-- ===== src/Tests/Lifecycle.antt =====
-- hydra/hydra.go: runs of the program.
use fluent_agent_hydra.Prelude.{arith, ℕ, ◌≡◌, refl, Bool, true, false, List, [], ◌∷◌}
use fluent_agent_hydra.Hydra.Context.{
  Role, monitoring, forwarding, receiving, feeding, tailing, watching, Pc, ended, panicked,
  offering, proc, awaiting_input, awaiting_output, running, shut_down, Context, System, Reaches,
  here, later, run, run_process, launches_all, run_returns, shuts_down, inputs_done, outputs_done,
  moves, starts_feed, adds_input, adds_output, begins, begins_receiving, offers, tail_returns,
  stdin_returns, dequeues, feed_panics, receiver_returns, forward_returns,
}
use fluent_agent_hydra.Hydra.Config.{Config, ConfigLogfile}
use fluent_agent_hydra.Hydra.Format.{format_none}
use fluent_agent_hydra.Hydra.Watcher.{Paths, new_watcher, is_stdin, new_in_tail}
use fluent_agent_hydra.Hydra.Context.Start.{start_parts, file_parts, start_tails, new_monitor}
use fluent_agent_hydra.Hydra.Context.Finishing.{shutdown_ends}
use fluent_agent_hydra.Hydra.Context.Program.{start-shut_down}
use fluent_agent_hydra.Hydra.Context.{nothing_to_watch}
use fluent_agent_hydra.Prelude.{sym, subst, none, some, codes, bytes_eq}
use fluent_agent_hydra.Hydra.Context.Safety.{inputs_returned, panicked-feeding}
use fluent_agent_hydra.Hydra.Context.Stuck.{shutdown_hangs}

abbrev context_of : ℕ → ℕ → Bool → Bool → Context
context_of inputs outputs control message = record {
  start_process = 0;
  input_process = inputs;
  output_process = outputs;
  control_closed = control;
  message_closed = message;
  message_ch = 0;
}

-- Stdin has ended.
abbrev read_out : System
read_out = record {
  context = context_of 0 1 false false;
  main = running;
  procs = proc forwarding Pc.looping ∷ proc (tailing true) ended ∷ [];
}

read_out_Reached : Reaches (run (forwarding ∷ tailing true ∷ [])) read_out
read_out_Reached =
    later
      (later
        (later
          (later
            (later
              (later
                (later (later (later here (run_process refl)) (run_process refl))
                  (launches_all refl))
                (moves 0 refl (adds_output refl)))
              (moves 1 refl (adds_input refl refl)))
            (moves 0 refl (begins refl (λ e. cc))))
          (moves 1 refl (begins refl (λ e. cc))))
        (run_returns refl refl))
      (moves 1 refl stdin_returns)

inputs_returned_example : ended ≡ ended
inputs_returned_example =
    inputs_returned (forwarding ∷ tailing true ∷ []) read_out 1 (tailing true) ended
      (refl, (refl, tt)) read_out_Reached tt refl refl refl refl

-- Stdin is read to its end, and then the program shuts down.
abbrev stdin_log : ConfigLogfile
stdin_log = record {
  tag = codes "t";
  file = codes "-";
  field_name = codes "message";
  format = format_none;
  regexp = none;
  convert_map = record { type_map = []; converter_map = none };
  time_parse = false;
  time_key = codes "time";
  time_format = codes "unix";
}

-- The monitor cannot listen.
abbrev config : Config
config = record {
  tag_prefix = [];
  field_name = codes "message";
  read_buffer_size = 0;
  servers = [];
  server_round_robin = false;
  logs = stdin_log ∷ [];
  receiver = none;
  monitor = some (record { host = []; port = 1 });
  sub_second_time = false;
}

abbrev paths : Paths
paths = record { is_abs = λ p. true; join = λ a b. a; dir = λ p. p }

parts :
    start_parts paths (λ d. true) none 0 config false true
    ≡ forwarding ∷ tailing true ∷ watching false ∷ []
unfolding start_parts file_parts start_tails new_monitor new_in_tail is_stdin bytes_eq new_watcher
parts = refl

abbrev finished : System
finished = record {
  context = context_of 0 0 true true;
  main = shut_down;
  procs = proc forwarding ended ∷ proc (tailing true) ended ∷ proc (watching false) ended ∷ [];
}

abbrev started : System
started = record {
  context = context_of 2 1 false false;
  main = running;
  procs =
      proc forwarding Pc.looping
      ∷ proc (tailing true) Pc.looping
      ∷ proc (watching false) Pc.looping
      ∷ [];
}

started_Reached : Reaches (run (forwarding ∷ tailing true ∷ watching false ∷ [])) started
started_Reached =
    later
      (later
        (later
          (later
            (later
              (later
                (later
                  (later
                    (later (later (later here (run_process refl)) (run_process refl))
                      (run_process refl))
                    (launches_all refl))
                  (moves 0 refl (adds_output refl)))
                (moves 1 refl (adds_input refl refl)))
              (moves 2 refl (adds_input refl refl)))
            (moves 0 refl (begins refl (λ e. cc))))
          (moves 1 refl (begins refl (λ e. cc))))
        (moves 2 refl (begins refl (λ e. cc))))
      (run_returns refl refl)

finished_Reached : Reaches (run (forwarding ∷ tailing true ∷ watching false ∷ [])) finished
finished_Reached =
    later
      (later
        (later
          (later (later (later started_Reached (moves 1 refl stdin_returns)) (shuts_down refl))
            (moves 2 refl nothing_to_watch))
          (inputs_done refl refl))
        (moves 0 refl (forward_returns refl refl)))
      (outputs_done refl refl)

-- With a monitor, in the shutdown, and with stdin still open.
abbrev monitored : List Role
monitored = forwarding ∷ monitoring ∷ tailing true ∷ []

abbrev stopping : System
stopping = record {
  context = context_of 1 2 true false;
  main = awaiting_input;
  procs =
      proc forwarding Pc.looping ∷ proc monitoring Pc.looping ∷ proc (tailing true) Pc.looping ∷ [];
}

stopping_Reached : Reaches (run monitored) stopping
stopping_Reached =
    later
      (later
        (later
          (later
            (later
              (later
                (later
                  (later
                    (later
                      (later (later (later here (run_process refl)) (run_process refl))
                        (run_process refl))
                      (launches_all refl))
                    (moves 0 refl (adds_output refl)))
                  (moves 1 refl (adds_output refl)))
                (moves 2 refl (adds_input refl refl)))
              (moves 0 refl (begins refl (λ e. cc))))
            (moves 1 refl (begins refl (λ e. cc))))
          (moves 2 refl (begins refl (λ e. cc))))
        (run_returns refl refl))
      (shuts_down refl)

shutdown_ends_example : (t : System) × Reaches stopping t × (t.main ≡ shut_down)
shutdown_ends_example =
    shutdown_ends monitored (refl, (refl, (refl, tt))) stopping refl stopping_Reached
      (refl, refl, omega arith)

start-shut_down_example : ended ≡ ended
start-shut_down_example =
    start-shut_down paths (λ d. true) none 0 config false true finished 1 (tailing true) ended
      (subst (λ roles. Reaches (run roles) finished) (sym parts) finished_Reached) refl refl refl

-- `feed` sends when the message channel is closed.
abbrev crashed : System
crashed = record {
  context = context_of 0 0 true true;
  main = awaiting_output;
  procs = proc receiving ended ∷ proc feeding panicked ∷ [];
}

crashed_Reached : Reaches (run (receiving ∷ [])) crashed
crashed_Reached =
    later
      (later
        (later
          (later
            (later
              (later
                (later
                  (later
                    (later (later (later here (run_process refl)) (launches_all refl))
                      (moves 0 refl (adds_input refl refl)))
                    (moves 0 refl begins_receiving))
                  (starts_feed 0 refl))
                (run_returns refl refl))
              (moves 1 refl dequeues))
            (shuts_down refl))
          (moves 0 refl (receiver_returns refl)))
        (inputs_done refl refl))
      (moves 1 refl (feed_panics refl))

panicked-feeding_example : feeding ≡ feeding
panicked-feeding_example =
    panicked-feeding (receiving ∷ []) crashed 1 feeding (refl, tt) crashed_Reached refl

-- The watcher sends an event to the goroutine that has just returned.
abbrev hung : System
hung = record {
  context = context_of 1 0 true false;
  main = awaiting_input;
  procs = proc (tailing false) ended ∷ proc (watching true) (offering 0) ∷ [];
}

hung_Reached : Reaches (run (tailing false ∷ watching true ∷ [])) hung
hung_Reached =
    later
      (later
        (later
          (later
            (later
              (later
                (later
                  (later
                    (later (later (later here (run_process refl)) (run_process refl))
                      (launches_all refl))
                    (moves 0 refl (adds_input refl refl)))
                  (moves 1 refl (adds_input refl refl)))
                (moves 0 refl (begins refl (λ e. cc))))
              (moves 1 refl (begins refl (λ e. cc))))
            (run_returns refl refl))
          (moves 1 refl (offers 0)))
        (shuts_down refl))
      (moves 0 refl (tail_returns refl))

shutdown_hangs_example : hung.main ≡ awaiting_input
shutdown_hangs_example =
    shutdown_hangs (tailing false ∷ watching true ∷ []) 1 0 hung hung (refl, (refl, tt))
      hung_Reached refl refl refl here
