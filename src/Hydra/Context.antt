-- ===== src/Hydra/Context.antt =====
-- hydra/hydra.go: `Context`, the start of the parts by `Run` and `RunProcess`, and `Shutdown`. The
-- main goroutine and the goroutines of the parts interleave over the wait groups and channels. Of
-- a part there is left what it does to those: its `Run` in hydra/monitor.go, out_forward.go,
-- in_tail.go and in_forward.go. Channels and wait groups are numbers; a send on `MonitorCh`, which
-- the monitor reads, is no step here and is taken to end.
pub mod Start
pub mod Moves
pub mod Counts
pub mod Safety
pub mod Stuck
pub mod Program
pub mod Places
pub mod Waiting
pub mod Output
pub mod Ending
pub mod Finishing
use fluent_agent_hydra.Prelude.{
  ℕ, ◌+◌, ◌-◌, ◌<◌, ◌≡◌, ◌≢◌, Bool, true, false, some, List, [], ◌∷◌, ◌++◌, get_elem?, set,
}

abbrev pub message_channel_buffer_len : ℕ
message_channel_buffer_len = 1

-- The goroutines: a `tailing` of stdin or of a file, a `watching` of at least one file or of none,
-- and those that the receiver starts, which are `handling` a connection or `feeding`.
pub data Role : Type 0 where
  monitoring forwarding receiving handling feeding : Role
  tailing : (stdin : Bool) → Role
  watching : (files : Bool) → Role

-- Where a goroutine is: started by `go`; behind `Add(1)` of its wait group; behind
-- `StartProcess.Done()`; in its loop; sending an event to the tailing goroutine `i`; sending a
-- record set to `MessageCh`; delivering one to a server; returned; or panicked.
pub data Pc : Type 0 where
  launched added begun looping sending delivering ended panicked : Pc
  offering : (i : ℕ) → Pc

pub data Proc : Type 0 where
  proc : Role → Pc → Proc

-- `StartProcess`, `InputProcess`, `OutputProcess`; whether `ControlCh` and `MessageCh` are closed;
-- and how many record sets are in `MessageCh`.
pub record Context : Type 0 where
  pub start_process : ℕ
  pub input_process : ℕ
  pub output_process : ℕ
  pub control_closed : Bool
  pub message_closed : Bool
  pub message_ch : ℕ

abbrev pub new_context : Context
new_context = record {
  start_process = 0;
  input_process = 0;
  output_process = 0;
  control_closed = false;
  message_closed = false;
  message_ch = 0;
}

-- Whether the goroutine counts in `InputProcess`, and in `OutputProcess`.
abbrev pub is_input : Role → Bool
is_input receiving = true
is_input handling = true
is_input (tailing stdin) = true
is_input (watching files) = true
is_input _ = false

abbrev pub is_output : Role → Bool
is_output monitoring = true
is_output forwarding = true
is_output _ = false

-- Whether the goroutine is a part that `RunProcess` starts.
abbrev pub is_part : Role → Bool
is_part handling = false
is_part feeding = false
is_part _ = true

abbrev pub input_done : Context → Context
input_done c = record c { input_process = c.input_process - 1 }

abbrev pub output_done : Context → Context
output_done c = record c { output_process = c.output_process - 1 }

abbrev pub start_done : Context → Context
start_done c = record c { start_process = c.start_process - 1 }

-- A step of one goroutine by itself. A send on `MonitorCh` is no step: where the monitor runs it
-- reads the channel for ever, so that the send ends; where none was started a goroutine stops at
-- the send once the channel is full, and takes no more of these steps. When stdin ends, a client
-- closes its connection or a server answers is left to the environment: it may be at any time, or
-- never. (At the shutdown the code closes stdin, which need not end a read that is waiting.)
pub data Move (c : Context) : Role → Pc → Context → Pc → Type 0 where
  -- `Add(1)`; a `handling` goroutine has no part in `StartProcess`.
  adds_input :
      {r : Role}
      → is_input r ≡ true
      → is_part r ≡ true
      → Move c r launched (record c { input_process = c.input_process + 1 }) added
  adds_handling :
      Move c handling launched (record c { input_process = c.input_process + 1 }) looping
  adds_output :
      {r : Role}
      → is_output r ≡ true
      → Move c r launched (record c { output_process = c.output_process + 1 }) added
  begins : {r : Role} → is_part r ≡ true → r ≢ receiving → Move c r added (start_done c) looping
  begins_receiving : Move c receiving added (start_done c) begun
  -- The monitor leaves its work to goroutines of its own.
  monitor_returns : Move c monitoring looping (output_done c) ended
  -- `outForwardRecieve`; while no server takes the set, it goes on `delivering`.
  receives :
      0 < c.message_ch
      → Move c forwarding looping (record c { message_ch = c.message_ch - 1 }) delivering
  delivers : Move c forwarding delivering c looping
  forward_returns :
      c.message_ch ≡ 0 → c.message_closed ≡ true → Move c forwarding looping (output_done c) ended
  reads : {stdin : Bool} → Move c (tailing stdin) looping c sending
  dequeues : Move c feeding looping c sending
  sends :
      {r : Role}
      → c.message_closed ≡ false
      → c.message_ch < message_channel_buffer_len
      → Move c r sending (record c { message_ch = c.message_ch + 1 }) looping
  -- A send on a closed channel.
  tail_panics : {stdin : Bool} → c.message_closed ≡ true → Move c (tailing stdin) sending c panicked
  feed_panics : c.message_closed ≡ true → Move c feeding sending c panicked
  -- Stdin has ended, by itself or by its close at the shutdown; a file is followed until then.
  stdin_returns : Move c (tailing true) looping (input_done c) ended
  tail_returns : c.control_closed ≡ true → Move c (tailing false) looping (input_done c) ended
  nothing_to_watch : Move c (watching false) looping (input_done c) ended
  watcher_returns : c.control_closed ≡ true → Move c (watching true) looping (input_done c) ended
  offers : (i : ℕ) → Move c (watching true) looping c (offering i)
  receiver_returns : c.control_closed ≡ true → Move c receiving looping (input_done c) ended
  handler_returns : Move c handling looping (input_done c) ended

-- Where the main goroutine is: in `Run`, with the parts to start; in `StartProcess.Wait()`; behind
-- `Run`; in the waits of `Shutdown`, for the inputs and for the outputs; or behind it.
pub data Main : Type 0 where
  launching : List Role → Main
  awaiting_start running awaiting_input awaiting_output shut_down : Main

pub record System : Type 0 where
  pub context : Context
  pub main : Main
  pub procs : List Proc

abbrev pub close_control : Context → Context
close_control c = record c { control_closed = true }

abbrev pub close_message : Context → Context
close_message c = record c { message_closed = true }

pub data Step (s : System) : System → Type 0 where
  -- `RunProcess`
  run_process :
      {r : Role} {roles : List Role}
      → s.main ≡ launching (r ∷ roles)
      → Step s (record {
        context = record s.context { start_process = s.context.start_process + 1 };
        main = launching roles;
        procs = s.procs ++ (proc r launched ∷ []);
      })
  launches_all : s.main ≡ launching [] → Step s (record s { main = awaiting_start })
  run_returns :
      s.main ≡ awaiting_start → s.context.start_process ≡ 0 → Step s (record s { main = running })
  -- `Shutdown`
  shuts_down :
      s.main ≡ running
      → Step s (record s { context = close_control s.context; main = awaiting_input })
  inputs_done :
      s.main ≡ awaiting_input
      → s.context.input_process ≡ 0
      → Step s (record s { context = close_message s.context; main = awaiting_output })
  outputs_done :
      s.main ≡ awaiting_output
      → s.context.output_process ≡ 0
      → Step s (record s { main = shut_down })
  moves :
      (i : ℕ) {r : Role} {pc pc' : Pc} {c : Context}
      → get_elem? s.procs i ≡ some (proc r pc)
      → Move s.context r pc c pc'
      → Step s (record s { context = c; procs = set s.procs i (proc r pc') })
  -- The event goes from the watcher to the goroutine that reads it.
  hands_over :
      (i j : ℕ)
      → get_elem? s.procs i ≡ some (proc (watching true) (offering j))
      → get_elem? s.procs j ≡ some (proc (tailing false) looping)
      → Step s (record s { procs = set s.procs i (proc (watching true) looping) })
  -- `go f.feed()`, and `go f.handleConn(conn, c)`.
  starts_feed :
      (i : ℕ)
      → get_elem? s.procs i ≡ some (proc receiving begun)
      → Step s (record s {
        procs = set s.procs i (proc receiving looping) ++ (proc feeding looping ∷ []);
      })
  accepts :
      (i : ℕ)
      → get_elem? s.procs i ≡ some (proc receiving looping)
      → Step s (record s { procs = s.procs ++ (proc handling launched ∷ []) })

-- `Run` on a new context, with the parts that it starts.
abbrev pub run : List Role → System
run roles = record { context = new_context; main = launching roles; procs = [] }

-- The states that the program reaches from one of them.
pub data Reaches (first : System) : System → Type 0 where
  here : Reaches first first
  later : {s t : System} → Reaches first s → Step s t → Reaches first t
