-- ===== src/Agent.antt =====
-- cmd/fluent-agent-hydra/main.go: the arguments of the agent, and its end by signals.
pub mod Abort
pub mod Arguments
use fluent_agent_hydra.Prelude.{
  ℕ, zero, suc, Bool, true, false, Option, none, some, List, [], ◌∷◌, Bytes, if◌then◌else◌,
}
use fluent_agent_hydra.Hydra.Config.{Config}
use fluent_agent_hydra.Hydra.Config.Args.{new_config_by_args}

-- The flags and the other arguments.
pub record Options : Type 0 where
  pub config_file : Bytes
  pub help : Bool
  pub field_name : Bytes
  pub monitor_addr : Bytes
  pub show_version : Bool
  pub args : List Bytes

-- The agent exits with a code, or runs a configuration, or panics.
pub data Begin : Type 0 where
  exits : ℕ → Begin
  runs : Config → Begin
  panics : Begin

abbrev pub loaded : Option Config → Begin
loaded none = exits 2
loaded (some c) = runs c

abbrev pub made : Option Config → Begin
made none = panics
made (some c) = runs c

-- It ends with code 1, like a profile that `PPROF` names and that cannot be made, which is left
-- out.
abbrev pub usage : Begin
usage = exits 1

-- `ReadConfig` is a parameter, as are `net.SplitHostPort` and `strconv.Atoi`.
module _ (split_host_port : Bytes → Option (Bytes × Bytes)) (atoi : Bytes → ℕ)
    (read_config : Bytes → Option Config) where
  unfoldable pub config_by_args : List Bytes → Options → Begin
  unfolding new_config_by_args
  config_by_args (tag ∷ (file ∷ (server ∷ servers))) o = made (
      new_config_by_args split_host_port atoi (tag ∷ (file ∷ (server ∷ servers))) o.field_name
        o.monitor_addr)
  config_by_args _ o = usage

  unfoldable pub config_of : Bytes → Options → Begin
  unfolding config_by_args
  config_of [] o = config_by_args o.args o
  config_of (c ∷ name) o = loaded (read_config (c ∷ name))

  -- `main` up to the start of the parts.
  unfoldable pub begin : Options → Begin
  unfolding config_of
  begin o = if o.show_version then exits 0 else if o.help then usage else config_of o.config_file o

-- What comes through `sigCh`: a signal of the system, or the one that all inputs have ended.
pub data Signal : Type 0 where
  trapped all_terminated : Signal

-- `main` behind the start: it waits for a signal; it shuts down, and its guard sleeps or is
-- awake; or the program has ended.
pub data Phase : Type 0 where
  waiting : Phase
  shutting : Bool → Phase
  exited : ℕ → Phase

-- `sigCh`, which has room for one signal, and whether the goroutine that waits for the inputs
-- has sent.
pub record Agent : Type 0 where
  pub phase : Phase
  pub sig_ch : Option Signal
  pub told : Bool

-- A signal comes from the system; the inputs have ended, and their goroutine sends; `main` takes
-- a signal; a second has passed; the guard takes a signal; `Shutdown` returns.
pub data Event : Type 0 where
  signalled inputs_ended main_takes second_passes guard_takes shut_down : Event

-- A signal of the system is dropped when there is no room.
abbrev pub notified : Option Signal → Option Signal
notified none = some trapped
notified (some s) = some s

abbrev pub send_ended : Bool → Option Signal → Agent → Agent
send_ended false none s = record s { sig_ch = some all_terminated; told = true }
send_ended _ _ s = s

abbrev pub take_first : Phase → Option Signal → Agent → Agent
take_first waiting (some g) s = record s { phase = shutting false; sig_ch = none }
take_first _ _ s = s

abbrev pub awake : Phase → Agent → Agent
awake (shutting b) s = record s { phase = shutting true }
awake _ s = s

abbrev pub take_second : Phase → Option Signal → Agent → Agent
take_second (shutting true) (some g) s = record s { phase = exited 1; sig_ch = none }
take_second _ _ s = s

abbrev pub finish : Phase → Agent → Agent
finish (shutting b) s = record s { phase = exited 0 }
finish _ s = s

-- An event that is not enabled leaves all as it is: a goroutine waits.
unfoldable pub step : Event → Agent → Agent
step signalled s = record s { sig_ch = notified s.sig_ch }
step inputs_ended s = send_ended s.told s.sig_ch s
step main_takes s = take_first s.phase s.sig_ch s
step second_passes s = awake s.phase s
step guard_takes s = take_second s.phase s.sig_ch s
step shut_down s = finish s.phase s

unfoldable pub run : List Event → Agent → Agent
unfolding step
run [] s = s
run (e ∷ events) s = run events (step e s)
