-- ===== src/Hydra/Config/Reading.antt =====
-- hydra/config.go: a configuration that is read from a file. `toml.DecodeFile` is a parameter;
-- `none` is its error.
use fluent_agent_hydra.Prelude.{◌≢◌, Option, none, some, Bytes, All, arith, ◌-◌, u64_mod}
use fluent_agent_hydra.Hydra.Config.{
  Config, ConfigReceiver, restrict, restrict_receiver, restricted_receiver, or_port,
}
use fluent_agent_hydra.Hydra.Config.Defaults.{HasPort, IsComplete, restrict-IsComplete}

unfoldable pub read_config : (Bytes → Option Config) → Bytes → Option Config
read_config decode_file filename = elim (decode_file filename) [
  | none ↦ none
  | some c ↦ some (restrict c)
]

-- A receiver has a port, and its limit is not the -1 of the file.
abbrev pub IsReady : Option ConfigReceiver → Type 0
IsReady none = Unit {0}
IsReady (some cr) = (cr.port ≢ 0) × (cr.max_buffer_messages ≢ u64_mod - 1)

restricted_receiver-IsReady : (cr : Option ConfigReceiver) → IsReady (restricted_receiver cr)
unfolding restrict_receiver or_port
restricted_receiver-IsReady none = tt
restricted_receiver-IsReady (some cr) = (ground arith, ground arith)

-- A configuration whose parts can be made.
pub record IsConfig (c : Config) : Type 0 where
  pub ports : All HasPort c.servers
  pub complete : All IsComplete c.logs
  pub ready : IsReady c.receiver

pub restrict-IsConfig : (c : Config) → IsConfig (restrict c)
unfolding restrict
restrict-IsConfig c =
    let (ports, complete, _) = restrict-IsComplete c in
    record { ports = ports; complete = complete; ready = restricted_receiver-IsReady c.receiver }
