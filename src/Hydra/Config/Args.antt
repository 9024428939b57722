-- ===== src/Hydra/Config/Args.antt =====
-- hydra/config.go: the configuration that is made of the arguments of the command.
-- `net.SplitHostPort` and the number that `strconv.Atoi` returns are parameters.
use fluent_agent_hydra.Prelude.{
  ℕ, ◌≡◌, refl, Option, none, some, List, [], ◌∷◌, map, false, Bytes, All,
}
use fluent_agent_hydra.Hydra.Format.{format_none}
use fluent_agent_hydra.Hydra.Config.{
  Config, ConfigServer, ConfigLogfile, ConfigMonitor, default_fluentd_port, restrict, prefixed,
}
use fluent_agent_hydra.Hydra.Config.Defaults.{HasPort, IsComplete, restrict-IsComplete}

-- The one log file before the defaults are filled in.
abbrev logfile_of : Bytes → Bytes → Bytes → ConfigLogfile
logfile_of tag file field_name = record {
  tag = tag;
  file = file;
  field_name = field_name;
  format = format_none;
  regexp = none;
  convert_map = record { type_map = []; converter_map = none };
  time_parse = false;
  time_key = [];
  time_format = [];
}

module _ (split_host_port : Bytes → Option (Bytes × Bytes)) (atoi : Bytes → ℕ) where
  -- One round of the loop over the servers.
  unfoldable pub server_of : Bytes → ConfigServer
  server_of server = elim (split_host_port server) [
    | none ↦ record { host = server; port = default_fluentd_port }
    | some (host, port) ↦ record { host = host; port = atoi port }
  ]

  -- No monitor if the address is empty or invalid.
  unfoldable pub monitor_of : Bytes → Option ConfigMonitor
  monitor_of [] = none
  monitor_of (c ∷ addr) = elim (split_host_port (c ∷ addr)) [
    | none ↦ none
    | some (host, port) ↦ some (record { host = host; port = atoi port })
  ]

  -- The configuration before the defaults are filled in.
  abbrev args_config : Bytes → Bytes → List Bytes → Bytes → Bytes → Config
  args_config tag file servers field_name monitor_addr = record {
    tag_prefix = [];
    field_name = field_name;
    read_buffer_size = 0;
    servers = map server_of servers;
    server_round_robin = false;
    logs = logfile_of tag file field_name ∷ [];
    receiver = none;
    monitor = monitor_of monitor_addr;
    sub_second_time = false;
  }

  -- `none` is the panic of an index out of range.
  unfoldable pub new_config_by_args : List Bytes → Bytes → Bytes → Option Config
  unfolding server_of monitor_of
  new_config_by_args [] field_name monitor_addr = none
  new_config_by_args (tag ∷ []) field_name monitor_addr = none
  new_config_by_args (tag ∷ (file ∷ servers)) field_name monitor_addr =
      some (restrict (args_config tag file servers field_name monitor_addr))

  -- With a tag, a file and servers as arguments there is a configuration, whose servers all have
  -- a port, and whose log file has a field name, a time key and a time format, and the tag as it
  -- was given.
  pub new_config_by_args-IsComplete :
      (tag file : Bytes) (servers : List Bytes) (field_name monitor_addr : Bytes)
      → (c : Config) × (new_config_by_args (tag ∷ (file ∷ servers)) field_name monitor_addr
          ≡ some c)
        × All HasPort c.servers
        × All IsComplete c.logs
        × (map (λ cl. cl.tag) c.logs ≡ tag ∷ [])
  unfolding new_config_by_args prefixed
  new_config_by_args-IsComplete tag file servers field_name monitor_addr =
      let (ports, complete, tags) =
        restrict-IsComplete (args_config tag file servers field_name monitor_addr) in
      (_, refl, ports, complete, tags)
