-- ===== src/Agent/Arguments.antt =====
-- cmd/fluent-agent-hydra/main.go: what the agent makes of its arguments.
use fluent_agent_hydra.Prelude.{
  Option-cases, inl, inr, ◌≤◌, arith, ℕ, ◌≡◌, ap, Bool, true, false, Option, List, [], ◌∷◌, map,
  Bytes, All, if◌then◌else◌,
}
use fluent_agent_hydra.Hydra.Config.{Config}
use fluent_agent_hydra.Hydra.Config.Defaults.{HasPort, IsComplete}
use fluent_agent_hydra.Hydra.Config.Reading.{read_config, IsConfig, restrict-IsConfig}
use fluent_agent_hydra.Hydra.Config.Args.{new_config_by_args, new_config_by_args-IsComplete}
use fluent_agent_hydra.Agent.{
  Options, Begin, exits, runs, panics, loaded, made, config_by_args, config_of, begin,
}

module _ (split_host_port : Bytes → Option (Bytes × Bytes)) (atoi : Bytes → ℕ)
    (read_config : Bytes → Option Config) where
  -- With a tag, a file and at least one server, and no flag that asks for something else, the
  -- agent runs a configuration in which every server has a port, and the log file has a field
  -- name, a time key and a time format, and the tag as it was given.
  pub begin-IsComplete :
      (o : Options) (tag file server : Bytes) (servers : List Bytes)
      → o.show_version ≡ false
      → o.help ≡ false
      → o.config_file ≡ []
      → o.args ≡ tag ∷ file ∷ server ∷ servers
      → (c : Config) × (begin split_host_port atoi read_config o ≡ runs c)
        × All HasPort c.servers
        × All IsComplete c.logs
        × (map (λ cl. cl.tag) c.logs ≡ tag ∷ [])
  unfolding begin config_of config_by_args
  begin-IsComplete o tag file server servers version help no_file args =
      let (c, e, ports, complete, tags) =
        new_config_by_args-IsComplete split_host_port atoi tag file (server ∷ servers) o.field_name
          o.monitor_addr in
      (c, rw (version, help, no_file, args) (ap made e), ports, complete, tags)

-- How the agent may begin: with one of its codes, or with a configuration whose parts can be made.
abbrev pub IsBeginning : Begin → Type 0
IsBeginning (exits code) = code ≤ 2
IsBeginning (runs c) = IsConfig c
IsBeginning panics = ⊥

module _ (split_host_port : Bytes → Option (Bytes × Bytes)) (atoi : Bytes → ℕ)
    (decode_file : Bytes → Option Config) where
  read-IsBeginning : (filename : Bytes) → IsBeginning (loaded (read_config decode_file filename))
  unfolding read_config
  read-IsBeginning filename = elim (Option-cases (decode_file filename)) [
    | inl e ↦ rw (e, read_config) (omega arith)
    | inr (c, e) ↦ rw (e, read_config) (restrict-IsConfig c)
  ]

  args-IsBeginning :
      (args : List Bytes) (o : Options)
      → IsBeginning (config_by_args split_host_port atoi (read_config decode_file) args o)
  unfolding config_by_args new_config_by_args
  args-IsBeginning [] o = omega arith
  args-IsBeginning (tag ∷ []) o = omega arith
  args-IsBeginning (tag ∷ file ∷ []) o = omega arith
  args-IsBeginning (tag ∷ file ∷ server ∷ servers) o = restrict-IsConfig _

  config-IsBeginning :
      (name : Bytes) (o : Options)
      → IsBeginning (config_of split_host_port atoi (read_config decode_file) name o)
  unfolding config_of
  config-IsBeginning [] o = args-IsBeginning o.args o
  config-IsBeginning (c ∷ name) o = read-IsBeginning (c ∷ name)

  flags-IsBeginning :
      (version help : Bool) (rest : Begin)
      → IsBeginning rest
      → IsBeginning (if version then exits 0 else if help then exits 1 else rest)
  flags-IsBeginning true help rest h = omega arith
  flags-IsBeginning false true rest h = omega arith
  flags-IsBeginning false false rest h = h

  -- Whatever the flags and the arguments are, and whatever the configuration file holds, the agent
  -- ends with a code of at most 2, or it runs a configuration in which every server has a port,
  -- every log file a field name, a time key and a time format, and the receiver, if there is one,
  -- a port and a limit that is not -1. It never panics.
  pub begin-IsBeginning :
      (o : Options) → IsBeginning (begin split_host_port atoi (read_config decode_file) o)
  unfolding begin
  begin-IsBeginning o =
      flags-IsBeginning o.show_version o.help _ (config-IsBeginning o.config_file o)
