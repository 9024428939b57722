-- ===== src/Hydra/Config/Defaults.antt =====
-- hydra/config.go: what a configuration lacks after `Restrict`.
use fluent_agent_hydra.Prelude.{ℕ, ◌≡◌, refl, ◌≢◌, List, [], ◌∷◌, map, Bytes, arith, All}
use fluent_agent_hydra.Hydra.Config.{
  Config, ConfigServer, ConfigLogfile, default_field_name, or_default, or_port, prefixed,
  restrict_server, restrict_logfile, restrict,
}

-- A server that can be addressed.
abbrev pub HasPort : ConfigServer → Type 0
HasPort cs = cs.port ≢ 0

-- A log file with nothing left to fill in.
pub record IsComplete (cl : ConfigLogfile) : Type 0 where
  pub named : cl.field_name ≢ []
  pub keyed : cl.time_key ≢ []
  pub timed : cl.time_format ≢ []

or_default-ne : (s text : Bytes) → text ≢ [] → or_default s text ≢ []
unfolding or_default
or_default-ne [] text h = h
or_default-ne (c ∷ s) text h = λ e. cc

or_port-ne : (port : ℕ) → or_port port ≢ 0
unfolding or_port
or_port-ne port = ground arith

servers-HasPort : (servers : List ConfigServer) → All HasPort (map restrict_server servers)
unfolding restrict_server
servers-HasPort [] = tt
servers-HasPort (cs ∷ servers) = (or_port-ne cs.port, servers-HasPort servers)

logs-IsComplete :
    (c : Config) (logs : List ConfigLogfile)
    → c.field_name ≢ []
    → All IsComplete (map (restrict_logfile c) logs)
unfolding restrict_logfile
logs-IsComplete c [] h = tt
logs-IsComplete c (cl ∷ logs) h = (
  record {
    named = or_default-ne cl.field_name c.field_name h;
    keyed = or_default-ne cl.time_key _ (λ e. cc);
    timed = or_default-ne cl.time_format _ (λ e. cc);
  },
  logs-IsComplete c logs h,
)

-- The tags of the log files, each behind the prefix.
abbrev pub prefixed_tags : Bytes → List ConfigLogfile → List Bytes
prefixed_tags prefix [] = []
prefixed_tags prefix (cl ∷ logs) = prefixed prefix cl.tag ∷ prefixed_tags prefix logs

tags-restrict :
    (c : Config) (logs : List ConfigLogfile)
    → map (λ cl. cl.tag) (map (restrict_logfile c) logs) ≡ prefixed_tags c.tag_prefix logs
unfolding restrict_logfile
tags-restrict c [] = refl
tags-restrict c (cl ∷ logs) = rw (tags-restrict c logs)

-- After `Restrict` no server has port 0, every log file has a field name, a time key and a time
-- format, and its tag is the tag that it had, behind the prefix and a dot if there is a prefix.
pub restrict-IsComplete :
    (c : Config)
    → All HasPort (restrict c).servers
      × All IsComplete (restrict c).logs
      × (map (λ cl. cl.tag) (restrict c).logs ≡ prefixed_tags c.tag_prefix c.logs)
unfolding restrict
restrict-IsComplete c0 =
    let c = record c0 { field_name = or_default c0.field_name default_field_name } in
    (
      servers-HasPort c.servers,
      logs-IsComplete c c.logs (or_default-ne c0.field_name default_field_name (λ e. cc)),
      tags-restrict c c.logs,
    )
