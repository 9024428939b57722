-- ===== src/Hydra/Config.antt =====
-- hydra/config.go: the sections of a configuration and the defaults that `Restrict` fills in.
-- Numbers are int64 words.
pub mod Defaults
pub mod Args
pub mod Reading
use fluent_agent_hydra.Prelude.{
  ℕ, ◌-◌, ◌*◌, Option, none, some, List, [], ◌∷◌, ◌++◌, map, Bool, Bytes, codes, ◌==◌,
  if◌then◌else◌, u64_mod,
}
use fluent_agent_hydra.Hydra.Format.{FileFormat, ConvertMap}
use fluent_agent_hydra.Hydra.Records.{Regexp}

abbrev pub default_fluentd_port : ℕ
default_fluentd_port = 24224

abbrev pub default_field_name : Bytes
default_field_name = codes "message"

abbrev pub default_max_buffer_messages : ℕ
default_max_buffer_messages = 1024 * 1024

abbrev pub default_time_key : Bytes
default_time_key = codes "time"

-- `time.RFC3339`
abbrev pub default_time_format : Bytes
default_time_format = codes "2006-01-02T15:04:05Z07:00"

abbrev pub default_monitor_host : Bytes
default_monitor_host = codes "localhost"

pub record ConfigServer : Type 0 where
  pub host : Bytes
  pub port : ℕ

pub record ConfigLogfile : Type 0 where
  pub tag : Bytes
  pub file : Bytes
  pub field_name : Bytes
  pub format : FileFormat
  pub regexp : Option Regexp
  pub convert_map : ConvertMap
  pub time_parse : Bool
  pub time_key : Bytes
  pub time_format : Bytes

pub record ConfigReceiver : Type 0 where
  pub host : Bytes
  pub port : ℕ
  pub max_buffer_messages : ℕ

pub record ConfigMonitor : Type 0 where
  pub host : Bytes
  pub port : ℕ

pub record Config : Type 0 where
  pub tag_prefix : Bytes
  pub field_name : Bytes
  pub read_buffer_size : ℕ
  pub servers : List ConfigServer
  pub server_round_robin : Bool
  pub logs : List ConfigLogfile
  pub receiver : Option ConfigReceiver
  pub monitor : Option ConfigMonitor
  pub sub_second_time : Bool

-- The text, or the default if it is empty.
unfoldable pub or_default : Bytes → Bytes → Bytes
or_default [] text = text
or_default (c ∷ s) text = c ∷ s

-- The port, or the default if it is 0.
unfoldable pub or_port : ℕ → ℕ
or_port port = if port == 0 then default_fluentd_port else port

-- The tag behind the prefix, if there is a prefix.
unfoldable pub prefixed : Bytes → Bytes → Bytes
prefixed [] tag = tag
prefixed (c ∷ s) tag = (c ∷ s) ++ (b'.' ∷ tag)

unfoldable pub restrict_server : ConfigServer → ConfigServer
unfolding or_port
restrict_server cs = record cs { port = or_port cs.port }

unfoldable pub restrict_receiver : ConfigReceiver → ConfigReceiver
unfolding or_port
restrict_receiver cr = record cr {
  port = or_port cr.port;
  max_buffer_messages =
      if cr.max_buffer_messages == 0
      then default_max_buffer_messages
      else if cr.max_buffer_messages == u64_mod - 1
      then 0
      else cr.max_buffer_messages;
}

unfoldable pub restrict_logfile : Config → ConfigLogfile → ConfigLogfile
unfolding or_default prefixed
restrict_logfile c cl = record cl {
  field_name = or_default cl.field_name c.field_name;
  tag = prefixed c.tag_prefix cl.tag;
  time_key = or_default cl.time_key default_time_key;
  time_format = or_default cl.time_format default_time_format;
}

-- `Restrict` of the monitor, which `restrict` does not call.
unfoldable pub restrict_monitor : ConfigMonitor → ConfigMonitor
unfolding or_default
restrict_monitor cr = record cr { host = or_default cr.host default_monitor_host }

abbrev pub restricted_receiver : Option ConfigReceiver → Option ConfigReceiver
restricted_receiver none = none
restricted_receiver (some cr) = some (restrict_receiver cr)

unfoldable pub restrict : Config → Config
unfolding restrict_server restrict_logfile restrict_receiver
restrict c0 =
    let c = record c0 { field_name = or_default c0.field_name default_field_name } in
    record c {
      servers = map restrict_server c.servers;
      logs = map (restrict_logfile c) c.logs;
      receiver = restricted_receiver c.receiver;
    }
