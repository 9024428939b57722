-- ===== src/Hydra/Records/Expressions.antt =====
-- hydra/fileformat.go: the regular expressions that have a name.
use fluent_agent_hydra.Prelude.{Option, map, Bytes, codes, if◌then◌else◌}
use fluent_agent_hydra.Hydra.Strconv.{lower, is_text}
use fluent_agent_hydra.Hydra.Records.{Regexp}

abbrev pub regexp_apache : Bytes
regexp_apache =
    codes
      "^(?P<host>[^ ]*) [^ ]* (?P<user>[^ ]*) \\[(?P<time>[^\\]]*)\\] \"(?P<method>\\S+)(?: +(?P<path>[^\\\"]*?)(?: +\\S*)?)?\" (?P<code>[^ ]*) (?P<size>[^ ]*)(?: \"(?P<referer>[^\\\"]*)\" \"(?P<agent>[^\\\"]*)\")?$"

abbrev pub regexp_apache_error : Bytes
regexp_apache_error =
    codes
      "^\\[[^ ]* (?P<time>[^\\]]*)\\] \\[(?P<level>[^\\]]*)\\](?: \\[pid (?P<pid>[^\\]]*)\\])?( \\[client (?P<client>[^\\]]*)\\])? (?P<message>.*)$"

abbrev pub regexp_nginx : Bytes
regexp_nginx =
    codes
      "^(?P<remote>[^ ]*) (?P<host>[^ ]*) (?P<user>[^ ]*) \\[(?P<time>[^\\]]*)\\] \"(?P<method>\\S+)(?: +(?P<path>[^\\\"]*?)(?: +\\S*)?)?\" (?P<code>[^ ]*) (?P<size>[^ ]*)(?: \"(?P<referer>[^\\\"]*)\" \"(?P<agent>[^\\\"]*)\")?$"

abbrev pub regexp_syslog : Bytes
regexp_syslog =
    codes
      "(?P<time>[^ ]*\\s*[^ ]* [^ ]*) (?P<host>[^ ]*) (?P<ident>[a-zA-Z0-9_\\/\\.\\-]*)(?:\\[(?P<pid>[0-9]+)\\])?(?:[^\\:]*\\:)? *(?P<message>.*)$"

-- `Regexp.UnmarshalText`; `regexp.Compile` is the parameter `compile`.
unfoldable pub unmarshal_regexp : (Bytes → Option Regexp) → Bytes → Option Regexp
unfolding lower
unmarshal_regexp compile text =
    let name = map lower text in
    if is_text name (codes "apache")
    then compile regexp_apache
    else if is_text name (codes "apache_error")
    then compile regexp_apache_error
    else if is_text name (codes "nginx")
    then compile regexp_nginx
    else if is_text name (codes "syslog")
    then compile regexp_syslog
    else compile text
