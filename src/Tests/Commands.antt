-- ===== src/Tests/Commands.antt =====
-- The commands under cmd on small inputs.
use fluent_agent_hydra.Prelude.{
  ◌≡◌, refl, true, false, inl, inr, Option, none, some, List, [], ◌∷◌, ◌++◌, Bytes, codes, bytes_eq,
  arith, if◌then◌else◌,
}
use fluent_agent_hydra.Prelude.Dict
use fluent_agent_hydra.Fluent.Value.{Value, Fields, Time, no_fields, field, lookup}
use fluent_agent_hydra.Fluent.Record.{FluentRecordType, FluentRecordSet, tiny}
use fluent_agent_hydra.Fluent.Decode.{Result, ok, err, codec_error}
use fluent_agent_hydra.Hydra.Strconv.{parse_bool}
use fluent_agent_hydra.Ltsv.{encode, escape, text_le, text_of, keys, sort_strings}
use fluent_agent_hydra.Ltsv.Chunks.{columns_chunks}
use fluent_agent_hydra.HttpTailf.{
  Tailf, new_tailf, connect, handle_forward_conn, match_tag, trim_right, has_prefix,
}
use fluent_agent_hydra.HttpTailf.Clients.{buffered}
use fluent_agent_hydra.HttpTailf.Output.{
  OutputOption, Dumper, Dump, new_dumper, content, dump_name, run_dumper, ltsv_encoder,
  json_encoder, write_response,
}
use fluent_agent_hydra.HttpTailf.Output.Text.{json_writes, ltsv_writes}
use fluent_agent_hydra.HttpTailf.Output.Dumping.{IsFine, run_dumper_lem}
use fluent_agent_hydra.HttpTailf.Handler.{
  Request, Session, open_session, session_at, trim_slash, trim_left_slash, trim_right_slash,
  session_rounds,
}
use fluent_agent_hydra.HttpTailf.Handler.Asking.{IsCore}
use fluent_agent_hydra.Ltsv.{Writer}
use fluent_agent_hydra.HttpTailf.Handler.Path.{IsWithin}
use fluent_agent_hydra.HttpTailf.Handler.Streaming.{http_handler_lem}
use fluent_agent_hydra.HttpTailf.Handler.Leaving.{session_rounds-gone}
use fluent_agent_hydra.Agent
use fluent_agent_hydra.Benchmarkd.Serving.{
  Arrival, accepts, decodes, reports, Server, is_open, close_conn, serve,
}
use fluent_agent_hydra.Benchmarkd.Serving.Counting.{Reported, serve_lem}
use fluent_agent_hydra.Agent.{Options, begin, runs, shutting, exited}
use fluent_agent_hydra.Agent.Arguments.{IsBeginning, begin-IsBeginning}
use fluent_agent_hydra.Hydra.Config.{Config, restrict}
use fluent_agent_hydra.Hydra.Config.Reading.{read_config}
use fluent_agent_hydra.Agent.Abort.{last_events, aborts_lem}

abbrev hello : FluentRecordType
hello = tiny (record {
  timestamp = record { sec = 0; nsec = 0 };
  fields = field (codes "k") (Value.string (codes "v")) no_fields;
})

abbrev set_of : Bytes → FluentRecordSet
set_of tag = record { tag = tag; records = hello ∷ [] }

abbrev stamp : Time → Bytes
stamp t = codes "T"

abbrev print_none : Value → Bytes
print_none v = []

abbrev no_json : Fields → Option Bytes
no_json fs = none

-- `curl host:24225/app.*/?ltsv=1&time=t`
abbrev ask : Request
ask = record {
  path = codes "/app.*/";
  form_value = λ k.
      if bytes_eq k (codes "ltsv")
      then codes "1"
      else if bytes_eq k (codes "time")
      then codes "t"
      else [];
}

abbrev nobody : Tailf
nobody = new_tailf []

abbrev client : Session
client = record {
  tag = codes "app.*";
  id = 1;
  option = record { include_time = true; include_tag = false };
  as_ltsv = true;
}

asked : open_session ask nobody ≡ (connect (codes "app.*") nobody, some client)
unfolding open_session session_at trim_slash trim_left_slash trim_right_slash parse_bool bytes_eq
asked = refl

abbrev deliveries : List (Result (List FluentRecordSet))
deliveries = ok (set_of (codes "app.web") ∷ set_of (codes "sys") ∷ []) ∷ []

app-IsCore : IsCore (codes "app.*") (codes "app")
app-IsCore = (codes ".*", refl, (inl refl, (inr refl, tt)), ((λ e. cc), (λ e. cc)))

abbrev room : Writer
room = record { written = []; good = 9 }

http_handler_lem_example :
    (s' : Tailf) × (session_rounds stamp no_json print_none 1 client
        (handle_forward_conn deliveries (connect (codes "app.*") nobody))
        room
      ≡ (s', (record { written = codes "T\tk:v\n"; good = 5 }, true)))
    × (buffered (codes "app.*") 1 s' ≡ some [])
    × IsWithin (codes "/app.*/") (codes "app.*")
    × (true ≡ true)
    × (false ≡ false)
    × (true ≡ true)
unfolding escape lookup bytes_eq text_le text_of keys columns_chunks sort_strings Dict.lookup
http_handler_lem_example =
    http_handler_lem stamp no_json print_none client (ltsv_writes print_none) ask nobody
      (connect (codes "app.*") nobody) deliveries room (codes "app") asked app-IsCore ((tt, tt), tt)
      (omega arith)

-- A write fails.
session_rounds-gone_example :
    buffered
      (codes "app.*")
      1
      (session_rounds stamp no_json print_none 1 client
        (handle_forward_conn deliveries (connect (codes "app.*") nobody))
        (record { written = []; good = 1 })).0
    ≡ none
unfolding session_rounds connect handle_forward_conn Dict.lookup Dict.insert bytes_eq write_response
    ltsv_encoder encode match_tag trim_right has_prefix
session_rounds-gone_example =
    session_rounds-gone stamp no_json print_none client 1
      (handle_forward_conn deliveries (connect (codes "app.*") nobody))
      (record { written = []; good = 1 }) refl

abbrev under : Bytes → Bytes → Bytes
under dir name = dir ++ name

abbrev dump_at : Bytes → Dump
dump_at hour = record { record_set = set_of (codes "a"); hour = hour; opens = true; good = 9 }

abbrev with_tag : OutputOption
with_tag = record { include_time = false; include_tag = true }

run_dumper_lem_example :
    (s' : Dumper) × (run_dumper under
        (codes "/")
        stamp
        (json_encoder (λ fs. some (codes "{}")))
        with_tag
        (dump_at (codes "1") ∷ dump_at (codes "2") ∷ dump_at (codes "2") ∷ [])
        (new_dumper [])
      ≡ some s')
    × (content (codes "/a.2") s' ≡ codes "a\t{}\na\t{}\n")
unfolding dump_name bytes_eq Dict.lookup
run_dumper_lem_example =
    run_dumper_lem under (codes "/") stamp with_tag (json_writes (λ fs. codes "{}"))
      (dump_at (codes "1") ∷ dump_at (codes "2") ∷ dump_at (codes "2") ∷ []) (new_dumper [])
      (codes "/a.2") (fine (codes "1"), (fine (codes "2"), (fine (codes "2"), tt))) (inr refl)
  where
    fine :
        (hour : Bytes)
        → IsFine under (codes "/") stamp with_tag (json_writes (λ fs. codes "{}")) (dump_at hour)
    fine hour = record {
      named = λ e. cc;
      opened = refl;
      tiny_records = (tt, tt);
      enough = omega arith;
    }

-- Two connections, one of which ends; what comes of it later is not seen.
abbrev a_morning : List Arrival
a_morning =
    accepts
    ∷ accepts
    ∷ decodes 0 (ok (set_of [] ∷ set_of [] ∷ []))
    ∷ reports
    ∷ decodes 0 (err codec_error)
    ∷ decodes 0 (ok (set_of [] ∷ []))
    ∷ decodes 1 (ok (set_of [] ∷ []))
    ∷ []

abbrev idle_server : Server
idle_server = record { benchmark = record { counter = 0; prev = 0 }; conns = []; accepted = 0 }

serve_lem_example : Reported true idle_server.benchmark 3 (serve a_morning idle_server)
unfolding is_open close_conn
serve_lem_example = serve_lem a_morning idle_server (omega arith) (omega arith)

-- The guard wakes up before the inputs have ended.
aborts_lem_example :
    (Agent.run
      (Agent.second_passes ∷ last_events)
      (record { phase = shutting false; sig_ch = none; told = false })).phase
    ≡ exited 1
aborts_lem_example = aborts_lem false none (Agent.second_passes ∷ []) (tt, tt)

-- A file with one server, a receiver and no more, and no port anywhere.
abbrev bare_config : Config
bare_config = record {
  tag_prefix = codes "p";
  field_name = [];
  read_buffer_size = 0;
  servers = record { host = codes "h"; port = 0 } ∷ [];
  server_round_robin = false;
  logs = [];
  receiver = some (record { host = []; port = 0; max_buffer_messages = 0 });
  monitor = none;
  sub_second_time = false;
}

abbrev from_file : Options
from_file = record {
  config_file = codes "c";
  help = false;
  field_name = [];
  monitor_addr = [];
  show_version = false;
  args = [];
}

begin-IsBeginning_example : IsBeginning (runs (restrict bare_config))
unfolding begin read_config
begin-IsBeginning_example =
    begin-IsBeginning (λ s. none) (λ s. 0) (λ name. some bare_config) from_file
