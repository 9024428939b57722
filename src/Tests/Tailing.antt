-- ===== src/Tests/Tailing.antt =====
-- hydra/file.go on a short log.
use fluent_agent_hydra.Prelude.{◌≡◌, refl, true, none, some, List, [], ◌∷◌, ◌++◌, arith, codes}
use fluent_agent_hydra.Prelude.{split, terminated, last_index}
use fluent_agent_hydra.Fluent.Value.{Time, no_fields}
use fluent_agent_hydra.Hydra.Format.{format_none, Library}
use fluent_agent_hydra.Hydra.Records.{JsonUnmarshal}
use fluent_agent_hydra.Hydra.Tail.{File, Read, got, restrict, tail_and_send, read_block}
use fluent_agent_hydra.Hydra.Tail.Delivery.{event_lines}
use fluent_agent_hydra.Hydra.Tail.Lines.{tail_and_send_lem}
use fluent_agent_hydra.Hydra.Tail.Truncate.{truncated_line}

abbrev library : Library
library = record {
  parse_float = λ s. none;
  parse_time = λ layout s. none;
  float32_to_int64 = λ x. x;
  float64_to_int64 = λ x. x;
}

abbrev no_json : JsonUnmarshal
no_json line = (no_fields, true)

abbrev epoch : Time
epoch = record { sec = 0; nsec = 0 }

-- An unfinished line "ab" is in the buffer.
abbrev log : File
log = record {
  path = codes "/var/log/a";
  tag = codes "t";
  position = 10;
  cont_buf = codes "ab";
  field_name = codes "message";
  file_stat = record { tag = []; file = []; position = 0; error = [] };
  format = format_none;
  record_modifier = none;
  regexp = none;
}

abbrev blocks : List Read
blocks = got epoch (codes "c\nd") ∷ got epoch (codes "e") ∷ got epoch (codes "\nf\n") ∷ []

two_blocks : (read_block log (codes "c\nd")).1 ≡ some (codes "abc")
unfolding read_block last_index
two_blocks = refl

tail_and_send_lem_example :
    codes "abc\nde\nf\n"
    ≡ terminated b'\n' (event_lines (tail_and_send library no_json log blocks).1)
      ++ (tail_and_send library no_json log blocks).0.cont_buf
tail_and_send_lem_example =
    (tail_and_send_lem library no_json blocks log refl tt (omega arith) (omega arith)).1

truncated_line_example :
    split b'\n' (codes "abnew\n")
    ≡ event_lines
        (tail_and_send library no_json
          (record log { position = 0 })
          (got epoch (codes "new\n") ∷ [])).1
      ++ ((tail_and_send library no_json
            (record log { position = 0 })
            (got epoch (codes "new\n") ∷ [])).0.cont_buf
          ∷ [])
unfolding restrict
truncated_line_example =
    truncated_line library no_json log (record log { position = 0 }) 4
      (got epoch (codes "new\n") ∷ []) refl (omega arith) (omega arith) (omega arith) refl tt
