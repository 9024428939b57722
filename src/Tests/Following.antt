-- ===== src/Tests/Following.antt =====
-- hydra/in_tail.go and cmd/tail-f/main.go on a log that is renamed, and hydra/in_tail.go on stdin.
use fluent_agent_hydra.Prelude.{
  ℕ, ◌≡◌, refl, true, false, some, none, List, [], ◌∷◌, Bytes, codes, bytes_eq, arith,
}
use fluent_agent_hydra.Prelude.{split, last_index, List}
use fluent_agent_hydra.Fluent.Value.{Time, no_fields}
use fluent_agent_hydra.Hydra.Format.{Library, format_none}
use fluent_agent_hydra.Hydra.Records.{JsonUnmarshal, new_fluent_record_set, new_records, new_record}
use fluent_agent_hydra.Hydra.Tail.{
  tail_and_send, read_block, restrict, record_set_of, update_stat, new_file, Read, got, read_error,
}
use fluent_agent_hydra.Hydra.Tail.Delivery.{event_lines}
use fluent_agent_hydra.Hydra.InTail.{
  follow, new_trail_file, watch_file_event, poll, close_file, InTail, opens, fails, Op, event,
  timer, Turn, run, tail_stdin,
}
use fluent_agent_hydra.Hydra.InTail.Follow.{run-lines_read}
use fluent_agent_hydra.Hydra.InTail.Stdin.{tail_stdin_lem}
use fluent_agent_hydra.Hydra.Watcher.{Watcher, rel2abs, Paths}
use fluent_agent_hydra.TailF.{begin, follows, tail_f}
use fluent_agent_hydra.TailF.Program.{followed, begin-prints}

abbrev library : Library
library = record {
  parse_float = λ s. none;
  parse_time = λ layout s. none;
  float32_to_int64 = λ x. x;
  float64_to_int64 = λ x. x;
}

abbrev no_json : JsonUnmarshal
no_json line = (no_fields, true)

abbrev epoch : Time
epoch = record { sec = 0; nsec = 0 }

abbrev input : InTail
input = record {
  filename = codes "/var/log/a";
  tag = codes "t";
  field_name = codes "message";
  last_read_at = 0;
  watched = true;
  format = format_none;
  record_modifier = none;
  regexp = none;
  position = 0;
}

abbrev renamed : Op
renamed = record { write = false; remove = false; rename = true; create = false }

abbrev tick : ℕ → List Read → Turn
tick now reads = record {
  wake = timer;
  size = some 100;
  now = now;
  reads = reads;
  done_at = now;
  reopen = opens 0 ∷ [];
}

-- A read, a turn that comes too early, a rename with an unfinished line, and the new file.
abbrev day : List Turn
day =
    tick 1000000000 (got epoch (codes "a\nb") ∷ got epoch (codes "c\nd") ∷ [])
    ∷ tick 1000000001 (got epoch (codes "x\n") ∷ [])
    ∷ record (tick 1000000002 (got epoch (codes "e\nf") ∷ [])) {
      wake = event renamed;
      reopen = fails (codes "no such file") false ∷ opens 4 ∷ [];
    }
    ∷ tick 2000000000 (got epoch (codes "g\n") ∷ read_error ∷ [])
    ∷ []

run-lines_read_example :
    event_lines (run library no_json input (opens 10 ∷ []) day [] none).0
    ≡ codes "a" ∷ codes "bc" ∷ codes "de" ∷ codes "g" ∷ []
unfolding split
run-lines_read_example =
    run-lines_read library no_json input (opens 10 ∷ []) day [] none refl refl (omega arith)
      ((tt, omega arith), ((tt, omega arith), ((tt, (refl, omega arith)), ((tt, omega arith), tt))))

abbrev typed : List (Time × Bytes)
typed = (epoch, codes "hello") ∷ (epoch, codes "you") ∷ []

tail_stdin_lem_example : (tail_stdin library no_json input typed none).0.position ≡ 10
tail_stdin_lem_example =
    let (_, position, _) =
      tail_stdin_lem library no_json typed input none refl (omega arith) (omega arith) in
    position

-- Every file is in the directory "/d".
abbrev paths : Paths
paths = record { is_abs = λ s. true; join = λ d f. f; dir = λ f. codes "/d" }

begin-prints_example :
    (w : Watcher) × (begin paths (λ d. true) none 0 true (codes "/d/a" ∷ [])
      ≡ follows (followed 0 (codes "/d/a")) w)
    × (tail_f 0 (run library no_json (followed 0 (codes "/d/a")) (opens 10 ∷ []) day [] none).0
        ≡ some (codes "a\nbc\nde\ng\n"))
unfolding run follow rel2abs new_trail_file watch_file_event poll close_file tail_and_send
    read_block restrict split record_set_of new_fluent_record_set new_records new_record last_index
    bytes_eq update_stat new_file
begin-prints_example =
    begin-prints library no_json paths (λ d. true) none 0 (codes "/d/a") (codes "/d/a")
      (opens 10 ∷ []) day [] none refl refl refl refl (omega arith)
      ((tt, omega arith), ((tt, omega arith), ((tt, (refl, omega arith)), ((tt, omega arith), tt))))
      (omega arith)
