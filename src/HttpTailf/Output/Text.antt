-- ===== src/HttpTailf/Output/Text.antt =====
-- cmd/fluent-http-tailf/main.go: the text that is written for record sets, when no write fails.
use fluent_agent_hydra.Prelude.{
  ◌-◌, ◌≤◌, ◌≡◌, sym, ap, ◌∙◌, Bool, true, false, some, List, [], ◌∷◌, ◌++◌, append-nil,
  append_assoc, arith, Bytes, length, length-append, All, if◌then◌else◌,
}
use fluent_agent_hydra.Fluent.Value.{Value, Fields, Time}
use fluent_agent_hydra.Fluent.Record.{FluentRecordType, full, tiny, tiny_message}
use fluent_agent_hydra.Ltsv.{Writer, fprint, keys, sort_strings}
use fluent_agent_hydra.Ltsv.Chunks.{
  joined, joined-append, write_all, write_all-good, same_writer, columns_chunks, and_then-done,
}
use fluent_agent_hydra.Ltsv.RoundTrip.{encode-chunks}
use fluent_agent_hydra.HttpTailf.Output.{
  OutputOption, Encoder, json_encoder, ltsv_encoder, print_prefix, write_response, dump_records,
}

-- An encoder that makes a list of writes for each record, until one fails.
pub record Writes (encoder : Encoder) : Type 0 where
  pub chunks : Fields → List Bytes
  pub law : (fs : Fields) (w : Writer) → encoder fs w ≡ write_all (chunks fs) w

-- The writer after writes that all succeed.
abbrev pub wrote : List Bytes → Writer → Writer
wrote bs w = record { written = w.written ++ joined bs; good = w.good - length bs }

pub wrote-append : (bs cs : List Bytes) (w : Writer) → wrote cs (wrote bs w) ≡ wrote (bs ++ cs) w
wrote-append bs cs w =
    same_writer
      (append_assoc w.written (joined bs) (joined cs)
        ∙ ap (λ s. w.written ++ s) (sym (joined-append bs cs)))
      (omega (arith, length-append bs cs))

abbrev pub IsTiny : FluentRecordType → Type 0
IsTiny (tiny r) = Unit
IsTiny _ = ⊥

pub wrote-nil : (w : Writer) → w ≡ wrote [] w
wrote-nil w = same_writer (sym (append-nil w.written)) (omega arith)

fprint-wrote : (b : Bytes) (w : Writer) → 1 ≤ w.good → (fprint b w).0 ≡ wrote (b ∷ []) w
fprint-wrote b w h =
    unfold write_all in
    ap (λ r. r.0) (sym (and_then-done (fprint b w)) ∙ write_all-good (b ∷ []) w h)

-- One write or none.
abbrev chunk_if : Bool → Bytes → List Bytes
chunk_if b x = if b then x ∷ [] else []

write_if :
    (b : Bool) (x : Bytes) (w : Writer)
    → length (chunk_if b x) ≤ w.good
    → (if b then (fprint x w).0 else w) ≡ wrote (chunk_if b x) w
write_if true x w h = fprint-wrote x w h
write_if false x w h = wrote-nil w

module _ (rfc3339 : Time → Bytes) (option : OutputOption) (tag : Bytes) where
  abbrev pub prefix_chunks : Time → List Bytes
  prefix_chunks ts =
      chunk_if option.include_time (rfc3339 ts ++ (b'\t' ∷ []))
      ++ chunk_if option.include_tag (tag ++ (b'\t' ∷ []))

  print_prefix-wrote :
      (ts : Time) (w : Writer)
      → length (prefix_chunks ts) ≤ w.good
      → print_prefix rfc3339 option tag ts w ≡ wrote (prefix_chunks ts) w
  unfolding print_prefix
  print_prefix-wrote ts w h =
      let time = rfc3339 ts ++ (b'\t' ∷ []) in
      let label = tag ++ (b'\t' ∷ []) in
      let times = chunk_if option.include_time time in
      let labels = chunk_if option.include_tag label in
      let both = length-append times labels in
      ap (λ v. if option.include_tag then (fprint label v).0 else v)
        (write_if option.include_time time w (omega (arith, both)))
      ∙ write_if option.include_tag label (wrote times w) (omega (arith, both))
      ∙ wrote-append times labels w

  module _ {encoder : Encoder} (writes : Writes encoder) where
    -- The writes for the records: each has its prefix, and what the encoder makes of it.
    abbrev pub set_chunks : List FluentRecordType → List Bytes
    set_chunks [] = []
    set_chunks (tiny r ∷ records) =
        (prefix_chunks r.timestamp ++ writes.chunks r.fields) ++ set_chunks records
    set_chunks (_ ∷ records) = set_chunks records

    encoder-wrote :
        (ts : Time) (fs : Fields) (w : Writer)
        → length (prefix_chunks ts ++ writes.chunks fs) ≤ w.good
        → encoder fs (print_prefix rfc3339 option tag ts w)
          ≡ (wrote (prefix_chunks ts ++ writes.chunks fs) w, true)
    encoder-wrote ts fs w h =
        let own = writes.chunks fs in
        let before = prefix_chunks ts in
        let both = length-append before own in
        ap (encoder fs) (print_prefix-wrote ts w (omega (arith, both)))
        ∙ writes.law fs (wrote before w)
        ∙ write_all-good own (wrote before w) (omega (arith, both))
        ∙ ap (λ v. (v, true)) (wrote-append before own w)

    -- On a writer that does not fail before, the response to a client is for every record, in
    -- order, the time and the tag if they are asked for, each with a tab, and the text that the
    -- encoder makes of the record; there is no error and no panic, if all records are such as
    -- `DecodeEntries` makes.
    pub write_response_lem :
        (records : List FluentRecordType) (w : Writer)
        → All IsTiny records
        → length (set_chunks records) ≤ w.good
        → write_response rfc3339 encoder option tag records w
          ≡ some (wrote (set_chunks records) w, true)
    unfolding write_response
    write_response_lem [] w h enough = ap (λ v. some (v, true)) (wrote-nil w)
    write_response_lem (tiny r ∷ records) w h enough =
        let own = prefix_chunks r.timestamp ++ writes.chunks r.fields in
        let all = length-append own (set_chunks records) in
        rw (encoder-wrote r.timestamp r.fields w (omega (arith, all))) (
          write_response_lem records (wrote own w) h.1 (omega (arith, all))
          ∙ ap (λ v. some (v, true)) (wrote-append own (set_chunks records) w))
    write_response_lem (full r ∷ records) w h enough = absurd h.0
    write_response_lem (tiny_message r ∷ records) w h enough = absurd h.0

    pub dump_records_lem :
        (records : List FluentRecordType) (w : Writer)
        → All IsTiny records
        → length (set_chunks records) ≤ w.good
        → dump_records rfc3339 encoder option tag records w ≡ some (wrote (set_chunks records) w)
    unfolding dump_records
    dump_records_lem [] w h enough = ap some (wrote-nil w)
    dump_records_lem (tiny r ∷ records) w h enough =
        let own = prefix_chunks r.timestamp ++ writes.chunks r.fields in
        let all = length-append own (set_chunks records) in
        rw (encoder-wrote r.timestamp r.fields w (omega (arith, all))) (
          dump_records_lem records (wrote own w) h.1 (omega (arith, all))
          ∙ ap some (wrote-append own (set_chunks records) w))
    dump_records_lem (full r ∷ records) w h enough = absurd h.0
    dump_records_lem (tiny_message r ∷ records) w h enough = absurd h.0

abbrev pub ltsv_chunks : (Value → Bytes) → Fields → List Bytes
ltsv_chunks print fs = columns_chunks print true (sort_strings (keys fs)) fs ++ ((b'\n' ∷ []) ∷ [])

pub ltsv_encoder_lem :
    (print : Value → Bytes) (fs : Fields) (w : Writer)
    → ltsv_encoder print fs w ≡ write_all (ltsv_chunks print fs) w
unfolding ltsv_encoder
ltsv_encoder_lem print fs w = encode-chunks print fs w

abbrev pub ltsv_writes : (print : Value → Bytes) → Writes (ltsv_encoder print)
ltsv_writes print = record { chunks = ltsv_chunks print; law = ltsv_encoder_lem print }

abbrev pub json_chunks : (Fields → Bytes) → Fields → List Bytes
json_chunks json fs = (json fs ++ (b'\n' ∷ [])) ∷ []

pub json_encoder_lem :
    (json : Fields → Bytes) (fs : Fields) (w : Writer)
    → json_encoder (λ gs. some (json gs)) fs w ≡ write_all (json_chunks json fs) w
unfolding json_encoder write_all
json_encoder_lem json fs w = sym (and_then-done (fprint (json fs ++ (b'\n' ∷ [])) w))

-- For records that all have a JSON text.
abbrev pub json_writes : (json : Fields → Bytes) → Writes (json_encoder (λ fs. some (json fs)))
json_writes json = record { chunks = json_chunks json; law = json_encoder_lem json }
