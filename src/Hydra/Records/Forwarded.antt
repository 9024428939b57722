-- ===== src/Hydra/Records/Forwarded.antt =====
-- hydra/hydra.go and fluent/server.go: a buffer of log lines, from one agent to another.
use fluent_agent_hydra.Prelude.{
  ℕ, ◌≤◌, ◌<◌, ◌≡◌, refl, ap, ◌∙◌, Bool, Option, some, List, [], ◌∷◌, ◌++◌, map, arith, length,
  length-append, All, Bytes, Lacks, u32_mod, split, terminated, split-All-Lacks, terminated-split,
}
use fluent_agent_hydra.Fluent.Value.{Time, Value, nanos, no_fields, field}
use fluent_agent_hydra.Fluent.Record.{
  FluentRecordType, tiny, tiny_message, TinyFluentMessage, FluentRecordSet,
}
use fluent_agent_hydra.Fluent.Msgpack.{write_time, write_mp_string_head, to_msgpack_tiny_message}
use fluent_agent_hydra.Fluent.Msgpack.RoundTrip.{IsWritable, written_time}
use fluent_agent_hydra.Fluent.Pack.{pack_as_packed_forward}
use fluent_agent_hydra.Fluent.Pack.Tiny.{Fits, packed_entries}
use fluent_agent_hydra.Fluent.Decode.{Decoded, ok, decode_entries}
use fluent_agent_hydra.Fluent.Protocol.{Codec, IsNormal, received, decode_entries-pack}
use fluent_agent_hydra.Hydra.Format.{format_none, Library, RecordModifier}
use fluent_agent_hydra.Hydra.Records.{Regexp, JsonUnmarshal, new_fluent_record_set}
use fluent_agent_hydra.Hydra.Records.Plain.{plain_record, new_fluent_record_set-split}

abbrev pub message_of : Time → Bytes → Bytes → TinyFluentMessage
message_of t key line = record { timestamp = t; field_name = key; message = line }

-- What the other agent has of a line.
abbrev pub arrived : Bool → Time → Bytes → Bytes → FluentRecordType
arrived event_time t key line = tiny (record {
  timestamp = written_time event_time t;
  fields = field key (Value.string line) no_fields;
})

module _ (event_time : Bool) (t : Time) (key : Bytes) where
  map-plain :
      (lines : List Bytes)
      → map (plain_record t key) lines ≡ map tiny_message (map (message_of t key) lines)
  map-plain [] = refl
  map-plain (l ∷ lines) = ap (λ rs. plain_record t key l ∷ rs) (map-plain lines)

  map-arrived :
      (lines : List Bytes)
      → map (received event_time) (map (message_of t key) lines)
        ≡ map (arrived event_time t key) lines
  map-arrived [] = refl
  map-arrived (l ∷ lines) = ap (λ rs. arrived event_time t key l ∷ rs) (map-arrived lines)

  length-message :
      (line : Bytes) → length line ≤ length (to_msgpack_tiny_message event_time t key line)
  unfolding to_msgpack_tiny_message
  length-message line =
      let head = write_mp_string_head (length line) in
      let name = write_mp_string_head (length key) in
      omega (
        arith,
        length-append (write_time event_time t) (0x81 ∷ (name ++ (key ++ (head ++ line)))),
        length-append name (key ++ (head ++ line)),
        length-append key (head ++ line),
        length-append head line,
      )

  lines-Fits :
      (lines : List Bytes)
      → IsWritable event_time t
      → length key < u32_mod
      → t.nsec < nanos
      → length (packed_entries event_time (map (message_of t key) lines)) < u32_mod
      → All (Fits event_time) (map (message_of t key) lines)
        × All IsNormal (map (message_of t key) lines)
  lines-Fits [] w k n h = (tt, tt)
  lines-Fits (l ∷ lines) w k n h =
      let own = to_msgpack_tiny_message event_time t key l in
      let more = packed_entries event_time (map (message_of t key) lines) in
      let both = length-append own more in
      let (fits, normal) = lines-Fits lines w k n (omega (arith, both)) in
      (
        (
          record {
            time_fits = w;
            key_fits = k;
            value_fits = omega (arith, both, length-message l);
          },
          fits,
        ),
        (n, normal),
      )

-- A buffer of raw log lines, from the agent that tailed it to another that receives: it becomes a
-- record set that packs, of which `DecodeEntries` reads on the connection one record set with the
-- same tag, and with one record for each line, in order, under the key and with the time that the
-- format keeps; no line holds a newline, and the lines with a newline behind each spell the buffer
-- and a newline. The codec decodes MessagePack. The tag, the key and the packed lines are shorter
-- than 2 ^ 32 bytes, and the time can be written.
pub buffer-arrives :
    (lib : Library) (unmarshal : JsonUnmarshal) (mod' : Option RecordModifier) (reg : Option Regexp)
    (write_msgpack : Value → Option Bytes) (f32 f64 : ℕ → ℕ) (event_time : Bool)
    (decode : Bytes → Decoded) (t : Time) (tag key buffer rest : Bytes)
    → Codec event_time decode
    → IsWritable event_time t
    → t.nsec < nanos
    → length tag < u32_mod
    → length key < u32_mod
    → length (packed_entries event_time (map (message_of t key) (split b'\n' buffer))) < u32_mod
    → (rs : FluentRecordSet) × (packed : Bytes) × (lines : List Bytes) × (new_fluent_record_set lib
          unmarshal t tag key format_none mod' reg buffer
        ≡ some rs)
      × (pack_as_packed_forward write_msgpack event_time rs ≡ some packed)
      × (decode_entries f32 f64 decode (packed ++ rest)
          ≡ (ok (record { tag = tag; records = map (arrived event_time t key) lines } ∷ []), rest))
      × All (Lacks b'\n') lines
      × (terminated b'\n' lines ≡ buffer ++ (b'\n' ∷ []))
buffer-arrives lib unmarshal mod' reg write_msgpack f32 f64 event_time decode t tag key buffer rest
      codec w n ht hk hb =
    let lines = split b'\n' buffer in
    let (fits, normal) = lines-Fits event_time t key lines w hk n hb in
    let (packed, packs, read) =
      decode_entries-pack f32 f64 write_msgpack event_time decode tag (map (message_of t key) lines)
        rest codec ht fits normal hb in
    (
      record { tag = tag; records = map (plain_record t key) lines },
      packed,
      lines,
      new_fluent_record_set-split lib unmarshal t tag key mod' reg buffer,
      ap
            (λ rs.
              pack_as_packed_forward write_msgpack event_time (record { tag = tag; records = rs }))
            (map-plain event_time t key lines)
          ∙ packs,
      read
          ∙ ap (λ rs. (ok (record { tag = tag; records = rs } ∷ []), rest))
              (map-arrived event_time t key lines),
      split-All-Lacks b'\n' buffer,
      terminated-split b'\n' buffer,
    )
