-- ===== src/Fluent/Protocol.antt =====
-- fluent/server.go on both ends of a connection: what `PackAsPackedForward` writes for raw log
-- lines, `DecodeEntries` reads. The codec of github.com/ugorji/go decodes MessagePack, as the
-- reader of Fluent/Msgpack/Parse does: a string and a byte string as bytes, an int64 as such,
-- and the extension of type 0 by `ReadExt`.
pub mod Forward
use fluent_agent_hydra.Prelude.{
  ℕ, zero, suc, ◌+◌, ◌≤◌, ◌<◌, ◌≡◌, refl, sym, ap, ◌∙◌, Bool, true, false, Option, some, List, [],
  ◌∷◌, ◌++◌, map, append-nil, append_assoc, arith, length, length-append, All, Bytes, u32_mod,
  big_endian,
}
use fluent_agent_hydra.Fluent.Value.{Time, time_unix, nanos, Value, Fields, no_fields, field, items}
use fluent_agent_hydra.Fluent.Record.{
  FluentRecordType, tiny, tiny_message, TinyFluentMessage, FluentRecordSet,
}
use fluent_agent_hydra.Fluent.Msgpack.{to_msgpack_tiny_message, to_msgpack_record_set}
use fluent_agent_hydra.Fluent.Msgpack.Parse.{read_tiny_message, read_record_set}
use fluent_agent_hydra.Fluent.Msgpack.RoundTrip.{
  written_time, read_tiny_message-to_msgpack, read_record_set-to_msgpack,
}
use fluent_agent_hydra.Fluent.Pack.{pack_as_packed_forward, pack_loop}
use fluent_agent_hydra.Fluent.Pack.Tiny.{Fits, packed_entries, pack_loop-tiny}
use fluent_agent_hydra.Fluent.Decode.{
  Decoded, eof, decoded, ok, read_ext, decode_packed, decode_records, decode_record_set,
  decode_entry, entry_timestamp, coerce_in_place, dispatch, decode_message, decode_entries,
  list_items,
}
use fluent_agent_hydra.Fluent.Decode.EventTime.{read_ext-big_endian}

-- What the codec makes of the two forms of a time.
abbrev pub time_value : Bool → Time → Value
time_value true ts = Value.time (read_ext (big_endian 4 ts.sec ++ big_endian 4 ts.nsec))
time_value false ts = Value.int64 ts.sec

abbrev pub message_values : Bool → Time → Bytes → Bytes → List Value
message_values event_time ts key value =
    time_value event_time ts ∷ Value.object (field key (Value.bytes value) no_fields) ∷ []

pub record Codec (event_time : Bool) (decode : Bytes → Decoded) : Type 0 where
  pub at_end : decode [] ≡ eof
  pub set :
      (s tag bin rest : Bytes)
      → read_record_set s ≡ some (tag, bin, rest)
      → decode s ≡ decoded (Value.bytes tag ∷ Value.bytes bin ∷ []) rest
  pub message :
      (s : Bytes) (ts : Time) (key value rest : Bytes)
      → read_tiny_message event_time s ≡ some (ts, key, value, rest)
      → decode s ≡ decoded (message_values event_time ts key value) rest

-- A time of Go has less than a second of nanoseconds.
abbrev pub IsNormal : TinyFluentMessage → Type 0
IsNormal m = m.timestamp.nsec < nanos

-- The record at the other end: the line has become a string.
abbrev pub received : Bool → TinyFluentMessage → FluentRecordType
received event_time m = tiny (record {
  timestamp = written_time event_time m.timestamp;
  fields = field m.field_name (Value.string m.message) no_fields;
})

abbrev entry_of : Bool → TinyFluentMessage → Value
entry_of event_time m =
    Value.array (
      items
        (message_values event_time (written_time event_time m.timestamp) m.field_name m.message))

length-packed_entries :
    (event_time : Bool) (ms : List TinyFluentMessage)
    → length ms ≤ length (packed_entries event_time ms)
unfolding to_msgpack_tiny_message
length-packed_entries event_time [] = omega arith
length-packed_entries event_time (m ∷ ms) = omega (
  arith,
  length-append (to_msgpack_tiny_message event_time m.timestamp m.field_name m.message)
      (packed_entries event_time ms),
  length-packed_entries event_time ms,
)

module _ (event_time : Bool) {decode : Bytes → Decoded} (codec : Codec event_time decode) where
  decode_packed-messages :
      (ms : List TinyFluentMessage) (fuel : ℕ) (done : List Value)
      → All (Fits event_time) ms
      → length ms < fuel
      → decode_packed decode fuel (packed_entries event_time ms) done
        ≡ ok (done ++ map (entry_of event_time) ms)
  unfolding decode_packed
  decode_packed-messages ms zero done fits h = absurd (omega arith)
  decode_packed-messages [] (suc fuel) done fits h =
      rw (codec.at_end, decode_packed) (ap ok (sym (append-nil done)))
  decode_packed-messages (m ∷ ms) (suc fuel) done fits h =
      let more = packed_entries event_time ms in
      let read =
        codec.message (packed_entries event_time (m ∷ ms)) (written_time event_time m.timestamp)
          m.field_name m.message more
          (read_tiny_message-to_msgpack event_time m.timestamp m.field_name m.message more
            fits.0.time_fits fits.0.key_fits fits.0.value_fits) in
      rw (read, decode_packed)
        (decode_packed-messages ms fuel _ fits.1 (omega arith)
          ∙ ap ok (append_assoc done (entry_of event_time m ∷ []) (map (entry_of event_time) ms)))

module _ (f32 f64 : ℕ → ℕ) where
  entry_timestamp-time_value :
      (event_time : Bool) (m : TinyFluentMessage)
      → Fits event_time m
      → IsNormal m
      → entry_timestamp f32 f64 (time_value event_time (written_time event_time m.timestamp))
        ≡ ok (written_time event_time m.timestamp)
  unfolding entry_timestamp
  entry_timestamp-time_value true m fits normal =
      ap ok (read_ext-big_endian m.timestamp fits.time_fits.0 normal)
  entry_timestamp-time_value false m fits normal = refl

  decode_records-entries :
      (event_time : Bool) (ms : List TinyFluentMessage)
      → All (Fits event_time) ms
      → All IsNormal ms
      → decode_records f32 f64 (map (entry_of event_time) ms) ≡ ok (map (received event_time) ms)
  unfolding decode_records decode_entry coerce_in_place
  decode_records-entries event_time [] fits normal = refl
  decode_records-entries event_time (m ∷ ms) fits normal = rw (
    entry_timestamp-time_value event_time m fits.0 normal.0,
    decode_records-entries event_time ms fits.1 normal.1,
  )

  -- What one agent sends, another receives: a record set of raw lines packs, and on the connection
  -- `DecodeEntries` reads of it one record set, with the same tag, and with one record for each
  -- line, in order, with the line under its key and the time that the format keeps; it leaves the
  -- bytes behind it. The codec decodes MessagePack. The tag, the keys, the lines and the packed
  -- entries are shorter than 2 ^ 32 bytes, and the times can be written.
  pub decode_entries-pack :
      (write_msgpack : Value → Option Bytes) (event_time : Bool) (decode : Bytes → Decoded)
      (tag : Bytes) (ms : List TinyFluentMessage) (rest : Bytes)
      → Codec event_time decode
      → length tag < u32_mod
      → All (Fits event_time) ms
      → All IsNormal ms
      → length (packed_entries event_time ms) < u32_mod
      → (packed : Bytes) × (pack_as_packed_forward write_msgpack event_time
            (record { tag = tag; records = map tiny_message ms })
          ≡ some packed)
        × (decode_entries f32 f64 decode (packed ++ rest)
            ≡ (ok (record { tag = tag; records = map (received event_time) ms } ∷ []), rest))
  unfolding pack_as_packed_forward decode_entries decode_record_set
  decode_entries-pack write_msgpack event_time decode tag ms rest codec ht fits normal hb =
      let bin = packed_entries event_time ms in
      let read =
        codec.set (to_msgpack_record_set tag bin ++ rest) tag bin rest
          (read_record_set-to_msgpack tag bin rest ht hb) in
      let entries =
        decode_packed-messages event_time codec ms (length bin + 1) [] fits
          (omega (arith, length-packed_entries event_time ms)) in
      (
        to_msgpack_record_set tag bin,
        rw (pack_loop-tiny write_msgpack event_time ms [], pack_as_packed_forward),
        rw (read, decode_entries, entries, decode_records-entries event_time ms fits normal),
      )
