-- ===== src/Fluent/Pack/Tiny.antt =====
-- fluent/server.go: packing a record set of raw log lines, read back.
use fluent_agent_hydra.Prelude.{
  ℕ, zero, suc, ◌<◌, ◌≡◌, refl, sym, ap, Bool, Option, none, some, List, [], ◌∷◌, ◌++◌, map,
  append-nil, append_assoc, length, All, Bytes, u32_mod,
}
use fluent_agent_hydra.Fluent.Value.{Value}
use fluent_agent_hydra.Fluent.Record.{tiny_message, TinyFluentMessage}
use fluent_agent_hydra.Fluent.Msgpack.{to_msgpack_tiny_message, to_msgpack_record_set}
use fluent_agent_hydra.Fluent.Msgpack.Parse.{◌>>=◌, read_tiny_message, read_record_set}
use fluent_agent_hydra.Fluent.Msgpack.RoundTrip.{
  IsWritable, written_time, read_tiny_message-to_msgpack, read_record_set-to_msgpack,
}
use fluent_agent_hydra.Fluent.Pack.{pack, pack_loop, pack_as_packed_forward}

-- What the writer can hold of a message.
pub record Fits (event_time : Bool) (m : TinyFluentMessage) : Type 0 where
  pub time_fits : IsWritable event_time m.timestamp
  pub key_fits : length m.field_name < u32_mod
  pub value_fits : length m.message < u32_mod

abbrev pub written : Bool → TinyFluentMessage → TinyFluentMessage
written event_time m = record m { timestamp = written_time event_time m.timestamp }

-- The messages that stand one behind the other in `s`, which has to end after the last.
unfoldable pub read_messages : Bool → ℕ → Bytes → Option (List TinyFluentMessage)
read_messages event_time zero [] = some []
read_messages event_time zero (b ∷ s) = none
read_messages event_time (suc n) s = do
  (ts, key, value, rest) ← read_tiny_message event_time s
  ms ← read_messages event_time n rest
  some (record { timestamp = ts; field_name = key; message = value } ∷ ms)

-- The entries of a record set, one behind the other.
abbrev pub packed_entries : Bool → List TinyFluentMessage → Bytes
packed_entries event_time [] = []
packed_entries event_time (m ∷ ms) =
    to_msgpack_tiny_message event_time m.timestamp m.field_name m.message
    ++ packed_entries event_time ms

pub pack_loop-tiny :
    (write_msgpack : Value → Option Bytes) (event_time : Bool) (ms : List TinyFluentMessage)
    (buffer : Bytes)
    → pack_loop write_msgpack event_time (map tiny_message ms) buffer
      ≡ some (buffer ++ packed_entries event_time ms)
unfolding pack_loop pack
pack_loop-tiny write_msgpack event_time [] buffer = ap some (sym (append-nil buffer))
pack_loop-tiny write_msgpack event_time (m ∷ ms) buffer =
    rw (pack_loop-tiny write_msgpack event_time ms) (ap some (append_assoc buffer _ _))

read_messages-packed :
    (event_time : Bool) (ms : List TinyFluentMessage)
    → All (Fits event_time) ms
    → read_messages event_time (length ms) (packed_entries event_time ms)
      ≡ some (map (written event_time) ms)
unfolding read_messages
read_messages-packed event_time [] h = refl
read_messages-packed event_time (m ∷ ms) (h, hs) = rw (
  read_tiny_message-to_msgpack event_time m.timestamp m.field_name m.message _ h.time_fits
      h.key_fits h.value_fits,
  read_messages-packed event_time ms hs,
)

-- A set of raw lines packs, whatever the codec does, if the tag, the keys, the lines and the
-- packed entries are shorter than 2 ^ 32 bytes and the times can be written. What is sent is one
-- MessagePack array of the tag and a byte string, and the byte string is the records in order.
pub pack_as_packed_forward-tiny :
    (write_msgpack : Value → Option Bytes) (event_time : Bool) (tag : Bytes)
    (ms : List TinyFluentMessage)
    → length tag < u32_mod
    → All (Fits event_time) ms
    → length (packed_entries event_time ms) < u32_mod
    → (packed : Bytes) × (bin : Bytes) × (pack_as_packed_forward write_msgpack event_time
          (record { tag = tag; records = map tiny_message ms })
        ≡ some packed)
      × (read_record_set packed ≡ some (tag, bin, []))
      × (read_messages event_time (length ms) bin ≡ some (map (written event_time) ms))
unfolding pack_as_packed_forward
pack_as_packed_forward-tiny write_msgpack event_time tag ms ht hs hb =
    let bin = packed_entries event_time ms in
    (
      to_msgpack_record_set tag bin,
      bin,
      rw (pack_loop-tiny write_msgpack event_time ms [], pack_as_packed_forward),
      rw (append-nil (to_msgpack_record_set tag bin)) at
          (read_record_set-to_msgpack tag bin [] ht hb),
      read_messages-packed event_time ms hs,
    )
