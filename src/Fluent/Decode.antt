-- ===== src/Fluent/Decode.antt =====
-- fluent/server.go: `DecodeEntries` and what it calls. The decoder of github.com/ugorji/go is a
-- parameter: from the unread bytes it answers with end of file, an error, or the items of an
-- array and the bytes behind it. Conversions of floats to int64 are parameters as well.
pub mod Coerce
pub mod Answers
pub mod Packed
pub mod Sets
pub mod OneSet
pub mod EventTime
use fluent_agent_hydra.Prelude.{
  ℕ, zero, suc, ◌+◌, ◌-◌, ◌^◌, none, some, List, [], ◌∷◌, ◌++◌, ltb, if◌then◌else◌, length,
  get_elem?, take, drop, Bytes, u32_mod, u64_mod, from_big_endian,
}
use fluent_agent_hydra.Fluent.Value.{
  Time, time_unix, Value, Items, no_items, item, Fields, no_fields, field, items,
}
use fluent_agent_hydra.Fluent.Record.{FluentRecordType, tiny, TinyFluentRecord, FluentRecordSet}

pub data DecodeError : Type 0 where
  end_of_file codec_error tag_field timestamp_field data_field record_set : DecodeError
  unexpected_payload unknown_type : DecodeError

-- `panicked` is an index out of range. `stuck` is no Go value: the loop ran out of fuel.
pub data Result {ℓ} (T : Type ℓ) : Type ℓ where
  panicked stuck : Result T
  err : DecodeError → Result T
  ok : T → Result T

-- Anything but a value ends the chain.
infixl 5 ◌>>=◌
abbrev pub ◌>>=◌ {ℓ κ} : {T : Type ℓ} {U : Type κ} → Result T → (T → Result U) → Result U
panicked >>= next = panicked
stuck >>= next = stuck
err why >>= next = err why
ok value >>= next = next value

-- What one call of the codec's `Decode` into a `[]interface{}` gives.
pub data Decoded : Type 0 where
  eof : Decoded
  failed : Decoded
  decoded : List Value → Bytes → Decoded

unfoldable mutual
  -- The value that `coerceInPlace` leaves in place of a value of a map.
  pub coerce_value : Value → Value
  coerce_value (Value.bytes b) = Value.string b
  coerce_value (Value.object fs) = Value.object (coerce_in_place fs)
  coerce_value v = v

  pub coerce_in_place : Fields → Fields
  coerce_in_place no_fields = no_fields
  coerce_in_place (field k v fs) = field k (coerce_value v) (coerce_in_place fs)

-- `time.Unix(sec, 0)`
abbrev pub unix : ℕ → Time
unix sec = record { sec = sec; nsec = 0 }

-- `int64(v)` of an int32: the sign bit is copied upwards.
abbrev pub sign_extend : ℕ → ℕ
sign_extend v = if ltb v (2 ^ 31) then v else v + u64_mod - u32_mod

-- `v[i]` on a slice: behind the end it panics.
abbrev pub index : List Value → ℕ → Result Value
index vs i = elim (get_elem? vs i) [ none ↦ panicked | some v ↦ ok v ]

abbrev pub as_object : Value → Result Fields
as_object (Value.object fs) = ok fs
as_object v = err data_field

abbrev pub as_tag : Value → Result Bytes
as_tag (Value.bytes b) = ok b
as_tag v = err tag_field

abbrev pub list_items : Items → List Value
list_items no_items = []
list_items (item v vs) = v ∷ list_items vs

module _ (decode : Bytes → Decoded) where
  -- The loop over the payload of the PackedForward mode.
  unfoldable pub decode_packed : ℕ → Bytes → List Value → Result (List Value)
  decode_packed zero s es = stuck
  decode_packed (suc fuel) s es = elim (decode s) [
    | eof ↦ ok es
    | failed ↦ err unexpected_payload
    | decoded vs rest ↦ decode_packed fuel rest (es ++ (Value.array (items vs) ∷ []))
  ]

module _ (float32_to_int64 float64_to_int64 : ℕ → ℕ) where
  unfoldable pub to_int64 : Value → ℕ
  to_int64 (Value.int v) = v
  to_int64 (Value.int32 v) = sign_extend v
  to_int64 (Value.int64 v) = v
  to_int64 (Value.uint v) = v
  to_int64 (Value.uint32 v) = v
  to_int64 (Value.uint64 v) = v
  to_int64 (Value.float32 v) = float32_to_int64 v
  to_int64 (Value.float64 v) = float64_to_int64 v
  to_int64 v = 0

  -- The type switch on the timestamp of an entry.
  unfoldable pub entry_timestamp : Value → Result Time
  unfolding to_int64
  entry_timestamp (Value.time t) = ok t
  entry_timestamp (Value.int v) = ok (unix (to_int64 (Value.int v)))
  entry_timestamp (Value.uint v) = ok (unix (to_int64 (Value.uint v)))
  entry_timestamp (Value.int64 v) = ok (unix (to_int64 (Value.int64 v)))
  entry_timestamp (Value.uint64 v) = ok (unix (to_int64 (Value.uint64 v)))
  entry_timestamp (Value.int32 v) = ok (unix (to_int64 (Value.int32 v)))
  entry_timestamp (Value.uint32 v) = ok (unix (to_int64 (Value.uint32 v)))
  entry_timestamp (Value.float32 v) = ok (unix (to_int64 (Value.float32 v)))
  entry_timestamp (Value.float64 v) = ok (unix (to_int64 (Value.float64 v)))
  entry_timestamp v = err timestamp_field

  -- One round of the loop of `decodeRecordSet`.
  unfoldable pub decode_entry : Value → Result FluentRecordType
  unfolding entry_timestamp
  decode_entry (Value.array (item t (item d no_items))) = do
    timestamp ← entry_timestamp t
    fields ← as_object d
    ok (tiny (record { timestamp = timestamp; fields = coerce_in_place fields }))
  decode_entry v = err record_set

  unfoldable pub decode_records : List Value → Result (List FluentRecordType)
  decode_records [] = ok []
  decode_records (e ∷ es) = do r ← decode_entry e; rs ← decode_records es; ok (r ∷ rs)

  unfoldable pub decode_record_set : Bytes → List Value → Result FluentRecordSet
  decode_record_set tag es = do
    records ← decode_records es
    ok (record { tag = tag; records = records })

  -- The one record set of the Message mode.
  unfoldable pub message_set : Bytes → Time → List Value → Result (List FluentRecordSet)
  message_set tag timestamp v = do
    third ← index v 2
    fields ← as_object third
    ok (
        record {
          tag = tag;
          records = tiny (record { timestamp = timestamp; fields = coerce_in_place fields }) ∷ [];
        }
        ∷ [])

  module _ (decode : Bytes → Decoded) where
    -- The type switch on the second item. Every entry takes a byte at least, so the length of
    -- the payload and one more round are fuel enough.
    unfoldable pub dispatch : Bytes → List Value → Value → Result (List FluentRecordSet)
    unfolding to_int64 message_set
    dispatch tag v (Value.int n) = message_set tag (unix (to_int64 (Value.int n))) v
    dispatch tag v (Value.uint n) = message_set tag (unix (to_int64 (Value.uint n))) v
    dispatch tag v (Value.int64 n) = message_set tag (unix (to_int64 (Value.int64 n))) v
    dispatch tag v (Value.uint64 n) = message_set tag (unix (to_int64 (Value.uint64 n))) v
    dispatch tag v (Value.int32 n) = message_set tag (unix (to_int64 (Value.int32 n))) v
    dispatch tag v (Value.uint32 n) = message_set tag (unix (to_int64 (Value.uint32 n))) v
    dispatch tag v (Value.float32 n) = message_set tag (unix (to_int64 (Value.float32 n))) v
    dispatch tag v (Value.float64 n) = message_set tag (unix (to_int64 (Value.float64 n))) v
    dispatch tag v (Value.time t) = message_set tag t v
    dispatch tag v (Value.array es) = do rs ← decode_record_set tag (list_items es); ok (rs ∷ [])
    dispatch tag v (Value.bytes payload) = do
      es ← decode_packed decode (length payload + 1) payload []
      rs ← decode_record_set tag es
      ok (rs ∷ [])
    dispatch tag v other = err unknown_type

    unfoldable pub decode_message : List Value → Result (List FluentRecordSet)
    unfolding dispatch
    decode_message v = do
      first ← index v 0
      tag ← as_tag first
      second ← index v 1
      dispatch tag v second

    -- The record sets, and what is left on the connection.
    unfoldable pub decode_entries : Bytes → Result (List FluentRecordSet) × Bytes
    unfolding decode_message
    decode_entries conn = elim (decode conn) [
      | eof ↦ (err end_of_file, conn)
      | failed ↦ (err codec_error, conn)
      | decoded v rest ↦ (decode_message v, rest)
    ]

-- `ReadExt` on the payload of an EventTime: `binary.Read` of a uint32, which leaves 0 and takes
-- what there is if fewer than four bytes are left.
unfoldable pub read_uint32 : Bytes → ℕ × Bytes
read_uint32 src =
    if ltb (length src) 4 then (0, []) else (from_big_endian 0 (take 4 src), drop 4 src)

unfoldable pub read_ext : Bytes → Time
unfolding read_uint32
read_ext src =
    let (sec, rest) = read_uint32 src in
    let (nanosec, _) = read_uint32 rest in time_unix sec nanosec
