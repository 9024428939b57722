-- ===== src/Fluent/Msgpack.antt =====
-- fluent/msgpack.go: the MessagePack writer. A buffer is the bytes written so far, and a method
-- returns the bytes that it appends. `EnableEventTime` is an argument.
pub mod Parse
pub mod RoundTrip
use fluent_agent_hydra.Prelude.{
  ℕ, ◌%◌, Bool, Option, none, some, [], ◌∷◌, ◌++◌, ltb, if◌then◌else◌, length, Bytes, u32_mod,
  big_endian,
}
use fluent_agent_hydra.Fluent.Value.{Time, Value, Fields}
use Prim.Native.Nat.{bit_or}

abbrev mp_int64 : ℕ
mp_int64 = 0xd3

abbrev mp_str : ℕ
mp_str = 0xa0

abbrev mp_str8 : ℕ
mp_str8 = 0xd9

abbrev mp_str16 : ℕ
mp_str16 = 0xda

abbrev mp_str32 : ℕ
mp_str32 = 0xdb

abbrev mp_2elm_array : ℕ
mp_2elm_array = 0x92

abbrev mp_1elm_map : ℕ
mp_1elm_map = 0x81

abbrev mp_bytes8 : ℕ
mp_bytes8 = 0xc4

abbrev mp_bytes16 : ℕ
mp_bytes16 = 0xc5

abbrev mp_bytes32 : ℕ
mp_bytes32 = 0xc6

abbrev mp_extension8 : ℕ
mp_extension8 = 0xd7

abbrev mp_event_time_type : ℕ
mp_event_time_type = 0

-- `WriteTime`. The conversions to uint32 keep the low 32 bits.
unfoldable pub write_time : Bool → Time → Bytes
write_time enable_event_time ts =
    if enable_event_time
    then mp_extension8
      ∷ mp_event_time_type
      ∷ (big_endian 4 (ts.sec % u32_mod) ++ big_endian 4 (ts.nsec % u32_mod))
    else mp_int64 ∷ big_endian 8 ts.sec

-- `WriteMpStringHead`; `byte(l)`, `uint8(l)`, `uint16(l)` and `uint32(l)` keep the low bits.
unfoldable pub write_mp_string_head : ℕ → Bytes
write_mp_string_head l =
    if ltb l 32
    then bit_or mp_str (l % 256) ∷ []
    else if ltb l 256
    then mp_str8 ∷ big_endian 1 (l % 256)
    else if ltb l 65536
    then mp_str16 ∷ big_endian 2 (l % 65536)
    else mp_str32 ∷ big_endian 4 (l % u32_mod)

unfoldable pub write_mp_bytes_head : ℕ → Bytes
write_mp_bytes_head l =
    if ltb l 256
    then mp_bytes8 ∷ big_endian 1 (l % 256)
    else if ltb l 65536
    then mp_bytes16 ∷ big_endian 2 (l % 65536)
    else mp_bytes32 ∷ big_endian 4 (l % u32_mod)

-- `[ts, {key: value}]`
unfoldable pub to_msgpack_tiny_message : Bool → Time → Bytes → Bytes → Bytes
to_msgpack_tiny_message enable_event_time ts key value =
    mp_2elm_array
    ∷ (write_time enable_event_time ts
        ++ (mp_1elm_map
            ∷ (write_mp_string_head (length key)
                ++ (key ++ (write_mp_string_head (length value) ++ value)))))

-- `[ts, data]`; `none` is the error of the codec.
unfoldable pub to_msgpack_record : (Value → Option Bytes) → Bool → Time → Fields → Option Bytes
to_msgpack_record write_msgpack enable_event_time ts fields =
    elim (write_msgpack (Value.object fields)) [
      | none ↦ none
      | some packed ↦ some (mp_2elm_array ∷ (write_time enable_event_time ts ++ packed))
    ]

-- `[tag, bin]`
unfoldable pub to_msgpack_record_set : Bytes → Bytes → Bytes
to_msgpack_record_set tag bin =
    mp_2elm_array
    ∷ (write_mp_string_head (length tag) ++ (tag ++ (write_mp_string_head (length bin) ++ bin)))
