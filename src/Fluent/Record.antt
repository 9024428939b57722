-- ===== src/Fluent/Record.antt =====
-- fluent/server.go: the three kinds of record and the record set.
use fluent_agent_hydra.Prelude.{
  ℕ, ◌≡◌, refl, Option, none, some, List, arith, if◌then◌else◌, length, Bytes, bytes_eq,
  bytes_eq_iff,
}
use fluent_agent_hydra.Fluent.Value.{Time, Value, Fields, lookup, no_fields, field}

pub record FluentRecord : Type 0 where
  pub tag : Bytes
  pub timestamp : Time
  pub fields : Fields

pub record TinyFluentRecord : Type 0 where
  pub timestamp : Time
  pub fields : Fields

pub record TinyFluentMessage : Type 0 where
  pub timestamp : Time
  pub field_name : Bytes
  pub message : Bytes

-- The values of the interface `FluentRecordType`.
pub data FluentRecordType : Type 0 where
  full : FluentRecord → FluentRecordType
  tiny : TinyFluentRecord → FluentRecordType
  tiny_message : TinyFluentMessage → FluentRecordType

pub record FluentRecordSet : Type 0 where
  pub tag : Bytes
  pub records : List FluentRecordType

unfoldable pub get_all_data : FluentRecordType → Fields
get_all_data (full r) = r.fields
get_all_data (tiny r) = r.fields
get_all_data (tiny_message r) = field r.field_name (Value.bytes r.message) no_fields

-- `GetData` of the three types.
unfoldable pub get_data : FluentRecordType → Bytes → Option Value
get_data (full r) key = lookup key r.fields
get_data (tiny r) key = lookup key r.fields
get_data (tiny_message r) key =
    if bytes_eq key r.field_name then some (Value.bytes r.message) else none

-- `GetData` finds exactly what `GetAllData` holds under the key, for every kind of record.
pub get_data-get_all_data :
    (r : FluentRecordType) (key : Bytes) → get_data r key ≡ lookup key (get_all_data r)
unfolding get_data get_all_data lookup
get_data-get_all_data (full r) key = refl
get_data-get_all_data (tiny r) key = refl
get_data-get_all_data (tiny_message r) key =
    ground (arith, bytes_eq_iff key r.field_name, bytes_eq_iff r.field_name key)

abbrev pub record_count : FluentRecordSet → ℕ
record_count rs = length rs.records
