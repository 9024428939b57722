-- ===== src/Fluent/Pack.antt =====
-- fluent/server.go: the `Pack` methods and the two ways of packing a record set.
-- The codec of github.com/ugorji/go is the parameter `write_msgpack`; `none` is its error.
pub mod Tiny
use fluent_agent_hydra.Prelude.{Bool, Option, none, some, List, [], ◌∷◌, ◌++◌, Bytes}
use fluent_agent_hydra.Fluent.Value.{Time, Value, Items, Fields, items}
use fluent_agent_hydra.Fluent.Record.{FluentRecordType, full, tiny, tiny_message, FluentRecordSet}
use fluent_agent_hydra.Fluent.Msgpack.{
  to_msgpack_tiny_message, to_msgpack_record, to_msgpack_record_set,
}

module _ (write_msgpack : Value → Option Bytes) (enable_event_time : Bool) where
  -- `Pack` of the three types.
  unfoldable pub pack : FluentRecordType → Option Bytes
  pack (full r) = write_msgpack (
      Value.array
        (items (Value.string r.tag ∷ Value.time r.timestamp ∷ Value.object r.fields ∷ [])))
  pack (tiny r) = to_msgpack_record write_msgpack enable_event_time r.timestamp r.fields
  pack (tiny_message r) =
      some (to_msgpack_tiny_message enable_event_time r.timestamp r.field_name r.message)

  -- The loop of `PackAsPackedForward`; it stops at the first error.
  unfoldable pub pack_loop : List FluentRecordType → Bytes → Option Bytes
  pack_loop [] buffer = some buffer
  pack_loop (r ∷ records) buffer = elim (pack r) [
    | none ↦ none
    | some packed ↦ pack_loop records (buffer ++ packed)
  ]

  unfoldable pub pack_as_packed_forward : FluentRecordSet → Option Bytes
  pack_as_packed_forward rs = elim (pack_loop rs.records []) [
    | none ↦ none
    | some buffer ↦ some (to_msgpack_record_set rs.tag buffer)
  ]

  -- The loop of `PackAsForward`: every record is a byte slice of its own.
  unfoldable pub pack_each : List FluentRecordType → Option (List Value)
  pack_each [] = some []
  pack_each (r ∷ records) =
      let rest = pack_each records in
      elim (pack r) [
        | none ↦ none
        | some packed ↦ elim rest [ none ↦ none | some vs ↦ some (Value.bytes packed ∷ vs) ]
      ]

  unfoldable pub pack_as_forward : FluentRecordSet → Option Bytes
  pack_as_forward rs = elim (pack_each rs.records) [
    | none ↦ none
    | some vs ↦
        write_msgpack (Value.array (items (Value.string rs.tag ∷ Value.array (items vs) ∷ [])))
  ]
