-- ===== src/Tests/Formats.antt =====
-- hydra/fileformat.go and the records of hydra/hydra.go on small inputs.
use fluent_agent_hydra.Prelude.{
  ◌-◌, ◌^◌, ◌≡◌, refl, true, none, some, List, [], ◌∷◌, arith, Bytes, codes, bytes_eq,
}
use fluent_agent_hydra.Prelude.Dict
use fluent_agent_hydra.Fluent.Value.{Time, Value, Fields, no_fields, field, lookup}
use fluent_agent_hydra.Hydra.Format.{
  format_ltsv, Library, ConvertType, convert_type_int, convert_type_float, convert_int,
  convert_types, convert_value, convert_unix, new_convert_map, unmarshal_format,
}
use fluent_agent_hydra.Hydra.Format.Conversion.{lookup-convert_types}
use fluent_agent_hydra.Hydra.Format.TypeMaps.{new_convert_map-render}
use fluent_agent_hydra.Hydra.Format.UnixTime.{convert_unix-negative}
use fluent_agent_hydra.Hydra.Records.{JsonUnmarshal}

abbrev library : Library
library = record {
  parse_float = λ s. none;
  parse_time = λ layout s. none;
  float32_to_int64 = λ x. x;
  float64_to_int64 = λ x. x;
}

abbrev no_json : JsonUnmarshal
no_json line = (no_fields, true)

upper_case_format : unmarshal_format (codes "LTSV") ≡ some format_ltsv
unfolding unmarshal_format bytes_eq
upper_case_format = refl

abbrev status : List (Bytes × ConvertType)
status = (codes "size", convert_type_float) ∷ (codes "status", convert_type_float) ∷ []

new_convert_map-render_example :
    Dict.lookup
      (codes "status")
      (new_convert_map (codes "status:integer,size:float,status:float")).type_map
    ≡ some convert_type_float
unfolding bytes_eq
new_convert_map-render_example =
    let (_, _, e, _) =
      new_convert_map-render (codes "status", convert_type_int) status (codes "status")
        (omega arith) (omega arith) in
    e

abbrev record_fields : Fields
record_fields =
    field (codes "status") (Value.string (codes "200"))
      (field (codes "path") (Value.string (codes "/")) no_fields)

lookup-convert_types_example :
    lookup (codes "status") (
      convert_types library
        ((codes "status", convert_type_int) ∷ [])
        ((codes "status", convert_int) ∷ [])
        record_fields)
    ≡ some (Value.int64 200)
unfolding Dict.lookup lookup bytes_eq convert_value
lookup-convert_types_example =
    lookup-convert_types library ((codes "status", convert_type_int) ∷ [])
      ((codes "status", convert_int) ∷ []) (codes "status") record_fields (refl, tt)

convert_unix-negative_example :
    convert_unix (codes "-1.5") ≡ some (record { sec = 2 ^ 64 - 1; nsec = 500000000 })
convert_unix-negative_example =
    convert_unix-negative (codes "1") (codes "5") (λ e. cc) (omega arith) (omega arith)
      (omega arith)

abbrev epoch : Time
epoch = record { sec = 0; nsec = 0 }
