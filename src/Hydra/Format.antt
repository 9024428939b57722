-- ===== src/Hydra/Format.antt =====
-- hydra/fileformat.go: log formats, converters of column types and of time strings, and the
-- modifier of records. `strconv.ParseFloat`, `time.Parse` and the conversions of floats are
-- parameters.
pub mod TypeMaps
pub mod Conversion
pub mod UnixTime
use fluent_agent_hydra.Prelude.{
  ℕ, ◌+◌, ◌-◌, ◌^◌, Bool, true, false, ◌||◌, not, Option, none, some, List, [], ◌∷◌, ◌++◌, map, ltb,
  if◌then◌else◌, length, take, replicate, Bytes, codes, bytes_eq, u32_mod, u64_mod,
}
use fluent_agent_hydra.Prelude.{split, split_two}
use fluent_agent_hydra.Prelude.Dict
use fluent_agent_hydra.Hydra.Strconv.{lower, is_text, parse_int, parse_bool}
use fluent_agent_hydra.Fluent.Value.{Time, time_unix, Value, Fields, lookup, insert}
use fluent_agent_hydra.Fluent.Record.{TinyFluentRecord}

pub data FileFormat : Type 0 where
  format_none format_ltsv format_json format_regexp : FileFormat

pub data ConvertType : Type 0 where
  convert_type_string convert_type_int convert_type_float convert_type_bool : ConvertType

-- The three types that implement `Converter`.
pub data Converter : Type 0 where
  convert_bool convert_int convert_float : Converter

-- The standard library's functions that the model leaves open.
pub record Library : Type 0 where
  pub parse_float : Bytes → Option ℕ
  pub parse_time : Bytes → Bytes → Option Time
  pub float32_to_int64 : ℕ → ℕ
  pub float64_to_int64 : ℕ → ℕ

-- `UnmarshalText` of a format; `none` is the error.
unfoldable pub unmarshal_format : Bytes → Option FileFormat
unfolding lower
unmarshal_format text =
    let name = map lower text in
    if is_text name (codes "ltsv")
    then some format_ltsv
    else if is_text name (codes "json")
    then some format_json
    else if is_text name (codes "regexp")
    then some format_regexp
    else if is_text name [] || is_text name (codes "none")
    then some format_none
    else none

abbrev pub time_format_apache : Bytes
time_format_apache = codes "02/Jan/2006:15:04:05 -0700"

abbrev pub time_format_nginx : Bytes
time_format_nginx = codes "02/Jan/2006:15:04:05 -0700"

abbrev pub time_format_syslog : Bytes
time_format_syslog = codes "Jan 02 15:04:05"

abbrev pub time_format_unix : Bytes
time_format_unix = codes "unix"

unfoldable pub unmarshal_time_format : Bytes → Bytes
unfolding lower
unmarshal_time_format text =
    let name = map lower text in
    if is_text name (codes "apache")
    then time_format_apache
    else if is_text name (codes "nginx")
    then time_format_nginx
    else if is_text name (codes "syslog")
    then time_format_syslog
    else text

abbrev pub or_zero : Option ℕ → ℕ
or_zero none = 0
or_zero (some n) = n

-- The nine digits that the code makes of the fraction of a Unix time.
unfoldable pub nine_digits : Bytes → Bytes
nine_digits s =
    if ltb (length s) 9
    then s ++ replicate (9 - length s) b'0'
    else if ltb 9 (length s)
    then take 9 s
    else s

-- `TimeConverter.Convert` in the format "unix".
unfoldable pub convert_unix : Bytes → Option Time
convert_unix v = elim (split_two b'.' v) [
  | none ↦ elim (parse_int v) [ none ↦ none | some sec ↦ some (time_unix sec 0) ]
  | some (whole, fraction) ↦ elim (parse_int whole) [
    | none ↦ none
    | some sec ↦ some (time_unix sec (or_zero (parse_int (nine_digits fraction))))
  ]
]

-- `NewConvertMap` fills both maps; the zero value of a configuration without `Types` has none.
pub record ConvertMap : Type 0 where
  pub type_map : List (Bytes × ConvertType)
  pub converter_map : Option (List (Bytes × Converter))

-- What the two maps of `NewConvertMap` hold while it runs.
abbrev pub TypeMaps : Type 0
TypeMaps = List (Bytes × ConvertType) × List (Bytes × Converter)

unfoldable pub add_type : Bytes → ConvertType → Converter → TypeMaps → TypeMaps
add_type key t c (types, converters) = (Dict.insert key t types, Dict.insert key c converters)

-- The switch on the name of the type.
unfoldable pub add_named : Bytes → Bytes → TypeMaps → TypeMaps
unfolding add_type
add_named key name m =
    if is_text name (codes "bool")
    then add_type key convert_type_bool convert_bool m
    else if is_text name (codes "integer")
    then add_type key convert_type_int convert_int m
    else if is_text name (codes "float")
    then add_type key convert_type_float convert_float m
    else m

-- One round of the loop of `NewConvertMap`.
unfoldable pub add_subdef : TypeMaps → Bytes → TypeMaps
add_subdef m subdef = elim (split_two b':' subdef) [
  | none ↦ m
  | some (key, name) ↦ add_named key name m
]

unfoldable pub add_subdefs : TypeMaps → List Bytes → TypeMaps
add_subdefs m [] = m
add_subdefs m (d ∷ ds) = add_subdefs (add_subdef m d) ds

unfoldable pub new_convert_map : Bytes → ConvertMap
unfolding add_subdefs
new_convert_map config =
    let (types, converters) = add_subdefs ([], []) (split b',' config) in
    record { type_map = types; converter_map = some converters }

pub record RecordModifier : Type 0 where
  pub convert_map : ConvertMap
  pub time_parse : Bool
  pub time_key : Bytes
  pub time_converter : Bytes

-- `c.TypeMap[key] == ConvertTypeInt`; a missing key reads as the zero value, a string.
abbrev pub is_int : Option ConvertType → Bool
is_int (some convert_type_int) = true
is_int _ = false

module _ (lib : Library) where
  -- `Convert` of the three converters; `none` is the error.
  unfoldable pub convert : Converter → Bytes → Option Value
  unfolding parse_bool parse_int
  convert convert_bool v = elim (parse_bool v) [ none ↦ none | some b ↦ some (Value.boolean b) ]
  convert convert_int v = elim (parse_int v) [ none ↦ none | some n ↦ some (Value.int64 n) ]
  convert convert_float v = elim (lib.parse_float v) [
    | none ↦ none
    | some x ↦ some (Value.float64 x)
  ]

  -- The type switch of `ConvertTypes`: what the value of a key becomes.
  unfoldable pub convert_value : Bool → Converter → Value → Value
  unfolding convert
  convert_value int c (Value.float64 x) =
      if int then Value.int64 (lib.float64_to_int64 x) else Value.float64 x
  convert_value int c (Value.float32 x) =
      if int then Value.int64 (lib.float32_to_int64 x) else Value.float32 x
  convert_value int c (Value.int n) = if int then Value.int64 n else Value.int n
  convert_value int c (Value.int32 n) =
      if int
      then Value.int64 (if ltb n (2 ^ 31) then n else n + u64_mod - u32_mod)
      else Value.int32 n
  convert_value int c (Value.string s) = elim (convert c s) [ none ↦ Value.string s | some v ↦ v ]
  convert_value int c v = v

  -- `ConvertTypes` over the converters that are left.
  unfoldable pub convert_types :
      List (Bytes × ConvertType) → List (Bytes × Converter) → Fields → Fields
  unfolding convert_value
  convert_types types [] fs = fs
  convert_types types ((key, c) ∷ cs) fs = convert_types types cs (elim (lookup key fs) [
    | none ↦ fs
    | some v ↦ insert key (convert_value (is_int (Dict.lookup key types)) c v) fs
  ])

  unfoldable pub convert_time : Bytes → Bytes → Option Time
  unfolding convert_unix
  convert_time layout v =
      if bytes_eq layout time_format_unix then convert_unix v else lib.parse_time layout v

  abbrev modify_types : ConvertMap → Fields → Fields
  modify_types m fs = elim m.converter_map [
    | none ↦ fs
    | some converters ↦ convert_types m.type_map converters fs
  ]

  -- The time that `Modify` reads from the data, if it reads one.
  unfoldable pub parsed_time : RecordModifier → Fields → Option Time
  unfolding convert_time
  parsed_time m fs = elim (lookup m.time_key fs) [
    | some (Value.string s) ↦ convert_time m.time_converter s
    | _ ↦ none
  ]

  unfoldable pub modify : RecordModifier → TinyFluentRecord → TinyFluentRecord
  unfolding parsed_time convert_types
  modify m r =
      let fs = modify_types m.convert_map r.fields in
      if not m.time_parse then record r { fields = fs } else elim (parsed_time m fs) [
        | none ↦ record r { fields = fs }
        | some ts ↦ record { timestamp = ts; fields = fs }
      ]
