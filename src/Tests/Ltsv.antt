-- ===== src/Tests/Ltsv.antt =====
-- ltsv/ltsv.go on a small record.
use fluent_agent_hydra.Prelude.{
  inl, inr, Bool-cases, bytes_eq_iff, contains, ◌≡◌, refl, some, [], Bytes, codes, arith, bytes_eq,
}
use fluent_agent_hydra.Fluent.Value.{Value, Fields, no_fields, field, lookup}
use fluent_agent_hydra.Ltsv.{Writer, encode, escape, text_le, text_of, keys}
use fluent_agent_hydra.Ltsv.RoundTrip.{encode_lem}
use fluent_agent_hydra.Ltsv.Maps.{SameMap, encode_eq}
use fluent_agent_hydra.Hydra.Records.{new_fluent_record_ltsv}

abbrev print_one : Value → Bytes
print_one v = codes "1"

abbrev empty_file : Writer
empty_file = record { written = []; good = 100 }

abbrev request : Fields
request = field (codes "foo") (Value.int 1) (
    field (codes "bar") (Value.string (codes "BAR")) (
      field (codes "baz") (Value.string (codes "B\tZ"))
        (field (codes "bytes") (Value.bytes (codes "ABC")) no_fields)))

encode-request :
    (encode print_one (Value.object request) empty_file).0.written
    ≡ codes "bar:BAR\tbaz:B\\tZ\tbytes:ABC\tfoo:1\n"
unfolding encode lookup bytes_eq text_le text_of
encode-request = refl

encode_lem_example :
    (line : Bytes) × (lookup (codes "baz") (new_fluent_record_ltsv (codes "message") line)
      ≡ some (Value.string (codes "B\\tZ")))
unfolding keys escape lookup bytes_eq text_of
encode_lem_example =
    let (line, w, e, written, one_line, read) =
      encode_lem print_one request empty_file (codes "message") (codes "baz") (omega arith)
        (omega arith) (omega arith) in
    (line, read)

-- The same map in two orders.
abbrev forth : Fields
forth = field (codes "foo") (Value.int 1) (field (codes "bar") (Value.string (codes "B")) no_fields)

abbrev back : Fields
back = field (codes "bar") (Value.string (codes "B")) (field (codes "foo") (Value.int 1) no_fields)

forth-SameMap : SameMap forth back
unfolding lookup
forth-SameMap k = elim (Bool-cases (bytes_eq (codes "foo") k)) [
  | inl e ↦ rw (← (bytes_eq_iff (codes "foo") k).0 e) (unfold bytes_eq in refl)
  | inr e ↦ rw (e, lookup) refl
]

encode_eq_example :
    encode print_one (Value.object forth) empty_file
    ≡ encode print_one (Value.object back) empty_file
unfolding keys bytes_eq contains
encode_eq_example =
    encode_eq print_one forth back forth-SameMap empty_file (refl, (refl, tt)) (refl, (refl, tt))
