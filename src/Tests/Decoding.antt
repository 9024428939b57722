-- ===== src/Tests/Decoding.antt =====
-- fluent/server.go: the decoder on a toy codec, in which an array is one byte for its length and
-- each item one byte.
use fluent_agent_hydra.Prelude.{
  ℕ, ◌≡◌, refl, ap, ◌↔◌, List, [], ◌∷◌, arith, length, All, Bytes, codes,
}
use fluent_agent_hydra.Fluent.Value.{Value, items, no_fields, field}
use fluent_agent_hydra.Fluent.Record.{FluentRecordSet, tiny}
use fluent_agent_hydra.Fluent.Decode.{
  Decoded, eof, decoded, ok, err, record_set, coerce_value, decode_message, decode_entries,
  decode_record_set, decode_records, decode_entry,
}
use fluent_agent_hydra.Fluent.Decode.Answers.{Consumes, Answers, decode_entries-Answers}
use fluent_agent_hydra.Fluent.Decode.Packed.{arrays, packed_forward-eq-forward}
use fluent_agent_hydra.Fluent.Decode.OneSet.{OneSet, tag_of, decode_entries-OneSet}
use fluent_agent_hydra.Fluent.Decode.Sets.{IsEntry, IsDecoded, decode_record_set_iff}

abbrev truncate : ℕ → ℕ
truncate v = v

-- Every message is a tag and two more items, whatever the bytes.
abbrev message_items : List Value
message_items =
    Value.bytes (codes "test")
    ∷ Value.int64 1417269412
    ∷ Value.object (field (codes "a") (Value.bytes (codes "b")) no_fields)
    ∷ []

-- One byte is one message, and no byte the end of the file.
one_message : Bytes → Decoded
one_message [] = eof
one_message (b ∷ s) = decoded message_items s

one_message-Consumes : Consumes one_message
unfolding one_message
one_message-Consumes [] vs rest e = absurd (cc)
one_message-Consumes (b ∷ s) vs rest e = let same : s ≡ rest = cc in omega (arith, ap length same)

decode_entries-Answers_example : Answers (decode_entries truncate truncate one_message (7 ∷ [])).0
unfolding one_message
decode_entries-Answers_example =
    decode_entries-Answers truncate truncate one_message (7 ∷ []) one_message-Consumes

abbrev decoded_sets : List FluentRecordSet
decoded_sets =
    record {
      tag = codes "test";
      records =
          tiny (record {
            timestamp = record { sec = 1417269412; nsec = 0 };
            fields = field (codes "a") (Value.string (codes "b")) no_fields;
          })
          ∷ [];
    }
    ∷ []

decode_one : (decode_entries truncate truncate one_message (7 ∷ [])).0 ≡ ok decoded_sets
unfolding decode_entries one_message coerce_value
decode_one = refl

decode_entries-OneSet_example :
    (v : List Value) × (one_message (7 ∷ [])
      ≡ decoded v (decode_entries truncate truncate one_message (7 ∷ [])).1)
    × OneSet (tag_of v) decoded_sets
decode_entries-OneSet_example =
    decode_entries-OneSet truncate truncate one_message (7 ∷ []) decoded_sets decode_one

-- A codec that knows the entries of a time below 256 and an empty map, one byte each.
abbrev entry : ℕ → List Value
entry b = Value.int64 b ∷ Value.object no_fields ∷ []

abbrev read_entry : Bytes → Decoded
read_entry [] = eof
read_entry (b ∷ s) = decoded (entry b) s

abbrev write_entry : List Value → Bytes
write_entry (Value.int64 b ∷ vs) = b ∷ []
write_entry _ = []

read_entry-Consumes : Consumes read_entry
read_entry-Consumes [] vs rest e = absurd (cc)
read_entry-Consumes (b ∷ s) vs rest e = let same : s ≡ rest = cc in omega (arith, ap length same)

packed_forward-eq-forward_example :
    decode_message truncate truncate read_entry
      (Value.bytes (codes "t") ∷ Value.bytes (7 ∷ 9 ∷ []) ∷ [])
    ≡ decode_message truncate truncate read_entry
        (Value.bytes (codes "t") ∷ Value.array (items (arrays (entry 7 ∷ entry 9 ∷ []))) ∷ [])
packed_forward-eq-forward_example =
    packed_forward-eq-forward truncate truncate read_entry write_entry (codes "t")
      (entry 7 ∷ entry 9 ∷ []) [] refl ((λ rest. refl), ((λ rest. refl), tt)) read_entry-Consumes

decode_record_set_iff_example :
    All IsEntry (arrays (entry 7 ∷ []))
    ↔ (rs : FluentRecordSet) × (decode_record_set truncate truncate
          (codes "t")
          (arrays (entry 7 ∷ []))
        ≡ ok rs)
      × (rs.tag ≡ codes "t")
      × (length rs.records ≡ 1)
      × All IsDecoded rs.records
decode_record_set_iff_example =
    decode_record_set_iff truncate truncate (codes "t") (arrays (entry 7 ∷ []))

-- A message in the place of an entry fails the whole set.
bad_entry :
    decode_record_set truncate truncate
      (codes "t")
      (Value.array (items (Value.int64 7 ∷ Value.object no_fields ∷ [])) ∷ Value.bytes [] ∷ [])
    ≡ err record_set
unfolding decode_record_set decode_records decode_entry
bad_entry = refl
