-- ===== src/Fluent/Protocol/Forward.antt =====
-- fluent/server.go on both ends of a connection, in the Forward mode: what `PackAsForward` writes
-- is not what `decodeRecordSet` reads.
use fluent_agent_hydra.Prelude.{
  ℕ, suc, inl, inr, Option-cases, Bool, arith, length, ◌≡◌, refl, sym, ap, ◌∙◌, Option, none, some,
  List, [], ◌∷◌, ◌++◌, map, Bytes,
}
use fluent_agent_hydra.Fluent.Value.{Value, items}
use fluent_agent_hydra.Fluent.Record.{FluentRecordType, FluentRecordSet}
use fluent_agent_hydra.Fluent.Pack.{pack, pack_each, pack_as_forward}
use fluent_agent_hydra.Fluent.Decode.{
  Decoded, decoded, Result, ok, err, record_set, decode_entry, decode_records, decode_record_set,
  dispatch, decode_message, decode_entries,
}

-- The codec reads an array of a string and an array of byte slices back: the string has become
-- bytes.
abbrev pub ReadsSlices : (Value → Option Bytes) → (Bytes → Decoded) → Type 0
ReadsSlices write_msgpack decode =
    (tag : Bytes) (slices : List Bytes) (out rest : Bytes)
    → write_msgpack
        (Value.array (items (Value.string tag ∷ Value.array (items (map Value.bytes slices)) ∷ [])))
      ≡ some out
    → decode (out ++ rest)
      ≡ decoded (Value.bytes tag ∷ Value.array (items (map Value.bytes slices)) ∷ []) rest

-- The set without its records, or the error of the first slice.
abbrev pub rejected : Bytes → List FluentRecordType → Result (List FluentRecordSet)
rejected tag [] = ok (record { tag = tag; records = [] } ∷ [])
rejected tag (r ∷ rs) = err record_set

module _ (write_msgpack : Value → Option Bytes) (event_time : Bool) where
  -- Each record becomes a slice.
  pack_each-bytes :
      (rs : List FluentRecordType) (vs : List Value)
      → pack_each write_msgpack event_time rs ≡ some vs
      → (slices : List Bytes) × (vs ≡ map Value.bytes slices) × (length slices ≡ length rs)
  unfolding pack_each
  pack_each-bytes [] vs h = ([], cc, refl)
  pack_each-bytes (r ∷ rs) vs h = elim (Option-cases (pack write_msgpack event_time r)) [
    | inl e ↦
        let failed : ◌≡◌ {A = Option (List Value)} none (some vs) = rw (pack_each, e) at h in cc
    | inr (packed, e) ↦ elim (Option-cases (pack_each write_msgpack event_time rs)) [
      | inl e' ↦
          let failed : ◌≡◌ {A = Option (List Value)} none (some vs) = rw (pack_each, e, e') at h in
          cc
      | inr (us, e') ↦
          let (slices, same, n) = pack_each-bytes rs us e' in
          let made : some (Value.bytes packed ∷ us) ≡ some vs = rw (pack_each, e, e') at h in
          (packed ∷ slices, cc, ap suc n)
    ]
  ]

decode_message-slices :
    (f32 f64 : ℕ → ℕ) (decode : Bytes → Decoded) (tag : Bytes) (rs : List FluentRecordType)
    (slices : List Bytes)
    → length slices ≡ length rs
    → decode_message f32 f64 decode
        (Value.bytes tag ∷ Value.array (items (map Value.bytes slices)) ∷ [])
      ≡ rejected tag rs
unfolding decode_message dispatch decode_record_set decode_records decode_entry
decode_message-slices f32 f64 decode tag [] [] n = refl
decode_message-slices f32 f64 decode tag [] (s ∷ slices) n = absurd (omega arith)
decode_message-slices f32 f64 decode tag (r ∷ rs) [] n = absurd (omega arith)
decode_message-slices f32 f64 decode tag (r ∷ rs) (s ∷ slices) n = refl

-- What `PackAsForward` writes of a record set, `DecodeEntries` takes off the connection: of a set
-- without records it makes that set, and of any other it makes an error.
pub decode_entries-pack_as_forward :
    (write_msgpack : Value → Option Bytes) (decode : Bytes → Decoded) (event_time : Bool)
    (f32 f64 : ℕ → ℕ) (rs : FluentRecordSet) (packed rest : Bytes)
    → ReadsSlices write_msgpack decode
    → pack_as_forward write_msgpack event_time rs ≡ some packed
    → decode_entries f32 f64 decode (packed ++ rest) ≡ (rejected rs.tag rs.records, rest)
unfolding pack_as_forward decode_entries decode_message dispatch
decode_entries-pack_as_forward write_msgpack decode event_time f32 f64 rs packed rest reads h =
    elim (Option-cases (pack_each write_msgpack event_time rs.records)) [
      | inl e ↦
          let failed : ◌≡◌ {A = Option Bytes} none (some packed) = rw (pack_as_forward, e) at h in
          cc
      | inr (vs, e) ↦
          let (slices, same, n) = pack_each-bytes write_msgpack event_time rs.records vs e in
          let written : write_msgpack (
                Value.array
                  (items (Value.string rs.tag ∷ Value.array (items (map Value.bytes slices)) ∷ [])))
              ≡ some packed =
            ap
              (λ us.
                write_msgpack
                  (Value.array (items (Value.string rs.tag ∷ Value.array (items us) ∷ []))))
              (sym same)
            ∙ rw (pack_as_forward, e) at h in
          rw (reads rs.tag slices packed rest written, decode_entries)
            (ap (λ r. (r, rest)) (decode_message-slices f32 f64 decode rs.tag rs.records slices n))
    ]
