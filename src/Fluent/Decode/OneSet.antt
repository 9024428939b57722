-- ===== src/Fluent/Decode/OneSet.antt =====
-- fluent/server.go: what a successful `DecodeEntries` returns.
use fluent_agent_hydra.Prelude.{ℕ, ◌+◌, ◌≡◌, refl, sym, inl, inr, List, [], ◌∷◌, length, All, Bytes}
use fluent_agent_hydra.Fluent.Value.{Time, Value, nil}
use fluent_agent_hydra.Fluent.Record.{tiny, FluentRecordSet}
use fluent_agent_hydra.Fluent.Decode.{
  Result, ok, err, end_of_file, codec_error, ◌>>=◌, decode_record_set, coerce_in_place, message_set,
  dispatch, decode_message, decode_packed, decode_entries, Decoded, decoded, as_object, index,
}
use fluent_agent_hydra.Fluent.Decode.Coerce.{coerce_in_place-AllText}
use fluent_agent_hydra.Fluent.Decode.Answers.{Decoded-cases}
use fluent_agent_hydra.Fluent.Decode.Sets.{IsDecoded, bind-ok, decoded_set}

-- One record set with the tag, every record of it a `TinyFluentRecord` with no
-- byte slice as a value of its map or of a map inside it.
abbrev pub OneSet : Bytes → List FluentRecordSet → Type 0
OneSet tag sets =
    (rs : FluentRecordSet) × (sets ≡ rs ∷ []) × (rs.tag ≡ tag) × All IsDecoded rs.records

module _ (f32 f64 : ℕ → ℕ) where
  message_set-OneSet :
      (tag : Bytes) (ts : Time) (v : List Value) (sets : List FluentRecordSet)
      → message_set f32 f64 tag ts v ≡ ok sets
      → OneSet tag sets
  unfolding message_set
  message_set-OneSet tag ts v sets h =
      let (third, _, h₁) = bind-ok (index v 2) _ h in
      let (fs, _, h₂) = bind-ok (as_object third) _ h₁ in
      let rs : FluentRecordSet = record {
        tag = tag;
        records = tiny (record { timestamp = ts; fields = coerce_in_place fs }) ∷ [];
      } in
      let e : rs ∷ [] ≡ sets = cc in (rs, sym e, refl, ((coerce_in_place-AllText fs).0, tt))

  record_set-OneSet :
      (tag : Bytes) (es : List Value) (sets : List FluentRecordSet)
      → (decode_record_set f32 f64 tag es >>= λ rs. ok (rs ∷ [])) ≡ ok sets
      → OneSet tag sets
  record_set-OneSet tag es sets h =
      let (rs, e, h₁) = bind-ok (decode_record_set f32 f64 tag es) _ h in
      let p : rs ∷ [] ≡ sets = cc in
      let (t, ds, _, _) = decoded_set f32 f64 tag es rs e in (rs, sym p, t, ds)

  dispatch-OneSet :
      (decode : Bytes → Decoded) (tag : Bytes) (v : List Value) (second : Value)
      (sets : List FluentRecordSet)
      → dispatch f32 f64 decode tag v second ≡ ok sets
      → OneSet tag sets
  unfolding dispatch
  dispatch-OneSet decode tag v (Value.array es) sets h = record_set-OneSet tag _ sets h
  dispatch-OneSet decode tag v (Value.bytes payload) sets h =
      let (es, _, h₁) = bind-ok (decode_packed decode (length payload + 1) payload []) _ h in
      record_set-OneSet tag es sets h₁
  dispatch-OneSet decode tag v nil sets h = cc
  dispatch-OneSet decode tag v (Value.boolean b) sets h = cc
  dispatch-OneSet decode tag v (Value.string b) sets h = cc
  dispatch-OneSet decode tag v (Value.object b) sets h = cc
  dispatch-OneSet decode tag v _ sets h = message_set-OneSet tag _ v sets h

-- The tag of a message: its first item, a byte slice.
abbrev pub tag_of : List Value → Bytes
tag_of (Value.bytes b ∷ v) = b
tag_of _ = []

decode_message-OneSet :
    (f32 f64 : ℕ → ℕ) (decode : Bytes → Decoded) (v : List Value) (sets : List FluentRecordSet)
    → decode_message f32 f64 decode v ≡ ok sets
    → OneSet (tag_of v) sets
unfolding decode_message
decode_message-OneSet f32 f64 decode [] sets h = cc
decode_message-OneSet f32 f64 decode (Value.bytes b ∷ v) sets h =
    let (second, _, h₁) = bind-ok (index (Value.bytes b ∷ v) 1) _ h in
    dispatch-OneSet f32 f64 decode b (Value.bytes b ∷ v) second sets h₁
decode_message-OneSet f32 f64 decode (_ ∷ v) sets h = cc

-- Whatever arrives, in each of the three modes, a successful `DecodeEntries` returns exactly
-- one record set. Its tag is the first item of the array that the codec decoded, and its
-- records are all `TinyFluentRecord`s in whose map no value is a byte slice, and none in a map
-- inside it; those inside an array may stay, since `coerceInPlace` does not look into arrays.
pub decode_entries-OneSet :
    (f32 f64 : ℕ → ℕ) (decode : Bytes → Decoded) (conn : Bytes) (sets : List FluentRecordSet)
    → (decode_entries f32 f64 decode conn).0 ≡ ok sets
    → (v : List Value) × (decode conn ≡ decoded v (decode_entries f32 f64 decode conn).1)
      × OneSet (tag_of v) sets
unfolding decode_entries
decode_entries-OneSet f32 f64 decode conn sets h = elim (Decoded-cases (decode conn)) [
  | inl e ↦
      let k : ◌≡◌ {A = Result (List FluentRecordSet)} (err end_of_file) (ok sets) =
        rw (e, decode_entries) at h in
      absurd (cc)
  | inr (inl e) ↦
      let k : ◌≡◌ {A = Result (List FluentRecordSet)} (err codec_error) (ok sets) =
        rw (e, decode_entries) at h in
      absurd (cc)
  | inr (inr (v, rest, e)) ↦ (
    v,
    rw (e, decode_entries) refl,
    decode_message-OneSet f32 f64 decode v sets (rw (e, decode_entries) at h),
  )
]
