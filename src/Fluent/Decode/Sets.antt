-- ===== src/Fluent/Decode/Sets.antt =====
-- fluent/server.go: which entries decode, and what they decode to.
use fluent_agent_hydra.Prelude.{
  ℕ, suc, ◌≡◌, refl, sym, ap, subst, ◌∙◌, ◌↔◌, List, [], ◌∷◌, length, All, Bytes,
}
use fluent_agent_hydra.Fluent.Value.{Time, Value, nil, item, no_items, Fields}
use fluent_agent_hydra.Fluent.Record.{FluentRecordType, tiny, FluentRecordSet}
use fluent_agent_hydra.Fluent.Decode.{
  Result, ok, err, panicked, stuck, ◌>>=◌, decode_entry, entry_timestamp, decode_records,
  decode_record_set, coerce_in_place, as_object,
}
use fluent_agent_hydra.Fluent.Decode.Coerce.{AllText, coerce_in_place-AllText}

-- The types of a timestamp field.
abbrev pub IsTimestamp : Value → Type 0
IsTimestamp nil = ⊥
IsTimestamp (Value.boolean b) = ⊥
IsTimestamp (Value.string b) = ⊥
IsTimestamp (Value.bytes b) = ⊥
IsTimestamp (Value.array b) = ⊥
IsTimestamp (Value.object b) = ⊥
IsTimestamp _ = Unit {0}

abbrev pub IsObject : Value → Type 0
IsObject (Value.object fs) = Unit {0}
IsObject _ = ⊥

-- An entry is an array of a timestamp and a map.
abbrev pub IsEntry : Value → Type 0
IsEntry (Value.array (item t (item d no_items))) = IsTimestamp t × IsObject d
IsEntry _ = ⊥

-- A record of the decoder: a `TinyFluentRecord` whose data hold no byte slice.
abbrev pub IsDecoded : FluentRecordType → Type 0
IsDecoded (tiny r) = AllText r.fields
IsDecoded _ = ⊥

-- A chain that ends with a value has a value at its first step, and goes on from there.
pub bind-ok {ℓ κ} :
    {T : Type ℓ} {U : Type κ} (first : Result T) (next : T → Result U) {last : U}
    → (first >>= next) ≡ ok last
    → (t : T) × (first ≡ ok t) × (next t ≡ ok last)
bind-ok panicked next e = cc
bind-ok stuck next e = cc
bind-ok (err why) next e = cc
bind-ok (ok t) next e = (t, refl, e)

module _ (f32 f64 : ℕ → ℕ) where
  timestamp_of : (t : Value) → IsTimestamp t → (ts : Time) × (entry_timestamp f32 f64 t ≡ ok ts)
  unfolding entry_timestamp
  timestamp_of nil h = absurd h
  timestamp_of (Value.boolean b) h = absurd h
  timestamp_of (Value.string b) h = absurd h
  timestamp_of (Value.bytes b) h = absurd h
  timestamp_of (Value.array b) h = absurd h
  timestamp_of (Value.object b) h = absurd h
  timestamp_of _ h = (_, refl)

  IsTimestamp-of : (t : Value) (ts : Time) → entry_timestamp f32 f64 t ≡ ok ts → IsTimestamp t
  unfolding entry_timestamp
  IsTimestamp-of nil ts h = cc
  IsTimestamp-of (Value.boolean b) ts h = cc
  IsTimestamp-of (Value.string b) ts h = cc
  IsTimestamp-of (Value.bytes b) ts h = cc
  IsTimestamp-of (Value.array b) ts h = cc
  IsTimestamp-of (Value.object b) ts h = cc
  IsTimestamp-of _ ts h = tt

  IsObject-of : (d : Value) (fs : Fields) → as_object d ≡ ok fs → IsObject d
  IsObject-of (Value.object b) fs h = tt
  IsObject-of _ fs h = cc

  entry_decodes : (e : Value) → IsEntry e → (r : FluentRecordType) × (decode_entry f32 f64 e ≡ ok r)
  unfolding decode_entry
  entry_decodes (Value.array (item t (item (Value.object fs) no_items))) h =
      let (ts, e) = timestamp_of t h.0 in
      (tiny (record { timestamp = ts; fields = coerce_in_place fs }), rw e refl)
  entry_decodes (Value.array (item t (item _ no_items))) h = absurd h.1
  entry_decodes _ h = absurd h

  decoded-IsEntry :
      (e : Value) (r : FluentRecordType) → decode_entry f32 f64 e ≡ ok r → IsEntry e × IsDecoded r
  unfolding decode_entry
  decoded-IsEntry (Value.array (item t (item d no_items))) r h =
      let (ts, e, h₁) = bind-ok (entry_timestamp f32 f64 t) _ h in
      let (fs, e₁, h₂) = bind-ok (as_object d) _ h₁ in
      (
        (IsTimestamp-of t ts e, IsObject-of d fs e₁),
        subst (λ s. IsDecoded (value_of s)) h₂ (coerce_in_place-AllText fs).0,
      )
    where
      value_of : Result FluentRecordType → FluentRecordType
      value_of (ok s) = s
      value_of _ = r
  decoded-IsEntry _ r h = cc

  -- A list of entries decodes exactly when each is an array of a timestamp and a map.
  pub records_decode :
      (es : List Value)
      → All IsEntry es
      → (rs : List FluentRecordType) × (decode_records f32 f64 es ≡ ok rs)
  unfolding decode_records
  records_decode [] h = ([], refl)
  records_decode (e ∷ es) (h, hs) =
      let (r, p) = entry_decodes e h in
      let (rs, ps) = records_decode es hs in (r ∷ rs, rw (p, ps) refl)

  decoded_records :
      (es : List Value) (rs : List FluentRecordType)
      → decode_records f32 f64 es ≡ ok rs
      → All IsEntry es × All IsDecoded rs × (length rs ≡ length es)
  unfolding decode_records
  decoded_records [] [] h = (tt, tt, refl)
  decoded_records [] (r ∷ rs) h = cc
  decoded_records (e ∷ es) rs h =
      let (r, p, h₁) = bind-ok (decode_entry f32 f64 e) _ h in
      let (rs', ps, h₂) = bind-ok (decode_records f32 f64 es) _ h₁ in
      let (a, b) = decoded-IsEntry e r p in
      let (as', bs, n) = decoded_records es rs' ps in
      let eq : r ∷ rs' ≡ rs = cc in
      ((a, as'), subst (All IsDecoded) eq (b, bs), ap length (sym eq) ∙ ap suc n)

  pub decoded_set :
      (tag : Bytes) (es : List Value) (rs : FluentRecordSet)
      → decode_record_set f32 f64 tag es ≡ ok rs
      → (rs.tag ≡ tag) × All IsDecoded rs.records × All IsEntry es × (length rs.records ≡ length es)
  unfolding decode_record_set
  decoded_set tag es rs h =
      let (records, p, h₁) = bind-ok (decode_records f32 f64 es) _ h in
      let eq : record { tag = tag; records = records } ≡ rs = cc in
      let (as', bs, n) = decoded_records es records p in
      (
        ap (λ (s : FluentRecordSet). s.tag) (sym eq),
        subst (λ (s : FluentRecordSet). All IsDecoded s.records) eq bs,
        as',
        ap (λ (s : FluentRecordSet). length s.records) (sym eq) ∙ n,
      )

  -- `decodeRecordSet` is all or nothing: it succeeds exactly when every entry is an array of a
  -- timestamp and a map, and then the set has the tag and one record for each entry, each a
  -- `TinyFluentRecord` in whose map no value is a byte slice, and none in a map inside it; those
  -- inside an array may stay, since `coerceInPlace` does not look into arrays.
  pub decode_record_set_iff :
      (tag : Bytes) (es : List Value)
      → All IsEntry es
        ↔ (rs : FluentRecordSet) × (decode_record_set f32 f64 tag es ≡ ok rs)
          × (rs.tag ≡ tag)
          × (length rs.records ≡ length es)
          × All IsDecoded rs.records
  decode_record_set_iff tag es = (there, λ (rs, h, _, _, _). (decoded_set tag es rs h).2)
    where
      there :
          All IsEntry es
          → (rs : FluentRecordSet) × (decode_record_set f32 f64 tag es ≡ ok rs)
            × (rs.tag ≡ tag)
            × (length rs.records ≡ length es)
            × All IsDecoded rs.records
      there h =
          let (records, p) = records_decode es h in
          let rs : FluentRecordSet = record { tag = tag; records = records } in
          let e : decode_record_set f32 f64 tag es ≡ ok rs =
            unfold decode_record_set in rw p refl in
          let (t, ds, _, n) = decoded_set tag es rs e in (rs, e, t, n, ds)
