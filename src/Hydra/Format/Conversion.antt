-- ===== src/Hydra/Format/Conversion.antt =====
-- hydra/fileformat.go: what `ConvertTypes` does to each key of the data.
use fluent_agent_hydra.Prelude.{
  ◌≡◌, refl, ap, subst, ◌∙◌, inl, inr, Option, none, some, List, [], ◌∷◌, arith, if◌then◌else◌,
  Bool-cases, Option-cases, Bytes, bytes_eq, bytes_eq_iff,
}
use fluent_agent_hydra.Prelude.Dict
use fluent_agent_hydra.Fluent.Value.{Value, Fields, lookup, insert, lookup-insert}
use fluent_agent_hydra.Hydra.Format.{
  Library, ConvertType, Converter, convert_value, convert_types, is_int,
}

abbrev pub converted :
    Library → List (Bytes × ConvertType) → Bytes → Option Converter → Option Value → Option Value
converted lib types k none v = v
converted lib types k (some c) none = none
converted lib types k (some c) (some v) =
    some (convert_value lib (is_int (Dict.lookup k types)) c v)

module _ (lib : Library) (types : List (Bytes × ConvertType)) where
  -- One round of the loop: the data with the value of one key converted.
  abbrev convert_key : Bytes → Converter → Fields → Fields
  convert_key key c fs = elim (lookup key fs) [
    | none ↦ fs
    | some v ↦ insert key (convert_value lib (is_int (Dict.lookup key types)) c v) fs
  ]

  lookup-convert_key :
      (key j : Bytes) (c : Converter) (fs : Fields)
      → lookup j (convert_key key c fs)
        ≡ (if bytes_eq key j then converted lib types key (some c) (lookup key fs) else lookup j fs)
  lookup-convert_key key j c fs = elim (Option-cases (lookup key fs)) [
    | inl e ↦ ground (arith, bytes_eq_iff key j)
    | inr (v, e) ↦ ground (
      arith,
      bytes_eq_iff key j,
      lookup-insert key j (convert_value lib (is_int (Dict.lookup key types)) c v) fs,
    )
  ]

  -- In whatever order the map of converters, which has distinct keys, is walked, each key of the data that has a converter
  -- ends with its value converted once, and every other key is left alone.
  pub lookup-convert_types :
      (cs : List (Bytes × Converter)) (j : Bytes) (fs : Fields)
      → Dict.Distinct cs
      → lookup j (convert_types lib types cs fs)
        ≡ converted lib types j (Dict.lookup j cs) (lookup j fs)
  unfolding convert_types Dict.lookup
  lookup-convert_types [] j fs h = refl
  lookup-convert_types ((key, c) ∷ cs) j fs h = elim (Bool-cases (bytes_eq key j)) [
    | inl e ↦
        let same : key ≡ j = (bytes_eq_iff key j).0 e in
        let absent : Dict.lookup j cs ≡ none = subst (λ k. Dict.lookup k cs ≡ none) same h.0 in
        rw e (
          lookup-convert_types cs j (convert_key key c fs) h.1
          ∙ rw (absent, lookup-convert_key key j c fs, e)
              (ap (λ k. converted lib types k (some c) (lookup k fs)) same))
    | inr e ↦ rw e (
        lookup-convert_types cs j (convert_key key c fs) h.1
        ∙ rw (lookup-convert_key key j c fs, e) refl)
  ]

  -- So the order in which Go walks the map of converters makes no difference.
  pub convert_types_order :
      (cs ds : List (Bytes × Converter)) (j : Bytes) (fs : Fields)
      → Dict.Distinct cs
      → Dict.Distinct ds
      → ((k : Bytes) → Dict.lookup k cs ≡ Dict.lookup k ds)
      → lookup j (convert_types lib types cs fs) ≡ lookup j (convert_types lib types ds fs)
  convert_types_order cs ds j fs hc hd same =
      rw (lookup-convert_types cs j fs hc, lookup-convert_types ds j fs hd, same j)
