-- ===== src/Fluent/Decode/Coerce.antt =====
-- fluent/server.go: what `coerceInPlace` does to the data of a record.
use fluent_agent_hydra.Prelude.{◌↔◌, subst}
use fluent_agent_hydra.Prelude.{◌≡◌, refl, ap, ap₂, Option, none, some, arith, Bytes}
use fluent_agent_hydra.Fluent.Value.{Value, Fields, no_fields, field, lookup}
use fluent_agent_hydra.Fluent.Decode.{coerce_value, coerce_in_place}

-- No value of a map is a byte slice, nor of a map inside it. An array passes with whatever it
-- holds, since `coerceInPlace` does not look into arrays.
unfoldable mutual
  pub IsText : Value → Type 0
  IsText (Value.bytes b) = ⊥
  IsText (Value.object fs) = AllText fs
  IsText v = Unit {0}

  pub AllText : Fields → Type 0
  AllText no_fields = Unit {0}
  AllText (field k v fs) = IsText v × AllText fs

mutual
  unfolding IsText coerce_value

  coerce_value-IsText : (v : Value) → IsText (coerce_value v)
  coerce_value-IsText (Value.bytes b) = tt
  coerce_value-IsText (Value.object fs) = coerce_in_place-AllText_lem fs
  coerce_value-IsText _ = tt

  coerce_in_place-AllText_lem : (fs : Fields) → AllText (coerce_in_place fs)
  coerce_in_place-AllText_lem no_fields = tt
  coerce_in_place-AllText_lem (field k v fs) =
      (coerce_value-IsText v, coerce_in_place-AllText_lem fs)

mutual
  unfolding IsText coerce_value

  coerce_value-fixed : (v : Value) → IsText v → coerce_value v ≡ v
  coerce_value-fixed (Value.bytes b) h = absurd h
  coerce_value-fixed (Value.object fs) h = ap Value.object (coerce_in_place-fixed fs h)
  coerce_value-fixed _ h = refl

  coerce_in_place-fixed : (fs : Fields) → AllText fs → coerce_in_place fs ≡ fs
  coerce_in_place-fixed no_fields h = refl
  coerce_in_place-fixed (field k v fs) h =
      ap₂ (field k) (coerce_value-fixed v h.0) (coerce_in_place-fixed fs h.1)

-- `coerceInPlace` leaves no byte slice in the map or in a map inside it, and changes nothing
-- exactly in a map that holds none. To run it twice is to run it once.
pub coerce_in_place-AllText :
    (fs : Fields)
    → AllText (coerce_in_place fs)
      × (AllText fs ↔ (coerce_in_place fs ≡ fs))
      × (coerce_in_place (coerce_in_place fs) ≡ coerce_in_place fs)
coerce_in_place-AllText fs =
    let text = coerce_in_place-AllText_lem fs in
    (
      text,
      (coerce_in_place-fixed fs, λ e. subst AllText e text),
      coerce_in_place-fixed (coerce_in_place fs) text,
    )

abbrev coerced : Option Value → Option Value
coerced none = none
coerced (some v) = some (coerce_value v)

-- Under each key, the map that `coerceInPlace` leaves holds the coerced value of what the map
-- held under it before, and under no other key anything.
pub lookup-coerce_in_place :
    (k : Bytes) (fs : Fields) → lookup k (coerce_in_place fs) ≡ coerced (lookup k fs)
unfolding lookup coerce_in_place
lookup-coerce_in_place k no_fields = refl
lookup-coerce_in_place k (field j v fs) = ground (arith, lookup-coerce_in_place k fs)
