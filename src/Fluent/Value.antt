-- ===== src/Fluent/Value.antt =====
-- fluent/fluent.go and fluent/server.go: what an `interface{}` holds, `time.Time` and maps.
-- Integers are words (int64 and int in two's complement), floats their bit patterns, and a
-- string and a byte slice lists of bytes. A map is an association list with distinct keys.
use fluent_agent_hydra.Prelude.{
  ℕ, ◌+◌, ◌-◌, ◌/◌, ◌%◌, ◌≡◌, refl, Bool, false, Option, none, some, List, [], ◌∷◌, arith, ltb,
  ◌==◌, if◌then◌else◌, Bytes, bytes_eq, bytes_eq_iff, bytes_eq_refl, u64_mod, i64_limit, add64,
  sub64,
}

-- `time.Time`: seconds since the epoch as an int64, and the nanoseconds within the second.
pub record Time : Type 0 where
  pub sec : ℕ
  pub nsec : ℕ

abbrev pub nanos : ℕ
nanos = 1000000000

-- `time.Unix(sec, nsec)` on int64 words: whole seconds of `nsec` are carried over, and a negative
-- rest borrows one.
unfoldable pub time_unix : ℕ → ℕ → Time
time_unix sec nsec =
    let back = u64_mod - nsec in
    if ltb nsec i64_limit
    then record { sec = add64 sec (nsec / nanos); nsec = nsec % nanos }
    else if back % nanos == 0
    then record { sec = sub64 sec (back / nanos); nsec = 0 }
    else record { sec = sub64 sec (back / nanos + 1); nsec = nanos - back % nanos }

mutual
  -- What an `interface{}` holds.
  pub data Value : Type 0 where
    nil : Value
    boolean : Bool → Value
    int : ℕ → Value
    uint : ℕ → Value
    int32 : ℕ → Value
    uint32 : ℕ → Value
    int64 : ℕ → Value
    uint64 : ℕ → Value
    float32 : ℕ → Value
    float64 : ℕ → Value
    string : Bytes → Value
    bytes : Bytes → Value
    time : Time → Value
    array : Items → Value
    object : Fields → Value

  -- `[]interface{}`
  pub data Items : Type 0 where
    no_items : Items
    item : Value → Items → Items

  -- `map[string]interface{}`
  pub data Fields : Type 0 where
    no_fields : Fields
    field : Bytes → Value → Fields → Fields

abbrev pub items : List Value → Items
items [] = no_items
items (v ∷ vs) = item v (items vs)

abbrev pub entries : Fields → List (Bytes × Value)
entries no_fields = []
entries (field k v fs) = (k, v) ∷ entries fs

-- `value, ok := m[key]`
unfoldable pub lookup : Bytes → Fields → Option Value
lookup k no_fields = none
lookup k (field j v fs) = if bytes_eq j k then some v else lookup k fs

-- `m[key] = value`
unfoldable pub insert : Bytes → Value → Fields → Fields
insert k v no_fields = field k v no_fields
insert k v (field j w fs) = if bytes_eq j k then field j v fs else field j w (insert k v fs)

pub lookup-insert :
    (k j : Bytes) (v : Value) (fs : Fields)
    → lookup j (insert k v fs) ≡ (if bytes_eq k j then some v else lookup j fs)
unfolding lookup insert
lookup-insert k j v no_fields = refl
lookup-insert k j v (field i w fs) =
    ground (arith, bytes_eq_iff k j, bytes_eq_iff i k, bytes_eq_iff i j, lookup-insert k j v fs)

pub lookup-insert_self : (k : Bytes) (v : Value) (fs : Fields) → lookup k (insert k v fs) ≡ some v
lookup-insert_self k v fs = rw (lookup-insert k k v fs, bytes_eq_refl k)

pub lookup-insert_ne :
    (k j : Bytes) (v : Value) (fs : Fields)
    → bytes_eq k j ≡ false
    → lookup j (insert k v fs) ≡ lookup j fs
lookup-insert_ne k j v fs h = rw (lookup-insert k j v fs, h)
