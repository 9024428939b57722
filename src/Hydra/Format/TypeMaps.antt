-- ===== src/Hydra/Format/TypeMaps.antt =====
-- hydra/fileformat.go: the two maps that `NewConvertMap` builds.
use fluent_agent_hydra.Prelude.{
  ℕ, ◌≡◌, refl, sym, ap, subst, inl, inr, Option, none, some, List, [], ◌∷◌, ◌++◌, map, arith,
  if◌then◌else◌, Bool-cases, Option-cases, All, Bytes, codes, bytes_eq, Lacks,
}
use fluent_agent_hydra.Prelude.{split, split_two, split-append_sep, split-Lacks}
use fluent_agent_hydra.Prelude.Dict
use fluent_agent_hydra.Hydra.Strconv.{is_text}
use fluent_agent_hydra.Hydra.Format.{
  ConvertType, convert_type_string, convert_type_int, convert_type_float, convert_type_bool,
  Converter, convert_bool, convert_int, convert_float, TypeMaps, add_type, add_named, add_subdef,
  add_subdefs, new_convert_map,
}

-- What the configuration says of a key, the last definition counting.
abbrev pub type_name : ConvertType → Bytes
type_name convert_type_int = codes "integer"
type_name convert_type_float = codes "float"
type_name convert_type_bool = codes "bool"
type_name convert_type_string = codes "string"

abbrev pub converter_of : ConvertType → Option Converter
converter_of convert_type_int = some convert_int
converter_of convert_type_float = some convert_float
converter_of convert_type_bool = some convert_bool
converter_of convert_type_string = none

abbrev pub choose {ℓ} : {A : Type ℓ} → Option A → Option A → Option A
choose none old = old
choose (some a) old = some a

-- The type of the last definition of the key that names a type to convert to.
abbrev pub last_type : Bytes → List (Bytes × ConvertType) → Option ConvertType → Option ConvertType
last_type k [] found = found
last_type k ((j, convert_type_string) ∷ defs) found = last_type k defs found
last_type k ((j, t) ∷ defs) found = last_type k defs (if bytes_eq j k then some t else found)

abbrev pub converter_at : Option ConvertType → Option Converter
converter_at none = none
converter_at (some t) = converter_of t

-- "key:type", and the definitions with commas between them.
abbrev pub subdef : Bytes × ConvertType → Bytes
subdef (k, t) = k ++ (b':' ∷ type_name t)

abbrev pub render : Bytes × ConvertType → List (Bytes × ConvertType) → Bytes
render d [] = subdef d
render d (e ∷ es) = subdef d ++ (b',' ∷ render e es)

-- A key that the notation can express.
abbrev pub IsKey : Bytes × ConvertType → Type 0
IsKey (k, t) = Lacks b',' k × Lacks b':' k

split_two-Lacks :
    (sep : ℕ) (s rest : Bytes) → Lacks sep s → split_two sep (s ++ (sep ∷ rest)) ≡ some (s, rest)
unfolding split_two
split_two-Lacks sep [] rest h = ground arith
split_two-Lacks sep (c ∷ s) rest h = ground (arith, split_two-Lacks sep s rest)

Lacks-append : (c : ℕ) (s t : Bytes) → Lacks c s → Lacks c t → Lacks c (s ++ t)
Lacks-append c [] t hs ht = ht
Lacks-append c (x ∷ s) t hs ht = (hs.0, Lacks-append c s t hs.1 ht)

type_name-Lacks : (t : ConvertType) → Lacks b',' (type_name t)
type_name-Lacks convert_type_int = omega arith
type_name-Lacks convert_type_float = omega arith
type_name-Lacks convert_type_bool = omega arith
type_name-Lacks convert_type_string = omega arith

split-render :
    (d : Bytes × ConvertType) (ds : List (Bytes × ConvertType))
    → IsKey d
    → All IsKey ds
    → split b',' (render d ds) ≡ map subdef (d ∷ ds)
split-render (k, t) [] h hs =
    split-Lacks b',' (k ++ (b':' ∷ type_name t))
      (Lacks-append b',' k _ h.0 (omega arith, type_name-Lacks t))
split-render (k, t) (e ∷ es) h hs =
    let lacks : Lacks b',' (k ++ (b':' ∷ type_name t)) =
      Lacks-append b',' k _ h.0 (omega arith, type_name-Lacks t) in
    rw (
      split-append_sep b',' (k ++ (b':' ∷ type_name t)) (render e es),
      split-Lacks b',' (k ++ (b':' ∷ type_name t)) lacks,
      split-render e es hs.0 hs.1,
    )

-- The two maps agree and hold, for each key, the type `found` gives.
abbrev Holds : TypeMaps → (Bytes → Option ConvertType) → Type 0
Holds m found =
    (k : Bytes) → (Dict.lookup k m.0 ≡ found k) × (Dict.lookup k m.1 ≡ converter_at (found k))

added : TypeMaps → Bytes × ConvertType → TypeMaps
added m (j, convert_type_string) = m
added m (j, convert_type_int) = add_type j convert_type_int convert_int m
added m (j, convert_type_float) = add_type j convert_type_float convert_float m
added m (j, convert_type_bool) = add_type j convert_type_bool convert_bool m

add_subdef-subdef :
    (m : TypeMaps) (d : Bytes × ConvertType) → IsKey d → add_subdef m (subdef d) ≡ added m d
unfolding add_subdef added add_named bytes_eq
add_subdef-subdef m (j, convert_type_string) h =
    rw (split_two-Lacks b':' j (codes "string") h.1, add_subdef)
add_subdef-subdef m (j, convert_type_int) h =
    rw (split_two-Lacks b':' j (codes "integer") h.1, add_subdef)
add_subdef-subdef m (j, convert_type_float) h =
    rw (split_two-Lacks b':' j (codes "float") h.1, add_subdef)
add_subdef-subdef m (j, convert_type_bool) h =
    rw (split_two-Lacks b':' j (codes "bool") h.1, add_subdef)

add_type-Holds :
    (m : TypeMaps) (found : Bytes → Option ConvertType) (j : Bytes) (t : ConvertType)
    (c : Converter)
    → converter_of t ≡ some c
    → Holds m found
    → Holds (add_type j t c m) (λ k. if bytes_eq j k then some t else found k)
unfolding add_type
add_type-Holds m found j t c e hold k = (
  rw (Dict.lookup-insert j k t m.0, (hold k).0),
  elim (Bool-cases (bytes_eq j k)) [
    | inl b ↦ rw (Dict.lookup-insert j k c m.1, b) (sym e)
    | inr b ↦ rw (Dict.lookup-insert j k c m.1, b) (hold k).1
  ],
)

added-Holds :
    (m : TypeMaps) (found : Bytes → Option ConvertType) (d : Bytes × ConvertType)
    → Holds m found
    → Holds (added m d) (λ k. last_type k (d ∷ []) (found k))
unfolding added
added-Holds m found (j, convert_type_string) hold = hold
added-Holds m found (j, convert_type_int) hold = add_type-Holds m found j _ _ refl hold
added-Holds m found (j, convert_type_float) hold = add_type-Holds m found j _ _ refl hold
added-Holds m found (j, convert_type_bool) hold = add_type-Holds m found j _ _ refl hold

last_type-cons :
    (k : Bytes) (d : Bytes × ConvertType) (ds : List (Bytes × ConvertType))
    (found : Option ConvertType)
    → last_type k (d ∷ ds) found ≡ last_type k ds (last_type k (d ∷ []) found)
last_type-cons k (j, convert_type_string) ds found = refl
last_type-cons k (j, convert_type_int) ds found = refl
last_type-cons k (j, convert_type_float) ds found = refl
last_type-cons k (j, convert_type_bool) ds found = refl

add_subdefs-Holds :
    (ds : List (Bytes × ConvertType)) (m : TypeMaps) (found : Bytes → Option ConvertType)
    → All IsKey ds
    → Holds m found
    → Holds (add_subdefs m (map subdef ds)) (λ k. last_type k ds (found k))
unfolding add_subdefs
add_subdefs-Holds [] m found h hold k = hold k
add_subdefs-Holds (d ∷ ds) m found h hold k =
    let step : add_subdefs m (map subdef (d ∷ ds)) ≡ add_subdefs (added m d) (map subdef ds) =
      ap (λ x. add_subdefs x (map subdef ds)) (add_subdef-subdef m d h.0) in
    subst
      (λ (x : TypeMaps).
        (Dict.lookup k x.0 ≡ last_type k (d ∷ ds) (found k))
        × (Dict.lookup k x.1 ≡ converter_at (last_type k (d ∷ ds) (found k))))
      (sym step)
      (rw (last_type-cons k d ds (found k)) (
        add_subdefs-Holds ds (added m d) (λ j. last_type j (d ∷ []) (found j)) h.1
          (added-Holds m found d hold) k))

-- The text "key:type,key:type,…" of a configuration gives back its definitions: for each key
-- the type map holds the last one that names integer, float or bool, and the converter map the
-- converter of that type; any other key is in neither. The keys hold no colon and no comma.
pub new_convert_map-render :
    (d : Bytes × ConvertType) (ds : List (Bytes × ConvertType)) (k : Bytes)
    → IsKey d
    → All IsKey ds
    → let m = new_convert_map (render d ds) in
      let found = last_type k (d ∷ ds) none in
      (converters : List (Bytes × Converter)) × (m.converter_map ≡ some converters)
      × (Dict.lookup k m.type_map ≡ found)
      × (Dict.lookup k converters ≡ converter_at found)
unfolding new_convert_map
new_convert_map-render d ds k h hs =
    let empty : Holds ([], []) (λ j. none) = λ j. unfold Dict.lookup in (refl, refl) in
    let (a, b) = add_subdefs-Holds (d ∷ ds) ([], []) (λ j. none) (h, hs) empty k in
    rw (split-render d ds h hs) (_, refl, a, b)

abbrev BothDistinct : TypeMaps → Type 0
BothDistinct m = Dict.Distinct m.0 × Dict.Distinct m.1

add_type-Distinct :
    (j : Bytes) (t : ConvertType) (c : Converter) (m : TypeMaps)
    → BothDistinct m
    → BothDistinct (add_type j t c m)
unfolding add_type
add_type-Distinct j t c m h = (Dict.insert-Distinct j t m.0 h.0, Dict.insert-Distinct j c m.1 h.1)

add_named-Distinct : (k t : Bytes) (m : TypeMaps) → BothDistinct m → BothDistinct (add_named k t m)
unfolding add_named
add_named-Distinct k t m h = elim (Bool-cases (is_text t (codes "bool"))) [
  | inl e ↦ rw e (add_type-Distinct k convert_type_bool convert_bool m h)
  | inr e ↦ rw e (elim (Bool-cases (is_text t (codes "integer"))) [
    | inl e₁ ↦ rw e₁ (add_type-Distinct k convert_type_int convert_int m h)
    | inr e₁ ↦ rw e₁ (elim (Bool-cases (is_text t (codes "float"))) [
      | inl e₂ ↦ rw e₂ (add_type-Distinct k convert_type_float convert_float m h)
      | inr e₂ ↦ rw e₂ h
    ])
  ])
]

add_subdef-Distinct : (m : TypeMaps) (s : Bytes) → BothDistinct m → BothDistinct (add_subdef m s)
unfolding add_subdef
add_subdef-Distinct m s h = elim (Option-cases (split_two b':' s)) [
  | inl e ↦ rw (e, add_subdef) h
  | inr ((k, t), e) ↦ rw (e, add_subdef) (add_named-Distinct k t m h)
]

add_subdefs-Distinct :
    (ds : List Bytes) (m : TypeMaps) → BothDistinct m → BothDistinct (add_subdefs m ds)
unfolding add_subdefs
add_subdefs-Distinct [] m h = h
add_subdefs-Distinct (s ∷ ds) m h =
    add_subdefs-Distinct ds (add_subdef m s) (add_subdef-Distinct m s h)

-- Neither map of a configuration has a key twice.
pub new_convert_map-Distinct :
    (config : Bytes)
    → let m = new_convert_map config in
      (converters : List (Bytes × Converter)) × (m.converter_map ≡ some converters)
      × Dict.Distinct m.type_map
      × Dict.Distinct converters
unfolding new_convert_map
new_convert_map-Distinct config =
    let (a, b) = add_subdefs-Distinct (split b',' config) ([], []) (tt, tt) in (_, refl, a, b)
