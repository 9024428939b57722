-- ===== src/Ltsv/Maps.antt =====
-- ltsv/ltsv.go: a Go map has no order. An association list stands for it here, and the encoder
-- does not depend on which one.
use fluent_agent_hydra.Prelude.{◌≡◌, refl, sym, ap, ◌∙◌, Bool, true, false, List, [], ◌∷◌, Bytes}
use mathlib.Core.Path.{fun_ext}
use fluent_agent_hydra.Fluent.Value.{Value, Fields, lookup}
use fluent_agent_hydra.Ltsv.{
  Writer, and_then, fprint, keys, or_nil, encode_column, encode_columns, encode, sort_strings,
}
use fluent_agent_hydra.Ltsv.Keys.{is_some, contains-keys}
use fluent_agent_hydra.Ltsv.Order.{Distinct, sort_strings_eq}

-- No key stands twice.
abbrev pub IsMap : Fields → Type 0
IsMap fs = Distinct (keys fs)

-- The same map: under each key the same value, or none.
abbrev pub SameMap : Fields → Fields → Type 0
SameMap fs gs = (k : Bytes) → lookup k fs ≡ lookup k gs

module _ (print : Value → Bytes) (fs gs : Fields) (same : SameMap fs gs) where
  encode_columns_eq :
      (first : Bool) (ks : List Bytes) (w : Writer)
      → encode_columns print first ks fs w ≡ encode_columns print first ks gs w
  unfolding encode_columns
  encode_columns_eq first [] w = refl
  encode_columns_eq first (k ∷ ks) w =
      ap
        (λ v.
          and_then (encode_column print first k (or_nil v) w) (encode_columns print false ks fs))
        (same k)
      ∙ ap (and_then (encode_column print first k (or_nil (lookup k gs)) w))
          (fun_ext (encode_columns_eq false ks))

  -- Two association lists with the same keys and values, each key once, are encoded to the same
  -- bytes, whatever their order is and wherever a write fails.
  pub encode_eq :
      (w : Writer)
      → IsMap fs
      → IsMap gs
      → encode print (Value.object fs) w ≡ encode print (Value.object gs) w
  unfolding encode
  encode_eq w map map' =
      let keys_eq : sort_strings (keys fs) ≡ sort_strings (keys gs) =
        sort_strings_eq (keys fs) (keys gs) map map'
          λ k. contains-keys k fs ∙ ap is_some (same k) ∙ sym (contains-keys k gs) in
      ap (λ ks. and_then (encode_columns print true ks fs w) (fprint (b'\n' ∷ []))) keys_eq
      ∙ ap (λ r. and_then r (fprint (b'\n' ∷ [])))
          (encode_columns_eq true (sort_strings (keys gs)) w)
