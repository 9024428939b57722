-- ===== src/Hydra/Records/Ltsv.antt =====
-- hydra/hydra.go: a line in the LTSV format.
use fluent_agent_hydra.Prelude.{
  ◌≡◌, refl, ap, ◌∙◌, ◌≢◌, Option, none, some, List, [], ◌∷◌, ◌++◌, map, arith, if◌then◌else◌, All,
  Bytes, bytes_eq, Lacks,
}
use fluent_agent_hydra.Prelude.{split, split_two, split-append_sep, split-Lacks}
use fluent_agent_hydra.Fluent.Value.{Value, Fields, no_fields, lookup, insert, lookup-insert}
use fluent_agent_hydra.Hydra.Records.{ltsv_columns, new_fluent_record_ltsv}

-- A column "label:value"; the value may hold colons.
abbrev pub column : Bytes × Bytes → Bytes
column (k, v) = k ++ (b':' ∷ v)

abbrev pub ltsv_line : Bytes × Bytes → List (Bytes × Bytes) → Bytes
ltsv_line c [] = column c
ltsv_line c (d ∷ ds) = column c ++ (b'\t' ∷ ltsv_line d ds)

abbrev pub IsColumn : Bytes × Bytes → Type 0
IsColumn (k, v) = Lacks b':' k × Lacks b'\t' k × Lacks b'\t' v

-- The value of the last column with the label.
abbrev pub last_column : Bytes → List (Bytes × Bytes) → Option Value → Option Value
last_column k [] found = found
last_column k ((j, v) ∷ cs) found =
    last_column k cs (if bytes_eq j k then some (Value.string v) else found)

split_two-column : (k v : Bytes) → Lacks b':' k → split_two b':' (k ++ (b':' ∷ v)) ≡ some (k, v)
unfolding split_two
split_two-column [] v h = refl
split_two-column (c ∷ k) v h = ground (arith, split_two-column k v)

tabless : (k v : Bytes) → Lacks b'\t' k → Lacks b'\t' v → Lacks b'\t' (k ++ (b':' ∷ v))
tabless [] v hk hv = (omega arith, hv)
tabless (c ∷ k) v hk hv = (hk.0, tabless k v hk.1 hv)

split-ltsv_line :
    (c : Bytes × Bytes) (cs : List (Bytes × Bytes))
    → IsColumn c
    → All IsColumn cs
    → split b'\t' (ltsv_line c cs) ≡ map column (c ∷ cs)
split-ltsv_line (k, v) [] h hs = split-Lacks b'\t' (k ++ (b':' ∷ v)) (tabless k v h.1 h.2)
split-ltsv_line (k, v) (d ∷ ds) h hs = rw (
  split-append_sep b'\t' (k ++ (b':' ∷ v)) (ltsv_line d ds),
  split-Lacks b'\t' (k ++ (b':' ∷ v)) (tabless k v h.1 h.2),
  split-ltsv_line d ds hs.0 hs.1,
)

ltsv_columns-column :
    (key s k v : Bytes) (cols : List Bytes) (fs : Fields)
    → Lacks b':' k
    → ltsv_columns key s ((k ++ (b':' ∷ v)) ∷ cols) fs
      ≡ ltsv_columns key s cols (insert k (Value.string v) fs)
unfolding ltsv_columns
ltsv_columns-column key s [] v cols fs h = rw (split_two-column [] v h)
ltsv_columns-column key s (c ∷ k) v cols fs h = rw (split_two-column (c ∷ k) v h)

lookup-ltsv_columns :
    (key s k : Bytes) (cs : List (Bytes × Bytes)) (fs : Fields)
    → All IsColumn cs
    → lookup k (ltsv_columns key s (map column cs) fs) ≡ last_column k cs (lookup k fs)
lookup-ltsv_columns key s k [] fs h = unfold ltsv_columns in refl
lookup-ltsv_columns key s k ((j, v) ∷ cs) fs h =
    rw (ltsv_columns-column key s j v (map column cs) fs h.0.0) (
      lookup-ltsv_columns key s k cs (insert j (Value.string v) fs) h.1
      ∙ ap (last_column k cs) (lookup-insert j k (Value.string v) fs))

-- A line of columns "label:value" with tabs between them, without a tab in a column or a colon
-- in a label, becomes a record that holds, under each label, the value of the last column with
-- that label, and nothing under any other key.
pub lookup-new_fluent_record_ltsv :
    (key k : Bytes) (c : Bytes × Bytes) (cs : List (Bytes × Bytes))
    → IsColumn c
    → All IsColumn cs
    → lookup k (new_fluent_record_ltsv key (ltsv_line c cs)) ≡ last_column k (c ∷ cs) none
unfolding new_fluent_record_ltsv
lookup-new_fluent_record_ltsv key k c cs h hs = rw (split-ltsv_line c cs h hs) (
    lookup-ltsv_columns key (ltsv_line c cs) k (c ∷ cs) no_fields (h, hs)
    ∙ ap (last_column k (c ∷ cs)) (unfold lookup in refl))

uncoloned : (s : Bytes) → Lacks b':' s → split_two b':' s ≡ none
unfolding split_two
uncoloned [] h = refl
uncoloned (c ∷ s) h = ground (arith, uncoloned s)

-- A line that is one column without a colon is kept whole under the key for raw lines.
pub new_fluent_record_ltsv-invalid :
    (key line : Bytes)
    → line ≢ []
    → Lacks b'\t' line
    → Lacks b':' line
    → new_fluent_record_ltsv key line ≡ insert key (Value.string line) no_fields
unfolding new_fluent_record_ltsv ltsv_columns
new_fluent_record_ltsv-invalid key [] n ht hc = absurd (n refl)
new_fluent_record_ltsv-invalid key (c ∷ line) n ht hc =
    rw (split-Lacks b'\t' (c ∷ line) ht, ltsv_columns, uncoloned (c ∷ line) hc)
