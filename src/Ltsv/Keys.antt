-- ===== src/Ltsv/Keys.antt =====
-- ltsv/ltsv.go: the sorted keys of a record, and which texts fit on a line.
use fluent_agent_hydra.Prelude.{contains}
use fluent_agent_hydra.Prelude.{
  ℕ, ◌≡◌, refl, sym, ap, ◌∙◌, inl, inr, Bool, true, false, ◌||◌, Option, none, some, List, [], ◌∷◌,
  ◌++◌, arith, Bool-cases, All, Bytes, bytes_eq, bytes_eq_iff, bytes_eq_refl, Lacks,
}
use fluent_agent_hydra.Fluent.Value.{Value, Fields, no_fields, field, lookup}
use fluent_agent_hydra.Ltsv.{escape, insert_text, sort_strings, keys, or_nil, text_of}

contains-insert_text :
    (k j : Bytes) (ks : List Bytes)
    → contains k (insert_text j ks) ≡ (bytes_eq j k || contains k ks)
unfolding contains insert_text
contains-insert_text k j [] = refl
contains-insert_text k j (i ∷ ks) = ground (arith, contains-insert_text k j ks)

-- Sorting keeps the keys.
pub contains-sort_strings :
    (k : Bytes) (ks : List Bytes) → contains k (sort_strings ks) ≡ contains k ks
unfolding contains sort_strings
contains-sort_strings k [] = refl
contains-sort_strings k (j ∷ ks) =
    contains-insert_text k j (sort_strings ks)
    ∙ ap (λ b. bytes_eq j k || b) (contains-sort_strings k ks)

abbrev pub is_some : Option Value → Bool
is_some none = false
is_some (some v) = true

pub contains-keys : (k : Bytes) (fs : Fields) → contains k (keys fs) ≡ is_some (lookup k fs)
unfolding contains keys lookup
contains-keys k no_fields = refl
contains-keys k (field j v fs) = ground (arith, contains-keys k fs)

-- What holds of every key that the list contains holds of all its keys.
pub All-of_contains {ℓ} :
    (P : Bytes → Type ℓ) (ks : List Bytes) → ((k : Bytes) → contains k ks ≡ true → P k) → All P ks
unfolding contains
All-of_contains P [] h = tt
All-of_contains P (k ∷ ks) h =
    (h k (rw (bytes_eq_refl k) refl), All-of_contains P ks (λ j e. h j (ground (arith, e))))

pub of_All-contains {ℓ} :
    (P : Bytes → Type ℓ) (ks : List Bytes) → All P ks → (k : Bytes) → contains k ks ≡ true → P k
unfolding contains
of_All-contains P [] h k e = cc
of_All-contains P (j ∷ ks) h k e = elim (Bool-cases (bytes_eq j k)) [
  | inl same ↦ rw (sym ((bytes_eq_iff j k).0 same)) h.0
  | inr other ↦ of_All-contains P ks h.1 k (rw other at e)
]

-- A text that fits in a column.
abbrev pub IsInline : Bytes → Type 0
IsInline s = Lacks b'\t' s × Lacks b'\n' s

-- A label: a text that fits, without a colon.
abbrev pub IsLabel : Bytes → Type 0
IsLabel k = Lacks b':' k × IsInline k

pub Lacks-append : (c : ℕ) (s t : Bytes) → Lacks c s → Lacks c t → Lacks c (s ++ t)
Lacks-append c [] t hs ht = ht
Lacks-append c (x ∷ s) t hs ht = (hs.0, Lacks-append c s t hs.1 ht)

pub escape-IsInline : (s : Bytes) → IsInline (escape s)
unfolding escape
escape-IsInline [] = (tt, tt)
escape-IsInline (c ∷ s) = ground (arith, escape-IsInline s)

module _ (print : Value → Bytes) where
  -- A value that is a text, or is printed as one that fits.
  abbrev pub PrintsInline : Value → Type 0
  PrintsInline (Value.string s) = Unit {0}
  PrintsInline (Value.bytes s) = Unit {0}
  PrintsInline v = IsInline (print v)

  abbrev pub AllInline : Fields → Type 0
  AllInline no_fields = Unit {0}
  AllInline (field k v fs) = PrintsInline v × AllInline fs

  text_of-IsInline : (v : Value) → PrintsInline v → IsInline (text_of print v)
  unfolding text_of
  text_of-IsInline (Value.string s) h = escape-IsInline s
  text_of-IsInline (Value.bytes s) h = escape-IsInline s
  text_of-IsInline _ h = h

  -- What is written for a key of the record fits.
  pub lookup-IsInline :
      (k : Bytes) (fs : Fields)
      → AllInline fs
      → contains k (keys fs) ≡ true
      → IsInline (text_of print (or_nil (lookup k fs)))
  unfolding contains keys lookup
  lookup-IsInline k no_fields h e = cc
  lookup-IsInline k (field j v fs) (hv, h) e = elim (Bool-cases (bytes_eq j k)) [
    | inl same ↦ rw (same, lookup) (text_of-IsInline v hv)
    | inr other ↦ rw (other, lookup) (lookup-IsInline k fs h (rw other at e))
  ]
