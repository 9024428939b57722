-- ===== src/Ltsv/Order.antt =====
-- ltsv/ltsv.go: the order in which the encoder writes the keys of a map.
use fluent_agent_hydra.Prelude.{
  ◌≡◌, refl, sym, ap, ap₂, ◌∙◌, inl, inr, true, false, List, [], ◌∷◌, arith, Bool-cases, All, Bytes,
  bytes_eq, bytes_eq_iff, bytes_eq_refl, contains,
}
use fluent_agent_hydra.Ltsv.{text_le, insert_text, sort_strings}
use fluent_agent_hydra.Ltsv.Keys.{contains-sort_strings}

text_le_refl : (s : Bytes) → text_le s s ≡ true
unfolding text_le
text_le_refl [] = refl
text_le_refl (c ∷ s) = ground (arith, text_le_refl s)

text_le_antisymm : (s t : Bytes) → text_le s t ≡ true → text_le t s ≡ true → s ≡ t
unfolding text_le
text_le_antisymm [] [] h h' = refl
text_le_antisymm [] (d ∷ t) h h' = cc
text_le_antisymm (c ∷ s) [] h h' = cc
text_le_antisymm (c ∷ s) (d ∷ t) h h' =
    let same : c ≡ d = ground (arith, h, h') in
    let rest : s ≡ t = text_le_antisymm s t (ground (arith, h, h')) (ground (arith, h, h')) in
    ap₂ (λ a b. a ∷ b) same rest

text_le_trans : (s t u : Bytes) → text_le s t ≡ true → text_le t u ≡ true → text_le s u ≡ true
unfolding text_le
text_le_trans [] t u h h' = refl
text_le_trans (c ∷ s) [] u h h' = cc
text_le_trans (c ∷ s) (d ∷ t) [] h h' = cc
text_le_trans (c ∷ s) (d ∷ t) (e ∷ u) h h' = ground (arith, text_le_trans s t u)

text_le_total : (s t : Bytes) → text_le s t ≡ false → text_le t s ≡ true
unfolding text_le
text_le_total [] t h = cc
text_le_total (c ∷ s) [] h = refl
text_le_total (c ∷ s) (d ∷ t) h = ground (arith, text_le_total s t)

-- In ascending order, each once.
abbrev pub Ascending : List Bytes → Type 0
Ascending [] = Unit {0}
Ascending (k ∷ ks) = All (λ j. text_le j k ≡ false) ks × Ascending ks

-- No key twice.
abbrev pub Distinct : List Bytes → Type 0
Distinct [] = Unit {0}
Distinct (k ∷ ks) = (contains k ks ≡ false) × Distinct ks

-- What holds of the new key and of the keys holds of the keys behind the insertion.
All-insert_text {ℓ} :
    (P : Bytes → Type ℓ) (k : Bytes) (ks : List Bytes) → P k → All P ks → All P (insert_text k ks)
unfolding insert_text
All-insert_text P k [] p ps = (p, tt)
All-insert_text P k (j ∷ ks) p ps = elim (Bool-cases (text_le k j)) [
  | inl e ↦ rw (e, insert_text) (p, ps)
  | inr e ↦ rw (e, insert_text) (ps.0, All-insert_text P k ks p ps.1)
]

-- A key that is below another is below all that are above that one.
below-All :
    (k j : Bytes) (ks : List Bytes)
    → text_le k j ≡ true
    → All (λ i. text_le i j ≡ false) ks
    → All (λ i. text_le i k ≡ false) ks
below-All k j [] h above = tt
below-All k j (i ∷ ks) h above =
    (ground (arith, text_le_trans i k j, above.0), below-All k j ks h above.1)

insert_text-Ascending :
    (k : Bytes) (ks : List Bytes)
    → contains k ks ≡ false
    → Ascending ks
    → Ascending (insert_text k ks)
unfolding insert_text contains
insert_text-Ascending k [] h up = (tt, tt)
insert_text-Ascending k (j ∷ ks) h up =
    let other : bytes_eq j k ≡ false = ground (arith, h) in
    let absent : contains k ks ≡ false = ground (arith, h) in
    elim (Bool-cases (text_le k j)) [
      | inl e ↦
          let below : text_le j k ≡ false = elim (Bool-cases (text_le j k)) [
            | inr apart ↦ apart
            | inl both ↦
                let same = (bytes_eq_iff j k).1 (text_le_antisymm j k both e) in
                absurd (ground arith)
          ] in
          rw (e, insert_text) ((below, below-All k j ks e up.0), up)
      | inr e ↦
          rw (e, insert_text)
            (
              All-insert_text (λ i. text_le i j ≡ false) k ks e up.0,
              insert_text-Ascending k ks absent up.1,
            )
    ]

-- Distinct keys are sorted into ascending order.
sort_strings-Ascending : (ks : List Bytes) → Distinct ks → Ascending (sort_strings ks)
unfolding sort_strings
sort_strings-Ascending [] h = tt
sort_strings-Ascending (k ∷ ks) h =
    insert_text-Ascending k (sort_strings ks) (contains-sort_strings k ks ∙ h.0)
      (sort_strings-Ascending ks h.1)

-- The first key is none of those behind it.
Ascending-fresh :
    (k : Bytes) (ks : List Bytes) → All (λ j. text_le j k ≡ false) ks → contains k ks ≡ false
unfolding contains
Ascending-fresh k [] above = refl
Ascending-fresh k (j ∷ ks) above = elim (Bool-cases (bytes_eq j k)) [
  | inr e ↦ rw (e, contains) (Ascending-fresh k ks above.1)
  | inl e ↦
      let same = ap (λ i. text_le i k) ((bytes_eq_iff j k).0 e) ∙ text_le_refl k in
      absurd (ground (arith, above.0))
]

-- A key among those above another is above it.
above_of_contains :
    (k j : Bytes) (ks : List Bytes)
    → All (λ i. text_le i j ≡ false) ks
    → contains k ks ≡ true
    → text_le k j ≡ false
unfolding contains
above_of_contains k j [] above h = cc
above_of_contains k j (i ∷ ks) above h = elim (Bool-cases (bytes_eq i k)) [
  | inl e ↦ ap (λ t. text_le t j) (sym ((bytes_eq_iff i k).0 e)) ∙ above.0
  | inr e ↦ above_of_contains k j ks above.1 (rw (e, contains) at h)
]

-- The first keys of two ascending lists with the same keys are the same.
Ascending-first :
    (k : Bytes) (ks : List Bytes) (j : Bytes) (js : List Bytes)
    → Ascending (k ∷ ks)
    → Ascending (j ∷ js)
    → ((i : Bytes) → contains i (k ∷ ks) ≡ contains i (j ∷ js))
    → k ≡ j
unfolding contains
Ascending-first k ks j js up up' h = elim (Bool-cases (bytes_eq k j)) [
  | inl e ↦ (bytes_eq_iff k j).0 e
  | inr e ↦ elim (Bool-cases (bytes_eq j k)) [
    | inl e' ↦ sym ((bytes_eq_iff j k).0 e')
    | inr e' ↦
        let in_js : contains k js ≡ true = ground (arith, h k, bytes_eq_refl k) in
        let in_ks : contains j ks ≡ true = ground (arith, h j, bytes_eq_refl j) in
        let below = text_le_total k j (above_of_contains k j js up'.0 in_js) in
        absurd (ground (arith, above_of_contains j k ks up.0 in_ks))
  ]
]

-- Two ascending lists with the same keys are one.
Ascending-eq :
    (ks js : List Bytes)
    → Ascending ks
    → Ascending js
    → ((i : Bytes) → contains i ks ≡ contains i js)
    → ks ≡ js
unfolding contains
Ascending-eq [] [] up up' h = refl
Ascending-eq [] (j ∷ js) up up' h = absurd (ground (arith, h j, bytes_eq_refl j))
Ascending-eq (k ∷ ks) [] up up' h = absurd (ground (arith, h k, bytes_eq_refl k))
Ascending-eq (k ∷ ks) (j ∷ js) up up' h =
    let same = Ascending-first k ks j js up up' h in
    ap₂ (λ a b. a ∷ b) same (Ascending-eq ks js up.1 up'.1 (tails same))
  where
    tails : k ≡ j → (i : Bytes) → contains i ks ≡ contains i js
    tails same i = elim (Bool-cases (bytes_eq k i)) [
      | inr e ↦
          let e' : bytes_eq j i ≡ false = ap (λ l. bytes_eq l i) (sym same) ∙ e in
          ground (arith, h i)
      | inl e ↦
          let this = (bytes_eq_iff k i).0 e in
          let out : contains i ks ≡ false =
            ap (λ l. contains l ks) (sym this) ∙ Ascending-fresh k ks up.0 in
          let out' : contains i js ≡ false =
            ap (λ l. contains l js) (sym (sym same ∙ this)) ∙ Ascending-fresh j js up'.0 in
          out ∙ sym out'
    ]

-- Distinct keys are written in the same order, whatever the order in which they come.
pub sort_strings_eq :
    (ks js : List Bytes)
    → Distinct ks
    → Distinct js
    → ((i : Bytes) → contains i ks ≡ contains i js)
    → sort_strings ks ≡ sort_strings js
sort_strings_eq ks js h h' same =
    Ascending-eq (sort_strings ks) (sort_strings js) (sort_strings-Ascending ks h)
      (sort_strings-Ascending js h')
      λ i. contains-sort_strings i ks ∙ same i ∙ sym (contains-sort_strings i js)
