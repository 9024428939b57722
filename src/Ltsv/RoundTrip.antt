-- ===== src/Ltsv/RoundTrip.antt =====
-- ltsv/ltsv.go and hydra/hydra.go: what the encoder writes, read back by `NewFluentRecordLTSV`.
use fluent_agent_hydra.Prelude.{contains}
use fluent_agent_hydra.Prelude.{
  ◌+◌, ◌*◌, ◌≤◌, ◌<◌, ◌≡◌, refl, sym, ap, ◌∙◌, inl, inr, Bool, true, false, Option, none, some,
  List, [], ◌∷◌, ◌++◌, append-nil, append_assoc, arith, if◌then◌else◌, Bool-cases, Option-cases,
  All, Bytes, bytes_eq, bytes_eq_iff, Lacks, length, length-append,
}
use mathlib.Core.Path.{fun_ext}
use fluent_agent_hydra.Fluent.Value.{Value, Fields, lookup}
use fluent_agent_hydra.Ltsv.{
  Writer, fprint, and_then, sort_strings, insert_text, keys, or_nil, text_of, encode,
}
use fluent_agent_hydra.Ltsv.Chunks.{
  joined, joined-append, column_chunks, columns_chunks, encode_columns-chunks, write_all,
  write_all-good, write_all-append, and_then-done,
}
use fluent_agent_hydra.Ltsv.Keys.{
  contains-sort_strings, contains-keys, All-of_contains, of_All-contains, IsInline, IsLabel,
  Lacks-append, AllInline, lookup-IsInline,
}
use fluent_agent_hydra.Prelude.{split}
use fluent_agent_hydra.Hydra.Records.{ltsv_columns, new_fluent_record_ltsv}
use fluent_agent_hydra.Hydra.Records.Ltsv.{
  column, ltsv_line, IsColumn, last_column, lookup-new_fluent_record_ltsv,
}

length-insert_text : (k : Bytes) (ks : List Bytes) → length (insert_text k ks) ≡ length ks + 1
unfolding insert_text
length-insert_text k [] = omega arith
length-insert_text k (j ∷ ks) = ground (arith, length-insert_text k ks)

length-sort_strings : (ks : List Bytes) → length (sort_strings ks) ≡ length ks
unfolding sort_strings
length-sort_strings [] = refl
length-sort_strings (k ∷ ks) =
    omega (arith, length-insert_text k (sort_strings ks), length-sort_strings ks)

-- The columns behind the first, each with its tab.
abbrev tabs : List (Bytes × Bytes) → Bytes
tabs [] = []
tabs (c ∷ cs) = b'\t' ∷ ltsv_line c cs

ltsv_line-tabs :
    (c : Bytes × Bytes) (cs : List (Bytes × Bytes)) → ltsv_line c cs ≡ column c ++ tabs cs
ltsv_line-tabs c [] = sym (append-nil (column c))
ltsv_line-tabs c (d ∷ ds) = refl

module _ (print : Value → Bytes) (fs : Fields) where
  abbrev text_at : Bytes → Bytes
  text_at k = text_of print (or_nil (lookup k fs))

  abbrev columns_of : List Bytes → List (Bytes × Bytes)
  columns_of [] = []
  columns_of (k ∷ ks) = (k, text_at k) ∷ columns_of ks

  first_chunks :
      (k : Bytes) (v : Value) (bs : List Bytes)
      → joined (column_chunks print true k v ++ bs) ≡ column (k, text_of print v) ++ joined bs
  unfolding column_chunks
  first_chunks k v bs =
      append_assoc k (b':' ∷ []) (text_of print v ++ joined bs)
      ∙ sym (append_assoc k (b':' ∷ text_of print v) (joined bs))

  next_chunks :
      (k : Bytes) (v : Value) (bs : List Bytes)
      → joined (column_chunks print false k v ++ bs)
        ≡ b'\t' ∷ (column (k, text_of print v) ++ joined bs)
  unfolding column_chunks
  next_chunks k v bs = ap (λ s. b'\t' ∷ s) (first_chunks k v bs)

  joined-tabs : (ks : List Bytes) → joined (columns_chunks print false ks fs) ≡ tabs (columns_of ks)
  unfolding columns_chunks
  joined-tabs [] = refl
  joined-tabs (k ∷ ks) =
      next_chunks k (or_nil (lookup k fs)) (columns_chunks print false ks fs)
      ∙ ap (λ s. b'\t' ∷ (column (k, text_at k) ++ s)) (joined-tabs ks)
      ∙ ap (λ s. b'\t' ∷ s) (sym (ltsv_line-tabs (k, text_at k) (columns_of ks)))

  joined-line :
      (k : Bytes) (ks : List Bytes)
      → joined (columns_chunks print true (k ∷ ks) fs) ≡ ltsv_line (k, text_at k) (columns_of ks)
  unfolding columns_chunks
  joined-line k ks =
      first_chunks k (or_nil (lookup k fs)) (columns_chunks print false ks fs)
      ∙ ap (λ s. column (k, text_at k) ++ s) (joined-tabs ks)
      ∙ sym (ltsv_line-tabs (k, text_at k) (columns_of ks))

  length-columns_chunks :
      (first : Bool) (ks : List Bytes) → length (columns_chunks print first ks fs) ≤ 3 * length ks
  unfolding columns_chunks column_chunks
  length-columns_chunks first [] = omega arith
  length-columns_chunks true (k ∷ ks) = omega (arith, length-columns_chunks false ks)
  length-columns_chunks false (k ∷ ks) = omega (arith, length-columns_chunks false ks)

  last_column-columns_of :
      (j : Bytes) (ks : List Bytes) (found : Option Value)
      → last_column j (columns_of ks) found
        ≡ (if contains j ks then some (Value.string (text_at j)) else found)
  unfolding contains
  last_column-columns_of j [] found = refl
  last_column-columns_of j (k ∷ ks) found =
      last_column-columns_of j ks (if bytes_eq k j then some (Value.string (text_at k)) else found)
      ∙ elim (Bool-cases (bytes_eq k j)) [
        | inl e ↦
            let same : text_at k ≡ text_at j = ap text_at ((bytes_eq_iff k j).0 e) in
            elim (Bool-cases (contains j ks)) [
              | inl c ↦ rw (e, c) refl
              | inr c ↦ rw (e, c, same) refl
            ]
        | inr e ↦ rw e refl
      ]

  -- The columns of keys of the record are columns.
  columns_of-IsColumn :
      (ks : List Bytes)
      → All (λ k. IsLabel k × IsInline (text_at k)) ks
      → All IsColumn (columns_of ks)
  columns_of-IsColumn [] h = tt
  columns_of-IsColumn (k ∷ ks) (((c, (t, n)), (tv, nv)), h) = ((c, t, tv), columns_of-IsColumn ks h)

  ltsv_line-Lacks :
      (k : Bytes) (ks : List Bytes)
      → All (λ k. IsLabel k × IsInline (text_at k)) (k ∷ ks)
      → Lacks b'\n' (ltsv_line (k, text_at k) (columns_of ks))
  ltsv_line-Lacks k [] (((c, (t, n)), (tv, nv)), h) = Lacks-append b'\n' k _ n (omega arith, nv)
  ltsv_line-Lacks k (j ∷ ks) (((c, (t, n)), (tv, nv)), h) =
      Lacks-append b'\n' (column (k, text_at k)) _ (Lacks-append b'\n' k _ n (omega arith, nv))
        (omega arith, ltsv_line-Lacks j ks h)

  line_lem :
      (key j : Bytes) (ks : List Bytes)
      → All (λ k. IsLabel k × IsInline (text_at k)) ks
      → Lacks b'\n' (joined (columns_chunks print true ks fs))
        × (lookup j (new_fluent_record_ltsv key (joined (columns_chunks print true ks fs)))
            ≡ (if contains j ks then some (Value.string (text_at j)) else none))
  line_lem key j [] h =
      unfold columns_chunks contains split ltsv_columns new_fluent_record_ltsv lookup in (tt, refl)
  line_lem key j (k ∷ ks) h =
      let (own, others) = columns_of-IsColumn (k ∷ ks) h in
      rw (joined-line k ks) (
        ltsv_line-Lacks k ks h,
        lookup-new_fluent_record_ltsv key j (k, text_at k) (columns_of ks) own others
            ∙ last_column-columns_of j (k ∷ ks) none,
      )

  All-fit :
      All IsLabel (keys fs)
      → AllInline print fs
      → All (λ k. IsLabel k × IsInline (text_at k)) (sort_strings (keys fs))
  All-fit labels inline =
      All-of_contains (λ k. IsLabel k × IsInline (text_at k)) (sort_strings (keys fs))
        λ k e.
          let e' : contains k (keys fs) ≡ true = rw (contains-sort_strings k (keys fs)) at e in
          (of_All-contains IsLabel (keys fs) labels k e', lookup-IsInline print k fs inline e')

  -- What the record holds under a key, as the encoder writes it.
  abbrev pub shown : Option Value → Option Value
  shown none = none
  shown (some v) = some (Value.string (text_of print v))

  shown-lookup :
      (j : Bytes)
      → (if contains j (sort_strings (keys fs)) then some (Value.string (text_at j)) else none)
        ≡ shown (lookup j fs)
  shown-lookup j =
      rw (contains-sort_strings j (keys fs), contains-keys j fs)
        (elim (Option-cases (lookup j fs)) [ inl n ↦ rw n refl | inr (v, e) ↦ rw e refl ])

  pub encode-chunks :
      (w : Writer)
      → encode print (Value.object fs) w
        ≡ write_all (columns_chunks print true (sort_strings (keys fs)) fs ++ ((b'\n' ∷ []) ∷ [])) w
  unfolding encode
  encode-chunks w =
      let ks = sort_strings (keys fs) in
      rw (encode_columns-chunks print true ks fs w) (
        ap (and_then (write_all (columns_chunks print true ks fs) w)) (fun_ext last_write)
        ∙ write_all-append (columns_chunks print true ks fs) ((b'\n' ∷ []) ∷ []) w)
    where
      last_write : (v : Writer) → fprint (b'\n' ∷ []) v ≡ write_all ((b'\n' ∷ []) ∷ []) v
      last_write v = unfold write_all in sym (and_then-done (fprint (b'\n' ∷ []) v))

-- A record of labels without a colon, a tab or a newline, whose values are texts or print without
-- a tab and a newline, on a writer that does not fail: `Encode` writes one line, ended by its
-- only newline, and `NewFluentRecordLTSV` reads from it under each key the text that was written
-- for the key's value, and nothing under a key that the record lacks.
pub encode_lem :
    (print : Value → Bytes) (fs : Fields) (w : Writer) (key j : Bytes)
    → All IsLabel (keys fs)
    → AllInline print fs
    → 3 * length (keys fs) < w.good
    → (line : Bytes) × (w' : Writer) × (encode print (Value.object fs) w ≡ (w', true))
      × (w'.written ≡ w.written ++ (line ++ (b'\n' ∷ [])))
      × Lacks b'\n' line
      × (lookup j (new_fluent_record_ltsv key line) ≡ shown print fs (lookup j fs))
encode_lem print fs w key j labels inline enough =
    let ks = sort_strings (keys fs) in
    let chunks = columns_chunks print true ks fs in
    let fits : length (chunks ++ ((b'\n' ∷ []) ∷ [])) ≤ w.good = omega (
      arith,
      length-append chunks ((b'\n' ∷ []) ∷ []),
      length-columns_chunks print fs true ks,
      length-sort_strings (keys fs),
    ) in
    let (one_line, read) = line_lem print fs key j ks (All-fit print fs labels inline) in
    (
      joined chunks,
      _,
      encode-chunks print fs w ∙ write_all-good (chunks ++ ((b'\n' ∷ []) ∷ [])) w fits,
      ap (λ s. w.written ++ s) (joined-append chunks ((b'\n' ∷ []) ∷ [])),
      one_line,
      read ∙ shown-lookup print fs j,
    )
