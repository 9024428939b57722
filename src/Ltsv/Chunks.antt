-- ===== src/Ltsv/Chunks.antt =====
-- ltsv/ltsv.go: the writes of `Encode`, one behind the other.
use fluent_agent_hydra.Prelude.{
  ℕ, suc, ◌-◌, ◌≤◌, ◌<◌, ◌≡◌, refl, sym, ap, ◌∙◌, ◌==◌, inl, inr, Bool-cases, Bool, true, false,
  List, [], ◌∷◌, ◌++◌, append-nil, append_assoc, arith, Bytes, length, if◌then◌else◌,
}
use mathlib.Core.Path.{fun_ext}
use fluent_agent_hydra.Fluent.Value.{Value, Fields, lookup}
use fluent_agent_hydra.Ltsv.{
  Writer, Write, fprint, and_then, or_nil, text_of, encode_column, encode_columns,
}

abbrev pub joined : List Bytes → Bytes
joined [] = []
joined (b ∷ bs) = b ++ joined bs

pub joined-append : (bs cs : List Bytes) → joined (bs ++ cs) ≡ joined bs ++ joined cs
joined-append [] cs = refl
joined-append (b ∷ bs) cs =
    ap (λ s. b ++ s) (joined-append bs cs) ∙ sym (append_assoc b (joined bs) (joined cs))

-- Writes until one fails.
unfoldable pub write_all : List Bytes → Write
write_all [] w = (w, true)
write_all (b ∷ bs) w = and_then (fprint b w) (write_all bs)

and_then_assoc :
    (r : Writer × Bool) (f g : Write)
    → and_then (and_then r f) g ≡ and_then r (λ w. and_then (f w) g)
and_then_assoc (w, true) f g = refl
and_then_assoc (w, false) f g = refl

pub write_all-append :
    (bs cs : List Bytes) (w : Writer)
    → and_then (write_all bs w) (write_all cs) ≡ write_all (bs ++ cs) w
unfolding write_all
write_all-append [] cs w = refl
write_all-append (b ∷ bs) cs w =
    and_then_assoc (fprint b w) (write_all bs) (write_all cs)
    ∙ ap (and_then (fprint b w)) (fun_ext (write_all-append bs cs))

pub same_writer :
    {s t : Bytes} {m n : ℕ}
    → s ≡ t
    → m ≡ n
    → ◌≡◌ {A = Writer} (record { written = s; good = m }) (record { written = t; good = n })
same_writer p q = cc

fprint-good :
    (b : Bytes) (w : Writer) (n : ℕ)
    → w.good ≡ suc n
    → fprint b w ≡ (record { written = w.written ++ b; good = n }, true)
unfolding fprint
fprint-good b w n e = rw e refl

fprint-short : (b : Bytes) (w : Writer) → w.good ≡ 0 → fprint b w ≡ (w, false)
unfolding fprint
fprint-short b w e = rw e refl

-- If there are enough writes left, all is written.
pub write_all-good :
    (bs : List Bytes) (w : Writer)
    → length bs ≤ w.good
    → write_all bs w
      ≡ (record { written = w.written ++ joined bs; good = w.good - length bs }, true)
unfolding write_all fprint
write_all-good [] w h = ap (λ v. (v, true)) (same_writer (sym (append-nil w.written)) (omega arith))
write_all-good (b ∷ bs) w h =
    let w' : Writer = record { written = w.written ++ b; good = w.good - 1 } in
    rw (fprint-good b w (w.good - 1) (omega arith), write_all)
      (write_all-good bs w' (omega arith)
        ∙ ap (λ v. (v, true)) (same_writer (append_assoc w.written b (joined bs)) (omega arith)))

-- If not, there is an error.
pub write_all-short :
    (bs : List Bytes) (w : Writer) → w.good < length bs → (write_all bs w).1 ≡ false
unfolding write_all fprint
write_all-short [] w h = absurd (omega arith)
write_all-short (b ∷ bs) w h = elim (Bool-cases (w.good == 0)) [
  | inl e ↦ rw (fprint-short b w (ground arith), write_all) refl
  | inr e ↦
      let w' : Writer = record { written = w.written ++ b; good = w.good - 1 } in
      rw (fprint-good b w (w.good - 1) (ground arith), write_all)
        (write_all-short bs w' (ground arith))
]

pub and_then-done : (r : Writer × Bool) → and_then r (λ w. (w, true)) ≡ r
and_then-done (w, true) = refl
and_then-done (w, false) = refl

module _ (print : Value → Bytes) where
  unfoldable pub column_chunks : Bool → Bytes → Value → List Bytes
  column_chunks first k v =
      (if first then [] else (b'\t' ∷ []) ∷ []) ++ ((k ++ (b':' ∷ [])) ∷ text_of print v ∷ [])

  unfoldable pub columns_chunks : Bool → List Bytes → Fields → List Bytes
  unfolding column_chunks
  columns_chunks first [] fs = []
  columns_chunks first (k ∷ ks) fs =
      column_chunks first k (or_nil (lookup k fs)) ++ columns_chunks false ks fs

  first_column-chunks :
      (k : Bytes) (v : Value) (w : Writer)
      → encode_column print true k v w ≡ write_all (column_chunks true k v) w
  unfolding encode_column column_chunks write_all
  first_column-chunks k v w =
      ap (and_then (fprint (k ++ (b':' ∷ [])) w))
        (fun_ext (λ w₁. sym (and_then-done (fprint (text_of print v) w₁))))

  encode_column-chunks :
      (first : Bool) (k : Bytes) (v : Value) (w : Writer)
      → encode_column print first k v w ≡ write_all (column_chunks first k v) w
  unfolding encode_column column_chunks write_all
  encode_column-chunks true k v w = first_column-chunks k v w
  encode_column-chunks false k v w =
      ap (and_then (fprint (b'\t' ∷ []) w)) (fun_ext (first_column-chunks k v))

  pub encode_columns-chunks :
      (first : Bool) (ks : List Bytes) (fs : Fields) (w : Writer)
      → encode_columns print first ks fs w ≡ write_all (columns_chunks first ks fs) w
  unfolding encode_columns columns_chunks
  encode_columns-chunks first [] fs w = unfold write_all in refl
  encode_columns-chunks first (k ∷ ks) fs w =
      rw (encode_column-chunks first k (or_nil (lookup k fs)) w) (
        ap (and_then (write_all (column_chunks first k (or_nil (lookup k fs))) w))
          (fun_ext (encode_columns-chunks false ks fs))
        ∙ write_all-append (column_chunks first k (or_nil (lookup k fs)))
            (columns_chunks false ks fs) w)
