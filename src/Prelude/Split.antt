-- ===== src/Prelude/Split.antt =====
-- `strings.Split`, `bytes.Split` and `strings.SplitN` with a separator of one byte, and
-- `bytes.LastIndex` of one byte.
use Prim.Native.Nat.{ℕ, zero, suc}
use mathlib.Core.Path.{◌≡◌, refl, ap}
use mathlib.Core.Logic.{◌≢◌, inl, inr}
use mathlib.Core.Option.{Option, none, some}
use mathlib.Core.List.{List, [], ◌∷◌, ◌++◌, append_assoc}
use native.Mathlib.Omega.{arith}
use fluent_agent_hydra.Prelude.Tests.{◌==◌, if◌then◌else◌, Bool-cases, Option-cases}
use fluent_agent_hydra.Prelude.Lists.{take, drop, All}
use fluent_agent_hydra.Prelude.Text.{Bytes, Lacks}

-- `c` joins the first part.
unfoldable pub push_first : ℕ → List Bytes → List Bytes
push_first c [] = (c ∷ []) ∷ []
push_first c (p ∷ ps) = (c ∷ p) ∷ ps

unfoldable pub split : ℕ → Bytes → List Bytes
unfolding push_first
split sep [] = [] ∷ []
split sep (c ∷ s) = let parts = split sep s in if c == sep then [] ∷ parts else push_first c parts

-- `SplitN(s, sep, 2)`: the two parts, or nothing where there is no separator.
unfoldable pub split_two : ℕ → Bytes → Option (Bytes × Bytes)
split_two sep [] = none
split_two sep (c ∷ s) =
    let rest = split_two sep s in
    if c == sep then some ([], s) else elim rest [ none ↦ none | some (a, b) ↦ some (c ∷ a, b) ]

-- The parts with the separator behind each.
abbrev pub terminated : ℕ → List Bytes → Bytes
terminated sep [] = []
terminated sep (p ∷ ps) = p ++ (sep ∷ terminated sep ps)

unfoldable pub last_index : ℕ → Bytes → Option ℕ
last_index c [] = none
last_index c (x ∷ xs) = elim (last_index c xs) [
  | some i ↦ some (suc i)
  | none ↦ if x == c then some 0 else none
]

module _ (sep : ℕ) where
  push_first-append :
      (c : ℕ) (ps qs : List Bytes) → ps ≢ [] → push_first c (ps ++ qs) ≡ push_first c ps ++ qs
  unfolding push_first
  push_first-append c [] qs h = absurd (h refl)
  push_first-append c (p ∷ ps) qs h = refl

  pub split-ne-nil : (s : Bytes) → split sep s ≢ []
  unfolding split
  split-ne-nil [] e = cc
  split-ne-nil (c ∷ s) e = ground (arith, split-ne-nil s)

  pub split-append_sep : (s t : Bytes) → split sep (s ++ (sep ∷ t)) ≡ split sep s ++ split sep t
  unfolding split
  split-append_sep [] t = ground arith
  split-append_sep (c ∷ s) t = ground (
    arith,
    split-append_sep s t,
    push_first-append c (split sep s) (split sep t) (split-ne-nil s),
  )

  pub split-Lacks : (s : Bytes) → Lacks sep s → split sep s ≡ s ∷ []
  unfolding split
  split-Lacks [] h = refl
  split-Lacks (c ∷ s) h = ground (arith, split-Lacks s)

  pub split-All-Lacks : (s : Bytes) → All (Lacks sep) (split sep s)
  unfolding split
  split-All-Lacks [] = (tt, tt)
  split-All-Lacks (c ∷ s) = elim (Bool-cases (c == sep)) [
    | inl e ↦ rw e (tt, split-All-Lacks s)
    | inr e ↦ rw e (pushed (ground arith) (split sep s) (split-All-Lacks s))
  ]
    where
      pushed : c ≢ sep → (ps : List Bytes) → All (Lacks sep) ps → All (Lacks sep) (push_first c ps)
      pushed n [] h = ((n, tt), tt)
      pushed n (p ∷ ps) h = ((n, h.0), h.1)

  pub last_index-none : (s : Bytes) → last_index sep s ≡ none → Lacks sep s
  unfolding last_index
  last_index-none [] h = tt
  last_index-none (x ∷ xs) h = elim (Option-cases (last_index sep xs)) [
    | inl e ↦ (ground arith, last_index-none xs e)
    | inr (i, e) ↦ absurd (ground arith)
  ]

  -- The text up to the last separator, the separator and the text behind it.
  pub last_index-some :
      (s : Bytes) (i : ℕ)
      → last_index sep s ≡ some i
      → (s ≡ take i s ++ (sep ∷ drop (suc i) s)) × Lacks sep (drop (suc i) s)
  unfolding last_index
  last_index-some [] i h = cc
  last_index-some (x ∷ xs) zero h = elim (Option-cases (last_index sep xs)) [
    | inl e ↦ (ground arith, last_index-none xs e)
    | inr (j, e) ↦ absurd (ground arith)
  ]
  last_index-some (x ∷ xs) (suc i) h = elim (Option-cases (last_index sep xs)) [
    | inl e ↦ absurd (ground arith)
    | inr (j, e) ↦ let (a, b) = last_index-some xs i (ground arith) in (ap (λ l. x ∷ l) a, b)
  ]

  -- Text that ends behind a separator splits into what stood before it and an empty part.
  pub split-terminated :
      (ps : List Bytes) (last : Bytes)
      → All (Lacks sep) ps
      → Lacks sep last
      → split sep (terminated sep ps ++ last) ≡ ps ++ (last ∷ [])
  split-terminated [] last hs h = split-Lacks last h
  split-terminated (p ∷ ps) last hs h = rw (
    append_assoc p (sep ∷ terminated sep ps) last,
    split-append_sep p (terminated sep ps ++ last),
    split-Lacks p hs.0,
    split-terminated ps last hs.1 h,
  )

  terminated-push :
      (c : ℕ) (ps : List Bytes) → ps ≢ [] → terminated sep (push_first c ps) ≡ c ∷ terminated sep ps
  unfolding push_first
  terminated-push c [] h = absurd (h refl)
  terminated-push c (p ∷ ps) h = refl

  -- The parts with a separator between them spell the text.
  pub terminated-split : (s : Bytes) → terminated sep (split sep s) ≡ s ++ (sep ∷ [])
  unfolding split push_first
  terminated-split [] = refl
  terminated-split (c ∷ s) =
      ground (arith, terminated-push c (split sep s) (split-ne-nil s), terminated-split s)
