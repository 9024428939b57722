-- ===== src/HttpTailf/Handler/Path.antt =====
-- cmd/fluent-http-tailf/main.go: what `strings.Trim` leaves of the path of a request.
use fluent_agent_hydra.Prelude.{
  ℕ, ◌≡◌, ◌≢◌, refl, sym, subst, ap, ◌∙◌, inl, inr, Bool-cases, ◌==◌, [], ◌∷◌, ◌++◌, Bytes, All,
  if◌then◌else◌, arith,
}
use fluent_agent_hydra.HttpTailf.Handler.{trim_left_slash, trim_right_slash, trim_slash}

-- The path without the slashes at both ends, all of them.
abbrev pub IsSlash : ℕ → Type 0
IsSlash c = c ≡ b'/'

abbrev pub StartsPlain : Bytes → Type 0
StartsPlain [] = Unit {0}
StartsPlain (c ∷ s) = c ≢ b'/'

abbrev pub StopsPlain : Bytes → Type 0
StopsPlain [] = Unit {0}
StopsPlain (c ∷ []) = c ≢ b'/'
StopsPlain (c ∷ d ∷ t) = StopsPlain (d ∷ t)

abbrev pub IsWithin : Bytes → Bytes → Type 0
IsWithin path tag =
    (before : Bytes) × (after : Bytes) × (path ≡ before ++ (tag ++ after))
    × All IsSlash before
    × All IsSlash after
    × StartsPlain tag
    × StopsPlain tag

-- A text and what was cut off behind it.
abbrev IsCut : Bytes → Bytes → Type 0
IsCut s t = (after : Bytes) × (s ≡ t ++ after) × All IsSlash after × StopsPlain t

trim_left_slash-split :
    (s : Bytes)
    → (before : Bytes) × (s ≡ before ++ trim_left_slash s)
      × All IsSlash before
      × StartsPlain (trim_left_slash s)
unfolding trim_left_slash
trim_left_slash-split [] = ([], refl, tt, tt)
trim_left_slash-split (c ∷ s) = elim (Bool-cases (c == b'/')) [
  | inl e ↦
      let (before, split, slashes, plain) = trim_left_slash-split s in
      rw (trim_left_slash, e) (c ∷ before, ap (λ t. c ∷ t) split, (ground arith, slashes), plain)
  | inr e ↦ rw (trim_left_slash, e) ([], refl, tt, ground arith)
]

first-IsCut : (c : ℕ) (s : Bytes) → IsCut s [] → IsCut (c ∷ s) (if c == b'/' then [] else c ∷ [])
first-IsCut c s (after, split, slashes, plain) = elim (Bool-cases (c == b'/')) [
  | inl e ↦ rw e (c ∷ s, refl, (ground arith, subst (All IsSlash) (sym split) slashes), tt)
  | inr e ↦ rw e (after, ap (λ t. c ∷ t) split, slashes, ground arith)
]

-- What `trim_right_slash` does with a byte before what it leaves of the rest.
abbrev put_first : ℕ → Bytes → Bytes
put_first c [] = if c == b'/' then [] else c ∷ []
put_first c (d ∷ t) = c ∷ d ∷ t

put_first-IsCut : (c : ℕ) (s t : Bytes) → IsCut s t → IsCut (c ∷ s) (put_first c t)
put_first-IsCut c s [] cut = first-IsCut c s cut
put_first-IsCut c s (d ∷ t) (after, split, slashes, plain) =
    (after, ap (λ l. c ∷ l) split, slashes, plain)

put_first-StartsPlain : (c : ℕ) (t : Bytes) → c ≢ b'/' → StartsPlain (put_first c t)
put_first-StartsPlain c [] h = elim (Bool-cases (c == b'/')) [ inl e ↦ rw e tt | inr e ↦ rw e h ]
put_first-StartsPlain c (d ∷ t) h = h

trim_right_slash-first :
    (c : ℕ) (s : Bytes) → trim_right_slash (c ∷ s) ≡ put_first c (trim_right_slash s)
unfolding trim_right_slash
trim_right_slash-first c s =
    elim (trim_right_slash s)
      as (λ t.
        ◌≡◌ {A = Bytes}
          (elim t as (λ _. Bytes) [ [] ↦ if c == b'/' then [] else c ∷ [] | d ∷ u ↦ c ∷ d ∷ u ])
          (put_first c t)) [ [] ↦ refl | d ∷ u ↦ refl ]

trim_right_slash-IsCut : (s : Bytes) → IsCut s (trim_right_slash s)
unfolding trim_right_slash
trim_right_slash-IsCut [] = ([], refl, tt, tt)
trim_right_slash-IsCut (c ∷ s) =
    subst (IsCut (c ∷ s)) (sym (trim_right_slash-first c s))
      (put_first-IsCut c s (trim_right_slash s) (trim_right_slash-IsCut s))

trim_right_slash-StartsPlain : (s : Bytes) → StartsPlain s → StartsPlain (trim_right_slash s)
unfolding trim_right_slash
trim_right_slash-StartsPlain [] h = tt
trim_right_slash-StartsPlain (c ∷ s) h =
    subst StartsPlain (sym (trim_right_slash-first c s))
      (put_first-StartsPlain c (trim_right_slash s) h)

pub trim_slash-IsWithin : (path : Bytes) → IsWithin path (trim_slash path)
unfolding trim_slash
trim_slash-IsWithin path =
    let (before, split, slashes, plain) = trim_left_slash-split path in
    let (after, rest, slashes', plain') = trim_right_slash-IsCut (trim_left_slash path) in
    (
      before,
      after,
      split ∙ ap (λ t. before ++ t) rest,
      slashes,
      slashes',
      trim_right_slash-StartsPlain (trim_left_slash path) plain,
      plain',
    )
