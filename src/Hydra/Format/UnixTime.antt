-- ===== src/Hydra/Format/UnixTime.antt =====
-- hydra/fileformat.go: the time format "unix", seconds with an optional decimal fraction.
use fluent_agent_hydra.Prelude.{
  ℕ, zero, suc, ◌+◌, ◌-◌, ◌*◌, ◌^◌, ◌≤◌, ◌<◌, ◌≡◌, refl, ap, ◌∙◌, ◌≢◌, inl, inr, some, [], ◌∷◌,
  ◌++◌, arith, ltb, lt_of_ltb, Bool-cases, length, take, replicate, All, length-append, length-take,
  All-append, Bytes, i64_limit, sub64,
}
use fluent_agent_hydra.Prelude.{split_two}
use fluent_agent_hydra.Fluent.Value.{time_unix, nanos}
use fluent_agent_hydra.Hydra.Strconv.{parse_digits, parse_unsigned, parse_int}
use fluent_agent_hydra.Hydra.Format.{convert_unix, nine_digits}
use native.Mathlib.Nat.{pow-suc, mul-le-mul_right}

abbrev pub IsDigit : ℕ → Type 0
IsDigit c = (b'0' ≤ c) × (c ≤ b'9')

-- The number that a text of digits spells, behind the digits of `n`.
abbrev pub decimal : ℕ → Bytes → ℕ
decimal n [] = n
decimal n (c ∷ s) = decimal (n * 10 + (c - b'0')) s

parse_digits-decimal : (n : ℕ) (s : Bytes) → All IsDigit s → parse_digits n s ≡ some (decimal n s)
unfolding parse_digits
parse_digits-decimal n [] h = refl
parse_digits-decimal n (c ∷ s) (h, hs) =
    ground (arith, parse_digits-decimal (n * 10 + (c - b'0')) s hs)

parse_unsigned-decimal :
    (s : Bytes) → s ≢ [] → All IsDigit s → parse_unsigned s ≡ some (decimal 0 s)
unfolding parse_unsigned
parse_unsigned-decimal [] n h = absurd (n refl)
parse_unsigned-decimal (c ∷ s) n h = parse_digits-decimal 0 (c ∷ s) h

parse_int-decimal :
    (s : Bytes)
    → s ≢ []
    → All IsDigit s
    → decimal 0 s < i64_limit
    → parse_int s ≡ some (decimal 0 s)
unfolding parse_int
parse_int-decimal [] n h lt = absurd (n refl)
parse_int-decimal (c ∷ s) n (h, hs) lt = ground (arith, parse_unsigned-decimal (c ∷ s) n (h, hs))

parse_int-negative :
    (s : Bytes)
    → s ≢ []
    → All IsDigit s
    → decimal 0 s < i64_limit
    → parse_int (b'-' ∷ s) ≡ some (sub64 0 (decimal 0 s))
unfolding parse_int
parse_int-negative s n h lt = ground (arith, parse_unsigned-decimal s n h)

decimal-append : (n : ℕ) (s t : Bytes) → decimal n (s ++ t) ≡ decimal (decimal n s) t
decimal-append n [] t = refl
decimal-append n (c ∷ s) t = decimal-append (n * 10 + (c - b'0')) s t

decimal-zeros : (n k : ℕ) → decimal n (replicate k b'0') ≡ n * 10 ^ k
decimal-zeros n zero = omega arith
decimal-zeros n (suc k) =
    let ten : 10 ^ suc k ≡ 10 ^ k * 10 = pow-suc 10 k in
    decimal-zeros (n * 10 + (b'0' - b'0')) k ∙ omega (arith, ap (λ (t : ℕ). n * t) ten)

zeros-IsDigit : (k : ℕ) → All IsDigit (replicate k b'0')
zeros-IsDigit zero = tt
zeros-IsDigit (suc k) = (omega arith, zeros-IsDigit k)

take-IsDigit : (k : ℕ) (s : Bytes) → All IsDigit s → All IsDigit (take k s)
take-IsDigit zero s h = tt
take-IsDigit (suc k) [] h = tt
take-IsDigit (suc k) (c ∷ s) (h, hs) = (h, take-IsDigit k s hs)

length-replicate : (k : ℕ) → length {A = ℕ} (replicate k b'0') ≡ k
length-replicate zero = refl
length-replicate (suc k) = ap suc (length-replicate k)

take-all : (k : ℕ) (s : Bytes) → length s ≤ k → take k s ≡ s
take-all zero [] h = refl
take-all zero (c ∷ s) h = absurd (omega arith)
take-all (suc k) [] h = refl
take-all (suc k) (c ∷ s) h = ap (λ l. c ∷ l) (take-all k s (omega arith))

scale : (a b p q : ℕ) → a ≤ b * 10 → q ≡ p * 10 → a * p ≤ b * q
scale a b p q h e = omega (arith, mul-le-mul_right p h, ap (λ (t : ℕ). b * t) e)

decimal-lt : (n : ℕ) (s : Bytes) → All IsDigit s → decimal n s < (n + 1) * 10 ^ length s
decimal-lt n [] h = omega arith
decimal-lt n (c ∷ s) (h, hs) =
    let ih : decimal (n * 10 + (c - b'0')) s < (n * 10 + (c - b'0') + 1) * 10 ^ length s =
      decimal-lt (n * 10 + (c - b'0')) s hs in
    let ten : 10 ^ suc (length s) ≡ 10 ^ length s * 10 = pow-suc 10 (length s) in
    let digit : n * 10 + (c - b'0') + 1 ≤ (n + 1) * 10 = omega arith in
    omega (arith, ih, scale _ (n + 1) (10 ^ length s) (10 ^ suc (length s)) digit ten)

-- The first nine digits of the fraction, filled up with zeros.
abbrev pub nanoseconds : Bytes → ℕ
nanoseconds fraction = decimal 0 (take 9 fraction) * 10 ^ (9 - length fraction)

nine_digits-IsDigit : (s : Bytes) → All IsDigit s → All IsDigit (nine_digits s)
unfolding nine_digits
nine_digits-IsDigit s h = elim (Bool-cases (ltb (length s) 9)) [
  | inl e ↦ rw e (All-append IsDigit s _ h (zeros-IsDigit (9 - length s)))
  | inr e ↦ rw e (elim (Bool-cases (ltb 9 (length s))) [
    | inl e₁ ↦ rw e₁ (take-IsDigit 9 s h)
    | inr e₁ ↦ rw e₁ h
  ])
]

length-nine_digits : (s : Bytes) → length (nine_digits s) ≡ 9
unfolding nine_digits
length-nine_digits s = ground (
  arith,
  length-append s (replicate (9 - length s) b'0'),
  length-replicate (9 - length s),
  length-take 9 s,
)

decimal-nine_digits : (s : Bytes) → decimal 0 (nine_digits s) ≡ nanoseconds s
unfolding nine_digits
decimal-nine_digits s = elim (Bool-cases (ltb (length s) 9)) [
  | inl e ↦ rw (
    e,
    decimal-append 0 s (replicate (9 - length s) b'0'),
    decimal-zeros (decimal 0 s) (9 - length s),
    take-all 9 s (omega (arith, lt_of_ltb (length s) 9 e)),
  )
  | inr e ↦
      let long : 9 ≤ length s = ground arith in
      let none_left : 9 - length s ≡ 0 = omega arith in
      rw (e, none_left)
        (elim (Bool-cases (ltb 9 (length s))) [
          | inl e₁ ↦ rw e₁ (omega arith)
          | inr e₁ ↦ rw (e₁, take-all 9 s (ground arith)) (omega arith)
        ])
]

nanoseconds-lt : (s : Bytes) → All IsDigit s → nanoseconds s < nanos
nanoseconds-lt s h =
    let few : decimal 0 (nine_digits s) < 1 * 10 ^ length (nine_digits s) =
      decimal-lt 0 (nine_digits s) (nine_digits-IsDigit s h) in
    let nine : 10 ^ length (nine_digits s) ≡ 10 ^ 9 =
      ap (λ (k : ℕ). 10 ^ k) (length-nine_digits s) in
    omega (arith, few, nine, decimal-nine_digits s)

nine_digits-ne-nil : (s : Bytes) → nine_digits s ≢ []
nine_digits-ne-nil s e =
    let zero_long : length (nine_digits s) ≡ 0 = ap length e in
    absurd (omega (arith, length-nine_digits s, zero_long))

fraction-value : (s : Bytes) → All IsDigit s → parse_int (nine_digits s) ≡ some (nanoseconds s)
fraction-value s h =
    let few = nanoseconds-lt s h in
    parse_int-decimal (nine_digits s) (nine_digits-ne-nil s) (nine_digits-IsDigit s h)
      (omega (arith, decimal-nine_digits s, few))
    ∙ ap some (decimal-nine_digits s)

split_at_dot :
    (s rest : Bytes) → All IsDigit s → split_two b'.' (s ++ (b'.' ∷ rest)) ≡ some (s, rest)
unfolding split_two
split_at_dot [] rest h = refl
split_at_dot (c ∷ s) rest (h, hs) = ground (arith, split_at_dot s rest hs)

-- A text of digits, a dot and digits, with fewer than 2 ^ 63 seconds, is read as that many
-- seconds and, of the fraction, the first nine digits as nanoseconds.
pub convert_unix-decimal :
    (whole fraction : Bytes)
    → whole ≢ []
    → All IsDigit whole
    → All IsDigit fraction
    → decimal 0 whole < i64_limit
    → convert_unix (whole ++ (b'.' ∷ fraction))
      ≡ some (record { sec = decimal 0 whole; nsec = nanoseconds fraction })
unfolding convert_unix time_unix
convert_unix-decimal whole fraction n hw hf lt =
    rw
      (
        split_at_dot whole fraction hw,
        convert_unix,
        parse_int-decimal whole n hw lt,
        fraction-value fraction hf,
      )
      (ground (arith, nanoseconds-lt fraction hf))

-- A negative time with a fraction, in digits and above -2 ^ 63: the seconds are negated and the
-- nanoseconds of the fraction are not.
pub convert_unix-negative :
    (whole fraction : Bytes)
    → whole ≢ []
    → All IsDigit whole
    → All IsDigit fraction
    → decimal 0 whole < i64_limit
    → convert_unix ((b'-' ∷ whole) ++ (b'.' ∷ fraction))
      ≡ some (record { sec = sub64 0 (decimal 0 whole); nsec = nanoseconds fraction })
unfolding convert_unix time_unix split_two
convert_unix-negative whole fraction n hw hf lt =
    rw
      (split_at_dot whole fraction hw, parse_int-negative whole n hw lt, fraction-value fraction hf)
      (ground (arith, nanoseconds-lt fraction hf))
