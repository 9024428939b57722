-- ===== src/Fluent/Client/Backoff.antt =====
-- fluent/fluent.go: the waits between the attempts to reconnect.
use fluent_agent_hydra.Prelude.{
  ℕ, zero, suc, ◌+◌, ◌*◌, ◌/◌, ◌^◌, ◌≤◌, ◌<◌, min, ◌≡◌, ap, ◌∙◌, inl, inr, arith, ◌==◌, ==_iff,
  Bool-cases, lt64, i64_limit, if◌then◌else◌, List, [], ◌∷◌,
}
use native.Mathlib.Nat.{pow-suc, mul-le-mul_left}
use fluent_agent_hydra.Fluent.Client.{Config, wait_time, duration}

-- The integer part of 1.5 ^ n.
unfoldable pub power : ℕ → ℕ
power n = 3 ^ n / 2 ^ n

pow-pos : (n : ℕ) → 0 < 2 ^ n
pow-pos zero = omega arith
pow-pos (suc n) = omega (arith, pow-pos n, pow-suc 2 n)

-- A floor of a fraction does not fall when the numerator is tripled and the denominator doubled.
floor_step : (a b : ℕ) → 0 < b → a / b ≤ a * 3 / (b * 2)
floor_step a b h = grind arith

power_step : (n : ℕ) → power n ≤ power (suc n)
unfolding power
power_step n = rw (pow-suc 3 n, pow-suc 2 n) (floor_step (3 ^ n) (2 ^ n) (pow-pos n))

power_mono : (a b : ℕ) → a ≤ b → power a ≤ power b
power_mono zero zero h = omega arith
power_mono (suc a) zero h = absurd (omega arith)
power_mono a (suc b) h = elim (Bool-cases (a == suc b)) [
  | inl e ↦ rw ((==_iff a (suc b)).0 e) (omega arith)
  | inr e ↦ omega (arith, power_mono a b (ground arith), power_step b)
]

-- The wait after the attempt `i` in milliseconds: `RetryWait` times the integer part of 1.5 ^ k,
-- where `k` is `i`, and `MaxRetry` from that attempt on.
abbrev pub backoff : Config → ℕ → ℕ
backoff c i = c.retry_wait * power (min i c.max_retry)

-- The waits after `n` attempts from attempt `i` on, in nanoseconds.
abbrev pub backoffs : Config → ℕ → ℕ → List ℕ
backoffs c i zero = []
backoffs c i (suc n) = backoff c i * 1000000 ∷ backoffs c (i + 1) n

abbrev pub NeverShrink : List ℕ → Type 0
NeverShrink [] = Unit {0}
NeverShrink (x ∷ []) = Unit {0}
NeverShrink (x ∷ y ∷ xs) = (x ≤ y) × NeverShrink (y ∷ xs)

pub backoff_mono : (c : Config) (i j : ℕ) → i ≤ j → backoff c i ≤ backoff c j
backoff_mono c i j h =
    mul-le-mul_left c.retry_wait (power_mono (min i c.max_retry) (min j c.max_retry) (omega arith))

pub backoffs-NeverShrink : (c : Config) (i n : ℕ) → NeverShrink (backoffs c i n)
backoffs-NeverShrink c i zero = tt
backoffs-NeverShrink c i (suc zero) = tt
backoffs-NeverShrink c i (suc (suc n)) =
    let longer = backoff_mono c i (i + 1) (omega arith) in
    (omega (arith, longer), backoffs-NeverShrink c (i + 1) (suc n))

-- A configuration whose longest wait, in nanoseconds, is an int64, and with a `MaxRetry` up to
-- which float64 holds the powers exactly.
pub record IsModest (c : Config) : Type 0 where
  pub few : c.max_retry ≤ 33
  pub short : c.retry_wait * power c.max_retry * 1000000 < i64_limit

-- What `math.Pow` gives for 1.5 and a small exponent.
abbrev pub IsPow : (ℕ → ℕ) → Type 0
IsPow pow = (n : ℕ) → n ≤ 33 → pow n ≡ 3 ^ n / 2 ^ n

exponent : (m i : ℕ) → m ≤ 33 → i < i64_limit → (if lt64 m i then m else i) ≡ min i m
exponent m i h k = elim (Bool-cases (lt64 m i)) [
  | inl e ↦ rw e (ground arith)
  | inr e ↦ rw e (ground arith)
]

-- The wait that the code computes, as long as the number of the attempt is an int64.
pub duration-wait_time :
    (pow : ℕ → ℕ) (c : Config) (i : ℕ)
    → IsPow pow
    → IsModest c
    → i < i64_limit
    → duration (wait_time pow c i) ≡ backoff c i * 1000000
unfolding duration wait_time power
duration-wait_time pow c i is_pow modest small =
    let k = min i c.max_retry in
    let raised = exponent c.max_retry i modest.few small in
    let few : k ≤ 33 = omega (arith, modest.few) in
    let same = ap pow raised ∙ is_pow k few in
    let longest = mul-le-mul_left c.retry_wait (power_mono k c.max_retry (omega arith)) in
    let short = modest.short in rw same (omega (arith, longest, short))
