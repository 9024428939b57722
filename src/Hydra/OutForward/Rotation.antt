-- ===== src/Hydra/OutForward/Rotation.antt =====
-- hydra/out_forward.go: the order in which the loggers are tried.
use fluent_agent_hydra.Prelude.{
  ℕ, zero, suc, ◌+◌, ◌-◌, ◌%◌, ◌≤◌, ◌<◌, ◌≡◌, refl, ap, subst, ◌∙◌, true, false, some, List, [],
  ◌∷◌, ◌++◌, arith, length, i64_limit,
}
use mathlib.Core.List.{Perm, perm_append_comm}
use native.Mathlib.Nat.{mod-lt}
use fluent_agent_hydra.Hydra.OutForward.{OutForward, order, indices}
use fluent_agent_hydra.Hydra.OutForward.Failover.{AreIndices, NotIn}

indices-append : (a m k : ℕ) → indices a m ++ indices (a + m) k ≡ indices a (m + k)
indices-append a zero k =
    let start : a + 0 ≡ a = omega arith in let count : 0 + k ≡ k = omega arith in rw (start, count)
indices-append a (suc m) k =
    let start : a + suc m ≡ a + 1 + m = omega arith in
    let count : suc m + k ≡ suc (m + k) = omega arith in
    rw (start, count) (ap (λ l. a ∷ l) (indices-append (a + 1) m k))

indices-NotIn : (i a n : ℕ) → i < a → NotIn i (indices a n)
indices-NotIn i a zero h = tt
indices-NotIn i a (suc n) h = (omega arith, indices-NotIn i (a + 1) n (omega arith))

indices-NotIn_above : (i a n : ℕ) → a + n ≤ i → NotIn i (indices a n)
indices-NotIn_above i a zero h = tt
indices-NotIn_above i a (suc n) h = (omega arith, indices-NotIn_above i (a + 1) n (omega arith))

NotIn-append : (i : ℕ) (xs ys : List ℕ) → NotIn i xs → NotIn i ys → NotIn i (xs ++ ys)
NotIn-append i [] ys h k = k
NotIn-append i (x ∷ xs) ys h k = (h.0, NotIn-append i xs ys h.1 k)

indices-AreIndices : (n a k : ℕ) → a + k ≤ n → AreIndices n (indices a k)
indices-AreIndices n a zero h = tt
indices-AreIndices n a (suc k) h = (
  omega arith,
  indices-NotIn a (a + 1) k (omega arith),
  indices-AreIndices n (a + 1) k (omega arith),
)

rotated-AreIndices : (n a k b : ℕ) → a + k ≤ n → b ≤ a → AreIndices n (indices a k ++ indices 0 b)
rotated-AreIndices n a zero b h le = indices-AreIndices n 0 b (omega arith)
rotated-AreIndices n a (suc k) b h le = (
  omega arith,
  NotIn-append a (indices (a + 1) k) (indices 0 b) (indices-NotIn a (a + 1) k (omega arith))
      (indices-NotIn_above a 0 b (omega arith)),
  rotated-AreIndices n (a + 1) k b (omega arith) (omega arith),
)

-- Without round robin the loggers are tried in the order of the configuration.
pub order-fixed :
    (s : OutForward)
    → s.round_robin ≡ false
    → (order s ≡ some (indices 0 (length s.loggers)))
      × AreIndices (length s.loggers) (indices 0 (length s.loggers))
unfolding order
order-fixed s h =
    (rw h refl, indices-AreIndices (length s.loggers) 0 (length s.loggers) (omega arith))

rotated-cons :
    (a k b : ℕ) → 0 < k → indices a k ++ indices 0 b ≡ a ∷ (indices (a + 1) (k - 1) ++ indices 0 b)
rotated-cons a zero b h = absurd (omega arith)
rotated-cons a (suc k) b h = let one_less : suc k - 1 ≡ k = omega arith in rw one_less refl

indices-split : (m k n : ℕ) → m + k ≡ n → indices 0 m ++ indices m k ≡ indices 0 n
indices-split m k n e =
    let start : 0 + m ≡ m = omega arith in
    subst (λ (b : ℕ). indices 0 m ++ indices b k ≡ indices 0 n) start
      (indices-append 0 m k ∙ ap (indices 0) e)

order_rotated :
    (s : OutForward)
    → s.round_robin ≡ true
    → 0 < length s.loggers
    → s.sent < i64_limit
    → let start = s.sent % length s.loggers in
      order s ≡ some (indices start (length s.loggers - start) ++ indices 0 start)
unfolding order
order_rotated s h n lt = ground arith

-- With round robin over at least one logger, and fewer than 2 ^ 63 sends, every logger is tried
-- once, beginning with the one whose index is the number of sends modulo the number of loggers.
pub order-round_robin :
    (s : OutForward)
    → s.round_robin ≡ true
    → 0 < length s.loggers
    → s.sent < i64_limit
    → (rest : List ℕ) × (order s ≡ some ((s.sent % length s.loggers) ∷ rest))
      × AreIndices (length s.loggers) ((s.sent % length s.loggers) ∷ rest)
      × Perm ((s.sent % length s.loggers) ∷ rest) (indices 0 (length s.loggers))
order-round_robin s h n lt =
    let size = length s.loggers in
    let start = s.sent % size in
    let inside : start < size = mod-lt s.sent n in
    let all = rotated-cons start (size - start) start (omega arith) in
    let whole = indices-split start (size - start) size (omega arith) in
    (
      indices (start + 1) (size - start - 1) ++ indices 0 start,
      order_rotated s h n lt ∙ ap some all,
      subst (AreIndices size) all
          (rotated-AreIndices size start (size - start) start (omega arith) (omega arith)),
      subst (λ l. Perm l (indices 0 size)) all
          (subst (Perm (indices start (size - start) ++ indices 0 start)) whole
            (perm_append_comm (indices start (size - start)) (indices 0 start))),
    )
