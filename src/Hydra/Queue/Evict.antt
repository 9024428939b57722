-- ===== src/Hydra/Queue/Evict.antt =====
-- hydra/buffer.go: which record sets the loop of `Enqueue` throws away.
use fluent_agent_hydra.Prelude.{
  ℕ, zero, suc, ◌+◌, ◌≤◌, ◌<◌, ◌≡◌, refl, ◌⊎◌, inr, List, [], ◌∷◌, ◌++◌, arith, ltb, if◌then◌else◌,
  take, drop, i64_limit,
}
use fluent_agent_hydra.Fluent.Record.{FluentRecordSet, record_count}
use fluent_agent_hydra.Hydra.Queue.{dispose}

abbrev pub total : List FluentRecordSet → ℕ
total [] = 0
total (rs ∷ list) = record_count rs + total list

pub total-append : (xs ys : List FluentRecordSet) → total (xs ++ ys) ≡ total xs + total ys
total-append [] ys = omega arith
total-append (x ∷ xs) ys = omega (arith, total-append xs ys)

-- How many record sets have to go, oldest first, before `added` more records fit.
unfoldable pub evictions : ℕ → ℕ → List FluentRecordSet → ℕ
evictions max_messages added [] = 0
evictions max_messages added (rs ∷ list) =
    let rest = evictions max_messages added list in
    if ltb max_messages (total (rs ∷ list) + added) then suc rest else 0

-- The loop drops that many from the front, and counts what it drops.
pub dispose_lem :
    (max_messages added : ℕ) (list : List FluentRecordSet) (disposed : ℕ)
    → max_messages < i64_limit
    → total list + added < i64_limit
    → disposed + total list < i64_limit
    → let k = evictions max_messages added list in
      dispose max_messages added list (total list) disposed
      ≡ (drop k list, total (drop k list), disposed + total (take k list))
unfolding dispose evictions
dispose_lem max_messages added [] disposed hm ha hd = ground arith
dispose_lem max_messages added (rs ∷ list) disposed hm ha hd =
    ground (arith, dispose_lem max_messages added list (disposed + record_count rs))

pub total-take-drop :
    (k : ℕ) (list : List FluentRecordSet) → total (take k list) + total (drop k list) ≡ total list
total-take-drop zero list = omega arith
total-take-drop (suc k) [] = omega arith
total-take-drop (suc k) (x ∷ list) = omega (arith, total-take-drop k list)

-- What is kept leaves room for `added` records, or nothing is kept.
pub evictions_fit :
    (max_messages added : ℕ) (list : List FluentRecordSet)
    → let kept = drop (evictions max_messages added list) list in
      (total kept + added ≤ max_messages) ⊎ (kept ≡ [])
unfolding evictions
evictions_fit max_messages added [] = inr refl
evictions_fit max_messages added (rs ∷ list) = ground (arith, evictions_fit max_messages added list)

-- Keeping one more would not leave room.
pub evictions_least :
    (max_messages added : ℕ) (list : List FluentRecordSet) (j : ℕ)
    → j < evictions max_messages added list
    → max_messages < total (drop j list) + added
unfolding evictions
evictions_least max_messages added [] j h = absurd (omega arith)
evictions_least max_messages added (rs ∷ list) zero h = ground arith
evictions_least max_messages added (rs ∷ list) (suc j) h =
    ground (arith, evictions_least max_messages added list j)
