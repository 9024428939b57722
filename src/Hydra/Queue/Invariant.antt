-- ===== src/Hydra/Queue/Invariant.antt =====
-- hydra/buffer.go: the counter of the queue, its bound, and what `Enqueue` and `Dequeue` do.
use fluent_agent_hydra.Prelude.{
  ℕ, ◌+◌, ◌≤◌, ◌<◌, ◌≡◌, refl, ap, ◌⊎◌, inl, inr, Option, none, some, List, [], ◌∷◌, ◌++◌, arith,
  take, drop, i64_limit,
}
use fluent_agent_hydra.Fluent.Record.{FluentRecordSet, record_count}
use fluent_agent_hydra.Hydra.Queue.{
  MessageQueue, new_message_queue, enqueue, dequeue_front, dequeue, len,
}
use fluent_agent_hydra.Hydra.Queue.Evict.{
  total, total-append, evictions, dispose_lem, total-take-drop, evictions_fit, evictions_least,
}

-- The counter is the number of records queued.
pub record IsValid (q : MessageQueue) : Type 0 where
  pub counted : q.messages ≡ total q.list
  pub small : total q.list < i64_limit
  pub limit : q.max_messages < i64_limit

pub new_message_queue-IsValid : (n : ℕ) → n < i64_limit → IsValid (new_message_queue n)
unfolding new_message_queue
new_message_queue-IsValid n h = record { counted = refl; small = omega arith; limit = h }

-- The two results of `Enqueue` in plain numbers.
pub enqueue-eq :
    (q : MessageQueue) (rs : FluentRecordSet)
    → IsValid q
    → total q.list + record_count rs < i64_limit
    → let k = evictions q.max_messages (record_count rs) q.list in
      enqueue q rs ≡ (
        record q {
          list = drop k q.list ++ (rs ∷ []);
          messages = total (drop k q.list) + record_count rs;
        },
        total (take k q.list),
      )
unfolding enqueue
enqueue-eq q rs v fits = ground (
  arith,
  dispose_lem q.max_messages (record_count rs) q.list 0,
  total-take-drop (evictions q.max_messages (record_count rs) q.list) q.list,
)

-- On a valid queue, with fewer than 2 ^ 63 records in all, `Enqueue` keeps the newest record sets that leave room for the new one, and no fewer. It
-- appends the new one, and returns the number of records in those that it dropped.
pub enqueue_lem :
    (q : MessageQueue) (rs : FluentRecordSet)
    → IsValid q
    → total q.list + record_count rs < i64_limit
    → let (q', disposed) = enqueue q rs in
      (k : ℕ) × (q'.list ≡ drop k q.list ++ (rs ∷ []))
      × (disposed ≡ total (take k q.list))
      × ((total (drop k q.list) + record_count rs ≤ q.max_messages) ⊎ (drop k q.list ≡ []))
      × ((j : ℕ) → j < k → q.max_messages < total (drop j q.list) + record_count rs)
enqueue_lem q rs v fits = rw (enqueue-eq q rs v fits) (
  evictions q.max_messages (record_count rs) q.list,
  refl,
  refl,
  evictions_fit q.max_messages (record_count rs) q.list,
  evictions_least q.max_messages (record_count rs) q.list,
)

pub enqueue-IsValid :
    (q : MessageQueue) (rs : FluentRecordSet)
    → IsValid q
    → total q.list + record_count rs < i64_limit
    → IsValid (enqueue q rs).0
enqueue-IsValid q rs v fits =
    let k = evictions q.max_messages (record_count rs) q.list in
    rw (enqueue-eq q rs v fits) (record {
      counted = omega (arith, total-append (drop k q.list) (rs ∷ []));
      small = omega (arith, total-append (drop k q.list) (rs ∷ []), total-take-drop k q.list);
      limit = v.limit;
    })

-- After `Enqueue` on a valid queue, with fewer than 2 ^ 63 records in all, the queue is within
-- its limit, or it holds the new record set alone.
pub enqueue_bound :
    (q : MessageQueue) (rs : FluentRecordSet)
    → IsValid q
    → total q.list + record_count rs < i64_limit
    → let q' = (enqueue q rs).0 in (len q' ≤ q.max_messages) ⊎ (q'.list ≡ rs ∷ [])
unfolding len
enqueue_bound q rs v fits =
    rw (enqueue-eq q rs v fits) (elim (evictions_fit q.max_messages (record_count rs) q.list) [
      | inl h ↦ inl h
      | inr h ↦ inr (ap (λ l. l ++ (rs ∷ [])) h)
    ])

-- Nothing is lost silently: what is queued afterwards and what was disposed make up what was
-- queued before and what came in.
pub enqueue_conserves :
    (q : MessageQueue) (rs : FluentRecordSet)
    → IsValid q
    → total q.list + record_count rs < i64_limit
    → let (q', disposed) = enqueue q rs in total q'.list + disposed ≡ total q.list + record_count rs
enqueue_conserves q rs v fits =
    let k = evictions q.max_messages (record_count rs) q.list in
    rw (enqueue-eq q rs v fits)
      (omega (arith, total-append (drop k q.list) (rs ∷ []), total-take-drop k q.list))

-- `Dequeue` takes the oldest record set, and nothing when there is none.
abbrev pub Taken : MessageQueue → MessageQueue → Option FluentRecordSet → Type 0
Taken q q' none = (q.list ≡ []) × (q'.list ≡ [])
Taken q q' (some rs) = q.list ≡ rs ∷ q'.list

dequeue_front_lem :
    (q : MessageQueue) (list : List FluentRecordSet)
    → q.list ≡ list
    → let (q', out) = dequeue_front q list in Taken q q' out × (q'.max_messages ≡ q.max_messages)
unfolding dequeue_front
dequeue_front_lem q [] e = ((e, e), refl)
dequeue_front_lem q (rs ∷ list) e = (e, refl)

pub dequeue_lem :
    (q : MessageQueue)
    → let (q', out) = dequeue q in Taken q q' out × (q'.max_messages ≡ q.max_messages)
unfolding dequeue
dequeue_lem q = dequeue_front_lem q q.list refl

dequeue_front-IsValid :
    (q : MessageQueue) (list : List FluentRecordSet)
    → q.list ≡ list
    → IsValid q
    → IsValid (dequeue_front q list).0
unfolding dequeue_front
dequeue_front-IsValid q [] e v = record { counted = rw e refl; small = v.small; limit = v.limit }
dequeue_front-IsValid q (rs ∷ list) e v =
    let s : total q.list ≡ record_count rs + total list = ap total e in
    record { counted = omega arith; small = omega arith; limit = v.limit }

pub dequeue-IsValid : (q : MessageQueue) → IsValid q → IsValid (dequeue q).0
unfolding dequeue
dequeue-IsValid q v = dequeue_front-IsValid q q.list refl v
