-- ===== src/Tests/Queue.antt =====
-- hydra/buffer.go on a small queue.
use fluent_agent_hydra.Prelude.{
  ℕ, ◌+◌, ◌≤◌, ◌≡◌, refl, ◌⊎◌, List, [], ◌∷◌, ◌++◌, arith, replicate, codes,
}
use mathlib.Core.List.{Sublist}
use fluent_agent_hydra.Fluent.Record.{FluentRecordSet, FluentRecordType, tiny_message}
use fluent_agent_hydra.Hydra.Queue.{MessageQueue, enqueue, dispose, len}
use fluent_agent_hydra.Hydra.Queue.Evict.{total}
use fluent_agent_hydra.Hydra.Queue.Invariant.{IsValid, enqueue_bound}
use fluent_agent_hydra.Hydra.Queue.History.{
  Call, enqueues, dequeues, incoming, run, run_accounts, run_order,
}

abbrev line : FluentRecordType
line = tiny_message (record {
  timestamp = record { sec = 0; nsec = 0 };
  field_name = codes "message";
  message = codes "a";
})

abbrev set_of : ℕ → FluentRecordSet
set_of n = record { tag = codes "test"; records = replicate n line }

-- Two record sets of two records in a queue for five records.
abbrev half_full : MessageQueue
half_full = record { list = set_of 2 ∷ set_of 2 ∷ []; messages = 4; max_messages = 5 }

half_full-IsValid : IsValid half_full
half_full-IsValid = record { counted = refl; small = omega arith; limit = omega arith }

-- The third set pushes the first one out.
enqueue_third :
    enqueue half_full (set_of 3)
    ≡ (record { list = set_of 2 ∷ set_of 3 ∷ []; messages = 5; max_messages = 5 }, 2)
unfolding enqueue dispose
enqueue_third = refl

-- A set larger than the queue empties it.
enqueue_large : (enqueue half_full (set_of 9)).1 ≡ 4
unfolding enqueue dispose
enqueue_large = refl

enqueue_bound_example :
    (len (enqueue half_full (set_of 3)).0 ≤ 5)
    ⊎ ((enqueue half_full (set_of 3)).0.list ≡ set_of 3 ∷ [])
enqueue_bound_example = enqueue_bound half_full (set_of 3) half_full-IsValid (omega arith)

abbrev history : List Call
history = enqueues (set_of 3) ∷ dequeues ∷ enqueues (set_of 4) ∷ dequeues ∷ []

run_accounts_example :
    let (last, disposed, out) = run half_full history in
    IsValid last × (total last.list + disposed + total out ≡ 11)
run_accounts_example = run_accounts history half_full half_full-IsValid (omega arith)

run_order_example :
    let (last, disposed, out) = run half_full history in
    Sublist (out ++ last.list) (half_full.list ++ incoming history)
run_order_example = run_order history half_full half_full-IsValid (omega arith)
