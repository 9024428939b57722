-- ===== src/Hydra/Queue.antt =====
-- hydra/buffer.go: the bounded message queue of the receiver.
-- `list.List` is a list, front first. The lock is left out: a call is one step.
pub mod Evict
pub mod Invariant
pub mod History
use fluent_agent_hydra.Prelude.{
  ℕ, Option, none, some, List, [], ◌∷◌, ◌++◌, if◌then◌else◌, add64, sub64, lt64,
}
use fluent_agent_hydra.Fluent.Record.{FluentRecordSet, record_count}

-- Counters are int64 words.
pub record MessageQueue : Type 0 where
  pub list : List FluentRecordSet
  pub messages : ℕ
  pub max_messages : ℕ

unfoldable pub new_message_queue : ℕ → MessageQueue
new_message_queue max_messages = record { list = []; messages = 0; max_messages = max_messages }

-- The loop of `Enqueue` over what is left of the list: the list, `q.messages` and `disposed`.
unfoldable pub dispose : ℕ → ℕ → List FluentRecordSet → ℕ → ℕ → List FluentRecordSet × ℕ × ℕ
dispose max_messages added [] messages disposed = ([], messages, disposed)
dispose max_messages added (rs ∷ list) messages disposed =
    let n = record_count rs in
    let rest = dispose max_messages added list (sub64 messages n) (add64 disposed n) in
    if lt64 max_messages (add64 messages added) then rest else (rs ∷ list, messages, disposed)

-- The queue afterwards, and the number of records thrown away.
unfoldable pub enqueue : MessageQueue → FluentRecordSet → MessageQueue × ℕ
enqueue q rs =
    let added = record_count rs in
    let (list, messages, disposed) = dispose q.max_messages added q.list q.messages 0 in
    (record q { list = list ++ (rs ∷ []); messages = add64 messages added }, disposed)

unfoldable pub dequeue_front :
    MessageQueue → List FluentRecordSet → MessageQueue × Option FluentRecordSet
dequeue_front q [] = (record q { messages = 0 }, none)
dequeue_front q (rs ∷ list) =
    (record q { list = list; messages = sub64 q.messages (record_count rs) }, some rs)

unfoldable pub dequeue : MessageQueue → MessageQueue × Option FluentRecordSet
unfolding dequeue_front
dequeue q = dequeue_front q q.list

pub len : MessageQueue → ℕ
len q = q.messages
