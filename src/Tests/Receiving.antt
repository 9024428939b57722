-- ===== src/Tests/Receiving.antt =====
-- hydra/in_forward.go and cmd/fluent-http-tailf/main.go on one connection.
use fluent_agent_hydra.Prelude.{
  ◌%◌, u64_mod, ℕ, ◌+◌, ◌≡◌, refl, some, none, List, [], ◌∷◌, replicate, codes, bytes_eq, arith,
}
use fluent_agent_hydra.Fluent.Record.{FluentRecordSet, FluentRecordType, tiny}
use fluent_agent_hydra.Fluent.Value.{no_fields}
use fluent_agent_hydra.Fluent.Decode.{err, end_of_file, ok}
use fluent_agent_hydra.Hydra.Queue.{new_message_queue, enqueue, dispose, dequeue, dequeue_front}
use fluent_agent_hydra.Hydra.Queue.Evict.{total}
use fluent_agent_hydra.Hydra.Config.{ConfigReceiver}
use fluent_agent_hydra.Hydra.Monitor.{Stats, run}
use fluent_agent_hydra.Hydra.Monitor.Receiver.{shown}
use fluent_agent_hydra.Hydra.InForward.{
  InForward, accepts, feeds, handles, connected, control_closed, arrives, new_in_forward, start,
  accept, feed, handle, handle_conn, leave, step, tell,
}
use fluent_agent_hydra.Prelude.Sums.{sum}
use fluent_agent_hydra.Hydra.InForward.Accounts.{pending_messages, open_connections}
use fluent_agent_hydra.Hydra.Monitor.Totals.{InRange}
use fluent_agent_hydra.Prelude.{length}
use fluent_agent_hydra.Prelude.Dict
use fluent_agent_hydra.Hydra.InForward.Steps.{Reaches, begin, goes_on}
use fluent_agent_hydra.Hydra.InForward.Monitoring.{monitor-receiver}
use fluent_agent_hydra.HttpTailf.{Tailf, trim_right, has_prefix, match_tag, get_channel}
use fluent_agent_hydra.HttpTailf.History
use fluent_agent_hydra.HttpTailf.History.{
  Event, connects, brings, takes, leaves, Gotten, run-Gotten,
}

abbrev line : FluentRecordType
line = tiny (record { timestamp = record { sec = 0; nsec = 0 }; fields = no_fields })

abbrev set_of : ℕ → FluentRecordSet
set_of n = record { tag = codes "app.web"; records = replicate n line }

abbrev config : ConfigReceiver
config = record { host = codes "h"; port = 1; max_buffer_messages = 4 }

abbrev first : InForward
first = start (new_in_forward (codes "h:1") config)

-- A connection brings two messages, one record more than the queue has room for; `feed` takes
-- the second set.
abbrev one : InForward
one = step (accepts connected) first

abbrev two : InForward
two = step (handles 0 (arrives (ok (set_of 3 ∷ [])))) one

abbrev three : InForward
three = step (handles 0 control_closed) two

abbrev four : InForward
four = step (handles 0 control_closed) three

abbrev five : InForward
five = step (handles 0 (arrives (ok (set_of 2 ∷ [])))) four

abbrev six : InForward
six = step (handles 0 control_closed) five

abbrev seven : InForward
seven = step feeds six

abbrev arrived : List FluentRecordSet
arrived = set_of 3 ∷ set_of 2 ∷ []

four_Reached : Reaches first (set_of 3 ∷ []) four
unfolding start new_in_forward step accept feed handle handle_conn leave tell enqueue dispose
    dequeue dequeue_front new_message_queue
four_Reached =
    goes_on
      (goes_on
        (goes_on (goes_on begin (accepts connected)) (handles 0 (arrives (ok (set_of 3 ∷ [])))))
        (handles 0 control_closed))
      (handles 0 control_closed)

seven_Reached : Reaches first arrived seven
unfolding start new_in_forward step accept feed handle handle_conn leave tell enqueue dispose
    dequeue dequeue_front new_message_queue
seven_Reached =
    goes_on
      (goes_on (goes_on four_Reached (handles 0 (arrives (ok (set_of 2 ∷ [])))))
        (handles 0 control_closed))
      feeds

abbrev idle : Stats
idle = record { sent = []; files = []; servers = []; receiver = none }

seven_InRange : InRange (length idle.servers) seven.monitor_ch
unfolding start new_in_forward step accept feed handle handle_conn leave tell enqueue dispose
    dequeue dequeue_front new_message_queue
seven_InRange = tt

monitor-receiver_example :
    (ss : Stats) × (run seven.monitor_ch idle ≡ some ss)
    × (shown (λ s. s.messages) ss.receiver + sum pending_messages seven.handlers ≡ total arrived)
    × (shown (λ s. s.current_connections) ss.receiver
        ≡ sum open_connections seven.handlers % u64_mod)
monitor-receiver_example =
    let (ss, e, c, _, n) =
      monitor-receiver (codes "h:1") config arrived seven seven.monitor_ch idle (omega arith)
        seven_Reached (omega arith) refl seven_InRange refl in
    (ss, e, c, n)

-- Two clients, one of which asks for the tag of the sets.
abbrev two_clients : Tailf
two_clients = record {
  message_ch = (codes "app.*", (1, []) ∷ []) ∷ (codes "db.*", (2, []) ∷ []) ∷ [];
  connection_id = 2;
  counter = 0;
  dump_ch = none;
}

abbrev comings : List Event
comings =
    connects (codes "db.*")
    ∷ brings (ok (set_of 2 ∷ []) ∷ err end_of_file ∷ [])
    ∷ takes (codes "app.*") 1
    ∷ leaves (codes "db.*") 2
    ∷ []

run-Gotten_example :
    Gotten (codes "app.*") 1 (set_of 2 ∷ []) (History.run (codes "app.*") 1 comings two_clients)
unfolding bytes_eq get_channel match_tag trim_right has_prefix Dict.lookup
run-Gotten_example =
    run-Gotten (codes "app.*") 1 comings two_clients [] (refl, omega arith, omega arith) (refl, tt)
      (omega arith)
