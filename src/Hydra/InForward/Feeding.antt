-- ===== src/Hydra/InForward/Feeding.antt =====
-- hydra/in_forward.go: the steps of `feed` and of `Run` keep the accounts.
use fluent_agent_hydra.Prelude.{
  ◌+◌, ◌≡◌, refl, sym, ap, subst, ◌∙◌, Option, none, some, List, [], ◌∷◌, ◌++◌, append_assoc, arith,
}
use mathlib.Core.List.{Sublist}
use fluent_agent_hydra.Fluent.Record.{FluentRecordSet, record_count}
use fluent_agent_hydra.Hydra.Queue.{MessageQueue, dequeue}
use fluent_agent_hydra.Hydra.Queue.Evict.{total, total-append}
use fluent_agent_hydra.Hydra.Queue.Invariant.{IsValid, Taken, dequeue-IsValid, dequeue_lem}
use fluent_agent_hydra.Hydra.Monitor.{ReceiverStat}
use fluent_agent_hydra.Hydra.InForward.{
  no_receiver_stat, InForward, reading, Feeder, looking, holding, pausing, Accepted, connected,
  use_of_closed, accept_error, tell, accept, feed,
}
use fluent_agent_hydra.Prelude.Sums.{sum-append}
use fluent_agent_hydra.Hydra.InForward.Accounts.{
  StartsQuiet-append, open_connections, pending_messages, pending_disposed, held, Accounts,
}
use fluent_agent_hydra.Hydra.InForward.Handlers.{told}

-- A statistic that counts no records.
news-Accounts :
    (arrived : List FluentRecordSet) (f : InForward) (stat : ReceiverStat)
    → stat.messages ≡ 0
    → stat.disposed ≡ 0
    → stat.connections ≡ 0
    → Accounts arrived f
    → Accounts arrived (tell stat f)
unfolding tell
news-Accounts arrived f stat m d o v = record {
  valid = v.valid;
  counted = omega (arith, told (λ s. s.messages) f stat, v.counted, m);
  shared = omega (arith, told (λ s. s.disposed) f stat, v.shared, d);
  linked = omega (arith, told (λ s. s.connections) f stat, v.linked, o);
  quiet = StartsQuiet-append f.monitor_ch stat v.quiet;
  order = v.order;
}

-- What `Dequeue` takes goes from the queue to the hands of `feed`.
looking-Accounts :
    (arrived : List FluentRecordSet) (f : InForward) (q : MessageQueue)
    (out : Option FluentRecordSet)
    → f.feeder ≡ looking
    → IsValid q
    → Taken f.message_queue q out
    → Accounts arrived f
    → Accounts arrived (record f {
      message_queue = q;
      feeder = elim out [ none ↦ pausing | some rs ↦ holding rs ];
    })
looking-Accounts arrived f q none at valid (e, e') v =
    let free : held f.feeder ≡ [] = ap held at in
    let now : total q.list ≡ 0 = ap total e' in
    let before : total f.message_queue.list ≡ 0 = ap total e in
    record {
      valid = valid;
      counted = v.counted;
      linked = v.linked;
      quiet = v.quiet;
      shared = omega (arith, v.shared, now, before, ap total free);
      order = rw e' (rw (free, e) at v.order);
    }
looking-Accounts arrived f q (some rs) at valid e v =
    let free : held f.feeder ≡ [] = ap held at in
    let before : total f.message_queue.list ≡ record_count rs + total q.list = ap total e in
    record {
      valid = valid;
      counted = v.counted;
      linked = v.linked;
      quiet = v.quiet;
      shared = omega (arith, v.shared, before, ap total free);
      order = rw (free, e) at v.order;
    }

pub feed-Accounts :
    (arrived : List FluentRecordSet) (f : InForward) (feeder : Feeder)
    → f.feeder ≡ feeder
    → Accounts arrived f
    → Accounts arrived (feed feeder f)
unfolding feed
feed-Accounts arrived f looking at v =
    looking-Accounts arrived f (dequeue f.message_queue).0 (dequeue f.message_queue).1 at
      (dequeue-IsValid f.message_queue v.valid) (dequeue_lem f.message_queue).0 v
feed-Accounts arrived f (holding rs) at v =
    let full : held f.feeder ≡ rs ∷ [] = ap held at in
    record {
      valid = v.valid;
      counted = v.counted;
      linked = v.linked;
      quiet = v.quiet;
      shared = omega (arith, v.shared, ap total full, total-append f.message_ch (rs ∷ []));
      order =
          subst (λ l. Sublist l arrived)
            (ap (λ l. f.message_ch ++ (l ++ f.message_queue.list)) full
              ∙ sym (append_assoc f.message_ch (rs ∷ []) f.message_queue.list))
            v.order;
    }
feed-Accounts arrived f pausing at v =
    let free : held f.feeder ≡ [] = ap held at in
    let awake : Accounts arrived (record f { feeder = looking }) = record {
      valid = v.valid;
      counted = v.counted;
      linked = v.linked;
      quiet = v.quiet;
      shared = omega (arith, v.shared, ap total free);
      order = rw free at v.order;
    } in
    news-Accounts arrived (record f { feeder = looking }) _ refl refl refl awake

pub accept-Accounts :
    (arrived : List FluentRecordSet) (f : InForward) (a : Accepted)
    → Accounts arrived f
    → Accounts arrived (accept a f)
unfolding accept tell
accept-Accounts arrived f connected v =
    let stat : ReceiverStat = record no_receiver_stat { connections = 1 } in
    let f' : InForward = record f { handlers = f.handlers ++ (reading ∷ []) } in
    record {
      valid = v.valid;
      counted = omega (
        arith,
        v.counted,
        told (λ s. s.messages) f' stat,
        sum-append pending_messages f.handlers (reading ∷ []),
      );
      shared = omega (
        arith,
        v.shared,
        told (λ s. s.disposed) f' stat,
        sum-append pending_disposed f.handlers (reading ∷ []),
      );
      linked = omega (
        arith,
        v.linked,
        told (λ s. s.connections) f' stat,
        sum-append open_connections f.handlers (reading ∷ []),
      );
      quiet = StartsQuiet-append f.monitor_ch stat v.quiet;
      order = v.order;
    }
accept-Accounts arrived f use_of_closed v = record {
  valid = v.valid;
  counted = v.counted;
  linked = v.linked;
  quiet = v.quiet;
  shared = v.shared;
  order = v.order;
}
accept-Accounts arrived f accept_error v = v
