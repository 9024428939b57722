-- ===== src/Hydra/InForward/Handlers.antt =====
-- hydra/in_forward.go: each step of a connection's handler keeps the accounts.
use fluent_agent_hydra.Prelude.{
  ◌%◌, u64_mod, ℕ, ◌+◌, ◌<◌, ◌≡◌, refl, sym, some, List, [], ◌∷◌, ◌++◌, append-nil, append_assoc,
  arith, get_elem?, set, i64_limit, add64, drop,
}
use mathlib.Core.List.Sublist
use mathlib.Core.List.{Sublist}
use fluent_agent_hydra.Fluent.Record.{FluentRecordSet, record_count}
use fluent_agent_hydra.Fluent.Decode.{panicked, stuck, err, ok}
use fluent_agent_hydra.Hydra.Queue.{enqueue}
use fluent_agent_hydra.Hydra.Queue.Evict.{total, total-append}
use fluent_agent_hydra.Hydra.Queue.Invariant.{enqueue-IsValid, enqueue_conserves, enqueue_lem}
use fluent_agent_hydra.Hydra.Queue.History.{drop-sublist}
use fluent_agent_hydra.Hydra.Monitor.{ReceiverStat, of_receiver}
use fluent_agent_hydra.Hydra.InForward.{
  InForward, Handler, reading, enqueuing, returned, Incoming, control_closed, arrives, tell, leave,
  handle_conn, handle,
}
use fluent_agent_hydra.Prelude.Sums.{sum, sum-append, sum-set, le-sum}
use fluent_agent_hydra.Hydra.InForward.Accounts.{
  field_of, pending_messages, pending_disposed, open_connections, StartsQuiet-append, held,
  Accounts,
}

pub told :
    (field : ReceiverStat → ℕ) (f : InForward) (stat : ReceiverStat)
    → sum (field_of field) (tell stat f).monitor_ch ≡ sum (field_of field) f.monitor_ch + field stat
unfolding tell
told field f stat = omega (arith, sum-append (field_of field) f.monitor_ch (of_receiver stat ∷ []))

-- A handler that tells what it had counted goes on with nothing pending.
told-Accounts :
    (arrived : List FluentRecordSet) (f : InForward) (i : ℕ) (h h' : Handler) (stat : ReceiverStat)
    → get_elem? f.handlers i ≡ some h
    → stat.messages + pending_messages h' ≡ pending_messages h
    → stat.disposed + pending_disposed h' ≡ pending_disposed h
    → (stat.connections + open_connections h) % u64_mod ≡ open_connections h' % u64_mod
    → Accounts arrived f
    → Accounts arrived (record (tell stat f) { handlers = set f.handlers i h' })
unfolding tell
told-Accounts arrived f i h h' stat at m d o v = record {
  valid = v.valid;
  counted = omega (
    arith,
    told (λ s. s.messages) f stat,
    sum-set pending_messages f.handlers i h h' at,
    v.counted,
    m,
  );
  shared = omega (
    arith,
    told (λ s. s.disposed) f stat,
    sum-set pending_disposed f.handlers i h h' at,
    v.shared,
    d,
  );
  linked = omega (
    arith,
    told (λ s. s.connections) f stat,
    sum-set open_connections f.handlers i h h' at,
    v.linked,
    o,
  );
  quiet = StartsQuiet-append f.monitor_ch stat v.quiet;
  order = v.order;
}

-- A handler that has as much pending as before.
moved-Accounts :
    (arrived : List FluentRecordSet) (f : InForward) (i : ℕ) (h h' : Handler)
    → get_elem? f.handlers i ≡ some h
    → pending_messages h' ≡ pending_messages h
    → pending_disposed h' ≡ pending_disposed h
    → open_connections h' ≡ open_connections h
    → Accounts arrived f
    → Accounts arrived (record f { handlers = set f.handlers i h' })
moved-Accounts arrived f i h h' at m d o v = record {
  valid = v.valid;
  counted = omega (arith, sum-set pending_messages f.handlers i h h' at, v.counted, m);
  shared = omega (arith, sum-set pending_disposed f.handlers i h h' at, v.shared, d);
  linked = omega (arith, sum-set open_connections f.handlers i h h' at, v.linked, o);
  quiet = v.quiet;
  order = v.order;
}

-- The sets that the step of a handler enqueues.
abbrev pub entered : Handler → List FluentRecordSet
entered reading = []
entered (enqueuing [] m d) = []
entered (enqueuing (rs ∷ sets) m d) = rs ∷ []
entered returned = []

-- A set that is enqueued behind what is kept of the queue.
order-enqueue :
    (arrived : List FluentRecordSet) (f : InForward) (rs : FluentRecordSet) (k : ℕ)
    → Sublist (f.message_ch ++ (held f.feeder ++ f.message_queue.list)) arrived
    → Sublist
        (f.message_ch ++ (held f.feeder ++ (drop k f.message_queue.list ++ (rs ∷ []))))
        (arrived ++ (rs ∷ []))
order-enqueue arrived f rs k h =
    let kept : Sublist (f.message_ch ++ (held f.feeder ++ drop k f.message_queue.list)) arrived =
      Sublist.trans
        (Sublist.append (Sublist.refl f.message_ch)
          (Sublist.append (Sublist.refl (held f.feeder)) (drop-sublist k f.message_queue.list)))
        h in
    rw
      (
        sym (append_assoc (held f.feeder) (drop k f.message_queue.list) (rs ∷ [])),
        sym (append_assoc f.message_ch (held f.feeder ++ drop k f.message_queue.list) (rs ∷ [])),
      )
      (Sublist.append kept (Sublist.refl (rs ∷ [])))

enqueued-Accounts :
    (arrived : List FluentRecordSet) (f : InForward) (i : ℕ) (rs : FluentRecordSet)
    (sets : List FluentRecordSet) (m d : ℕ)
    → get_elem? f.handlers i ≡ some (enqueuing (rs ∷ sets) m d)
    → total (arrived ++ (rs ∷ [])) < i64_limit
    → Accounts arrived f
    → let (q, disposed) = enqueue f.message_queue rs in
      Accounts (arrived ++ (rs ∷ [])) (record f {
        message_queue = q;
        handlers = set f.handlers i (enqueuing sets (add64 m (record_count rs)) (add64 d disposed));
      })
enqueued-Accounts arrived f i rs sets m d at fits v =
    let all = total-append arrived (rs ∷ []) in
    let room : total f.message_queue.list + record_count rs < i64_limit =
      omega (arith, all, v.shared) in
    let h = enqueuing (rs ∷ sets) m d in
    let h' = enqueuing sets (add64 m (record_count rs)) (add64 d (enqueue f.message_queue rs).1) in
    let conserved = enqueue_conserves f.message_queue rs v.valid room in
    let (k, e, _, _, _) = enqueue_lem f.message_queue rs v.valid room in
    record {
      valid = enqueue-IsValid f.message_queue rs v.valid room;
      counted = omega (
        arith,
        all,
        v.counted,
        sum-set pending_messages f.handlers i h h' at,
        le-sum pending_messages f.handlers i h at,
      );
      shared = omega (
        arith,
        all,
        v.shared,
        conserved,
        sum-set pending_disposed f.handlers i h h' at,
        le-sum pending_disposed f.handlers i h at,
      );
      linked = omega (arith, sum-set open_connections f.handlers i h h' at, v.linked);
      quiet = v.quiet;
      order = rw e (order-enqueue arrived f rs k v.order);
    }

pub handle-Accounts :
    (arrived : List FluentRecordSet) (f : InForward) (i : ℕ) (incoming : Incoming) (h : Handler)
    → get_elem? f.handlers i ≡ some h
    → total (arrived ++ entered h) < i64_limit
    → Accounts arrived f
    → Accounts (arrived ++ entered h) (handle i incoming (some h) f)
unfolding handle handle_conn leave
handle-Accounts arrived f i control_closed reading at fits v =
    rw append-nil (told-Accounts arrived f i reading returned _ at refl refl refl v)
handle-Accounts arrived f i (arrives (ok sets)) reading at fits v =
    rw append-nil (moved-Accounts arrived f i reading (enqueuing sets 0 0) at refl refl refl v)
handle-Accounts arrived f i (arrives panicked) reading at fits v =
    rw append-nil (told-Accounts arrived f i reading returned _ at refl refl refl v)
handle-Accounts arrived f i (arrives stuck) reading at fits v =
    rw append-nil (told-Accounts arrived f i reading returned _ at refl refl refl v)
handle-Accounts arrived f i (arrives (err e)) reading at fits v =
    rw append-nil (told-Accounts arrived f i reading returned _ at refl refl refl v)
handle-Accounts arrived f i incoming (enqueuing (rs ∷ sets) m d) at fits v =
    enqueued-Accounts arrived f i rs sets m d at fits v
handle-Accounts arrived f i incoming (enqueuing [] m d) at fits v = rw append-nil (
    told-Accounts arrived f i (enqueuing [] m d) reading _ at (omega arith) (omega arith)
      (omega arith) v)
handle-Accounts arrived f i incoming returned at fits v =
    rw append-nil (moved-Accounts arrived f i returned returned at refl refl refl v)
