-- ===== src/Hydra/Queue/History.antt =====
-- hydra/buffer.go: a history of calls of the queue, and what comes out of it.
use fluent_agent_hydra.Prelude.{
  ℕ, zero, suc, ◌+◌, ◌<◌, ◌≡◌, ap, Option, none, some, List, [], ◌∷◌, ◌++◌, append-nil,
  append_assoc, arith, drop, i64_limit,
}
use mathlib.Core.List.Sublist
use mathlib.Core.List.{Sublist}
use fluent_agent_hydra.Fluent.Record.{FluentRecordSet}
use fluent_agent_hydra.Hydra.Queue.{MessageQueue, enqueue, dequeue}
use fluent_agent_hydra.Hydra.Queue.Evict.{total}
use fluent_agent_hydra.Hydra.Queue.Invariant.{
  IsValid, Taken, enqueue-IsValid, enqueue_conserves, enqueue_lem, dequeue-IsValid, dequeue_lem,
}

pub data Call : Type 0 where
  enqueues : FluentRecordSet → Call
  dequeues : Call

abbrev pub incoming : List Call → List FluentRecordSet
incoming [] = []
incoming (enqueues rs ∷ calls) = rs ∷ incoming calls
incoming (dequeues ∷ calls) = incoming calls

abbrev pub delivered : Option FluentRecordSet → List FluentRecordSet → List FluentRecordSet
delivered none out = out
delivered (some rs) out = rs ∷ out

-- The queue after the calls, the sum of what `Enqueue` returned, and what `Dequeue` returned.
unfoldable pub run : MessageQueue → List Call → MessageQueue × ℕ × List FluentRecordSet
run q [] = (q, 0, [])
run q (enqueues rs ∷ calls) =
    let (q', disposed) = enqueue q rs in
    let (last, more, out) = run q' calls in (last, disposed + more, out)
run q (dequeues ∷ calls) =
    let (q', taken) = dequeue q in
    let (last, disposed, out) = run q' calls in (last, disposed, delivered taken out)

Taken-total :
    (q q' : MessageQueue) (taken : Option FluentRecordSet) (out : List FluentRecordSet)
    → Taken q q' taken
    → total q'.list + total (delivered taken out) ≡ total q.list + total out
Taken-total q q' none out (a, b) = omega (arith, ap total a, ap total b)
Taken-total q q' (some rs) out a = omega (arith, ap total a)

-- From a valid queue, with fewer than 2 ^ 63 records in all, no call loses or makes up records:
-- the queue stays valid, and the records that are queued at the end, those counted as disposed
-- and those delivered are together as many as were queued at the start or came in.
pub run_accounts :
    (calls : List Call) (q : MessageQueue)
    → IsValid q
    → total q.list + total (incoming calls) < i64_limit
    → let (last, disposed, out) = run q calls in
      IsValid last
      × (total last.list + disposed + total out ≡ total q.list + total (incoming calls))
unfolding run
run_accounts [] q v fits = (v, omega arith)
run_accounts (enqueues rs ∷ calls) q v fits =
    let q' = (enqueue q rs).0 in
    let kept = enqueue_conserves q rs v (omega arith) in
    let (w, sum) = run_accounts calls q' (enqueue-IsValid q rs v (omega arith)) (omega arith) in
    (w, omega arith)
run_accounts (dequeues ∷ calls) q v fits =
    let q' = (dequeue q).0 in
    let none_lost = Taken-total q q' (dequeue q).1 [] (dequeue_lem q).0 in
    let (w, sum) = run_accounts calls q' (dequeue-IsValid q v) (omega arith) in
    let out = Taken-total q q' (dequeue q).1 (run q' calls).2 (dequeue_lem q).0 in (w, omega arith)

pub drop-sublist {ℓ} : {A : Type ℓ} (k : ℕ) (l : List A) → Sublist (drop k l) l
drop-sublist zero l = Sublist.refl l
drop-sublist (suc k) [] = Sublist.refl []
drop-sublist (suc k) (x ∷ l) = Sublist.cons x (drop-sublist k l)

Taken-sublist :
    (q q' : MessageQueue) (taken : Option FluentRecordSet) (out rest last : List FluentRecordSet)
    → Taken q q' taken
    → Sublist (out ++ last) (q'.list ++ rest)
    → Sublist (delivered taken out ++ last) (q.list ++ rest)
Taken-sublist q q' none out rest last (a, b) s = rw a (rw b at s)
Taken-sublist q q' (some rs) out rest last a s = rw a (Sublist.cons-cons rs s)

-- From a valid queue, with fewer than 2 ^ 63 records in all: what was delivered, and behind it
-- what is still queued, is a sublist of what was queued at the start and came in, so that record
-- sets come out in the order in which they went in, each at most once.
pub run_order :
    (calls : List Call) (q : MessageQueue)
    → IsValid q
    → total q.list + total (incoming calls) < i64_limit
    → let (last, disposed, out) = run q calls in
      Sublist (out ++ last.list) (q.list ++ incoming calls)
unfolding run
run_order [] q v fits = rw append-nil (Sublist.refl q.list)
run_order (enqueues rs ∷ calls) q v fits =
    let q' = (enqueue q rs).0 in
    let kept = enqueue_conserves q rs v (omega arith) in
    let ih = run_order calls q' (enqueue-IsValid q rs v (omega arith)) (omega arith) in
    let (k, e, _, _, _) = enqueue_lem q rs v (omega arith) in
    Sublist.trans ih (
      rw (e, append_assoc (drop k q.list) (rs ∷ []) (incoming calls))
        (Sublist.append (drop-sublist k q.list) (Sublist.refl (rs ∷ incoming calls))))
run_order (dequeues ∷ calls) q v fits =
    let q' = (dequeue q).0 in
    let none_lost = Taken-total q q' (dequeue q).1 [] (dequeue_lem q).0 in
    let ih = run_order calls q' (dequeue-IsValid q v) (omega arith) in
    Taken-sublist q q' (dequeue q).1 (run q' calls).2 (incoming calls) (run q' calls).0.list
      (dequeue_lem q).0 ih
