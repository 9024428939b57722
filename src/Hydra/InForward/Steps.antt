-- ===== src/Hydra/InForward/Steps.antt =====
-- hydra/in_forward.go: each step of the receiver keeps its accounts.
use fluent_agent_hydra.Prelude.{
  ℕ, ◌<◌, ◌≡◌, refl, Bool, true, false, Option, none, some, List, [], ◌++◌, append-nil, Bytes,
  if◌then◌else◌, arith, get_elem?, i64_limit,
}
use mathlib.Core.List.Sublist
use fluent_agent_hydra.Fluent.Record.{FluentRecordSet}
use fluent_agent_hydra.Hydra.Queue.{new_message_queue}
use fluent_agent_hydra.Hydra.Queue.Evict.{total, total-append}
use fluent_agent_hydra.Hydra.Queue.Invariant.{new_message_queue-IsValid}
use fluent_agent_hydra.Hydra.InForward.{
  InForward, Handler, Accepted, Incoming, Action, accepts, feeds, handles, tell, accept, handle,
  step, start, new_in_forward,
}
use fluent_agent_hydra.Hydra.Config.{ConfigReceiver}
use fluent_agent_hydra.Hydra.InForward.Accounts.{Accounts}
use fluent_agent_hydra.Hydra.InForward.Handlers.{entered, handle-Accounts}
use fluent_agent_hydra.Hydra.InForward.Feeding.{feed-Accounts, accept-Accounts}

abbrev pub entered_by : Option Handler → List FluentRecordSet
entered_by none = []
entered_by (some h) = entered h

-- The record sets that a step enqueues.
abbrev pub entering : Action → InForward → List FluentRecordSet
entering (accepts a) f = []
entering feeds f = []
entering (handles i incoming) f = entered_by (get_elem? f.handlers i)

if-Accounts :
    (arrived : List FluentRecordSet) (f : InForward) (accepting : Bool) (a : Accepted)
    → Accounts arrived f
    → Accounts arrived (if accepting then accept a f else f)
if-Accounts arrived f true a v = accept-Accounts arrived f a v
if-Accounts arrived f false a v = v

found-Accounts :
    (arrived : List FluentRecordSet) (f : InForward) (i : ℕ) (incoming : Incoming)
    (found : Option Handler)
    → get_elem? f.handlers i ≡ found
    → total (arrived ++ entered_by found) < i64_limit
    → Accounts arrived f
    → Accounts (arrived ++ entered_by found) (handle i incoming found f)
found-Accounts arrived f i incoming none at fits v = unfold handle in rw (append-nil arrived) v
found-Accounts arrived f i incoming (some h) at fits v =
    handle-Accounts arrived f i incoming h at fits v

step-Accounts :
    (arrived : List FluentRecordSet) (f : InForward) (a : Action)
    → total (arrived ++ entering a f) < i64_limit
    → Accounts arrived f
    → Accounts (arrived ++ entering a f) (step a f)
unfolding step
step-Accounts arrived f (accepts a) fits v =
    rw (append-nil arrived) (if-Accounts arrived f f.accepting a v)
step-Accounts arrived f feeds fits v =
    rw (append-nil arrived) (feed-Accounts arrived f f.feeder refl v)
step-Accounts arrived f (handles i incoming) fits v =
    found-Accounts arrived f i incoming (get_elem? f.handlers i) refl fits v

-- The states that the goroutines reach from `first`, in any order of their steps, with the record
-- sets that they enqueued on the way.
pub data Reaches (first : InForward) : List FluentRecordSet → InForward → Type 0 where
  begin : Reaches first [] first
  goes_on :
      {arrived : List FluentRecordSet} {f : InForward}
      → Reaches first arrived f
      → (a : Action) → Reaches first (arrived ++ entering a f) (step a f)

Reaches-Accounts :
    {first : InForward} {arrived : List FluentRecordSet} {f : InForward}
    → Accounts [] first
    → Reaches first arrived f
    → total arrived < i64_limit
    → Accounts arrived f
Reaches-Accounts v begin fits = v
Reaches-Accounts v (goes_on {arrived = arrived} {f = f} r a) fits =
    let earlier : total arrived < i64_limit = omega (arith, total-append arrived (entering a f)) in
    step-Accounts arrived f a fits (Reaches-Accounts v r earlier)

start-Accounts :
    (addr : Bytes) (config : ConfigReceiver)
    → config.max_buffer_messages < i64_limit
    → Accounts [] (start (new_in_forward addr config))
unfolding start tell new_in_forward new_message_queue
start-Accounts addr config lt = record {
  valid = new_message_queue-IsValid config.max_buffer_messages lt;
  counted = refl;
  shared = refl;
  linked = refl;
  quiet = (refl, refl);
  order = Sublist.refl [];
}

-- Whatever the order in which the goroutines of a new receiver run, as long as its limit and the
-- number of records that are enqueued are below 2 ^ 63: the queue stays valid; the enqueued
-- records are those told to the monitor as messages or still to be told; each of them was sent to
-- the message channel, is held by `feed`, is queued, or is told (or still to be told) as
-- disposed; what is told of connections adds up, in int64, to the handlers that have not
-- returned; and the sets that are sent, held and queued are in the order in which they were
-- enqueued, none of them twice.
pub run-Accounts :
    (addr : Bytes) (config : ConfigReceiver) (arrived : List FluentRecordSet) (f : InForward)
    → config.max_buffer_messages < i64_limit
    → Reaches (start (new_in_forward addr config)) arrived f
    → total arrived < i64_limit
    → Accounts arrived f
run-Accounts addr config arrived f lt r fits =
    Reaches-Accounts (start-Accounts addr config lt) r fits
