-- ===== src/Hydra/InForward.antt =====
-- hydra/in_forward.go: the receiver, whose goroutines share a message queue: `Run` accepts
-- connections, a `handleConn` for each of them decodes and enqueues, and `feed` moves record sets
-- on to the message channel. What a goroutine does between two calls that others can see is one
-- step; a channel is the list of all that was sent to it so far.
pub mod Accounts
pub mod Handlers
pub mod Feeding
pub mod Steps
pub mod Monitoring
use fluent_agent_hydra.Prelude.{
  ℕ, ◌+◌, ◌-◌, Bool, true, false, Option, none, some, List, [], ◌∷◌, ◌++◌, Bytes, length, get_elem?,
  set, add64, u64_mod, if◌then◌else◌,
}
use fluent_agent_hydra.Fluent.Record.{FluentRecordSet, record_count}
use fluent_agent_hydra.Fluent.Decode.{Result, ok}
use fluent_agent_hydra.Hydra.Queue.{MessageQueue, new_message_queue, enqueue, dequeue, len}
use fluent_agent_hydra.Hydra.Monitor.{ReceiverStat, Stat, of_receiver}
use fluent_agent_hydra.Hydra.Config.{ConfigReceiver}

-- Where a `handleConn` is: before `DecodeEntries`; in the loop, with the sets that are left, `m`
-- and `d`; or returned.
pub data Handler : Type 0 where
  reading : Handler
  enqueuing : List FluentRecordSet → ℕ → ℕ → Handler
  returned : Handler

-- Where `feed` is: before `Dequeue`; before the send of what it got; or in its pause.
pub data Feeder : Type 0 where
  looking : Feeder
  holding : FluentRecordSet → Feeder
  pausing : Feeder

-- `accepting` says that the loop of `Run` goes on.
pub record InForward : Type 0 where
  pub addr : Bytes
  pub message_queue : MessageQueue
  pub accepting : Bool
  pub feeder : Feeder
  pub handlers : List Handler
  pub message_ch : List FluentRecordSet
  pub monitor_ch : List Stat

abbrev pub no_receiver_stat : ReceiverStat
no_receiver_stat = record {
  address = [];
  connections = 0;
  total_connections = 0;
  current_connections = 0;
  messages = 0;
  disposed = 0;
  buffered = 0;
  max_buffer_messages = 0;
}

-- `f.monitorCh <- stat`
unfoldable pub tell : ReceiverStat → InForward → InForward
tell stat f = record f { monitor_ch = f.monitor_ch ++ (of_receiver stat ∷ []) }

-- What `NewInForward` returns once `net.Listen` has got the address `addr`.
unfoldable pub new_in_forward : Bytes → ConfigReceiver → InForward
new_in_forward addr config = record {
  addr = addr;
  message_queue = new_message_queue config.max_buffer_messages;
  accepting = true;
  feeder = looking;
  handlers = [];
  message_ch = [];
  monitor_ch = [];
}

-- `Run` before its loop.
unfoldable pub start : InForward → InForward
unfolding tell
start f =
    tell
      (record no_receiver_stat {
        address = f.addr;
        max_buffer_messages = f.message_queue.max_messages;
      })
      f

-- What `Accept` returns.
pub data Accepted : Type 0 where
  connected use_of_closed accept_error : Accepted

-- A round of the loop of `Run`.
unfoldable pub accept : Accepted → InForward → InForward
unfolding tell
accept connected f =
    tell (record no_receiver_stat { connections = 1 })
      (record f { handlers = f.handlers ++ (reading ∷ []) })
accept use_of_closed f = record f { accepting = false }
accept accept_error f = f

unfoldable pub feed : Feeder → InForward → InForward
unfolding tell
feed looking f =
    let (q, out) = dequeue f.message_queue in
    record f { message_queue = q; feeder = elim out [ none ↦ pausing | some rs ↦ holding rs ] }
feed (holding rs) f = record f { message_ch = f.message_ch ++ (rs ∷ []); feeder = looking }
feed pausing f =
    tell (record no_receiver_stat { buffered = len f.message_queue })
      (record f { feeder = looking })

-- What `handleConn` finds at the head of its loop: a closed control channel, or the answer of
-- `DecodeEntries`.
pub data Incoming : Type 0 where
  control_closed : Incoming
  arrives : Result (List FluentRecordSet) → Incoming

-- The deferred send of `Connections: -1`.
unfoldable pub leave : InForward → InForward × Handler
unfolding tell
leave f = (tell (record no_receiver_stat { connections = u64_mod - 1 }) f, returned)

-- A step of `handleConn`, and where it is afterwards. A panic in `DecodeEntries` runs the
-- deferred send as well; that it then ends the whole program is left out here. The pointer that is enqueued is that of the loop's variable, which later
-- rounds overwrite; `DecodeEntries` never returns more than one set.
unfoldable pub handle_conn : Incoming → Handler → InForward → InForward × Handler
unfolding tell leave
handle_conn control_closed reading f = leave f
handle_conn (arrives (ok sets)) reading f = (f, enqueuing sets 0 0)
handle_conn (arrives _) reading f = leave f
handle_conn incoming (enqueuing (rs ∷ sets) m d) f =
    let (q, disposed) = enqueue f.message_queue rs in
    (record f { message_queue = q }, enqueuing sets (add64 m (record_count rs)) (add64 d disposed))
handle_conn incoming (enqueuing [] m d) f = (
  tell (record no_receiver_stat { messages = m; disposed = d; buffered = len f.message_queue }) f,
  reading,
)
handle_conn incoming returned f = (f, returned)

-- Which goroutine runs, and what it meets.
pub data Action : Type 0 where
  accepts : Accepted → Action
  feeds : Action
  handles : ℕ → Incoming → Action

-- The step of the connection's handler, which is number `i` if there is one.
unfoldable pub handle : ℕ → Incoming → Option Handler → InForward → InForward
unfolding handle_conn
handle i incoming none f = f
handle i incoming (some h) f =
    let (f', h') = handle_conn incoming h f in record f' { handlers = set f.handlers i h' }

unfoldable pub step : Action → InForward → InForward
unfolding accept feed handle
step (accepts a) f = if f.accepting then accept a f else f
step feeds f = feed f.feeder f
step (handles i incoming) f = handle i incoming (get_elem? f.handlers i) f
