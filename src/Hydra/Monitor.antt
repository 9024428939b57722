-- ===== src/Hydra/Monitor.antt =====
-- hydra/monitor.go: the statistics that the monitor keeps, and how each one that is sent to it
-- changes them. A map is an association list; `none` is an index out of range, which panics.
pub mod Totals
pub mod Receiver
pub mod Events
pub mod Serving
use fluent_agent_hydra.Prelude.{
  ℕ, Option, none, some, List, [], ◌∷◌, ◌≡◌, Bool, Bytes, ltb, if◌then◌else◌, length, set, add64,
  lt64,
}
use fluent_agent_hydra.Prelude.Dict
use fluent_agent_hydra.Hydra.Tail.{FileStat}
use fluent_agent_hydra.Hydra.OutForward.{SentStat}

pub record ServerStat : Type 0 where
  pub index : ℕ
  pub address : Bytes
  pub alive : Bool
  pub error : Bytes

-- The counters are int64 words.
pub record ReceiverStat : Type 0 where
  pub address : Bytes
  pub connections : ℕ
  pub total_connections : ℕ
  pub current_connections : ℕ
  pub messages : ℕ
  pub disposed : ℕ
  pub buffered : ℕ
  pub max_buffer_messages : ℕ

pub record Stats : Type 0 where
  pub sent : List (Bytes × SentStat)
  pub files : List (Bytes × FileStat)
  pub servers : List (Option ServerStat)
  pub receiver : Option ReceiverStat

-- The four types that implement `Stat`.
pub data Stat : Type 0 where
  of_file : FileStat → Stat
  of_server : ServerStat → Stat
  of_sent : SentStat → Stat
  of_receiver : ReceiverStat → Stat

-- The counters of `old` with those of `s` added.
unfoldable pub add_sent : SentStat → SentStat → SentStat
add_sent old s = record old {
  messages = add64 old.messages s.messages;
  bytes = add64 old.bytes s.bytes;
  sents = add64 old.sents s.sents;
}

unfoldable pub add_receiver : ReceiverStat → ReceiverStat → ReceiverStat
add_receiver rs s = record rs {
  address = elim s.address [ [] ↦ rs.address | b ∷ a ↦ s.address ];
  total_connections =
      if lt64 0 s.connections
      then add64 rs.total_connections s.connections
      else rs.total_connections;
  current_connections = add64 rs.current_connections s.connections;
  messages = add64 rs.messages s.messages;
  disposed = add64 rs.disposed s.disposed;
  buffered = s.buffered;
}

-- The map of the tags afterwards.
unfoldable pub apply_sent : SentStat → List (Bytes × SentStat) → List (Bytes × SentStat)
unfolding add_sent
apply_sent s m = elim (Dict.lookup s.tag m) [
  | none ↦ Dict.insert s.tag s m
  | some old ↦ Dict.insert s.tag (add_sent old s) m
]

-- `ApplyTo` of the four types. The map of the files holds the pointer that the tailing goroutine
-- sent and goes on changing (Hydra/Monitor/Events has that as events); what it points to when the
-- statistic is applied is the argument. `ReceiverStat` takes no lock.
unfoldable pub apply_to : Stat → Stats → Option Stats
unfolding apply_sent add_receiver
apply_to (of_file s) ss = some (record ss { files = Dict.insert s.file s ss.files })
apply_to (of_server s) ss =
    if ltb s.index (length ss.servers)
    then some (record ss { servers = set ss.servers s.index (some s) })
    else none
apply_to (of_sent s) ss = some (record ss { sent = apply_sent s ss.sent })
apply_to (of_receiver s) ss = elim ss.receiver [
  | none ↦ some (record ss { receiver = some s })
  | some rs ↦ some (record ss { receiver = some (add_receiver rs s) })
]

-- `Stats.Run` on the statistics that come in.
unfoldable pub run : List Stat → Stats → Option Stats
run [] ss = some ss
run (s ∷ stats) ss = elim (apply_to s ss) [ none ↦ none | some ss' ↦ run stats ss' ]
