-- ===== src/HttpTailf.antt =====
-- cmd/fluent-http-tailf/main.go: record sets that come in are handed to the HTTP clients which
-- asked for their tags, and to the dump file. A channel is the list of what is buffered in it; a
-- send that finds it full drops the set. A call under the mutex, and a round over the channels,
-- is one step.
pub mod Clients
pub mod Members
pub mod History
pub mod Output
pub mod Handler
pub mod Reporter
use fluent_agent_hydra.Prelude.{
  ℕ, ◌+◌, Bool, true, false, ◌||◌, Option, none, some, List, [], ◌∷◌, ◌++◌, Bytes, ltb, ◌==◌,
  if◌then◌else◌, length, add64,
}
use fluent_agent_hydra.Prelude.Dict
use fluent_agent_hydra.Fluent.Value.{Time, Fields}
use fluent_agent_hydra.Fluent.Record.{FluentRecordType, tiny, FluentRecordSet, record_count}
use fluent_agent_hydra.Fluent.Decode.{Result, ok}

abbrev pub message_buffer_len : ℕ
message_buffer_len = 100

abbrev pub Channel : Type 0
Channel = List FluentRecordSet

-- `MessageCh`, `ConnectionId`, `Counter` and `DumpCh`; the counters are int64 words.
pub record Tailf : Type 0 where
  pub message_ch : List (Bytes × List (ℕ × Channel))
  pub connection_id : ℕ
  pub counter : ℕ
  pub dump_ch : Option Channel

-- `main`: sets are dumped if there is a directory for them.
abbrev pub new_tailf : Bytes → Tailf
new_tailf dir = record {
  message_ch = [];
  connection_id = 0;
  counter = 0;
  dump_ch = elim dir [ [] ↦ none | c ∷ path ↦ some [] ];
}

-- `strings.TrimRight(s, ".*")`
unfoldable pub trim_right : Bytes → Bytes
trim_right [] = []
trim_right (c ∷ s) = elim (trim_right s) as (λ _. Bytes) [
  | [] ↦ if c == b'.' || c == b'*' then [] else c ∷ []
  | d ∷ t ↦ c ∷ d ∷ t
]

-- `strings.HasPrefix(s, prefix)`
unfoldable pub has_prefix : Bytes → Bytes → Bool
has_prefix s [] = true
has_prefix [] (p ∷ prefix) = false
has_prefix (c ∷ s) (p ∷ prefix) = let rest = has_prefix s prefix in if c == p then rest else false

unfoldable pub match_tag : Bytes → Bytes → Bool
unfolding trim_right has_prefix
match_tag matcher tag = has_prefix tag (trim_right matcher)

-- A map with connection ids as keys.
unfoldable pub get_channel : ℕ → List (ℕ × Channel) → Option Channel
get_channel id [] = none
get_channel id ((i, ch) ∷ m) = if i == id then some ch else get_channel id m

unfoldable pub put_channel : ℕ → Channel → List (ℕ × Channel) → List (ℕ × Channel)
put_channel id ch [] = (id, ch) ∷ []
put_channel id ch ((i, c) ∷ m) = if i == id then (i, ch) ∷ m else (i, c) ∷ put_channel id ch m

unfoldable pub delete_channel : ℕ → List (ℕ × Channel) → List (ℕ × Channel)
delete_channel id [] = []
delete_channel id ((i, c) ∷ m) =
    let rest = delete_channel id m in if i == id then rest else (i, c) ∷ rest

-- `MessageCh[tag]`; a missing tag is the nil map.
abbrev pub or_empty : Option (List (ℕ × Channel)) → List (ℕ × Channel)
or_empty none = []
or_empty (some m) = m

abbrev pub channels_of : Bytes → Tailf → List (ℕ × Channel)
channels_of tag s = or_empty (Dict.lookup tag s.message_ch)

unfoldable pub subscribe : Bytes → ℕ → Tailf → Tailf
unfolding put_channel
subscribe tag id s = record s {
  message_ch = Dict.insert tag (put_channel id [] (channels_of tag s)) s.message_ch;
}

-- To delete from the nil map does nothing.
unfoldable pub unsubscribe : Bytes → ℕ → Tailf → Tailf
unfolding delete_channel
unsubscribe tag id s = elim (Dict.lookup tag s.message_ch) [
  | none ↦ s
  | some m ↦ record s { message_ch = Dict.insert tag (delete_channel id m) s.message_ch }
]

-- A new HTTP client: its id, and its channel.
unfoldable pub connect : Bytes → Tailf → Tailf
unfolding subscribe
connect tag s =
    let id = add64 s.connection_id 1 in subscribe tag id (record s { connection_id = id })

-- A send with a `default` that drops.
unfoldable pub offer : FluentRecordSet → Channel → Channel
offer rs ch = if ltb (length ch) message_buffer_len then ch ++ (rs ∷ []) else ch

unfoldable pub offer_all : FluentRecordSet → List (ℕ × Channel) → List (ℕ × Channel)
unfolding offer
offer_all rs [] = []
offer_all rs ((i, ch) ∷ m) = (i, offer rs ch) ∷ offer_all rs m

-- The loop over `MessageCh`.
unfoldable pub offer_matching :
    FluentRecordSet → List (Bytes × List (ℕ × Channel)) → List (Bytes × List (ℕ × Channel))
unfolding offer_all match_tag
offer_matching rs [] = []
offer_matching rs ((tag, m) ∷ ms) =
    (tag, if match_tag tag rs.tag then offer_all rs m else m) ∷ offer_matching rs ms

abbrev pub offer_dump : FluentRecordSet → Option Channel → Option Channel
offer_dump rs none = none
offer_dump rs (some ch) = some (offer rs ch)

-- One round of the loop over the record sets in `handleForwardConn`.
unfoldable pub forward : FluentRecordSet → Tailf → Tailf
unfolding offer_matching
forward rs s = record s {
  counter = add64 s.counter (record_count rs);
  dump_ch = offer_dump rs s.dump_ch;
  message_ch = offer_matching rs s.message_ch;
}

unfoldable pub forward_all : List FluentRecordSet → Tailf → Tailf
unfolding forward
forward_all [] s = s
forward_all (rs ∷ sets) s = forward_all sets (forward rs s)

-- `handleForwardConn` on what `DecodeEntries` returns from call to call; it ends at an error, and
-- at a panic, which ends the whole program.
unfoldable pub handle_forward_conn : List (Result (List FluentRecordSet)) → Tailf → Tailf
unfolding forward_all
handle_forward_conn [] s = s
handle_forward_conn (ok sets ∷ results) s = handle_forward_conn results (forward_all sets s)
handle_forward_conn (_ ∷ results) s = s

-- The client takes the next record set from its channel, if there is one.
unfoldable pub take_from : Bytes → ℕ → Tailf → Tailf × List FluentRecordSet
unfolding get_channel put_channel
take_from tag id s = elim (get_channel id (channels_of tag s)) [
  | none ↦ (s, [])
  | some [] ↦ (s, [])
  | some (rs ∷ ch) ↦ (
    record s { message_ch = Dict.insert tag (put_channel id ch (channels_of tag s)) s.message_ch },
    rs ∷ [],
  )
]
