-- ===== src/Lib.antt =====
-- fluent-agent-hydra: a log agent that tails files and receives forwarded records, and forwards
-- them to Fluentd servers.
--
-- Parts of the program and their files:
--   fluent/msgpack.go       Fluent/Msgpack       the bytes of messages, records and record sets
--   fluent/server.go        Fluent/Value         `interface{}`, `time.Time` and maps
--                           Fluent/Record        `FluentRecordType` and `FluentRecordSet`
--                           Fluent/Pack          `Pack`, `PackAsPackedForward`, `PackAsForward`
--                           Fluent/Decode        `DecodeEntries`, `decodeRecordSet`,
--                                                `coerceInPlace`, `toInt64`, `ReadExt`
--                           Fluent/Protocol      both ends of a connection
--   fluent/fluent.go        Fluent/Client        the client of one server: `New`, `connect`,
--                                                `Send`, `reconnect`, `RefreshConnection`
--                           Fluent/Client/Resolve
--                                                the address that `connect` dials
--   hydra/buffer.go         Hydra/Queue          `MessageQueue`
--   hydra/fileformat.go     Hydra/Format         formats, converters, `RecordModifier`
--                           Hydra/Strconv        the functions of strings and strconv it calls
--                           Hydra/Records/Expressions
--                                                `Regexp.UnmarshalText`
--   hydra/hydra.go          Hydra/Records        `NewFluentRecordSet` and its four formats
--                           Hydra/Records/Forwarded
--                                                a buffer of lines from one agent to another
--                           Hydra/Context        `Context`, `RunProcess`, `Run`, `Shutdown`, and
--                                                what each part does to the wait groups
--   hydra/file.go           Hydra/Tail           `openFile`, `restrict`, `tailAndSend`,
--                                                `UpdateStat`
--   hydra/in_tail.go        Hydra/InTail         `newTrailFile`, `watchFileEvent`, `Run`,
--                                                `TailStdin`
--                           Hydra/Watcher        `Watcher` and its methods, `Rel2Abs`, `NewInTail`
--   hydra/in_forward.go     Hydra/InForward      `Run`, `feed` and `handleConn` of the receiver
--   hydra/out_forward.go    Hydra/OutForward     `outForwardRecieve`, `Run`, `NewOutForward`
--   hydra/monitor.go        Hydra/Monitor        `Stats` and `ApplyTo` (with `FileStat` of Hydra/Tail
--                                                and `SentStat` of Hydra/OutForward)
--                           Hydra/Monitor/Events what comes to the statistics, and in between
--                           Hydra/Monitor/Serving
--                                                `Monitor.Run`, `WriteJSON` and the pages
--   hydra/config.go         Hydra/Config         `Restrict` of each section, `NewConfigByArgs`
--                           Hydra/Config/Reading `ReadConfig`
--   ltsv/ltsv.go            Ltsv                 `Encode` and the `Replacer`
--                           Ltsv/Replace         `replaceBytes`
--   cmd/fluent-http-tailf/main.go
--                           HttpTailf            subscriptions, `matchTag`, `handleForwardConn`
--                           HttpTailf/Output     `writeResponse`, `runDumper`
--                           HttpTailf/Handler    `httpHandler`
--                           HttpTailf/Reporter   `runReporter`
--   cmd/in-forward-benchmarkd/main.go
--                           Benchmarkd           `handleConn`, `reporter`
--                           Benchmarkd/Serving   `runServer` with its connections
--   cmd/tail-f/main.go      TailF                how `main` starts and what it prints
--   cmd/fluent-agent-hydra/main.go
--                           Agent                the arguments, and the end by signals
-- Prelude has the shared lists, words, splits and dictionaries, Tests the runs on concrete inputs.
-- The modules below a component hold what is stated of it. A Go name in camel case is the same
-- name in snake case here; a loop body or a type switch is a function of its own.
--
-- How the parts interact: a tailed file cuts what it reads into lines, `NewFluentRecordSet` makes a
-- record set of them (Hydra/InTail opens the file, follows it over renames and truncations, and
-- reads stdin instead where it is asked to), and the output packs it with `PackAsPackedForward` and
-- gives it to the first client that takes it. A record set that comes from the network passes
-- `DecodeEntries`, the queue and `feed`; Hydra/InForward has these goroutines as steps in any
-- order. The inputs and outputs send statistics to the monitor. Channels are the sequences of what
-- is sent on them. Fluent/Protocol puts the packing side and the decoding side on the two ends of a
-- connection, TailF/Program puts `NewInTail`, `InTail.Run` and the printing of cmd/tail-f together,
-- and Agent/Arguments the flags and `ReadConfig`. Hydra/Context has all parts together, each only
-- with what it does to the wait groups, `ControlCh` and `MessageCh`, while they start, run and shut
-- down in any interleaving; `MonitorCh` is left out there: a send on it is no step and is taken to
-- end, which the monitor sees to where it runs.
--
-- Conventions: an int64 is a number below 2 ^ 64 in two's complement, and arithmetic on it wraps
-- around. A string and a byte slice are lists of bytes, a map an association list with distinct
-- keys. An error is `none`, or a constructor of a type of errors; a panic is a result too. A mutex
-- is left out and each call is one step; where the code takes no lock (`Alive`, `LastErrorString`,
-- `reconnect` beside a shutdown, `ApplyTo` of `ReceiverStat`, a `FileStat` that is shared) what
-- other goroutines do in between is an argument.
--
-- Parameters, since their code is not part of the repository: the codec of github.com/ugorji/go in
-- both directions, the decoder of the TOML library, the handler of golang-stats-api-handler,
-- encoding/json, regexp, `strconv.ParseFloat`, `time.Parse`, the conversion of floats to integers,
-- `fmt.Fprint` of values that are no text, `Time.Format`, fsnotify, path/filepath,
-- `net.SplitHostPort`, `net.LookupHost`, math/rand, `strconv.Atoi` of a port, `math.Pow`, and
-- everything that the network, the clock and the file system answer.
--
-- Fuel: the loop over a PackedForward payload has the length of the payload and one more round,
-- which is enough for a codec that takes a byte at least for each entry. The loops that wait for
-- the network run over the list of what the network answers, and the loop of an HTTP client for a
-- number of rounds.
--
-- Not modelled: `Address` of a server, which joins host and port with a colon; log output, also
-- that of single records with `-debug`, and with it the `String` methods of records and of formats;
-- the parsing of flags, profiling, and the start of the two servers of cmd/fluent-http-tailf. They
-- are calls of libraries around the parts that are modelled.
pub mod Prelude
pub mod Fluent
pub mod Hydra
pub mod Ltsv
pub mod HttpTailf
pub mod Benchmarkd
pub mod TailF
pub mod Agent
pub mod Tests
