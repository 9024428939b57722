-- ===== src/Fluent/Client.antt =====
-- fluent/fluent.go: the client of one server. What the network does (resolving, dialling,
-- writing) is an argument of each call. `loops` counts the goroutines that run `reconnect`;
-- the log output is left out.
pub mod Backoff
pub mod Reconnect
pub mod Resolve
use fluent_agent_hydra.Prelude.{
  ℕ, ◌+◌, ◌-◌, ◌*◌, ◌%◌, Bool, true, false, Option, none, some, List, [], ◌∷◌, ◌++◌, ◌==◌,
  if◌then◌else◌, Bytes, codes, add64, lt64, u64_mod,
}

abbrev pub default_server : Bytes
default_server = codes "127.0.0.1:24224"

-- nanoseconds
abbrev pub default_timeout : ℕ
default_timeout = 3000000000

-- milliseconds
abbrev pub default_retry_wait : ℕ
default_retry_wait = 500

abbrev pub default_max_retry : ℕ
default_max_retry = 12

pub record Config : Type 0 where
  pub server : Bytes
  pub timeout : ℕ
  pub retry_wait : ℕ
  pub max_retry : ℕ

pub data Error : Type 0 where
  resolve_error dial_error write_error reconnecting_error : Error

-- A connection is a number, the counter of sends an int64 word.
pub record Client : Type 0 where
  pub config : Config
  pub conn : Option ℕ
  pub reconnecting : Bool
  pub cancelled : Bool
  pub last_error : Option Error
  pub sent : ℕ
  pub loops : ℕ

-- How an attempt to connect ends: the address or the host cannot be resolved, the host has no
-- address, the dial fails, or there is a connection.
pub data Attempt : Type 0 where
  unresolved no_address refused : Attempt
  connected : ℕ → Attempt

unfoldable pub with_defaults : Config → Config
with_defaults c = record {
  server = elim c.server [ [] ↦ default_server | b ∷ s ↦ c.server ];
  timeout = if c.timeout == 0 then default_timeout else c.timeout;
  retry_wait = if c.retry_wait == 0 then default_retry_wait else c.retry_wait;
  max_retry = if c.max_retry == 0 then default_max_retry else c.max_retry;
}

unfoldable pub connect : Client → Attempt → Client × Option Error
connect f unresolved = (f, some resolve_error)
connect f no_address = (f, none)
connect f refused = (record f { conn = none; last_error = some dial_error }, some dial_error)
connect f (connected c) = (record f { conn = some c; last_error = none }, none)

unfoldable pub new : Config → Attempt → Client × Option Error
unfolding with_defaults connect
new config attempt =
    connect
      (record {
        config = with_defaults config;
        conn = none;
        reconnecting = false;
        cancelled = false;
        last_error = none;
        sent = 0;
        loops = 0;
      })
      attempt

unfoldable pub close : Client → Client
close f = record f { conn = none }

unfoldable pub shutdown : Client → Client
unfolding close
shutdown f = if f.reconnecting then close (record f { cancelled = true }) else close f

abbrev pub is_connected : Option ℕ → Bool
is_connected none = false
is_connected (some c) = true

unfoldable pub alive : Client → Bool
alive f = is_connected f.conn

-- `IsReconnecting`
unfoldable pub is_reconnecting : Client → Bool
is_reconnecting f = f.reconnecting

-- `String`
unfoldable pub string : Client → Bytes
unfolding is_reconnecting
string f =
    let state = if is_reconnecting f then codes "reconnecting" else codes "connected" in
    codes "*fluent.Fluent{server: '"
    ++ (f.config.server ++ (codes "', state: '" ++ (state ++ codes "'}")))

-- `LastErrorString`; `stamp` is the time of the last error as a text.
unfoldable pub last_error_string : Bytes → (Error → Bytes) → Client → Bytes
last_error_string stamp text f = elim f.last_error [
  | none ↦ []
  | some err ↦ b'[' ∷ (stamp ++ (b']' ∷ b' ' ∷ text err))
]

-- `Send`; the flag says whether the write on the connection succeeds.
unfoldable pub send : Client → Bool → Client × Option Error
unfolding close
send f write_ok = elim f.conn [
  | none ↦
      let g = record f { last_error = some reconnecting_error } in
      if f.reconnecting
      then (g, some reconnecting_error)
      else (record g { reconnecting = true; loops = f.loops + 1 }, some reconnecting_error)
  | some c ↦ if write_ok then (record f { sent = add64 f.sent 1 }, none) else (
    record f { conn = none; last_error = some write_error; sent = add64 f.sent 1 },
    some write_error,
  )
]

-- `RefreshConnection`, which starts a goroutine if the server does not answer.
unfoldable pub refresh_connection : Client → Attempt → Client × Option Error
unfolding close connect
refresh_connection f attempt =
    let (g, e) = connect (close f) attempt in
    elim e [ none ↦ (g, none) | some err ↦ (record g { loops = g.loops + 1 }, some err) ]

-- The wait after the failed attempt `i`, in milliseconds, on int64 words; `pow n` is
-- `e(1.5, float64(n))`, the int of what `math.Pow` gives.
unfoldable pub wait_time : (ℕ → ℕ) → Config → ℕ → ℕ
wait_time pow c i = (c.retry_wait * pow (if lt64 c.max_retry i then c.max_retry else i)) % u64_mod

-- `time.Duration(waitTime) * time.Millisecond`, in nanoseconds.
unfoldable pub duration : ℕ → ℕ
duration wait = (wait * 1000000) % u64_mod

-- `reconnect` from attempt `i` on. The environment gives the result of each attempt, and
-- whether the wait behind it is ended by a cancel; with no attempt left the loop still waits.
-- The result has the waits in nanoseconds, and whether the loop has ended.
unfoldable pub reconnect : (ℕ → ℕ) → Client → ℕ → List (Attempt × Bool) → Client × List ℕ × Bool
unfolding connect wait_time duration
reconnect pow f i [] = (f, [], false)
reconnect pow f i ((attempt, cancel) ∷ rest) =
    let (g, e) = connect f attempt in
    let (last, waits, done) = reconnect pow g (add64 i 1) rest in
    let wait = duration (wait_time pow f.config i) in
    elim e [
      | none ↦ (record g { reconnecting = false; last_error = none; loops = g.loops - 1 }, [], true)
      | some err ↦
          if cancel
          then (record g { reconnecting = false; loops = g.loops - 1 }, wait ∷ [], true)
          else (last, wait ∷ waits, done)
    ]
