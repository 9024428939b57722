-- ===== src/Fluent/Client/Reconnect.antt =====
-- fluent/fluent.go: the goroutines that reconnect, and what `Send` and `reconnect` do.
use fluent_agent_hydra.Prelude.{◌⊎◌, inl, inr, Option-cases, Option}
use fluent_agent_hydra.Prelude.{
  ℕ, zero, suc, ◌+◌, ◌-◌, ◌<◌, ◌≡◌, refl, ap, sym, subst, Bool, true, false, none, some, List, [],
  ◌∷◌, ◌++◌, arith, ◌==◌, if◌then◌else◌, replicate, add64, i64_limit, ◌*◌,
}
use fluent_agent_hydra.Fluent.Client.{
  Client, Error, Config, reconnecting_error, write_error, dial_error, Attempt, unresolved,
  no_address, refused, connected, connect, new, close, shutdown, send, refresh_connection,
  reconnect,
}
use fluent_agent_hydra.Fluent.Client.Backoff.{
  backoff, backoffs, NeverShrink, IsModest, IsPow, backoffs-NeverShrink, duration-wait_time,
}

-- The client is not reconnecting, or a goroutine runs `reconnect`.
abbrev pub IsValid : Client → Type 0
IsValid f = (f.reconnecting ≡ false) ⊎ (0 < f.loops)

-- The calls on a client, with what the network answers.
pub data Op : Type 0 where
  sends : Bool → Op
  refreshes : Attempt → Op
  closes : Op
  shuts_down : Op
  -- A goroutine of `reconnect` runs, if there is one.
  reconnects : List (Attempt × Bool) → Op

unfoldable pub step : (ℕ → ℕ) → Client → Op → Client
step pow f (sends ok) = (send f ok).0
step pow f (refreshes a) = (refresh_connection f a).0
step pow f closes = close f
step pow f shuts_down = shutdown f
step pow f (reconnects attempts) =
    let g = (reconnect pow f 0 attempts).0 in if f.loops == 0 then f else g

unfoldable pub run : (ℕ → ℕ) → Client → List Op → Client
run pow f [] = f
run pow f (o ∷ ops) = run pow (step pow f o) ops

connect-keeps :
    (f : Client) (a : Attempt)
    → ((connect f a).0.reconnecting ≡ f.reconnecting)
      × ((connect f a).0.loops ≡ f.loops)
      × ((connect f a).0.config ≡ f.config)
unfolding connect
connect-keeps f unresolved = (refl, refl, refl)
connect-keeps f no_address = (refl, refl, refl)
connect-keeps f refused = (refl, refl, refl)
connect-keeps f (connected c) = (refl, refl, refl)

reconnect-IsValid :
    (pow : ℕ → ℕ) (f : Client) (i : ℕ) (rest : List (Attempt × Bool))
    → IsValid f
    → IsValid (reconnect pow f i rest).0
unfolding reconnect
reconnect-IsValid pow f i [] v = v
reconnect-IsValid pow f i ((a, cancel) ∷ rest) v =
    ground (arith, connect-keeps f a, reconnect-IsValid pow (connect f a).0 (add64 i 1) rest)

send-IsValid : (f : Client) (ok : Bool) → IsValid f → IsValid (send f ok).0
unfolding send
send-IsValid f ok v = ground arith

refresh-IsValid : (f : Client) (a : Attempt) → IsValid f → IsValid (refresh_connection f a).0
unfolding refresh_connection
refresh-IsValid f unresolved v = ground arith
refresh-IsValid f no_address v = ground arith
refresh-IsValid f refused v = ground arith
refresh-IsValid f (connected c) v = ground arith

step-IsValid : (pow : ℕ → ℕ) (f : Client) (o : Op) → IsValid f → IsValid (step pow f o)
unfolding step close shutdown
step-IsValid pow f (sends ok) v = send-IsValid f ok v
step-IsValid pow f (refreshes a) v = refresh-IsValid f a v
step-IsValid pow f closes v = v
step-IsValid pow f shuts_down v = ground arith
step-IsValid pow f (reconnects attempts) v = ground (arith, reconnect-IsValid pow f 0 attempts)

run_from-IsValid : (pow : ℕ → ℕ) (ops : List Op) (f : Client) → IsValid f → IsValid (run pow f ops)
unfolding run
run_from-IsValid pow [] f v = v
run_from-IsValid pow (o ∷ ops) f v =
    run_from-IsValid pow ops (step pow f o) (step-IsValid pow f o v)

new-IsValid : (config : Config) (a : Attempt) → IsValid (new config a).0
unfolding new
new-IsValid config unresolved = inl refl
new-IsValid config no_address = inl refl
new-IsValid config refused = inl refl
new-IsValid config (connected c) = inl refl

-- After any calls on a new client, whatever the network does: while `IsReconnecting` answers
-- true, a goroutine runs `reconnect`.
pub run-IsValid :
    (pow : ℕ → ℕ) (config : Config) (a : Attempt) (ops : List Op)
    → IsValid (run pow (new config a).0 ops)
run-IsValid pow config a ops = run_from-IsValid pow ops (new config a).0 (new-IsValid config a)

-- `n` attempts that the server refuses, none of them cancelled.
abbrev pub refusals : ℕ → List (Attempt × Bool)
refusals n = replicate n (refused, false)

reconnect-retries :
    (pow : ℕ → ℕ) (n i c : ℕ) (f : Client) (cancel : Bool) (rest : List (Attempt × Bool))
    → IsPow pow
    → IsModest f.config
    → i + n < i64_limit
    → let (g, waits, done) = reconnect pow f i (refusals n ++ ((connected c, cancel) ∷ rest)) in
      (done ≡ true)
      × (waits ≡ backoffs f.config i n)
      × (g.conn ≡ some c)
      × (g.reconnecting ≡ false)
      × (g.last_error ≡ none)
      × (g.loops ≡ f.loops - 1)
      × (g.sent ≡ f.sent)
unfolding reconnect
reconnect-retries pow zero i c f cancel rest is_pow modest small =
    (refl, refl, refl, refl, refl, refl, refl)
reconnect-retries pow (suc n) i c f cancel rest is_pow modest small =
    let g = record f { conn = none; last_error = some dial_error } in
    let next : add64 i 1 ≡ i + 1 = omega arith in
    let (a, b, d, e, h, k, l) =
      reconnect-retries pow n (i + 1) c g cancel rest is_pow modest (omega arith) in
    let wait = duration-wait_time pow f.config i is_pow modest (omega arith) in
    rw (next, wait) (a, ap (λ w. backoff f.config i * 1000000 ∷ w) b, d, e, h, k, l)

-- If the longest wait in nanoseconds is an int64, `MaxRetry` is at most 33, and the int of what
-- `math.Pow` gives for 1.5 and an exponent up to 33 is the integer part of the power: `reconnect`
-- goes on through any number of refused attempts without a cancel, as long as their numbers are
-- int64, and waits after attempt `i` for `RetryWait` times the integer part of
-- 1.5 ^ min(i, MaxRetry) milliseconds, so that no wait is shorter than the one before; it ends at
-- the first attempt that succeeds: connected, no longer reconnecting, without an error, and with
-- one goroutine less.
pub reconnect-succeeds :
    (pow : ℕ → ℕ) (n i c : ℕ) (f : Client) (cancel : Bool) (rest : List (Attempt × Bool))
    → IsPow pow
    → IsModest f.config
    → i + n < i64_limit
    → let (g, waits, done) = reconnect pow f i (refusals n ++ ((connected c, cancel) ∷ rest)) in
      (done ≡ true)
      × (waits ≡ backoffs f.config i n)
      × NeverShrink waits
      × (g.conn ≡ some c)
      × (g.reconnecting ≡ false)
      × (g.last_error ≡ none)
      × (g.loops ≡ f.loops - 1)
      × (g.sent ≡ f.sent)
reconnect-succeeds pow n i c f cancel rest is_pow modest small =
    let (a, b, d, e, h, k, l) = reconnect-retries pow n i c f cancel rest is_pow modest small in
    (a, b, subst NeverShrink (sym b) (backoffs-NeverShrink f.config i n), d, e, h, k, l)

-- What `Send` gives, by the connection that it finds.
abbrev pub SendResult : Client → Bool → Option ℕ → Client × Option Error → Type 0
SendResult f ok none (g, e) =
    (e ≡ some reconnecting_error)
    × (g.reconnecting ≡ true)
    × (g.sent ≡ f.sent)
    × (g.loops ≡ (if f.reconnecting then f.loops else f.loops + 1))
    × (g.conn ≡ none)
SendResult f ok (some c) (g, e) =
    (e ≡ (if ok then none else some write_error))
    × (g.conn ≡ (if ok then some c else none))
    × (g.sent ≡ add64 f.sent 1)
    × (g.loops ≡ f.loops)

-- `Send` on each of its paths. Without a connection nothing is written, the error is recorded,
-- and a goroutine is started only if the client is not reconnecting already; with one, the
-- write is counted whether it succeeds or not, and a failed write drops the connection.
pub send_lem : (f : Client) (ok : Bool) → SendResult f ok f.conn (send f ok)
unfolding send
send_lem f ok = elim (Option-cases f.conn) [
  | inl n ↦ rw (n, send) (ground arith)
  | inr (c, s) ↦ rw (s, send) (ground arith)
]

-- `RefreshConnection` on a client that is not reconnecting does not mark it as such: when the server refuses, the
-- next `Send` starts a second goroutine beside the one that it started.
pub refresh_then_send :
    (f : Client) (ok : Bool)
    → f.reconnecting ≡ false
    → let g = (refresh_connection f refused).0 in
      (g.reconnecting ≡ false) × (g.conn ≡ none) × ((send g ok).0.loops ≡ f.loops + 2)
unfolding refresh_connection send
refresh_then_send f ok h = ground arith
