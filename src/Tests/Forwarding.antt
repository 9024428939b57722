-- ===== src/Tests/Forwarding.antt =====
-- fluent/fluent.go and hydra/out_forward.go on three servers.
use fluent_agent_hydra.Prelude.{
  ℕ, ◌^◌, ◌/◌, ◌≡◌, refl, true, false, none, some, List, [], ◌∷◌, ◌++◌, arith, ◌==◌, codes,
}
use fluent_agent_hydra.Fluent.Client.{
  Client, Config, refused, connected, new, send, reconnect, wait_time,
}
use fluent_agent_hydra.Fluent.Client.Backoff.{power, IsModest}
use fluent_agent_hydra.Fluent.Client.Reconnect.{
  IsValid, sends, closes, reconnects, run, run-IsValid, refusals, reconnect-succeeds,
}
use fluent_agent_hydra.Hydra.OutForward.{OutForward, SentStat, Network, try_loggers, Round}
use fluent_agent_hydra.Fluent.Record.{FluentRecordSet}
use fluent_agent_hydra.Hydra.OutForward.Process
use fluent_agent_hydra.Hydra.OutForward.Process.Order.{Told, sent_stats, run-Told}
use fluent_agent_hydra.Hydra.OutForward.Failover.{find, usable, try_loggers_lem}

abbrev settings : Config
settings = record { server = codes "a:24224"; timeout = 3; retry_wait = 500; max_retry = 12 }

abbrev online : Client
online = record {
  config = settings;
  conn = some 1;
  reconnecting = false;
  cancelled = false;
  last_error = none;
  sent = 5;
  loops = 0;
}

abbrev offline : Client
offline = record online { conn = none; reconnecting = true; loops = 1 }

-- `int(math.Pow(1.5, n))` for small `n`.
abbrev pow : ℕ → ℕ
pow n = 3 ^ n / 2 ^ n

longest_wait : wait_time pow settings 40 ≡ 64500
unfolding wait_time
longest_wait = refl

run-IsValid_example : IsValid (
    run pow
      (new settings refused).0
      (sends true ∷ reconnects ((refused, false) ∷ []) ∷ closes ∷ []))
run-IsValid_example =
    run-IsValid pow settings refused (sends true ∷ reconnects ((refused, false) ∷ []) ∷ closes ∷ [])

reconnect-succeeds_example :
    (reconnect pow offline 0 (refusals 4 ++ ((connected 9, false) ∷ []))).1
    ≡ 500000000 ∷ 500000000 ∷ 1000000000 ∷ 1500000000 ∷ []
unfolding power
reconnect-succeeds_example =
    (reconnect-succeeds pow 4 0 9 offline false [] (λ n h. refl) modest (omega arith)).1
  where
    modest : IsModest settings
    modest = record { few = omega arith; short = unfold power in omega arith }

-- The first server is down, the second refuses the write, the third takes it.
abbrev agent : OutForward
agent = record { loggers = offline ∷ online ∷ online ∷ []; sent = 4; round_robin = true }

abbrev third_only : Network
third_only = record { write_ok = λ i. i == 2; dial = λ i. refused }

third_takes_it : (try_loggers third_only (0 ∷ 1 ∷ 2 ∷ []) agent).1 ≡ some 2
unfolding try_loggers send
third_takes_it = refl

try_loggers_lem_example :
    (try_loggers third_only (0 ∷ 1 ∷ 2 ∷ []) agent).1
    ≡ find (usable third_only agent.loggers) (0 ∷ 1 ∷ 2 ∷ [])
try_loggers_lem_example = try_loggers_lem third_only (0 ∷ 1 ∷ 2 ∷ []) agent (omega arith)

abbrev quiet : Round
quiet = record { net = third_only; meanwhile = λ cs. cs }

abbrev sent_stat : SentStat
sent_stat = record { tag = codes "t"; messages = 2; bytes = 40; sents = 1 }

-- One record set is delivered before the channel is closed.
abbrev one_set : List (FluentRecordSet × List Round)
one_set = (record { tag = codes "t"; records = [] }, quiet ∷ []) ∷ []

run-Told_example :
    Told
      (sent_stats (λ v. none) true one_set)
      (Process.run (λ v. none) true (λ i cs. cs) one_set true agent)
run-Told_example = run-Told (λ v. none) true (λ i cs. cs) one_set true agent
