-- ===== src/HttpTailf/Handler/Leaving.antt =====
-- cmd/fluent-http-tailf/main.go: the end of an HTTP client.
use fluent_agent_hydra.Prelude.{
  ℕ, zero, suc, ◌≡◌, refl, inl, inr, Bool, true, false, Option, none, some, List, [], ◌∷◌, Bytes,
  bytes_eq_refl, Bool-cases, arith, Option-cases,
}
use fluent_agent_hydra.Prelude.Dict
use fluent_agent_hydra.Prelude.Dict.{lookup-insert}
use fluent_agent_hydra.Fluent.Value.{Value, Fields, Time}
use fluent_agent_hydra.Fluent.Record.{FluentRecordSet}
use fluent_agent_hydra.Ltsv.{Writer}
use fluent_agent_hydra.HttpTailf.{
  Tailf, Channel, get_channel, delete_channel, unsubscribe, take_from,
}
use fluent_agent_hydra.HttpTailf.Clients.{buffered}
use fluent_agent_hydra.HttpTailf.Handler.{
  Session, after_response, respond, session_round, session_rounds,
}

get_channel-gone : (id : ℕ) (m : List (ℕ × Channel)) → get_channel id (delete_channel id m) ≡ none
unfolding get_channel delete_channel
get_channel-gone id [] = refl
get_channel-gone id ((i, c) ∷ m) = ground (arith, get_channel-gone id m)

unsubscribe-gone :
    (tag : Bytes) (id : ℕ) (s : Tailf) → buffered tag id (unsubscribe tag id s) ≡ none
unfolding unsubscribe
unsubscribe-gone tag id s = elim (Option-cases (Dict.lookup tag s.message_ch)) [
  | inl n ↦ rw (n, unsubscribe, n) (unfold get_channel in refl)
  | inr (m, n) ↦
      rw
        (
          n,
          unsubscribe,
          lookup-insert tag tag (delete_channel id m) s.message_ch,
          bytes_eq_refl tag,
        )
        (get_channel-gone id m)
]

module _ (rfc3339 : Time → Bytes) (json : Fields → Option Bytes) (print : Value → Bytes)
    (c : Session) where
  -- The handler returns only without its channel.
  after_response-gone :
      (s : Tailf) (w : Writer) (o : Option (Writer × Bool))
      → (after_response rfc3339 json print c s w o).1.1 ≡ false
      → buffered c.tag c.id (after_response rfc3339 json print c s w o).0 ≡ none
  unfolding after_response
  after_response-gone s w none e = unsubscribe-gone c.tag c.id s
  after_response-gone s w (some (w', true)) e = cc
  after_response-gone s w (some (w', false)) e = unsubscribe-gone c.tag c.id s

  respond-gone :
      (w : Writer) (t : Tailf × List FluentRecordSet)
      → (respond rfc3339 json print c w t).1.1 ≡ false
      → buffered c.tag c.id (respond rfc3339 json print c w t).0 ≡ none
  unfolding respond
  respond-gone w (s, []) e = cc
  respond-gone w (s, rs ∷ more) e = after_response-gone s w _ e

  -- When `httpHandler` returns, because a write to its client failed or because it panicked, the
  -- client is subscribed no longer: there is no channel with its tag and its id.
  pub session_rounds-gone :
      (n : ℕ) (s : Tailf) (w : Writer)
      → (session_rounds rfc3339 json print n c s w).1.1 ≡ false
      → buffered c.tag c.id (session_rounds rfc3339 json print n c s w).0 ≡ none
  unfolding session_rounds session_round
  session_rounds-gone zero s w e = cc
  session_rounds-gone (suc n) s w e =
      let (s', (w', more)) = session_round rfc3339 json print c s w in
      elim (Bool-cases more) [
        | inl m ↦
            let rest : (session_rounds rfc3339 json print n c s' w').1.1 ≡ false = rw m at e in
            rw m (session_rounds-gone n s' w' rest)
        | inr m ↦ rw m (respond-gone w (take_from c.tag c.id s) m)
      ]
