-- ===== src/HttpTailf/Handler.antt =====
-- cmd/fluent-http-tailf/main.go: an HTTP client, from its request until a write to it fails.
pub mod Asking
pub mod Path
pub mod Streaming
pub mod Leaving
use fluent_agent_hydra.Prelude.{
  ℕ, zero, suc, Bool, true, false, ◌&&◌, Option, none, some, List, [], ◌∷◌, ◌++◌, Bytes, codes,
  ◌==◌, if◌then◌else◌, add64,
}
use fluent_agent_hydra.Hydra.Strconv.{parse_bool}
use fluent_agent_hydra.Fluent.Value.{Value, Fields, Time}
use fluent_agent_hydra.Fluent.Record.{FluentRecordSet}
use fluent_agent_hydra.Ltsv.{Writer}
use fluent_agent_hydra.HttpTailf.{Tailf, connect, unsubscribe, take_from}
use fluent_agent_hydra.HttpTailf.Output.{
  OutputOption, Encoder, json_encoder, ltsv_encoder, write_response,
}

-- `strings.TrimLeft(s, "/")`
unfoldable pub trim_left_slash : Bytes → Bytes
trim_left_slash [] = []
trim_left_slash (c ∷ s) = let rest = trim_left_slash s in if c == b'/' then rest else c ∷ s

-- `strings.TrimRight(s, "/")`
unfoldable pub trim_right_slash : Bytes → Bytes
trim_right_slash [] = []
trim_right_slash (c ∷ s) = elim (trim_right_slash s) as (λ _. Bytes) [
  | [] ↦ if c == b'/' then [] else c ∷ []
  | d ∷ t ↦ c ∷ d ∷ t
]

-- `strings.Trim(s, "/")`
unfoldable pub trim_slash : Bytes → Bytes
unfolding trim_left_slash trim_right_slash
trim_slash s = trim_right_slash (trim_left_slash s)

-- The path of the URL, and `FormValue`, which is empty for a missing key.
pub record Request : Type 0 where
  pub path : Bytes
  pub form_value : Bytes → Bytes

-- `ParseBool` returns false with an error, which is ignored.
abbrev pub or_false : Option Bool → Bool
or_false none = false
or_false (some b) = b

abbrev pub flag : Request → Bytes → Bool
flag r name = or_false (parse_bool (r.form_value name))

-- The variables of `httpHandler`; the flag says that the encoder is the one of ltsv.
pub record Session : Type 0 where
  pub tag : Bytes
  pub id : ℕ
  pub option : OutputOption
  pub as_ltsv : Bool

abbrev pub new_session : Bytes → Request → Tailf → Session
new_session tag r s = record {
  tag = tag;
  id = add64 s.connection_id 1;
  option = record { include_time = flag r (codes "time"); include_tag = flag r (codes "tag") };
  as_ltsv = flag r (codes "ltsv");
}

-- `httpHandler` up to the loop, by the trimmed path: `none` is the answer 404.
unfoldable pub session_at : Bytes → Request → Tailf → Tailf × Option Session
unfolding connect
session_at [] r s = (s, none)
session_at (c ∷ t) r s = (connect (c ∷ t) s, some (new_session (c ∷ t) r s))

unfoldable pub open_session : Request → Tailf → Tailf × Option Session
unfolding trim_slash session_at
open_session r s = session_at (trim_slash r.path) r s

module _ (rfc3339 : Time → Bytes) (json : Fields → Option Bytes) (print : Value → Bytes) where
  abbrev pub encoder_of : Session → Encoder
  encoder_of c = if c.as_ltsv then ltsv_encoder print else json_encoder json

  -- What follows a call of `writeResponse`: the handler returns at an error, and the deferred
  -- `unsubscribe` runs, at a panic too. The flag says that it goes on.
  unfoldable pub after_response :
      Session → Tailf → Writer → Option (Writer × Bool) → Tailf × (Writer × Bool)
  unfolding unsubscribe
  after_response c s w none = (unsubscribe c.tag c.id s, (w, false))
  after_response c s w (some (w', true)) = (s, (w', true))
  after_response c s w (some (w', false)) = (unsubscribe c.tag c.id s, (w', false))

  -- What the round does with what it took; it waits while there is nothing in the channel.
  unfoldable pub respond : Session → Writer → Tailf × List FluentRecordSet → Tailf × (Writer × Bool)
  unfolding after_response
  respond c w (s, []) = (s, (w, true))
  respond c w (s, rs ∷ more) =
      after_response c s w (write_response rfc3339 (encoder_of c) c.option rs.tag rs.records w)

  -- A round of the loop.
  unfoldable pub session_round : Session → Tailf → Writer → Tailf × (Writer × Bool)
  unfolding take_from respond
  session_round c s w = respond c w (take_from c.tag c.id s)

  -- Rounds until the handler returns.
  unfoldable pub session_rounds : ℕ → Session → Tailf → Writer → Tailf × (Writer × Bool)
  unfolding session_round
  session_rounds zero c s w = (s, (w, true))
  session_rounds (suc n) c s w =
      let (s', (w', more)) = session_round c s w in
      let rest = session_rounds n c s' w' in if more then rest else (s', (w', false))
