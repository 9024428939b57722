-- ===== src/HttpTailf/Handler/Streaming.antt =====
-- cmd/fluent-http-tailf/main.go: what an HTTP client is sent.
use fluent_agent_hydra.Prelude.{
  ℕ, suc, ◌≤◌, ◌≡◌, refl, sym, ap, subst, ◌∙◌, true, Option, none, some, List, [], ◌∷◌, ◌++◌, Bytes,
  codes, bytes_eq_refl, ==_iff, if◌then◌else◌, length, length-append, take, All, arith, ==_self,
}
use fluent_agent_hydra.Prelude.Dict
use fluent_agent_hydra.Prelude.Dict.{lookup-insert}
use fluent_agent_hydra.Fluent.Value.{Value, Fields, Time}
use fluent_agent_hydra.Fluent.Record.{FluentRecordSet}
use fluent_agent_hydra.Fluent.Decode.{Result}
use fluent_agent_hydra.Ltsv.{Writer}
use fluent_agent_hydra.HttpTailf.{
  Tailf, Channel, message_buffer_len, put_channel, channels_of, connect, take_from,
  handle_forward_conn,
}
use fluent_agent_hydra.HttpTailf.Clients.{
  buffered, received, handle_forward_conn_lem, buffered-connect,
}
use fluent_agent_hydra.HttpTailf.Handler.Asking.{
  IsCore, asked_for, is_truth, matching-core, session_at-flags, session_at-tag,
}
use fluent_agent_hydra.HttpTailf.Handler.Path.{IsWithin, trim_slash-IsWithin}
use fluent_agent_hydra.HttpTailf.Members.{same_client, buffered-put}
use fluent_agent_hydra.HttpTailf.Output.Text.{
  Writes, IsTiny, set_chunks, wrote, wrote-append, wrote-nil, write_response_lem,
}
use fluent_agent_hydra.HttpTailf.Handler.{
  Session, Request, encoder_of, open_session, after_response, respond, session_round,
  session_rounds, session_at, new_session, trim_slash,
}

same_client_self : (tag : Bytes) (id : ℕ) → same_client tag id tag id ≡ true
same_client_self tag id = rw (bytes_eq_refl tag) ((==_iff id id).1 refl)

-- The client takes the first set of its channel.
take_from-first :
    (tag : Bytes) (id : ℕ) (s : Tailf) (rs : FluentRecordSet) (ch : Channel)
    → buffered tag id s ≡ some (rs ∷ ch)
    → (s' : Tailf) × (take_from tag id s ≡ (s', rs ∷ [])) × (buffered tag id s' ≡ some ch)
unfolding take_from
take_from-first tag id s rs ch h =
    let rest = put_channel id ch (channels_of tag s) in
    (
      record s { message_ch = Dict.insert tag rest s.message_ch },
      rw (h, take_from) refl,
      buffered-put tag id tag id ch s
          ∙ ap (λ b. if b then some ch else buffered tag id s) (same_client_self tag id),
    )

session_at-subscribed :
    (path : Bytes) (r : Request) (s s' : Tailf) (c : Session)
    → session_at path r s ≡ (s', some c)
    → buffered c.tag c.id s' ≡ some []
unfolding session_at
session_at-subscribed [] r s s' c h = let wrong : none ≡ some c = ap (λ v. v.1) h in cc
session_at-subscribed (b ∷ t) r s s' c h =
    let session = new_session (b ∷ t) r s in
    let same : some session ≡ some c = ap (λ v. v.1) h in
    let is_c : session ≡ c = cc in
    let found = buffered-connect (b ∷ t) (b ∷ t) session.id s in
    let empty : buffered (b ∷ t) session.id (connect (b ∷ t) s) ≡ some [] =
      rw (bytes_eq_refl (b ∷ t), ==_self session.id) at found in
    subst (λ k. buffered k.tag k.id s' ≡ some []) is_c
      (ap (buffered (b ∷ t) session.id) (sym (ap (λ v. v.0) h)) ∙ empty)

module _ (rfc3339 : Time → Bytes) (json : Fields → Option Bytes) (print : Value → Bytes)
    (c : Session) (writes : Writes (encoder_of rfc3339 json print c)) where
  abbrev pub all_chunks : List FluentRecordSet → List Bytes
  all_chunks [] = []
  all_chunks (rs ∷ sets) = set_chunks rfc3339 c.option rs.tag writes rs.records ++ all_chunks sets

  abbrev pub IsDecoded : FluentRecordSet → Type 0
  IsDecoded rs = All IsTiny rs.records

  first-round :
      (rs : FluentRecordSet) (ch : Channel) (s : Tailf) (w : Writer)
      → buffered c.tag c.id s ≡ some (rs ∷ ch)
      → IsDecoded rs
      → length (set_chunks rfc3339 c.option rs.tag writes rs.records) ≤ w.good
      → (s' : Tailf) × (session_round rfc3339 json print c s w
          ≡ (s', (wrote (set_chunks rfc3339 c.option rs.tag writes rs.records) w, true)))
        × (buffered c.tag c.id s' ≡ some ch)
  unfolding session_round respond after_response
  first-round rs ch s w h decoded enough =
      let (s1, taken, now) = take_from-first c.tag c.id s rs ch h in
      (
        s1,
        ap (respond rfc3339 json print c w) taken
            ∙ ap (after_response rfc3339 json print c s1 w)
                (write_response_lem rfc3339 c.option rs.tag writes rs.records w decoded enough),
        now,
      )

  next-rounds :
      (n : ℕ) (s s' : Tailf) (w w' : Writer)
      → session_round rfc3339 json print c s w ≡ (s', (w', true))
      → session_rounds rfc3339 json print (suc n) c s w
        ≡ session_rounds rfc3339 json print n c s' w'
  unfolding session_rounds
  next-rounds n s s' w w' e = rw (e, session_rounds) refl

  -- The handler has written all that was in the channel, and waits.
  pub session_rounds_lem :
      (ch : Channel) (s : Tailf) (w : Writer)
      → buffered c.tag c.id s ≡ some ch
      → All IsDecoded ch
      → length (all_chunks ch) ≤ w.good
      → (s' : Tailf) × (session_rounds rfc3339 json print (length ch) c s w
          ≡ (s', (wrote (all_chunks ch) w, true)))
        × (buffered c.tag c.id s' ≡ some [])
  unfolding session_rounds
  session_rounds_lem [] s w h decoded enough = (s, ap (λ v. (s, (v, true))) (wrote-nil w), h)
  session_rounds_lem (rs ∷ ch) s w h decoded enough =
      let own = set_chunks rfc3339 c.option rs.tag writes rs.records in
      let both = length-append own (all_chunks ch) in
      let (s1, round, now) = first-round rs ch s w h decoded.0 (omega (arith, both)) in
      let (s2, rest, empty) =
        session_rounds_lem ch s1 (wrote own w) now decoded.1 (omega (arith, both)) in
      (
        s2,
        next-rounds (length ch) s s1 w (wrote own w) round
            ∙ rest
            ∙ ap (λ v. (s2, (v, true))) (wrote-append own (all_chunks ch) w),
        empty,
      )

  -- An HTTP client whose handler got to its loop, and reads its channel when a connection of the
  -- forward server has brought all up to its first error, is sent of that the first 100 record sets
  -- whose tag starts with the client's (the path of its request less the slashes at both ends) less
  -- its trailing dots and stars, in order, as text, with the time and the tag in front of each
  -- record if the form values "time" and "tag" of the request are one of the texts for true, as
  -- LTSV if "ltsv" is one; the handler then waits on an empty channel. The records are such as
  -- `DecodeEntries` makes, the encoder makes a list of writes for each record, and no write fails.
  pub http_handler_lem :
      (r : Request) (s s1 : Tailf) (results : List (Result (List FluentRecordSet))) (w : Writer)
      (core : Bytes)
      → open_session r s ≡ (s1, some c)
      → IsCore c.tag core
      → All IsDecoded (take message_buffer_len (asked_for core (received results)))
      → length (all_chunks (take message_buffer_len (asked_for core (received results)))) ≤ w.good
      → (s' : Tailf) × (session_rounds rfc3339 json print
            (length (take message_buffer_len (asked_for core (received results))))
            c
            (handle_forward_conn results s1)
            w
          ≡ (
            s',
            (
              wrote (all_chunks (take message_buffer_len (asked_for core (received results)))) w,
              true,
            ),
          ))
        × (buffered c.tag c.id s' ≡ some [])
        × IsWithin r.path c.tag
        × (c.option.include_time ≡ is_truth (r.form_value (codes "time")))
        × (c.option.include_tag ≡ is_truth (r.form_value (codes "tag")))
        × (c.as_ltsv ≡ is_truth (r.form_value (codes "ltsv")))
  unfolding open_session
  http_handler_lem r s s1 results w core opened is_core decoded enough =
      let subscribed = session_at-subscribed (trim_slash r.path) r s s1 c opened in
      let sets = take message_buffer_len (asked_for core (received results)) in
      let came = handle_forward_conn_lem c.tag c.id results s1 [] (omega arith) subscribed in
      let found : buffered c.tag c.id (handle_forward_conn results s1) ≡ some sets =
        subst
          (λ l.
            buffered c.tag c.id (handle_forward_conn results s1) ≡ some (take message_buffer_len l))
          (matching-core c.tag core (received results) is_core) came in
      let (s', went, empty) =
        session_rounds_lem sets (handle_forward_conn results s1) w found decoded enough in
      let (time, tag, ltsv) = session_at-flags (trim_slash r.path) r s s1 c opened in
      let of_path = session_at-tag (trim_slash r.path) r s s1 c opened in
      (
        s',
        went,
        empty,
        subst (IsWithin r.path) (sym of_path) (trim_slash-IsWithin r.path),
        time,
        tag,
        ltsv,
      )
