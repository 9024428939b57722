-- ===== src/HttpTailf/Clients.antt =====
-- cmd/fluent-http-tailf/main.go: what a client finds in its channel.
use fluent_agent_hydra.Prelude.{
  add64, ℕ, zero, suc, ◌≤◌, ◌≡◌, refl, sym, ap, subst, ◌∙◌, inl, inr, Option, some, List, [], ◌∷◌,
  ◌++◌, append-nil, append_assoc, Bytes, bytes_eq, bytes_eq_iff, ltb, lt_of_ltb, ◌==◌,
  if◌then◌else◌, Bool-cases, length, length-append, take, arith,
}
use fluent_agent_hydra.Prelude.Dict
use fluent_agent_hydra.Prelude.Dict.{lookup-insert}
use fluent_agent_hydra.Fluent.Record.{FluentRecordSet}
use fluent_agent_hydra.Fluent.Decode.{Result, panicked, stuck, err, ok}
use fluent_agent_hydra.HttpTailf.{
  Tailf, Channel, message_buffer_len, match_tag, get_channel, put_channel, channels_of, or_empty,
  subscribe, connect, offer, offer_all, offer_matching, forward, forward_all, handle_forward_conn,
}

-- The record sets for which a client asks with `tag`.
abbrev pub matching : Bytes → List FluentRecordSet → List FluentRecordSet
matching tag [] = []
matching tag (rs ∷ sets) =
    if match_tag tag rs.tag then rs ∷ matching tag sets else matching tag sets

-- What a connection delivers until its first error.
abbrev pub received : List (Result (List FluentRecordSet)) → List FluentRecordSet
received [] = []
received (ok sets ∷ results) = sets ++ received results
received (_ ∷ results) = []

-- The channel of a client.
abbrev pub buffered : Bytes → ℕ → Tailf → Option Channel
buffered tag id s = get_channel id (channels_of tag s)

get_channel-offer_all :
    (id : ℕ) (rs : FluentRecordSet) (m : List (ℕ × Channel)) (ch : Channel)
    → get_channel id m ≡ some ch
    → get_channel id (offer_all rs m) ≡ some (offer rs ch)
unfolding get_channel offer_all
get_channel-offer_all id rs [] ch h = cc
get_channel-offer_all id rs ((i, c) ∷ m) ch h = elim (Bool-cases (i == id)) [
  | inl e ↦
      let k : some c ≡ some ch = rw e at h in
      let same : c ≡ ch = cc in rw e (ap (λ o. some (offer rs o)) same)
  | inr e ↦ rw e (get_channel-offer_all id rs m ch (rw e at h))
]

lookup-offer_matching :
    (tag : Bytes) (rs : FluentRecordSet) (ms : List (Bytes × List (ℕ × Channel)))
    → or_empty (Dict.lookup tag (offer_matching rs ms)) ≡ (
        if match_tag tag rs.tag
        then offer_all rs (or_empty (Dict.lookup tag ms))
        else or_empty (Dict.lookup tag ms))
unfolding Dict.lookup offer_matching offer_all
lookup-offer_matching tag rs [] = elim (Bool-cases (match_tag tag rs.tag)) [
  | inl e ↦ rw e refl
  | inr e ↦ rw e refl
]
lookup-offer_matching tag rs ((t, m) ∷ ms) = elim (Bool-cases (bytes_eq t tag)) [
  | inl e ↦
      rw e (ap (λ x. if match_tag x rs.tag then offer_all rs m else m) ((bytes_eq_iff t tag).0 e))
  | inr e ↦ rw e (lookup-offer_matching tag rs ms)
]

take-append_full : (n : ℕ) (xs ys : List FluentRecordSet) → length xs ≡ n → take n (xs ++ ys) ≡ xs
take-append_full n [] ys h = subst (λ k. take k ys ≡ []) h refl
take-append_full zero (x ∷ xs) ys h = absurd (omega arith)
take-append_full (suc n) (x ∷ xs) ys h = ap (λ t. x ∷ t) (take-append_full n xs ys (omega arith))

take-short : (n : ℕ) (xs : List FluentRecordSet) → length xs ≤ n → take n xs ≡ xs
take-short zero [] h = refl
take-short (suc n) [] h = refl
take-short zero (x ∷ xs) h = absurd (omega arith)
take-short (suc n) (x ∷ xs) h = ap (λ t. x ∷ t) (take-short n xs (omega arith))

-- One set that is offered, before those in `later`.
take-offer :
    (rs : FluentRecordSet) (ch later : Channel)
    → length ch ≤ message_buffer_len
    → (length (offer rs ch) ≤ message_buffer_len)
      × (take message_buffer_len (offer rs ch ++ later)
          ≡ take message_buffer_len (ch ++ (rs ∷ later)))
unfolding offer
take-offer rs ch later h = elim (Bool-cases (ltb (length ch) message_buffer_len)) [
  | inl e ↦ rw e (
    omega (arith, lt_of_ltb (length ch) message_buffer_len e, length-append ch (rs ∷ [])),
    ap (take message_buffer_len) (append_assoc ch (rs ∷ []) later),
  )
  | inr e ↦
      let full : length ch ≡ message_buffer_len = ground arith in
      rw e (
        h,
        take-append_full message_buffer_len ch later full
            ∙ sym (take-append_full message_buffer_len ch (rs ∷ later) full),
      )
]

-- After the record set, the channel of the client.
buffered-forward :
    (tag : Bytes) (id : ℕ) (rs : FluentRecordSet) (s : Tailf) (ch : Channel)
    → buffered tag id s ≡ some ch
    → buffered tag id (forward rs s) ≡ some (if match_tag tag rs.tag then offer rs ch else ch)
unfolding forward
buffered-forward tag id rs s ch h = elim (Bool-cases (match_tag tag rs.tag)) [
  | inl e ↦
      rw (lookup-offer_matching tag rs s.message_ch, e)
        (get_channel-offer_all id rs (channels_of tag s) ch h)
  | inr e ↦ rw (lookup-offer_matching tag rs s.message_ch, e) h
]

-- What the client has after record sets came in: those that match, behind what it had, until the
-- channel is full.
abbrev pub Gets : Bytes → ℕ → List FluentRecordSet → Channel → Tailf → Type 0
Gets tag id sets ch s = buffered tag id s ≡ some (take message_buffer_len (ch ++ matching tag sets))

forward_all_lem :
    (tag : Bytes) (id : ℕ) (sets : List FluentRecordSet) (s : Tailf) (ch : Channel)
    → length ch ≤ message_buffer_len
    → buffered tag id s ≡ some ch
    → Gets tag id sets ch (forward_all sets s)
unfolding forward_all
forward_all_lem tag id [] s ch b h = rw (append-nil ch, take-short message_buffer_len ch b) h
forward_all_lem tag id (rs ∷ sets) s ch b h = elim (Bool-cases (match_tag tag rs.tag)) [
  | inl e ↦
      let (b', t) = take-offer rs ch (matching tag sets) b in
      let next : buffered tag id (forward rs s) ≡ some (offer rs ch) =
        rw e at (buffered-forward tag id rs s ch h) in
      rw e (forward_all_lem tag id sets (forward rs s) (offer rs ch) b' next ∙ ap some t)
  | inr e ↦
      let next : buffered tag id (forward rs s) ≡ some ch =
        rw e at (buffered-forward tag id rs s ch h) in
      rw e (forward_all_lem tag id sets (forward rs s) ch b next)
]

forward_all-append :
    (a b : List FluentRecordSet) (s : Tailf)
    → forward_all (a ++ b) s ≡ forward_all b (forward_all a s)
unfolding forward_all
forward_all-append [] b s = refl
forward_all-append (rs ∷ a) b s = forward_all-append a b (forward rs s)

pub handle_forward_conn-received :
    (results : List (Result (List FluentRecordSet))) (s : Tailf)
    → handle_forward_conn results s ≡ forward_all (received results) s
unfolding handle_forward_conn forward_all
handle_forward_conn-received [] s = refl
handle_forward_conn-received (ok sets ∷ results) s =
    handle_forward_conn-received results (forward_all sets s)
    ∙ sym (forward_all-append sets (received results) s)
handle_forward_conn-received (panicked ∷ results) s = refl
handle_forward_conn-received (stuck ∷ results) s = refl
handle_forward_conn-received (err e ∷ results) s = refl

-- A connection that delivers record sets until an error or its end puts into the channel of a
-- client, behind what is buffered there, the sets whose tag starts with the one the client asked
-- for, less its trailing dots and stars, in their order; once 100 sets are buffered it drops the
-- rest.
pub handle_forward_conn_lem :
    (tag : Bytes) (id : ℕ) (results : List (Result (List FluentRecordSet))) (s : Tailf)
    (ch : Channel)
    → length ch ≤ message_buffer_len
    → buffered tag id s ≡ some ch
    → Gets tag id (received results) ch (handle_forward_conn results s)
handle_forward_conn_lem tag id results s ch b h =
    rw (handle_forward_conn-received results s) (forward_all_lem tag id (received results) s ch b h)

pub get-put_channel :
    (id j : ℕ) (ch : Channel) (m : List (ℕ × Channel))
    → get_channel j (put_channel id ch m) ≡ (if id == j then some ch else get_channel j m)
unfolding get_channel put_channel
get-put_channel id j ch [] = refl
get-put_channel id j ch ((i, c) ∷ m) = ground (arith, get-put_channel id j ch m)

-- A client that connects has an empty channel; the channels under another tag or another id stay
-- as they were.
pub buffered-connect :
    (tag other : Bytes) (j : ℕ) (s : Tailf)
    → buffered other j (connect tag s) ≡ (
        if bytes_eq tag other
        then if add64 s.connection_id 1 == j then some [] else buffered tag j s
        else buffered other j s)
unfolding connect subscribe
buffered-connect tag other j s = elim (Bool-cases (bytes_eq tag other)) [
  | inl e ↦
      rw
        (
          lookup-insert tag other (put_channel (add64 s.connection_id 1) [] (channels_of tag s))
              s.message_ch,
          e,
        )
        (get-put_channel (add64 s.connection_id 1) j [] (channels_of tag s))
  | inr e ↦
      rw
        (
          lookup-insert tag other (put_channel (add64 s.connection_id 1) [] (channels_of tag s))
              s.message_ch,
          e,
        )
        refl
]
