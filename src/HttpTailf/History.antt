-- ===== src/HttpTailf/History.antt =====
-- cmd/fluent-http-tailf/main.go: what one client gets while others come and go.
use fluent_agent_hydra.Prelude.{
  ℕ, suc, ◌+◌, ◌≤◌, ◌<◌, ◌≡◌, refl, sym, ap, ◌∙◌, false, List, [], ◌∷◌, ◌++◌, append-nil,
  append_assoc, Bytes, if◌then◌else◌, length, length-append, i64_limit, arith,
}
use mathlib.Core.List.Sublist
use mathlib.Core.List.{Sublist}
use fluent_agent_hydra.Fluent.Record.{FluentRecordSet}
use fluent_agent_hydra.Fluent.Decode.{Result}
use fluent_agent_hydra.HttpTailf.{
  Tailf, Channel, message_buffer_len, unsubscribe, connect, handle_forward_conn, take_from,
  subscribe,
}
use fluent_agent_hydra.HttpTailf.Clients.{matching, received, buffered}
use fluent_agent_hydra.HttpTailf.Members.{
  same_client, mine, Holds, buffered-unsubscribe, connect-Holds, take-sublist, conn-connection_id,
  conn-Holds, unsubscribe-connection_id, take_from-Took, take_from-connection_id,
}

-- A client connects, or leaves; a connection of the forward server brings what `DecodeEntries`
-- returns; a client takes the next set from its channel.
pub data Event : Type 0 where
  connects : Bytes → Event
  leaves : Bytes → ℕ → Event
  brings : List (Result (List FluentRecordSet)) → Event
  takes : Bytes → ℕ → Event

-- What the events deliver to the client `id` of `tag`, and the state afterwards.
unfoldable pub run : Bytes → ℕ → List Event → Tailf → Tailf × List FluentRecordSet
run tag id [] s = (s, [])
run tag id (connects other ∷ events) s = run tag id events (connect other s)
run tag id (leaves other j ∷ events) s = run tag id events (unsubscribe other j s)
run tag id (brings results ∷ events) s = run tag id events (handle_forward_conn results s)
run tag id (takes other j ∷ events) s =
    let (s', taken) = take_from other j s in
    let (last, later) = run tag id events s' in
    (last, (if same_client tag id other j then taken else []) ++ later)

-- What comes in for the client.
abbrev pub incoming : Bytes → List Event → List FluentRecordSet
incoming tag [] = []
incoming tag (brings results ∷ events) = matching tag (received results) ++ incoming tag events
incoming tag (_ ∷ events) = incoming tag events

abbrev pub connections : List Event → ℕ
connections [] = 0
connections (connects other ∷ events) = suc (connections events)
connections (_ ∷ events) = connections events

-- The client does not leave.
abbrev pub Stays : Bytes → ℕ → List Event → Type 0
Stays tag id [] = Unit {0}
Stays tag id (leaves other j ∷ events) = (same_client tag id other j ≡ false) × Stays tag id events
Stays tag id (_ ∷ events) = Stays tag id events

taken-Sublist :
    (got out last rest later ch : List FluentRecordSet)
    → got ++ rest ≡ ch
    → Sublist (out ++ last) (rest ++ later)
    → Sublist ((got ++ out) ++ last) (ch ++ later)
taken-Sublist got out last rest later ch e sub =
    rw (append_assoc got out last, sym e, append_assoc got rest later)
      (Sublist.append (Sublist.refl got) sub)

-- What the client got, and behind it what its channel holds, out of `all`.
abbrev pub Gotten : Bytes → ℕ → List FluentRecordSet → Tailf × List FluentRecordSet → Type 0
Gotten tag id all (last, out) = (ch : Channel) × Holds tag id last ch × Sublist (out ++ ch) all

-- A client that does not leave, while others connect, leave and take from their channels and
-- record sets come in, gets sets for which it asked, in the order in which they came, each at
-- most once: what it took and behind it what its channel holds is a sublist of what the channel
-- held at first and the matching sets that came in. The channel holds 100 sets at most. There are
-- fewer than 2 ^ 63 connections.
pub run-Gotten :
    (tag : Bytes) (id : ℕ) (events : List Event) (s : Tailf) (ch : Channel)
    → Holds tag id s ch
    → Stays tag id events
    → s.connection_id + connections events < i64_limit
    → Gotten tag id (ch ++ incoming tag events) (run tag id events s)
unfolding run
run-Gotten tag id [] s ch h stays lt = (ch, h, rw append-nil (Sublist.refl ch))
run-Gotten tag id (connects other ∷ events) s ch h stays lt =
    let lt' : (connect other s).connection_id + connections events < i64_limit =
      unfold connect subscribe in omega arith in
    run-Gotten tag id events (connect other s) ch (connect-Holds tag other id s ch (omega arith) h)
      stays lt'
run-Gotten tag id (leaves other j ∷ events) s ch (h, b, le) (ne, stays) lt =
    let same = unsubscribe-connection_id other j s in
    run-Gotten tag id events (unsubscribe other j s) ch
      (buffered-unsubscribe tag id other j s ne ∙ h, b, omega (arith, same)) stays
      (omega (arith, same))
run-Gotten tag id (brings results ∷ events) s ch h stays lt =
    let sets = matching tag (received results) in
    let (last, held, sub) =
      run-Gotten tag id events (handle_forward_conn results s) _ (conn-Holds tag id results s ch h)
        stays (omega (arith, conn-connection_id results s)) in
    (
      last,
      held,
      Sublist.trans sub (
          rw (sym (append_assoc ch sets (incoming tag events))) (
            Sublist.append (take-sublist message_buffer_len (ch ++ sets))
              (Sublist.refl (incoming tag events)))),
    )
run-Gotten tag id (takes other j ∷ events) s ch (h, b, le) stays lt =
    let same = take_from-connection_id other j s (buffered other j s) refl in
    let (rest, now, all) = take_from-Took tag other id j s ch (buffered other j s) refl h in
    let got = mine (same_client tag id other j) (take_from other j s).1 in
    let small : length rest ≤ message_buffer_len =
      omega (arith, length-append got rest, ap length all) in
    let (last, held, sub) =
      run-Gotten tag id events (take_from other j s).0 rest (now, small, omega (arith, same)) stays
        (omega (arith, same)) in
    let out = (run tag id events (take_from other j s).0).1 in
    (last, held, taken-Sublist got out last rest (incoming tag events) ch all sub)
