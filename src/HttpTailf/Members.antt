-- ===== src/HttpTailf/Members.antt =====
-- cmd/fluent-http-tailf/main.go: what each event does to the channel of one client.
use fluent_agent_hydra.Prelude.{
  ℕ, zero, suc, ◌≤◌, ◌<◌, ◌≡◌, refl, sym, ap, subst, ◌∙◌, inl, inr, Bool, true, false, Option, none,
  some, List, [], ◌∷◌, ◌++◌, Bytes, bytes_eq, bytes_eq_iff, ==_iff, ◌==◌, if◌then◌else◌, Bool-cases,
  Option-cases, length, length-take, take, add64, i64_limit, arith,
}
use mathlib.Core.List.Sublist
use mathlib.Core.List.{Sublist}
use fluent_agent_hydra.Prelude.Dict
use fluent_agent_hydra.Prelude.Dict.{lookup-insert}
use fluent_agent_hydra.Fluent.Record.{FluentRecordSet}
use fluent_agent_hydra.Fluent.Decode.{Result}
use fluent_agent_hydra.HttpTailf.{
  Tailf, Channel, message_buffer_len, get_channel, put_channel, delete_channel, channels_of,
  unsubscribe, connect, handle_forward_conn, take_from, forward, forward_all, subscribe,
}
use fluent_agent_hydra.HttpTailf.Clients.{
  matching, received, buffered, handle_forward_conn_lem, buffered-connect, get-put_channel,
  handle_forward_conn-received,
}

get-delete_channel :
    (id j : ℕ) (m : List (ℕ × Channel))
    → (id == j) ≡ false
    → get_channel j (delete_channel id m) ≡ get_channel j m
unfolding get_channel delete_channel
get-delete_channel id j [] ne = refl
get-delete_channel id j ((i, c) ∷ m) ne = ground (arith, get-delete_channel id j m)

-- The same client.
abbrev pub same_client : Bytes → ℕ → Bytes → ℕ → Bool
same_client tag id other j = if bytes_eq other tag then j == id else false

module _ (tag : Bytes) (id : ℕ) where
  pub buffered-unsubscribe :
      (other : Bytes) (j : ℕ) (s : Tailf)
      → same_client tag id other j ≡ false
      → buffered tag id (unsubscribe other j s) ≡ buffered tag id s
  unfolding unsubscribe
  buffered-unsubscribe other j s ne = elim (Option-cases (Dict.lookup other s.message_ch)) [
    | inl n ↦ rw (n, unsubscribe) refl
    | inr (m, n) ↦ elim (Bool-cases (bytes_eq other tag)) [
      | inl e ↦
          let here : Dict.lookup tag s.message_ch ≡ some m =
            rw ((bytes_eq_iff other tag).0 e) at n in
          let apart : (j == id) ≡ false = rw e at ne in
          rw (n, unsubscribe, lookup-insert other tag (delete_channel j m) s.message_ch, e, here)
            (get-delete_channel j id m apart)
      | inr e ↦
          rw (n, unsubscribe, lookup-insert other tag (delete_channel j m) s.message_ch, e) refl
    ]
  ]

  pub buffered-put :
      (other : Bytes) (j : ℕ) (ch : Channel) (s : Tailf)
      → buffered tag id (record s {
        message_ch = Dict.insert other (put_channel j ch (channels_of other s)) s.message_ch;
      })
        ≡ (if same_client tag id other j then some ch else buffered tag id s)
  buffered-put other j ch s = elim (Bool-cases (bytes_eq other tag)) [
    | inl e ↦
        let here : other ≡ tag = (bytes_eq_iff other tag).0 e in
        rw (lookup-insert other tag (put_channel j ch (channels_of other s)) s.message_ch, e)
          (get-put_channel j id ch (channels_of other s)
            ∙ ap (λ o. if j == id then some ch else get_channel id (channels_of o s)) here)
    | inr e ↦
        rw (lookup-insert other tag (put_channel j ch (channels_of other s)) s.message_ch, e) refl
  ]

-- The client is there, with a channel that is not overfull, and the ids were given out up to it.
abbrev pub Holds : Bytes → ℕ → Tailf → Channel → Type 0
Holds tag id s ch =
    (buffered tag id s ≡ some ch) × (length ch ≤ message_buffer_len) × (id ≤ s.connection_id)

pub connect-Holds :
    (tag other : Bytes) (id : ℕ) (s : Tailf) (ch : Channel)
    → suc s.connection_id < i64_limit
    → Holds tag id s ch
    → Holds tag id (connect other s) ch
connect-Holds tag other id s ch lt (h, b, le) =
    let apart : (add64 s.connection_id 1 == id) ≡ false = ground arith in
    let kept : buffered tag id (connect other s) ≡ some ch =
      elim (Bool-cases (bytes_eq other tag)) [
        | inl e ↦
            let here : buffered other id s ≡ some ch =
              ap (λ o. buffered o id s) ((bytes_eq_iff other tag).0 e) ∙ h in
            let found = buffered-connect other tag id s in
            let found' : buffered tag id (connect other s) ≡ buffered other id s =
              rw (e, apart) at found in
            found' ∙ here
        | inr e ↦
            let found = buffered-connect other tag id s in
            let found' : buffered tag id (connect other s) ≡ buffered tag id s = rw e at found in
            found' ∙ h
      ] in
    (kept, b, unfold connect subscribe in omega arith)

pub take-sublist : (n : ℕ) (l : List FluentRecordSet) → Sublist (take n l) l
take-sublist zero [] = Sublist.refl []
take-sublist zero (x ∷ l) = Sublist.cons x (take-sublist zero l)
take-sublist (suc n) [] = Sublist.refl []
take-sublist (suc n) (x ∷ l) = Sublist.cons-cons x (take-sublist n l)

forward_all-connection_id :
    (sets : List FluentRecordSet) (s : Tailf) → (forward_all sets s).connection_id ≡ s.connection_id
unfolding forward_all forward
forward_all-connection_id [] s = refl
forward_all-connection_id (rs ∷ sets) s = forward_all-connection_id sets (forward rs s)

pub conn-connection_id :
    (results : List (Result (List FluentRecordSet))) (s : Tailf)
    → (handle_forward_conn results s).connection_id ≡ s.connection_id
conn-connection_id results s =
    ap (λ t. t.connection_id) (handle_forward_conn-received results s)
    ∙ forward_all-connection_id (received results) s

pub conn-Holds :
    (tag : Bytes) (id : ℕ) (results : List (Result (List FluentRecordSet))) (s : Tailf)
    (ch : Channel)
    → Holds tag id s ch
    → Holds tag id
        (handle_forward_conn results s)
        (take message_buffer_len (ch ++ matching tag (received results)))
conn-Holds tag id results s ch (h, b, le) = (
  handle_forward_conn_lem tag id results s ch b h,
  omega (arith, length-take message_buffer_len (ch ++ matching tag (received results))),
  subst (λ n. id ≤ n) (sym (conn-connection_id results s)) le,
)

pub unsubscribe-connection_id :
    (other : Bytes) (j : ℕ) (s : Tailf) → (unsubscribe other j s).connection_id ≡ s.connection_id
unfolding unsubscribe
unsubscribe-connection_id other j s = elim (Option-cases (Dict.lookup other s.message_ch)) [
  | inl n ↦ rw (n, unsubscribe) refl
  | inr (m, n) ↦ rw (n, unsubscribe) refl
]

-- What the client itself got of what was taken.
abbrev pub mine : Bool → List FluentRecordSet → List FluentRecordSet
mine same taken = if same then taken else []

mine-none : (same : Bool) → mine same [] ≡ []
mine-none true = refl
mine-none false = refl

-- The client's channel, and what it got from it, after somebody took a set.
abbrev pub Took : Bytes → ℕ → Bytes → ℕ → Channel → Tailf × List FluentRecordSet → Type 0
Took tag id other j ch (s, taken) =
    (rest : Channel) × (buffered tag id s ≡ some rest)
    × (mine (same_client tag id other j) taken ++ rest ≡ ch)

same_client-buffered :
    (tag other : Bytes) (id j : ℕ) (s : Tailf)
    → same_client tag id other j ≡ true
    → buffered other j s ≡ buffered tag id s
same_client-buffered tag other id j s e = elim (Bool-cases (bytes_eq other tag)) [
  | inl t ↦
      let i : (j == id) ≡ true = rw t at e in
      rw ((bytes_eq_iff other tag).0 t, (==_iff j id).0 i) refl
  | inr f ↦ let no : false ≡ true = rw f at e in cc
]

pub take_from-Took :
    (tag other : Bytes) (id j : ℕ) (s : Tailf) (ch : Channel) (found : Option Channel)
    → buffered other j s ≡ found
    → buffered tag id s ≡ some ch
    → Took tag id other j ch (take_from other j s)
unfolding take_from
take_from-Took tag other id j s ch none e h =
    rw (e, take_from) (ch, h, ap (λ l. l ++ ch) (mine-none (same_client tag id other j)))
take_from-Took tag other id j s ch (some []) e h =
    rw (e, take_from) (ch, h, ap (λ l. l ++ ch) (mine-none (same_client tag id other j)))
take_from-Took tag other id j s ch (some (rs ∷ c)) e h =
    elim (Bool-cases (same_client tag id other j)) [
      | inl t ↦
          let put = buffered-put tag id other j c s in
          let now : buffered tag id (record s {
            message_ch = Dict.insert other (put_channel j c (channels_of other s)) s.message_ch;
          })
              ≡ some c =
            rw t at put in
          let both : some (rs ∷ c) ≡ some ch =
            sym e ∙ same_client-buffered tag other id j s t ∙ h in
          let same : rs ∷ c ≡ ch = cc in
          rw (e, take_from) (c, now, ap (λ b. mine b (rs ∷ []) ++ c) t ∙ same)
      | inr f ↦
          let put = buffered-put tag id other j c s in
          let now : buffered tag id (record s {
            message_ch = Dict.insert other (put_channel j c (channels_of other s)) s.message_ch;
          })
              ≡ buffered tag id s =
            rw f at put in
          rw (e, take_from) (ch, now ∙ h, ap (λ b. mine b (rs ∷ []) ++ ch) f)
    ]

pub take_from-connection_id :
    (other : Bytes) (j : ℕ) (s : Tailf) (found : Option Channel)
    → buffered other j s ≡ found
    → (take_from other j s).0.connection_id ≡ s.connection_id
unfolding take_from
take_from-connection_id other j s none e = rw (e, take_from) refl
take_from-connection_id other j s (some []) e = rw (e, take_from) refl
take_from-connection_id other j s (some (rs ∷ c)) e = rw (e, take_from) refl
