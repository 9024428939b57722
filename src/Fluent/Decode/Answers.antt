-- ===== src/Fluent/Decode/Answers.antt =====
-- fluent/server.go: when `DecodeEntries` answers, with a value or an error.
use fluent_agent_hydra.Prelude.{
  Bool, true, false, ℕ, zero, suc, ◌+◌, ◌<◌, ◌≡◌, refl, ◌⊎◌, inl, inr, List, [], ◌∷◌, arith, length,
  Bytes,
}
use fluent_agent_hydra.Fluent.Value.{Time, Value, Items, item, no_items, nil}
use fluent_agent_hydra.Fluent.Decode.{
  Result, ok, err, panicked, stuck, ◌>>=◌, Decoded, eof, failed, decoded, decode_packed,
  decode_records, decode_record_set, dispatch, message_set, decode_message, decode_entries,
  as_object, list_items, decode_entry, entry_timestamp,
}

-- What the loop relies on: an array takes a byte at least.
abbrev pub Consumes : (Bytes → Decoded) → Type 0
Consumes decode =
    (s : Bytes) (vs : List Value) (rest : Bytes)
    → decode s ≡ decoded vs rest
    → length rest < length s

-- A value or an error: neither a panic nor a loop that did not end.
abbrev pub Answers {ℓ} : {A : Type ℓ} → Result A → Type 0
Answers (ok a) = Unit
Answers (err e) = Unit
Answers panicked = ⊥
Answers stuck = ⊥

bind-Answers {ℓ κ} :
    {T : Type ℓ} {U : Type κ} (first : Result T) (next : T → Result U)
    → Answers first
    → ((t : T) → Answers (next t))
    → Answers (first >>= next)
bind-Answers panicked next h every = absurd h
bind-Answers stuck next h every = absurd h
bind-Answers (err why) next h every = tt
bind-Answers (ok t) next h every = every t

pub Decoded-cases :
    (d : Decoded)
    → (d ≡ eof) ⊎ ((d ≡ failed) ⊎ ((vs : List Value) × (rest : Bytes) × (d ≡ decoded vs rest)))
Decoded-cases eof = inl refl
Decoded-cases failed = inr (inl refl)
Decoded-cases (decoded vs rest) = inr (inr (vs, rest, refl))

-- Fuel beyond the length of the payload is enough.
decode_packed-ne-stuck :
    (decode : Bytes → Decoded) (fuel : ℕ) (s : Bytes) (es : List Value)
    → Consumes decode
    → length s < fuel
    → Answers (decode_packed decode fuel s es)
unfolding decode_packed
decode_packed-ne-stuck decode zero s es c h = absurd (omega arith)
decode_packed-ne-stuck decode (suc fuel) s es c h = elim (Decoded-cases (decode s)) [
  | inl e ↦ rw (e, decode_packed) tt
  | inr (inl e) ↦ rw (e, decode_packed) tt
  | inr (inr (vs, rest, e)) ↦
      rw (e, decode_packed)
        (decode_packed-ne-stuck decode fuel rest _ c (omega (arith, c s vs rest e)))
]

module _ (f32 f64 : ℕ → ℕ) where
  decode_entry-Answers : (e : Value) → Answers (decode_entry f32 f64 e)
  unfolding decode_entry
  decode_entry-Answers (Value.array (item t (item d no_items))) =
      bind-Answers (entry_timestamp f32 f64 t) _ (stamp t)
        (λ ts. bind-Answers (as_object d) _ (obj d) (λ fs. tt))
    where
      stamp : (t : Value) → Answers (entry_timestamp f32 f64 t)
      stamp (Value.time t) = tt
      stamp _ = tt

      obj : (d : Value) → Answers (as_object d)
      obj (Value.object fs) = tt
      obj _ = tt
  decode_entry-Answers _ = tt

  decode_records-Answers : (es : List Value) → Answers (decode_records f32 f64 es)
  unfolding decode_records
  decode_records-Answers [] = tt
  decode_records-Answers (e ∷ es) =
      bind-Answers (decode_entry f32 f64 e) _ (decode_entry-Answers e)
        (λ r. bind-Answers (decode_records f32 f64 es) _ (decode_records-Answers es) (λ rs. tt))

  decode_record_set-Answers :
      (tag : Bytes) (es : List Value) → Answers (decode_record_set f32 f64 tag es)
  unfolding decode_record_set
  decode_record_set-Answers tag es =
      bind-Answers (decode_records f32 f64 es) _ (decode_records-Answers es) (λ rs. tt)

  message_set-Answers :
      (tag : Bytes) (ts : Time) (a b third : Value) (v : List Value)
      → Answers (message_set f32 f64 tag ts (a ∷ b ∷ third ∷ v))
  unfolding message_set
  message_set-Answers tag ts a b (Value.object fs) v = tt
  message_set-Answers tag ts a b _ v = tt

-- The types of a second item that is a timestamp.
abbrev pub is_time : Value → Bool
is_time nil = false
is_time (Value.boolean b) = false
is_time (Value.string b) = false
is_time (Value.bytes b) = false
is_time (Value.array b) = false
is_time (Value.object b) = false
is_time _ = true

-- An array without a tag, with a tag alone, or with a tag and a timestamp alone.
abbrev pub is_short : List Value → Bool
is_short [] = true
is_short (Value.bytes tag ∷ []) = true
is_short (Value.bytes tag ∷ t ∷ []) = is_time t
is_short _ = false

abbrev pub is_short_array : Decoded → Bool
is_short_array (decoded v rest) = is_short v
is_short_array _ = false

-- A panic, or an answer.
abbrev pub AnswersUnless : {A : Type 0} → Bool → Result A → Type 0
AnswersUnless true r = r ≡ panicked
AnswersUnless false r = Answers r

module _ (f32 f64 : ℕ → ℕ) (decode : Bytes → Decoded) (c : Consumes decode) where
  payload-Answers :
      (tag payload : Bytes) (v : List Value)
      → Answers (dispatch f32 f64 decode tag v (Value.bytes payload))
  unfolding dispatch
  payload-Answers tag payload v =
      bind-Answers (decode_packed decode (length payload + 1) payload []) _
        (decode_packed-ne-stuck decode (length payload + 1) payload [] c (omega arith))
        (λ es.
          bind-Answers (decode_record_set f32 f64 tag es) _
            (decode_record_set-Answers f32 f64 tag es) (λ rs. tt))

  array-Answers :
      (tag : Bytes) (es : Items) (v : List Value)
      → Answers (dispatch f32 f64 decode tag v (Value.array es))
  unfolding dispatch
  array-Answers tag es v =
      bind-Answers (decode_record_set f32 f64 tag (list_items es)) _
        (decode_record_set-Answers f32 f64 tag (list_items es)) (λ rs. tt)

  two-AnswersUnless :
      (tag : Bytes) (a second : Value)
      → AnswersUnless (is_time second) (dispatch f32 f64 decode tag (a ∷ second ∷ []) second)
  unfolding dispatch message_set
  two-AnswersUnless tag a (Value.array es) = array-Answers tag es []
  two-AnswersUnless tag a (Value.bytes payload) = payload-Answers tag payload []
  two-AnswersUnless tag a nil = tt
  two-AnswersUnless tag a (Value.boolean b) = tt
  two-AnswersUnless tag a (Value.string b) = tt
  two-AnswersUnless tag a (Value.object b) = tt
  two-AnswersUnless tag a _ = refl

  three-Answers :
      (tag : Bytes) (a second third : Value) (v : List Value)
      → Answers (dispatch f32 f64 decode tag (a ∷ second ∷ third ∷ v) second)
  unfolding dispatch
  three-Answers tag a (Value.array es) third v = array-Answers tag es []
  three-Answers tag a (Value.bytes payload) third v = payload-Answers tag payload []
  three-Answers tag a nil third v = tt
  three-Answers tag a (Value.boolean b) third v = tt
  three-Answers tag a (Value.string b) third v = tt
  three-Answers tag a (Value.object b) third v = tt
  three-Answers tag a (Value.time t) third v =
      message_set-Answers f32 f64 tag t a (Value.time t) third v
  three-Answers tag a second third v = message_set-Answers f32 f64 tag _ a second third v

  decode_message-AnswersUnless :
      (v : List Value) → AnswersUnless (is_short v) (decode_message f32 f64 decode v)
  unfolding decode_message
  decode_message-AnswersUnless [] = refl
  decode_message-AnswersUnless (Value.bytes tag ∷ []) = refl
  decode_message-AnswersUnless (Value.bytes tag ∷ t ∷ []) =
      two-AnswersUnless tag (Value.bytes tag) t
  decode_message-AnswersUnless (Value.bytes tag ∷ t ∷ third ∷ v) =
      three-Answers tag (Value.bytes tag) t third v
  decode_message-AnswersUnless (_ ∷ v) = tt

-- If the codec takes a byte at least for each array, `DecodeEntries` answers with record sets or
-- an error, in all of the modes and whatever the items are, and the loop over a packed payload
-- ends, but for a short array: if that has no tag, or a tag alone, or a tag and a timestamp and
-- no more, an index is out of range.
pub decode_entries-Answers :
    (f32 f64 : ℕ → ℕ) (decode : Bytes → Decoded) (conn : Bytes)
    → Consumes decode
    → AnswersUnless (is_short_array (decode conn)) (decode_entries f32 f64 decode conn).0
unfolding decode_entries
decode_entries-Answers f32 f64 decode conn c = elim (Decoded-cases (decode conn)) [
  | inl e ↦ rw (e, decode_entries) tt
  | inr (inl e) ↦ rw (e, decode_entries) tt
  | inr (inr (v, rest, e)) ↦
      rw (e, decode_entries) (decode_message-AnswersUnless f32 f64 decode c v)
]
