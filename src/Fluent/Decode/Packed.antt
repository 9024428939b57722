-- ===== src/Fluent/Decode/Packed.antt =====
-- fluent/server.go: the entries of a PackedForward payload, packed one behind the other.
use fluent_agent_hydra.Prelude.{
  ℕ, zero, suc, ◌+◌, ◌≤◌, ◌<◌, ◌≡◌, refl, sym, ap, ◌∙◌, List, [], ◌∷◌, ◌++◌, map, append-nil,
  append_assoc, arith, length, All, length-append, Bytes,
}
use fluent_agent_hydra.Fluent.Value.{Value, items}
use fluent_agent_hydra.Fluent.Decode.{
  ok, Decoded, eof, decoded, decode_packed, decode_message, list_items,
}
use fluent_agent_hydra.Fluent.Decode.Answers.{Consumes}

-- What the loop relies on: the codec reads back the bytes of an entry, whatever follows.
abbrev pub ReadsBack : (Bytes → Decoded) → (List Value → Bytes) → List Value → Type 0
ReadsBack decode encode vs = (rest : Bytes) → decode (encode vs ++ rest) ≡ decoded vs rest

abbrev pub packed : (List Value → Bytes) → List (List Value) → Bytes
packed encode [] = []
packed encode (vs ∷ es) = encode vs ++ packed encode es

abbrev pub arrays : List (List Value) → List Value
arrays = map (λ vs. Value.array (items vs))

decode_packed-packed :
    (decode : Bytes → Decoded) (encode : List Value → Bytes) (es : List (List Value)) (fuel : ℕ)
    (done : List Value)
    → decode [] ≡ eof
    → All (ReadsBack decode encode) es
    → length es < fuel
    → decode_packed decode fuel (packed encode es) done ≡ ok (done ++ arrays es)
unfolding decode_packed
decode_packed-packed decode encode es zero done end r h = absurd (omega arith)
decode_packed-packed decode encode [] (suc fuel) done end r h =
    rw (end, decode_packed) (ap ok (sym (append-nil done)))
decode_packed-packed decode encode (vs ∷ es) (suc fuel) done end r h =
    rw (r.0 (packed encode es), decode_packed)
      (decode_packed-packed decode encode es fuel _ end r.1 (omega arith)
        ∙ ap ok (append_assoc done (Value.array (items vs) ∷ []) (arrays es)))

length-packed :
    (decode : Bytes → Decoded) (encode : List Value → Bytes) (es : List (List Value))
    → All (ReadsBack decode encode) es
    → Consumes decode
    → length es ≤ length (packed encode es)
length-packed decode encode [] r c = omega arith
length-packed decode encode (vs ∷ es) r c = omega (
  arith,
  c (encode vs ++ packed encode es) vs (packed encode es) (r.0 (packed encode es)),
  length-append (encode vs) (packed encode es),
  length-packed decode encode es r.1 c,
)

list_items-items : (vs : List Value) → list_items (items vs) ≡ vs
list_items-items [] = refl
list_items-items (v ∷ vs) = ap (λ l. v ∷ l) (list_items-items vs)

-- The PackedForward mode and the Forward mode agree: if the codec takes a byte at least for each
-- array, reads the entries back and reports the end of the file at the end, a payload of the
-- entries packed one behind the other decodes to what the array of these entries decodes to.
pub packed_forward-eq-forward :
    (f32 f64 : ℕ → ℕ) (decode : Bytes → Decoded) (encode : List Value → Bytes) (tag : Bytes)
    (es : List (List Value)) (more : List Value)
    → decode [] ≡ eof
    → All (ReadsBack decode encode) es
    → Consumes decode
    → decode_message f32 f64 decode (Value.bytes tag ∷ Value.bytes (packed encode es) ∷ more)
      ≡ decode_message f32 f64 decode (Value.bytes tag ∷ Value.array (items (arrays es)) ∷ more)
unfolding decode_message
packed_forward-eq-forward f32 f64 decode encode tag es more end r c = rw (
  decode_packed-packed decode encode es (length (packed encode es) + 1) [] end r
      (omega (arith, length-packed decode encode es r c)),
  list_items-items (arrays es),
)
