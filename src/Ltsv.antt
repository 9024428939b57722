-- ===== src/Ltsv.antt =====
-- ltsv/ltsv.go: the encoder of a record as an LTSV line. `fmt.Fprint` of a value that is no text
-- is the parameter `print`; of strings it writes them one behind the other, in one write.
pub mod Chunks
pub mod Keys
pub mod RoundTrip
pub mod Replace
pub mod Order
pub mod Maps
use fluent_agent_hydra.Prelude.{
  ℕ, zero, suc, Bool, true, false, ◌||◌, List, [], ◌∷◌, ◌++◌, none, some, Option, Bytes, ltb, ◌==◌,
  if◌then◌else◌,
}
use fluent_agent_hydra.Fluent.Value.{Value, Fields, no_fields, field, lookup}

-- `Replacer.Replace`
unfoldable pub escape : Bytes → Bytes
escape [] = []
escape (c ∷ s) =
    (if c == b'\t'
      then b'\\' ∷ b't' ∷ []
      else if c == b'\n'
      then b'\\' ∷ b'n' ∷ []
      else if c == b'\r'
      then b'\\' ∷ b'r' ∷ []
      else c ∷ [])
    ++ escape s

-- The order of `sort.Strings`: byte by byte, a prefix first.
unfoldable pub text_le : Bytes → Bytes → Bool
text_le [] t = true
text_le (c ∷ s) [] = false
text_le (c ∷ s) (d ∷ t) = let rest = text_le s t in if c == d then rest else ltb c d

unfoldable pub insert_text : Bytes → List Bytes → List Bytes
insert_text k [] = k ∷ []
insert_text k (j ∷ ks) = if text_le k j then k ∷ j ∷ ks else j ∷ insert_text k ks

-- `sort.Strings`
unfoldable pub sort_strings : List Bytes → List Bytes
unfolding insert_text
sort_strings [] = []
sort_strings (k ∷ ks) = insert_text k (sort_strings ks)

unfoldable pub keys : Fields → List Bytes
keys no_fields = []
keys (field k v fs) = k ∷ keys fs

-- What was written, and how many of the next writes succeed; the one behind them fails and
-- writes nothing.
pub record Writer : Type 0 where
  pub written : Bytes
  pub good : ℕ

-- The flag says that there was no error.
abbrev pub Write : Type 0
Write = Writer → Writer × Bool

abbrev pub printed : ℕ → Bytes → Writer → Writer × Bool
printed zero b w = (w, false)
printed (suc n) b w = (record { written = w.written ++ b; good = n }, true)

-- `fmt.Fprint` of strings
unfoldable pub fprint : Bytes → Write
fprint b w = printed w.good b w

-- `return` after an error, and the next write after none.
abbrev pub and_then : Writer × Bool → Write → Writer × Bool
and_then (w, true) k = k w
and_then (w, false) k = (w, false)

abbrev pub or_nil : Option Value → Value
or_nil none = Value.nil
or_nil (some v) = v

module _ (print : Value → Bytes) where
  -- The type switch on a value.
  unfoldable pub text_of : Value → Bytes
  unfolding escape
  text_of (Value.string s) = escape s
  text_of (Value.bytes s) = escape s
  text_of v = print v

  -- One round of the loop over the keys; `first` says whether it is the first.
  unfoldable pub encode_column : Bool → Bytes → Value → Write
  unfolding fprint
  encode_column first key v w =
      and_then (if first then (w, true) else fprint (b'\t' ∷ []) w)
        λ w₁. and_then (fprint (key ++ (b':' ∷ [])) w₁) λ w₂. fprint (text_of v) w₂

  unfoldable pub encode_columns : Bool → List Bytes → Fields → Write
  unfolding encode_column
  encode_columns first [] fs w = (w, true)
  encode_columns first (k ∷ ks) fs w =
      and_then (encode_column first k (or_nil (lookup k fs)) w) (encode_columns false ks fs)

  unfoldable pub encode : Value → Write
  unfolding encode_columns sort_strings keys
  encode (Value.object fs) w =
      and_then (encode_columns true (sort_strings (keys fs)) fs w) (fprint (b'\n' ∷ []))
  encode v w = (w, false)
