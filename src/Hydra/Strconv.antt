-- ===== src/Hydra/Strconv.antt =====
-- The functions of Go's strings and strconv packages that hydra/fileformat.go calls: lower case
-- (of ASCII), `ParseInt` in base 10 and 64 bits, and `ParseBool`. `none` is the error.
use fluent_agent_hydra.Prelude.{
  ℕ, ◌+◌, ◌-◌, ◌*◌, Bool, true, false, ◌&&◌, ◌||◌, Option, none, some, [], ◌∷◌, ltb, leb, ◌==◌,
  if◌then◌else◌, Bytes, codes, bytes_eq, i64_limit, sub64,
}

unfoldable pub lower : ℕ → ℕ
lower c = if leb b'A' c && leb c b'Z' then c + 32 else c

abbrev pub is_text : Bytes → Bytes → Bool
is_text = bytes_eq

-- The digits of `strconv.ParseInt` in base 10.
unfoldable pub parse_digits : ℕ → Bytes → Option ℕ
parse_digits n [] = some n
parse_digits n (c ∷ s) =
    let rest = parse_digits (n * 10 + (c - b'0')) s in
    if leb b'0' c && leb c b'9' then rest else none

-- An unsigned number of one digit at least.
unfoldable pub parse_unsigned : Bytes → Option ℕ
unfolding parse_digits
parse_unsigned [] = none
parse_unsigned (c ∷ s) = parse_digits 0 (c ∷ s)

-- A value out of the range of int64 is an error.
abbrev pub positive : Option ℕ → Option ℕ
positive none = none
positive (some n) = if ltb n i64_limit then some n else none

abbrev pub negative : Option ℕ → Option ℕ
negative none = none
negative (some n) = if leb n i64_limit then some (sub64 0 n) else none

-- `strconv.ParseInt(s, 10, 64)`
unfoldable pub parse_int : Bytes → Option ℕ
unfolding parse_unsigned
parse_int [] = none
parse_int (c ∷ s) =
    if c == b'-'
    then negative (parse_unsigned s)
    else if c == b'+'
    then positive (parse_unsigned s)
    else positive (parse_unsigned (c ∷ s))

-- `strconv.ParseBool`
unfoldable pub parse_bool : Bytes → Option Bool
parse_bool s =
    if is_text s (codes "1")
      || is_text s (codes "t")
      || is_text s (codes "T")
      || is_text s (codes "TRUE")
      || is_text s (codes "true")
      || is_text s (codes "True")
    then some true
    else if is_text s (codes "0")
        || is_text s (codes "f")
        || is_text s (codes "F")
        || is_text s (codes "FALSE")
        || is_text s (codes "false")
        || is_text s (codes "False")
    then some false
    else none
