-- ===== src/Fluent/Msgpack/Parse.antt =====
-- A reader of the MessagePack formats that fluent/msgpack.go writes, from the MessagePack
-- specification: the length of a str or bin object, the two forms of a time, and the arrays.
use fluent_agent_hydra.Prelude.{
  ℕ, ◌-◌, Bool, true, false, ◌&&◌, Option, none, some, [], ◌∷◌, ltb, leb, ◌==◌, if◌then◌else◌,
  length, take, drop, Bytes, from_big_endian,
}
use fluent_agent_hydra.Fluent.Value.{Time}

infixl 5 ◌>>=◌
abbrev pub ◌>>=◌ {ℓ κ} : {A : Type ℓ} {B : Type κ} → Option A → (A → Option B) → Option B
none >>= f = none
some a >>= f = f a

-- The next `n` bytes, if there are as many.
unfoldable pub read_bytes : ℕ → Bytes → Option (Bytes × Bytes)
read_bytes n s = if ltb (length s) n then none else some (take n s, drop n s)

-- An unsigned number of `n` bytes.
unfoldable pub read_number : ℕ → Bytes → Option (ℕ × Bytes)
unfolding read_bytes
read_number n s = do (front, rest) ← read_bytes n s; some (from_big_endian 0 front, rest)

-- The length of a str object, and the bytes behind its head.
unfoldable pub read_str_head : Bytes → Option (ℕ × Bytes)
read_str_head [] = none
read_str_head (b ∷ s) =
    if leb 0xa0 b && ltb b 0xc0
    then some (b - 0xa0, s)
    else if b == 0xd9
    then read_number 1 s
    else if b == 0xda
    then read_number 2 s
    else if b == 0xdb
    then read_number 4 s
    else none

-- The length of a bin object.
unfoldable pub read_bin_head : Bytes → Option (ℕ × Bytes)
read_bin_head [] = none
read_bin_head (b ∷ s) =
    if b == 0xc4
    then read_number 1 s
    else if b == 0xc5
    then read_number 2 s
    else if b == 0xc6
    then read_number 4 s
    else none

unfoldable pub read_str : Bytes → Option (Bytes × Bytes)
read_str s = do (n, rest) ← read_str_head s; read_bytes n rest

-- One byte that has to be `b`.
unfoldable pub expect : ℕ → Bytes → Option Bytes
expect b [] = none
expect b (c ∷ s) = if c == b then some s else none

-- An int64, or the 8-byte extension of type 0 that Fluentd calls EventTime.
unfoldable pub read_time : Bool → Bytes → Option (Time × Bytes)
unfolding expect
read_time true s = do
  s₁ ← expect 0xd7 s
  s₂ ← expect 0 s₁
  (sec, s₃) ← read_number 4 s₂
  (nsec, s₄) ← read_number 4 s₃
  some (record { sec = sec; nsec = nsec }, s₄)
read_time false s = do
  s₁ ← expect 0xd3 s
  (sec, s₂) ← read_number 8 s₁
  some (record { sec = sec; nsec = 0 }, s₂)

-- The time, the key, the value and what follows.
unfoldable pub read_tiny_message : Bool → Bytes → Option (Time × Bytes × Bytes × Bytes)
unfolding expect
read_tiny_message event_time s = do
  s₁ ← expect 0x92 s
  (ts, s₂) ← read_time event_time s₁
  s₃ ← expect 0x81 s₂
  (key, s₄) ← read_str s₃
  (value, s₅) ← read_str s₄
  some (ts, key, value, s₅)

-- The tag, the packed entries and what follows.
unfoldable pub read_record_set : Bytes → Option (Bytes × Bytes × Bytes)
unfolding expect
read_record_set s = do
  s₁ ← expect 0x92 s
  (tag, s₂) ← read_str s₁
  (bin, s₃) ← read_str s₂
  some (tag, bin, s₃)
