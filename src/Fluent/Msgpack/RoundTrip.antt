-- ===== src/Fluent/Msgpack/RoundTrip.antt =====
-- fluent/msgpack.go read back by the reader of Fluent/Msgpack/Parse.
use fluent_agent_hydra.Prelude.{
  ℕ, zero, suc, ◌+◌, ◌%◌, ◌^◌, ◌<◌, ◌≡◌, refl, ap, Bool, true, false, some, ◌++◌, append_assoc,
  arith, ◌==◌, if◌then◌else◌, ==_iff, length, length-append, take-append, drop-append, Bytes,
  u32_mod, u64_mod, big_endian, from-big_endian, length-big_endian,
}
use Prim.Native.Nat.{bit_or}
use fluent_agent_hydra.Fluent.Value.{Time}
use fluent_agent_hydra.Fluent.Msgpack.{
  mp_str, write_time, write_mp_string_head, write_mp_bytes_head, to_msgpack_tiny_message,
  to_msgpack_record_set,
}
use fluent_agent_hydra.Fluent.Msgpack.Parse.{
  read_bytes, read_number, read_str_head, read_bin_head, read_str, read_time, read_tiny_message,
  read_record_set,
}

-- The head of a short string is 0xa0 and the length, for each of the lengths below the bound.
short_heads : ℕ → Bool
short_heads zero = true
short_heads (suc l) = if bit_or mp_str (l % 256) == 0xa0 + l then short_heads l else false

short_heads_at :
    (bound l : ℕ) → short_heads bound ≡ true → l < bound → bit_or mp_str (l % 256) ≡ 0xa0 + l
unfolding short_heads
short_heads_at zero l every below = absurd (omega arith)
short_heads_at (suc b) l every below =
    ground (arith, short_heads_at b l, ==_iff (bit_or mp_str (b % 256)) (0xa0 + b))

all_short_heads : short_heads 32 ≡ true
unfolding short_heads
all_short_heads = refl

fixstr : (l : ℕ) → l < 32 → bit_or mp_str (l % 256) ≡ 0xa0 + l
fixstr l below = short_heads_at 32 l all_short_heads below

read_bytes-append : (s rest : Bytes) → read_bytes (length s) (s ++ rest) ≡ some (s, rest)
unfolding read_bytes
read_bytes-append s rest =
    ground (arith, length-append s rest, take-append s rest, drop-append s rest)

read_bytes-append_eq :
    (n : ℕ) (s rest : Bytes) → length s ≡ n → read_bytes n (s ++ rest) ≡ some (s, rest)
read_bytes-append_eq n s rest e = rw (← e) (read_bytes-append s rest)

read_number-big_endian :
    (n v : ℕ) (rest : Bytes) → v < 256 ^ n → read_number n (big_endian n v ++ rest) ≡ some (v, rest)
unfolding read_number
read_number-big_endian n v rest h =
    rw (read_bytes-append_eq n (big_endian n v) rest (length-big_endian n v))
      (ap (λ k. some (k, rest)) (from-big_endian n v h))

-- Every head that `WriteMpStringHead` writes is read back as the length, up to 2 ^ 32 - 1.
pub read_str_head-write :
    (l : ℕ) (rest : Bytes)
    → l < u32_mod
    → read_str_head (write_mp_string_head l ++ rest) ≡ some (l, rest)
unfolding read_str_head write_mp_string_head
read_str_head-write l rest h = ground (
  arith,
  fixstr l,
  read_number-big_endian 1 l rest,
  read_number-big_endian 2 l rest,
  read_number-big_endian 4 l rest,
)

-- The head that `WriteMpBytesHead` writes for a length below 2 ^ 32 reads back to that length,
-- and takes nothing of the bytes behind it.
pub read_bin_head-write :
    (l : ℕ) (rest : Bytes)
    → l < u32_mod
    → read_bin_head (write_mp_bytes_head l ++ rest) ≡ some (l, rest)
unfolding read_bin_head write_mp_bytes_head
read_bin_head-write l rest h = ground (
  arith,
  read_number-big_endian 1 l rest,
  read_number-big_endian 2 l rest,
  read_number-big_endian 4 l rest,
)

pub read_str-write :
    (s rest : Bytes)
    → length s < u32_mod
    → read_str (write_mp_string_head (length s) ++ (s ++ rest)) ≡ some (s, rest)
unfolding read_str
read_str-write s rest h =
    rw (read_str_head-write (length s) (s ++ rest) h) (read_bytes-append s rest)

-- What `WriteTime` keeps of a time: all of it as EventTime, the seconds alone otherwise.
abbrev pub written_time : Bool → Time → Time
written_time event_time ts = if event_time then ts else record ts { nsec = 0 }

-- A time that the format can hold: an unsigned 32-bit second as EventTime.
abbrev pub IsWritable : Bool → Time → Type 0
IsWritable true ts = (ts.sec < u32_mod) × (ts.nsec < u32_mod)
IsWritable false ts = ts.sec < u64_mod

pub read_time-write :
    (event_time : Bool) (ts : Time) (rest : Bytes)
    → IsWritable event_time ts
    → read_time event_time (write_time event_time ts ++ rest)
      ≡ some (written_time event_time ts, rest)
unfolding read_time write_time
read_time-write true ts rest h = ground (
  arith,
  append_assoc (big_endian 4 ts.sec) (big_endian 4 ts.nsec) rest,
  read_number-big_endian 4 ts.sec (big_endian 4 ts.nsec ++ rest),
  read_number-big_endian 4 ts.nsec rest,
)
read_time-write false ts rest h = ground (arith, read_number-big_endian 8 ts.sec rest)

-- With a time that can be written and a key and a value shorter than 2 ^ 32 bytes, a tiny
-- message packs to a MessagePack array of the time and a one-element map, which reads
-- back to the same time, key and value, and ends where it ended.
pub read_tiny_message-to_msgpack :
    (event_time : Bool) (ts : Time) (key value rest : Bytes)
    → IsWritable event_time ts
    → length key < u32_mod
    → length value < u32_mod
    → read_tiny_message event_time (to_msgpack_tiny_message event_time ts key value ++ rest)
      ≡ some (written_time event_time ts, key, value, rest)
unfolding read_tiny_message to_msgpack_tiny_message
read_tiny_message-to_msgpack event_time ts key value rest ht hk hv = simp (
  append_assoc,
  read_time-write event_time ts _ ht,
  read_str-write key _ hk,
  read_str-write value _ hv,
)

-- A packed record set reads back to its tag and its entries.
pub read_record_set-to_msgpack :
    (tag bin rest : Bytes)
    → length tag < u32_mod
    → length bin < u32_mod
    → read_record_set (to_msgpack_record_set tag bin ++ rest) ≡ some (tag, bin, rest)
unfolding read_record_set to_msgpack_record_set
read_record_set-to_msgpack tag bin rest ht hb =
    simp (append_assoc, read_str-write tag _ ht, read_str-write bin _ hb)
