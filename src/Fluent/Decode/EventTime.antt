-- ===== src/Fluent/Decode/EventTime.antt =====
-- fluent/msgpack.go and fluent/server.go: an EventTime written and read back.
use fluent_agent_hydra.Prelude.{
  ℕ, ◌<◌, ◌≡◌, subst, true, [], ◌∷◌, ◌++◌, append-nil, arith, ltb_of_le, length, take, drop,
  length-append, take-append, drop-append, Bytes, u32_mod, big_endian, from-big_endian,
  length-big_endian,
}
use fluent_agent_hydra.Fluent.Value.{Time, time_unix, nanos}
use fluent_agent_hydra.Fluent.Msgpack.{write_time}
use fluent_agent_hydra.Fluent.Decode.{read_uint32, read_ext}

read_uint32-big_endian :
    (v : ℕ) (rest : Bytes) → v < u32_mod → read_uint32 (big_endian 4 v ++ rest) ≡ (v, rest)
unfolding read_uint32
read_uint32-big_endian v rest h =
    let n : length (big_endian 4 v) ≡ 4 = length-big_endian 4 v in
    let t : take 4 (big_endian 4 v ++ rest) ≡ big_endian 4 v =
      subst (λ k. take k (big_endian 4 v ++ rest) ≡ big_endian 4 v) n
        (take-append (big_endian 4 v) rest) in
    let d : drop 4 (big_endian 4 v ++ rest) ≡ rest =
      subst (λ k. drop k (big_endian 4 v ++ rest) ≡ rest) n (drop-append (big_endian 4 v) rest) in
    rw (
      ltb_of_le (length (big_endian 4 v ++ rest)) 4
          (omega (arith, length-append (big_endian 4 v) rest)),
      t,
      d,
      from-big_endian 4 v h,
    )

-- `ReadExt` on the eight bytes of a time.
pub read_ext-big_endian :
    (ts : Time)
    → ts.sec < u32_mod
    → ts.nsec < nanos
    → read_ext (big_endian 4 ts.sec ++ big_endian 4 ts.nsec) ≡ ts
unfolding read_ext time_unix
read_ext-big_endian ts hs hn = ground (
  arith,
  append-nil (big_endian 4 ts.nsec),
  read_uint32-big_endian ts.sec (big_endian 4 ts.nsec),
  read_uint32-big_endian ts.nsec [],
)

-- The extension that `WriteTime` writes is the head 0xd7 0x00 and eight bytes, and `ReadExt`
-- makes the same time of those bytes, if the seconds are an unsigned 32-bit number and the
-- nanoseconds are less than a second.
pub read_ext-write_time :
    (ts : Time)
    → ts.sec < u32_mod
    → ts.nsec < nanos
    → (payload : Bytes) × (write_time true ts ≡ 0xd7 ∷ 0 ∷ payload)
      × (length payload ≡ 8)
      × (read_ext payload ≡ ts)
unfolding write_time
read_ext-write_time ts hs hn = (
  big_endian 4 ts.sec ++ big_endian 4 ts.nsec,
  ground arith,
  omega (
    arith,
    length-append (big_endian 4 ts.sec) (big_endian 4 ts.nsec),
    length-big_endian 4 ts.sec,
    length-big_endian 4 ts.nsec,
  ),
  read_ext-big_endian ts hs hn,
)
