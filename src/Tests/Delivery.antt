-- ===== src/Tests/Delivery.antt =====
-- fluent/server.go on both ends of a connection, with a codec for what it reads here.
use fluent_agent_hydra.Prelude.{
  false, ap, ◌⊎◌, if◌then◌else◌, ltb, lt_of_ltb, append_assoc, length, ◌<◌, u32_mod, ◌&&◌, ◌≡◌,
  refl, true, inl, inr, Option, none, some, List, [], ◌∷◌, ◌++◌, map, arith, ◌==◌, ==_iff, subst,
  Bool-cases, Bytes, codes, split, big_endian, All, Lacks, terminated,
}
use fluent_agent_hydra.Fluent.Value.{Time, Value, no_fields, item, no_items, items}
use fluent_agent_hydra.Fluent.Record.{FluentRecordSet, tiny_message}
use fluent_agent_hydra.Fluent.Msgpack.{write_time, write_mp_string_head, to_msgpack_tiny_message}
use fluent_agent_hydra.Fluent.Msgpack.Parse.{
  ◌>>=◌, read_str, expect, read_str_head, read_str, expect, read_time, read_tiny_message,
  read_record_set,
}
use fluent_agent_hydra.Fluent.Pack.{pack, pack_as_forward, pack_each, pack_as_packed_forward}
use fluent_agent_hydra.Fluent.Decode.{
  Decoded, eof, failed, decoded, ok, err, record_set, decode_entries,
}
use fluent_agent_hydra.Fluent.Protocol.{Codec, message_values}
use fluent_agent_hydra.Fluent.Protocol.Forward.{ReadsSlices, decode_entries-pack_as_forward}
use fluent_agent_hydra.Fluent.Msgpack.RoundTrip.{read_str-write}
use fluent_agent_hydra.Hydra.Format.{format_none, Library}
use fluent_agent_hydra.Hydra.Records.{JsonUnmarshal, new_fluent_record_set}
use fluent_agent_hydra.Hydra.Records.Forwarded.{arrived, buffer-arrives}

abbrev read_other : Bytes → Decoded
read_other [] = eof
read_other (b ∷ s) = failed

abbrev read_set : Bytes → Option (Bytes × Bytes × Bytes) → Decoded
read_set s none = read_other s
read_set s (some (tag, bin, rest)) = decoded (Value.bytes tag ∷ Value.bytes bin ∷ []) rest

abbrev read_message : Bytes → Option (Time × Bytes × Bytes × Bytes) → Decoded
read_message s none = read_set s (read_record_set s)
read_message s (some (ts, key, value, rest)) = decoded (message_values true ts key value) rest

abbrev codec : Bytes → Decoded
codec s = read_message s (read_tiny_message true s)

read_tiny_message-set :
    (s tag bin rest : Bytes)
    → read_record_set s ≡ some (tag, bin, rest)
    → read_tiny_message true s ≡ none
unfolding read_tiny_message read_record_set read_time read_str read_str_head expect
read_tiny_message-set [] tag bin rest h = refl
read_tiny_message-set (a ∷ []) tag bin rest h = ground arith
read_tiny_message-set (a ∷ b ∷ s) tag bin rest h = elim (Bool-cases (a == 0x92)) [
  | inr e ↦ rw (e, read_tiny_message) refl
  | inl e ↦ elim (Bool-cases (b == 0xd7)) [
    | inr other ↦ rw (e, other, read_tiny_message) refl
    | inl same ↦
        let is_ext = (==_iff b 0xd7).0 same in
        let refused : ◌≡◌ {A = Option (Bytes × Bytes × Bytes)} none (some (tag, bin, rest)) =
          rw e at (subst (λ c. read_record_set (a ∷ c ∷ s) ≡ some (tag, bin, rest)) is_ext h) in
        cc
  ]
]

codec-Codec : Codec true codec
codec-Codec = record {
  at_end = unfold read_tiny_message read_record_set expect in refl;
  set = λ s tag bin rest h. rw (read_tiny_message-set s tag bin rest h, h) refl;
  message = λ s ts key value rest h. rw h refl;
}

abbrev library : Library
library = record {
  parse_float = λ s. none;
  parse_time = λ layout s. none;
  float32_to_int64 = λ x. x;
  float64_to_int64 = λ x. x;
}

abbrev no_json : JsonUnmarshal
no_json line = (no_fields, true)

abbrev now : Time
now = record { sec = 1417269412; nsec = 5 }

buffer-arrives_example :
    (rs : FluentRecordSet) × (packed : Bytes) × (lines : List Bytes) × (new_fluent_record_set
        library no_json now
        (codes "t")
        (codes "m")
        format_none
        none
        none
        (codes "a\nb")
      ≡ some rs)
    × (pack_as_packed_forward (λ v. none) true rs ≡ some packed)
    × (decode_entries (λ x. x) (λ x. x) codec (packed ++ codes "next") ≡ (
      ok (record { tag = codes "t"; records = map (arrived true now (codes "m")) lines } ∷ []),
      codes "next",
    ))
    × All (Lacks b'\n') lines
    × (terminated b'\n' lines ≡ codes "a\nb\n")
unfolding to_msgpack_tiny_message write_mp_string_head write_time split big_endian
buffer-arrives_example =
    buffer-arrives library no_json none none (λ v. none) (λ x. x) (λ x. x) true codec now
      (codes "t") (codes "m") (codes "a\nb") (codes "next") codec-Codec (omega arith, omega arith)
      (omega arith) (omega arith) (omega arith) (omega arith)

-- A codec that writes and reads one slice under a tag.
abbrev slice : Bytes → Bytes → Bytes
slice tag b =
    0x92
    ∷ ((write_mp_string_head (length tag) ++ tag)
        ++ (0x91 ∷ (write_mp_string_head (length b) ++ b)))

abbrev write_slice : Value → Option Bytes
write_slice
      (Value.array
        (item (Value.string tag) (item (Value.array (item (Value.bytes b) no_items)) no_items))) =
    if ltb (length tag) u32_mod && ltb (length b) u32_mod then some (slice tag b) else none
write_slice _ = none

abbrev slice_read : Option (Bytes × Bytes × Bytes) → Decoded
slice_read none = failed
slice_read (some (tag, b, rest)) =
    decoded (Value.bytes tag ∷ Value.array (item (Value.bytes b) no_items) ∷ []) rest

unfoldable read_slice : Bytes → Option (Bytes × Bytes × Bytes)
unfolding expect
read_slice s = do
  s₁ ← expect 0x92 s
  (tag, s₂) ← read_str s₁
  s₃ ← expect 0x91 s₂
  (b, s₄) ← read_str s₃
  some (tag, b, s₄)

read_slice-write :
    (tag b rest : Bytes)
    → length tag < u32_mod
    → length b < u32_mod
    → read_slice (slice tag b ++ rest) ≡ some (tag, b, rest)
unfolding read_slice
read_slice-write tag b rest ht hb =
    simp (append_assoc, read_str-write tag _ ht, read_str-write b _ hb)

slice_ReadsBack :
    (tag b out rest : Bytes)
    → (ltb (length tag) u32_mod ≡ true) ⊎ (ltb (length tag) u32_mod ≡ false)
    → (ltb (length b) u32_mod ≡ true) ⊎ (ltb (length b) u32_mod ≡ false)
    → write_slice
        (Value.array (items (Value.string tag ∷ Value.array (items (Value.bytes b ∷ [])) ∷ [])))
      ≡ some out
    → slice_read (read_slice (out ++ rest))
      ≡ decoded (Value.bytes tag ∷ Value.array (items (Value.bytes b ∷ [])) ∷ []) rest
slice_ReadsBack tag b out rest (inr e) d h =
    let refused : ◌≡◌ {A = Option Bytes} none (some out) = rw e at h in cc
slice_ReadsBack tag b out rest (inl e) (inr d) h =
    let refused : ◌≡◌ {A = Option Bytes} none (some out) = rw (e, d) at h in cc
slice_ReadsBack tag b out rest (inl e) (inl d) h =
    let made : some (slice tag b) ≡ some out = rw (e, d) at h in
    let same : slice tag b ≡ out = cc in
    subst
      (λ o.
        slice_read (read_slice (o ++ rest))
        ≡ decoded (Value.bytes tag ∷ Value.array (item (Value.bytes b) no_items) ∷ []) rest)
      same
      (ap slice_read (
        read_slice-write tag b rest (lt_of_ltb (length tag) u32_mod e)
          (lt_of_ltb (length b) u32_mod d)))

slices-ReadsSlices : ReadsSlices write_slice (λ s. slice_read (read_slice s))
slices-ReadsSlices tag [] out rest h = cc
slices-ReadsSlices tag (b ∷ []) out rest h =
    slice_ReadsBack tag b out rest (Bool-cases (ltb (length tag) u32_mod))
      (Bool-cases (ltb (length b) u32_mod)) h
slices-ReadsSlices tag (b ∷ c ∷ slices) out rest h = cc

abbrev one_line : FluentRecordSet
one_line = record {
  tag = codes "t";
  records =
      tiny_message (record { timestamp = now; field_name = codes "m"; message = codes "a" }) ∷ [];
}

abbrev packed_line : Bytes
packed_line = slice (codes "t") (to_msgpack_tiny_message true now (codes "m") (codes "a"))

decode_entries-pack_as_forward_example :
    decode_entries (λ x. x) (λ x. x) (λ s. slice_read (read_slice s)) (packed_line ++ codes "next")
    ≡ (err record_set, codes "next")
unfolding pack_as_forward pack_each pack to_msgpack_tiny_message write_mp_string_head write_time
    big_endian
decode_entries-pack_as_forward_example =
    decode_entries-pack_as_forward write_slice (λ s. slice_read (read_slice s)) true (λ x. x)
      (λ x. x) one_line packed_line (codes "next") slices-ReadsSlices refl
